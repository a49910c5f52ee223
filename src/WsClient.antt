-- ===== src/WsClient.antt =====
-- open-webbridge-extension/src/ws-client.js: the one WebSocket link to the daemon.
--
-- A function that waits is cut at its `await`s: `connect` into `connect_called`, `connect_resumed`
-- (after the disconnect that a change of address asks for) and `connect_stored`, `disconnect` into
-- `disconnect_called` and `disconnect_stored`. `reconnectIfNeeded` is `alarm_fired`, or
-- `alarm_read` alone if other events came while it waited.
-- `step` runs one such piece or one listener, so a list of events is an interleaving. Sockets are
-- numbered in the order of their creation; `live` are those that were created and not closed,
-- and `ready` those of them that are open.
pub mod Reconnect
pub mod Links
pub mod Down
pub mod Probe
mod Examples
use open_webbridge.Base.{
  ℕ, ◌+◌, Text, number_keys, lit, text_eq, is_empty, contains, add, delete, is_some, ltb, ◌==◌,
  Bool, true, false, not, ◌&&◌, ◌||◌, Option, none, some, List, [], ◌∷◌, ◌++◌, Result, ok, err,
  if◌then◌else◌,
}

abbrev pub reconnect_ms : ℕ
reconnect_ms = 5000

abbrev pub rejected_reconnect_ms : ℕ
rejected_reconnect_ms = 30000

abbrev pub protocol_version : ℕ
protocol_version = 2

pub data State : Type 0 where
  disconnected connecting connected : State

-- The notice for the popup: a warning with the reason of a rejection, or one of the two errors of
-- a protocol mismatch with the daemon's version.
pub data Notice : Type 0 where
  rejected : Text → Notice
  update_extension : ℕ → Notice
  update_daemon : ℕ → Notice

pub data Outgoing : Type 0 where
  hello : ℕ → Outgoing
  pong : Outgoing
  tool_result : Text → Result Text Text → Outgoing

pub record Ws : Type 0 where
  pub socket : Option ℕ
  pub state : State
  pub current_url : Text
  pub should_reconnect : Bool
  pub timer : Option ℕ
  pub next_reconnect_ms : ℕ
  pub notice : Option Notice
  pub saved_url : Text
  pub saved_reconnect : Bool
  pub created : ℕ
  pub live : List ℕ
  pub ready : List ℕ
  pub sent : List (ℕ × Outgoing)

unfoldable pub is_idle : State → Bool
is_idle disconnected = true
is_idle connecting = false
is_idle connected = false

unfoldable pub clear_reconnect : Ws → Ws
clear_reconnect s = record s { timer = none }

-- The delay is used once, then it is back to normal.
unfoldable pub schedule_reconnect : Ws → Ws
schedule_reconnect s = record s {
  timer = some s.next_reconnect_ms;
  next_reconnect_ms = reconnect_ms;
}

unfoldable pub send : Outgoing → Ws → Ws
send m s = elim s.socket [
  | none ↦ s
  | some n ↦ if contains n s.ready then record s { sent = s.sent ++ (n, m) ∷ [] } else s
]

-- `disconnect` up to its write to storage.
unfoldable pub disconnect_called : Ws → Ws
unfolding clear_reconnect
disconnect_called s =
    clear_reconnect (record s { should_reconnect = false; saved_reconnect = false })

-- A socket that is closed by the extension opens no more and fires no event that matters.
unfoldable pub close_socket : Option ℕ → Ws → Ws
close_socket none s = s
close_socket (some n) s = record s {
  socket = none;
  live = delete n s.live;
  ready = delete n s.ready;
}

unfoldable pub disconnect_stored : Ws → Ws
unfolding close_socket
disconnect_stored s = record (close_socket s.socket s) { state = disconnected }

-- The first test of `connect`: the address changes while there is a link.
unfoldable pub switches : Text → Ws → Bool
unfolding is_idle
switches url s = not (is_empty url) && not (text_eq url s.current_url) && not (is_idle s.state)

-- `connect` from its second test up to its write to storage. Without an address it gives up.
unfoldable pub connect_resumed : Text → Ws → Ws
unfolding is_idle
connect_resumed url s =
    let target = if is_empty url then s.current_url else url in
    if not (is_idle s.state)
    then s
    else if is_empty target
    then record s { should_reconnect = true; state = disconnected; current_url = target }
    else record s {
      should_reconnect = true;
      state = connecting;
      current_url = target;
      saved_url = target;
      saved_reconnect = true;
    }

unfoldable pub connect_called : Text → Ws → Ws
unfolding switches disconnect_called connect_resumed
connect_called url s = if switches url s then disconnect_called s else connect_resumed url s

-- `new WebSocket(currentUrl)`, which may throw.
unfoldable pub connect_stored : Bool → Ws → Ws
unfolding schedule_reconnect
connect_stored throws s =
    let dropped : Ws = record s { state = disconnected } in
    if throws
    then (if s.should_reconnect then schedule_reconnect dropped else dropped)
    else record s { socket = some s.created; created = s.created + 1; live = add s.created s.live }

-- The listener for `open` of a live socket.
unfoldable pub opened : ℕ → Ws → Ws
unfolding clear_reconnect send
opened n s =
    if contains n s.live
    then send (hello protocol_version) (
        clear_reconnect
          (record s { state = connected; next_reconnect_ms = reconnect_ms; ready = add n s.ready }))
    else s

abbrev pub is_current : ℕ → Option ℕ → Bool
is_current n none = false
is_current n (some m) = m == n

-- The listener for `close`: only that of the current socket changes the state.
unfoldable pub closed : ℕ → Ws → Ws
unfolding schedule_reconnect
closed n s =
    let gone : Ws = record s { live = delete n s.live; ready = delete n s.ready } in
    let down : Ws = record gone { state = disconnected; socket = none } in
    if is_current n s.socket
    then (if s.should_reconnect then schedule_reconnect down else down)
    else gone

-- The timer calls `connect` with the current address.
unfoldable pub timer_fired : Ws → Ws
unfolding connect_called
timer_fired s = if s.should_reconnect then connect_called s.current_url s else s

-- `reconnectIfNeeded` from what it has read of the storage.
unfoldable pub alarm_read : Bool → Text → Ws → Ws
unfolding connect_called
alarm_read wanted url s =
    if wanted && not (is_empty url)
    then connect_called url (record s { should_reconnect = true })
    else s

-- All of `reconnectIfNeeded`, if nothing comes between the read of the storage and its answer.
unfoldable pub alarm_fired : Ws → Ws
unfolding is_idle alarm_read
alarm_fired s = if is_idle s.state then alarm_read s.saved_reconnect s.saved_url s else s

-- `compatible` is false only if the daemon says so.
unfoldable pub on_hello_ack : Bool → ℕ → Ws → Ws
on_hello_ack compatible daemon_proto s = record s {
  notice =
      if compatible
      then none
      else if ltb protocol_version daemon_proto
      then some (update_extension daemon_proto)
      else some (update_daemon daemon_proto);
}

unfoldable pub on_rejected : Text → Ws → Ws
on_rejected reason s =
    let why =
      if is_empty reason
      then lit "Another browser is already connected to this daemon."
      else reason in
    record s { notice = some (rejected why); next_reconnect_ms = rejected_reconnect_ms }

pub data Event : Type 0 where
  connect_call connect_resume : Text → Event
  connect_store : Bool → Event
  disconnect_call disconnect_store : Event
  open_event close_event : ℕ → Event
  timer_event alarm_event : Event
  -- The rest of an alarm whose read was answered late.
  alarm_resume : Bool → Text → Event
  ping_message : Event
  hello_ack_message : Bool → ℕ → Event
  rejected_message : Text → Event
  -- A tool call that has been carried out, by its id.
  tool_done : Text → Result Text Text → Event

unfoldable pub step : Event → Ws → Ws
step (connect_call url) s = connect_called url s
step (connect_resume url) s = connect_resumed url s
step (connect_store throws) s = connect_stored throws s
step disconnect_call s = disconnect_called s
step disconnect_store s = disconnect_stored s
step (open_event n) s = opened n s
step (close_event n) s = closed n s
step timer_event s = timer_fired s
step alarm_event s = alarm_fired s
step (alarm_resume wanted url) s = alarm_read wanted url s
step ping_message s = send pong s
step (hello_ack_message compatible proto) s = on_hello_ack compatible proto s
step (rejected_message reason) s = on_rejected reason s
step (tool_done id result) s = send (tool_result id result) s

unfoldable pub run : Ws → List Event → Ws
unfolding step
run s [] = s
run s (e ∷ rest) = run (step e s) rest

abbrev pub fresh : Ws
fresh = record {
  socket = none;
  state = disconnected;
  current_url = [];
  should_reconnect = false;
  timer = none;
  next_reconnect_ms = reconnect_ms;
  notice = none;
  saved_url = [];
  saved_reconnect = false;
  created = 0;
  live = [];
  ready = [];
  sent = [];
}
