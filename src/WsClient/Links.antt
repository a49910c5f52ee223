-- ===== src/WsClient/Links.antt =====
-- What becomes of a link: opening, rejection, and a disconnect during a connect.
use open_webbridge.Base.{
  ℕ, ◌+◌, ◌≡◌, refl, Text, number_keys, is_empty, contains, contains-add, add, delete, true, false,
  none, some, List, [], ◌∷◌, ◌++◌, arith, ==_refl,
}
use open_webbridge.WsClient.{
  disconnected, connecting, connected, hello, Ws, is_idle, clear_reconnect, schedule_reconnect,
  send, switches, connect_resumed, connect_called, connect_stored, opened, closed, timer_fired,
  on_rejected, Event, connect_call, connect_store, disconnect_call, disconnect_store, open_event,
  close_event, timer_event, rejected_message, step, run,
}

idle-switches : (url : Text) (s : Ws) → s.state ≡ disconnected → switches url s ≡ false
unfolding switches is_idle
idle-switches url s idle = rw idle (ground arith)

stays_idle : (s : Ws) → s.state ≡ disconnected → is_idle s.state ≡ true
unfolding is_idle
stays_idle s idle = rw idle refl

-- What a connect to an address does when there is no link.
abbrev wanting : Text → Ws → Ws
wanting url s = record s {
  should_reconnect = true;
  state = connecting;
  current_url = url;
  saved_url = url;
  saved_reconnect = true;
}

connect_called-idle :
    (url : Text) (s : Ws)
    → s.state ≡ disconnected
    → is_empty url ≡ false
    → connect_called url s ≡ wanting url s
unfolding connect_called connect_resumed
connect_called-idle url s idle there =
    rw (idle-switches url s idle) (simp (there, stays_idle s idle) refl)

-- What the open of the current socket does.
abbrev greeted : ℕ → Ws → Ws
greeted n s = record s {
  state = connected;
  next_reconnect_ms = 5000;
  timer = none;
  ready = add n s.ready;
  sent = s.sent ++ (n, hello 2) ∷ [];
}

opened-current :
    (n : ℕ) (s : Ws) → s.socket ≡ some n → contains n s.live ≡ true → opened n s ≡ greeted n s
unfolding opened send clear_reconnect
opened-current n s current alive = simp (alive, current, contains-add n n s.ready, ==_refl n) refl

-- A socket that is created and opened.
stored-opened :
    (s : Ws)
    → opened s.created (connect_stored false s)
      ≡ greeted s.created (record s {
        socket = some s.created;
        created = s.created + 1;
        live = add s.created s.live;
      })
unfolding connect_stored
stored-opened s =
    opened-current s.created (connect_stored false s) refl
      (rw (contains-add s.created s.created s.live) (ground (arith, ==_refl s.created)))

-- The browser opens the socket that a connect creates.
abbrev pub connects : Text → ℕ → List Event
connects url n = connect_call url ∷ connect_store false ∷ open_event n ∷ []

-- From an idle state, a connect to an address whose socket opens ends connected to that address,
-- with no timer and the normal delay for the next one, and it has sent exactly a hello with
-- protocol version 2, on the new socket.
pub connect_opens :
    (url : Text) (s : Ws)
    → s.state ≡ disconnected
    → is_empty url ≡ false
    → ((run s (connects url s.created)).state ≡ connected)
      × ((run s (connects url s.created)).current_url ≡ url)
      × ((run s (connects url s.created)).socket ≡ some s.created)
      × ((run s (connects url s.created)).timer ≡ none)
      × ((run s (connects url s.created)).next_reconnect_ms ≡ 5000)
      × ((run s (connects url s.created)).sent ≡ s.sent ++ (s.created, hello 2) ∷ [])
unfolding run step
connect_opens url s idle there =
    rw (connect_called-idle url s idle there, stored-opened (wanting url s))
      (refl, refl, refl, refl, refl, refl)

-- The daemon rejects the link and closes it.
abbrev pub rejection : Text → ℕ → List Event
rejection reason n = rejected_message reason ∷ close_event n ∷ []

abbrev waiting : Text → ℕ → Ws → Ws
waiting reason n s = record (on_rejected reason s) {
  live = delete n s.live;
  ready = delete n s.ready;
  state = disconnected;
  socket = none;
  timer = some 30000;
  next_reconnect_ms = 5000;
}

rejection-closed :
    (reason : Text) (n : ℕ) (s : Ws)
    → s.socket ≡ some n
    → s.should_reconnect ≡ true
    → closed n (on_rejected reason s) ≡ waiting reason n s
unfolding closed schedule_reconnect on_rejected
rejection-closed reason n s current wanted = simp (current, wanted, ==_refl n) refl

-- A link that is wanted and that the daemon rejects and closes is retried 30 seconds later, with
-- the address it had, and the delay after that is 5 seconds again.
pub rejection-retried :
    (reason : Text) (n : ℕ) (s : Ws)
    → s.socket ≡ some n
    → s.should_reconnect ≡ true
    → is_empty s.current_url ≡ false
    → ((run s (rejection reason n)).timer ≡ some 30000)
      × ((run s (rejection reason n)).next_reconnect_ms ≡ 5000)
      × ((step timer_event (run s (rejection reason n))).state ≡ connecting)
      × ((step timer_event (run s (rejection reason n))).current_url ≡ s.current_url)
unfolding run step timer_fired on_rejected
rejection-retried reason n s current wanted there =
    rw (rejection-closed reason n s current wanted) (
      rw (wanted, connect_called-idle s.current_url (waiting reason n s) refl there)
        (refl, refl, refl, refl))

-- A disconnect that falls between the two halves of a connect: its own write is the first to end.
abbrev pub overtaken : Text → ℕ → List Event
overtaken url n =
    connect_call url ∷ disconnect_call ∷ disconnect_store ∷ connect_store false ∷ open_event n ∷ []

abbrev given_up : Ws → Ws
given_up s = record s {
  should_reconnect = false;
  saved_reconnect = false;
  timer = none;
  state = disconnected;
}

-- The same, if the write of the connect is the first to end.
abbrev pub withdrawn : Text → ℕ → List Event
withdrawn url n =
    connect_call url ∷ disconnect_call ∷ connect_store false ∷ disconnect_store ∷ open_event n ∷ []
