-- ===== src/WsClient/Down.antt =====
-- A link that a disconnect has taken down stays down (ws-client.js).
use open_webbridge.Base.{
  ℕ, ◌≡◌, refl, inl, inr, number_keys, contains, delete, Bool, true, false, none, some, List, [],
  ◌∷◌, Bool-cases, arith, if◌then◌else◌, ==_refl,
}
use open_webbridge.WsClient.{
  disconnected, Outgoing, pong, tool_result, Ws, clear_reconnect, send, disconnect_called,
  close_socket, disconnect_stored, opened, closed, timer_fired, alarm_fired, alarm_read,
  on_hello_ack, on_rejected, Event, connect_call, connect_resume, connect_store, disconnect_call,
  disconnect_store, open_event, close_event, timer_event, alarm_event, alarm_resume, ping_message,
  hello_ack_message, rejected_message, tool_done, step, run,
}

-- The events that are not part of a connect; an alarm that read the storage before is one.
unfoldable pub is_passive : Event → Bool
is_passive (connect_call _) = false
is_passive (connect_resume _) = false
is_passive (connect_store _) = false
is_passive disconnect_call = true
is_passive disconnect_store = true
is_passive (open_event _) = true
is_passive (close_event _) = true
is_passive timer_event = true
is_passive alarm_event = true
is_passive (alarm_resume _ _) = false
is_passive ping_message = true
is_passive (hello_ack_message _ _) = true
is_passive (rejected_message _) = true
is_passive (tool_done _ _) = true

unfoldable pub all_passive : List Event → Bool
all_passive [] = true
all_passive (e ∷ rest) = if is_passive e then all_passive rest else false

-- Down: no socket, nothing that would bring one back.
abbrev pub IsDown : Ws → Type 0
IsDown s =
    (s.state ≡ disconnected)
    × (s.socket ≡ none)
    × (s.live ≡ [])
    × (s.should_reconnect ≡ false)
    × (s.saved_reconnect ≡ false)

send_nowhere : (m : Outgoing) (s : Ws) → s.socket ≡ none → send m s ≡ s
unfolding send
send_nowhere m s free = ground arith

alarm_fired-unwanted : (s : Ws) → s.saved_reconnect ≡ false → alarm_fired s ≡ s
unfolding alarm_fired alarm_read
alarm_fired-unwanted s off = ground (arith, off)

-- A step that is no part of a connect.
step-IsDown :
    (e : Event) (s : Ws)
    → is_passive e ≡ true
    → IsDown s
    → IsDown (step e s) × ((step e s).sent ≡ s.sent)
unfolding step disconnect_called clear_reconnect disconnect_stored close_socket opened contains
    closed delete timer_fired on_hello_ack on_rejected is_passive
step-IsDown (connect_call url) s p h = cc
step-IsDown (connect_resume url) s p h = cc
step-IsDown (connect_store throws) s p h = cc
step-IsDown disconnect_call s p h = ((h.0, h.1, h.2, refl, refl), refl)
step-IsDown disconnect_store s p h = simp (h.1) ((refl, refl, h.2, h.3, h.4), refl)
step-IsDown (open_event n) s p h = simp (h.2) ((h.0, h.1, refl, h.3, h.4), refl)
step-IsDown (close_event n) s p h = simp (h.1, h.2) ((h.0, refl, refl, h.3, h.4), refl)
step-IsDown timer_event s p h = simp (h.3) ((h.0, h.1, h.2, refl, h.4), refl)
step-IsDown alarm_event s p h = rw (alarm_fired-unwanted s h.4) (h, refl)
step-IsDown (alarm_resume wanted url) s p h = cc
step-IsDown ping_message s p h = rw (send_nowhere pong s h.1) (h, refl)
step-IsDown (hello_ack_message c v) s p h = (h, refl)
step-IsDown (rejected_message r) s p h = (h, refl)
step-IsDown (tool_done i r) s p h = rw (send_nowhere (tool_result i r) s h.1) (h, refl)

run-IsDown :
    (events : List Event) (s : Ws)
    → all_passive events ≡ true
    → IsDown s
    → IsDown (run s events) × ((run s events).sent ≡ s.sent)
unfolding run all_passive
run-IsDown [] s p h = (h, refl)
run-IsDown (e ∷ rest) s p h = elim (Bool-cases (is_passive e)) [
  | inr off ↦ let q = rw off at p in cc
  | inl on ↦
      let k = step-IsDown e s on h in
      let r = run-IsDown rest (step e s) (rw on at p) k.0 in (r.0, cc)
]

abbrev cut_off : ℕ → Ws → Ws
cut_off n s = record (disconnect_called s) {
  socket = none;
  live = [];
  ready = delete n s.ready;
  state = disconnected;
}

disconnected_down :
    (n : ℕ) (s : Ws)
    → s.socket ≡ some n
    → s.live ≡ n ∷ []
    → disconnect_stored (disconnect_called s) ≡ cut_off n s
unfolding disconnect_called clear_reconnect disconnect_stored close_socket delete
disconnected_down n s current alone = simp (current, alone, ==_refl n) refl

-- Once a disconnect is through, if the current socket was the only live one, the link stays down
-- and sends nothing whatever timers, alarms, messages and events of old sockets come, until the
-- next connect.
pub disconnect-IsDown :
    (n : ℕ) (events : List Event) (s : Ws)
    → s.socket ≡ some n
    → s.live ≡ n ∷ []
    → all_passive events ≡ true
    → IsDown (run s (disconnect_call ∷ disconnect_store ∷ events))
      × ((run s (disconnect_call ∷ disconnect_store ∷ events)).sent ≡ s.sent)
unfolding run step disconnect_called
disconnect-IsDown n events s current alone passive =
    rw (run, disconnected_down n s current alone)
      (run-IsDown events (cut_off n s) passive (refl, refl, refl, refl, refl))
