-- ===== src/WsClient/Reconnect.antt =====
-- The delays of reconnection (ws-client.js).
use open_webbridge.Base.{
  ℕ, ◌≡◌, ◌⊎◌, refl, inl, inr, Text, number_keys, is_empty, contains, delete, Bool, true, false,
  not, ◌&&◌, Option, none, some, List, [], ◌∷◌, Bool-cases, if_cases, arith,
}
use open_webbridge.WsClient.{
  disconnected, Outgoing, Ws, schedule_reconnect, send, disconnect_called, close_socket,
  disconnect_stored, switches, connect_resumed, connect_called, connect_stored, opened, is_current,
  closed, timer_fired, is_idle, alarm_fired, alarm_read, on_hello_ack, on_rejected, Event,
  connect_call, connect_resume, connect_store, disconnect_call, disconnect_store, open_event,
  close_event, timer_event, alarm_event, alarm_resume, ping_message, hello_ack_message,
  rejected_message, tool_done, step, run,
}

-- The two delays of the source.
abbrev pub IsDelay : ℕ → Type 0
IsDelay d = (d ≡ 5000) ⊎ (d ≡ 30000)

-- A timer that is set waits for one of the two delays, and so will the next one.
abbrev pub IsPaced : Ws → Type 0
IsPaced s = IsDelay s.next_reconnect_ms × ((d : ℕ) → s.timer ≡ some d → IsDelay d)

same_times :
    (s t : Ws)
    → t.next_reconnect_ms ≡ s.next_reconnect_ms
    → t.timer ≡ s.timer
    → IsPaced s
    → IsPaced t
same_times s t e f (h, k) = (rw e h, λ d g. k d (rw f at g))

scheduled-IsPaced : (s : Ws) → IsPaced s → IsPaced (schedule_reconnect s)
unfolding schedule_reconnect
scheduled-IsPaced s (h, k) = (inl refl, λ d e. ground (arith, h))

send-IsPaced : (m : Outgoing) (s : Ws) → IsPaced s → IsPaced (send m s)
unfolding send
send-IsPaced m s h = same_times s (send m s) (ground arith) (ground arith) h

disconnect_called-IsPaced : (s : Ws) → IsPaced s → IsPaced (disconnect_called s)
unfolding disconnect_called
disconnect_called-IsPaced s (h, k) = (h, λ d e. cc)

connect_resumed-IsPaced : (url : Text) (s : Ws) → IsPaced s → IsPaced (connect_resumed url s)
unfolding connect_resumed
connect_resumed-IsPaced url s h =
    same_times s (connect_resumed url s) (ground arith) (ground arith) h

connect_called-IsPaced : (url : Text) (s : Ws) → IsPaced s → IsPaced (connect_called url s)
unfolding connect_called
connect_called-IsPaced url s h = elim (Bool-cases (switches url s)) [
  | inl e ↦ rw e (disconnect_called-IsPaced s h)
  | inr e ↦ rw e (connect_resumed-IsPaced url s h)
]

close_socket-IsPaced : (k : Option ℕ) (s : Ws) → IsPaced s → IsPaced (close_socket k s)
unfolding close_socket
close_socket-IsPaced none s h = h
close_socket-IsPaced (some n) s h = h

abbrev gone : ℕ → Ws → Ws
gone n s = record s {
  live = delete n s.live;
  ready = delete n s.ready;
  state = disconnected;
  socket = none;
}

alarm_read-IsPaced :
    (wanted : Bool) (url : Text) (s : Ws) → IsPaced s → IsPaced (alarm_read wanted url s)
unfolding alarm_read
alarm_read-IsPaced wanted url s h = elim (Bool-cases (wanted && not (is_empty url))) [
  | inl e ↦ rw e (connect_called-IsPaced url _ h)
  | inr e ↦ rw e h
]

alarm_fired-IsPaced : (s : Ws) → IsPaced s → IsPaced (alarm_fired s)
unfolding alarm_fired
alarm_fired-IsPaced s h =
    if_cases IsPaced (is_idle s.state) (λ _. alarm_read-IsPaced s.saved_reconnect s.saved_url s h)
      (λ _. h)

step-IsPaced : (e : Event) (s : Ws) → IsPaced s → IsPaced (step e s)
unfolding step on_hello_ack on_rejected connect_stored opened closed timer_fired disconnect_stored
    close_socket
step-IsPaced (connect_call url) s h = connect_called-IsPaced url s h
step-IsPaced (connect_resume url) s h = connect_resumed-IsPaced url s h
step-IsPaced (connect_store true) s h = elim (Bool-cases s.should_reconnect) [
  | inl e ↦ rw e (scheduled-IsPaced (record s { state = disconnected }) h)
  | inr e ↦ rw e h
]
step-IsPaced (connect_store false) s h = h
step-IsPaced disconnect_call s h = disconnect_called-IsPaced s h
step-IsPaced disconnect_store s h = close_socket-IsPaced s.socket s h
step-IsPaced (open_event n) s h = elim (Bool-cases (contains n s.live)) [
  | inl e ↦ rw e (send-IsPaced _ _ (inl refl, λ d e. cc))
  | inr e ↦ rw e h
]
step-IsPaced (close_event n) s h = elim (Bool-cases (is_current n s.socket)) [
  | inr e ↦ rw e h
  | inl e ↦ elim (Bool-cases s.should_reconnect) [
    | inl on ↦ rw (e, on) (scheduled-IsPaced (gone n s) h)
    | inr off ↦ rw (e, off) h
  ]
]
step-IsPaced timer_event s h = elim (Bool-cases s.should_reconnect) [
  | inl e ↦ simp e (connect_called-IsPaced s.current_url s h)
  | inr e ↦ rw e h
]
step-IsPaced alarm_event s h = alarm_fired-IsPaced s h
step-IsPaced (alarm_resume wanted url) s h = alarm_read-IsPaced wanted url s h
step-IsPaced ping_message s h = send-IsPaced _ s h
step-IsPaced (hello_ack_message c p) s h = h
step-IsPaced (rejected_message r) s (h, k) = (inr refl, k)
step-IsPaced (tool_done i r) s h = send-IsPaced _ s h

-- In every interleaving, each reconnection is timed 5 or 30 seconds ahead.
pub run-IsPaced : (events : List Event) (s : Ws) → IsPaced s → IsPaced (run s events)
unfolding run
run-IsPaced [] s h = h
run-IsPaced (e ∷ rest) s h = run-IsPaced rest (step e s) (step-IsPaced e s h)
