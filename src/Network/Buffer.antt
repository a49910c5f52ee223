-- ===== src/Network/Buffer.antt =====
-- The capture buffers of network.js and their listing.
use open_webbridge.Base.{
  ℕ, ◌-◌, ◌≤◌, ◌≡◌, ◌≢◌, ◌⊎◌, inl, inr, Text, number_keys, to_lower, includes, is_empty, length,
  length-drop, length-filter, length-take_last, take_last, filter, contains, lookup, insert,
  lookup-insert, false, Option, none, some, or_else, List, [], ◌∷◌, Bool-cases, arith,
}
use open_webbridge.Network.{
  Entry, Capture, NetEvent, max_entries, record_event, cut, on_event, start_capture, stop_capture,
  list_requests,
}

-- Every buffer within its cap.
abbrev pub IsBounded : Capture → Type 0
IsBounded c = (tab : ℕ) → length (or_else (lookup tab c.buffers) []) ≤ max_entries

length-cut : (buf : List Entry) → length (cut buf) ≤ max_entries
unfolding cut
length-cut buf = ground (arith, length-drop (length buf - max_entries) buf)

-- What can happen to the capture.
pub data Action : Type 0 where
  event : Option ℕ → NetEvent → Action
  begin : ℕ → Action
  stop : ℕ → Action

unfoldable pub act : Capture → Action → Capture
act c (event tab e) = on_event tab e c
act c (begin tab) = start_capture tab c
act c (stop tab) = stop_capture tab c

unfoldable pub run : Capture → List Action → Capture
unfolding act
run c [] = c
run c (a ∷ rest) = run (act c a) rest

insert-IsBounded :
    (tab : ℕ) (buf : List Entry) (c : Capture)
    → length buf ≤ max_entries
    → IsBounded c
    → (t : ℕ) → length (or_else (lookup t (insert tab buf c.buffers)) []) ≤ max_entries
insert-IsBounded tab buf c fits b t = rw (lookup-insert tab t buf c.buffers) (ground (arith, b t))

act-IsBounded : (c : Capture) (a : Action) → IsBounded c → IsBounded (act c a)
unfolding act on_event start_capture stop_capture
act-IsBounded c (event none e) b = b
act-IsBounded c (event (some tab) e) b = elim (Bool-cases (contains tab c.capturing)) [
  | inl on ↦ rw on (
      insert-IsBounded tab (cut (record_event e (or_else (lookup tab c.buffers) []))) c
        (length-cut (record_event e (or_else (lookup tab c.buffers) []))) b)
  | inr off ↦ rw off b
]
act-IsBounded c (begin tab) b = insert-IsBounded tab [] c (omega arith) b
act-IsBounded c (stop tab) b = b

-- Whatever events arrive and captures are started and stopped, no buffer grows past 500 entries.
pub run-IsBounded : (actions : List Action) (c : Capture) → IsBounded c → IsBounded (run c actions)
unfolding run
run-IsBounded [] c b = b
run-IsBounded (a ∷ rest) c b = run-IsBounded rest (act c a) (act-IsBounded c a b)

-- An event changes the buffer of its own tab at most, and only while that tab is captured.
pub on_event_local :
    (tab : ℕ) (e : NetEvent) (c : Capture) (other : ℕ)
    → (other ≢ tab) ⊎ (contains tab c.capturing ≡ false)
    → lookup other (on_event (some tab) e c).buffers ≡ lookup other c.buffers
unfolding on_event
on_event_local tab e c other (inr off) = rw off
on_event_local tab e c other (inl apart) = elim (Bool-cases (contains tab c.capturing)) [
  | inr off ↦ rw off
  | inl on ↦ rw on (
      ground (
        arith,
        lookup-insert tab other (cut (record_event e (or_else (lookup tab c.buffers) [])))
            c.buffers,
        apart,
      ))
]

-- A listing shows at most the last 200 of the entries that it counts, and it counts no more than
-- the buffer holds.
pub list_requests_bounds :
    (wanted : Text) (tab : ℕ) (c : Capture)
    → IsBounded c
    → (length (list_requests wanted tab c).requests ≤ 200)
      × (length (list_requests wanted tab c).requests ≤ (list_requests wanted tab c).count)
      × ((list_requests wanted tab c).count ≤ max_entries)
unfolding list_requests
list_requests_bounds wanted tab c b = elim (Bool-cases (is_empty wanted)) [
  | inl e ↦ rw e (shown all)
  | inr e ↦ rw e (
      let few = length-filter (λ e. includes (to_lower e.url) (to_lower wanted)) all in
      let t = shown_any (filter (λ e. includes (to_lower e.url) (to_lower wanted)) all) in
      (t.0, t.1, omega (arith, few, b tab)))
]
  where
    all : List Entry
    all = or_else (lookup tab c.buffers) []

    shown_any :
        (xs : List Entry)
        → (length (take_last 200 xs) ≤ 200) × (length (take_last 200 xs) ≤ length xs)
    shown_any xs = (length-take_last 200 xs, omega (arith, length-drop (length xs - 200) xs))

    shown :
        (xs : List Entry)
        → (length (take_last 200 all) ≤ 200)
          × (length (take_last 200 all) ≤ length all)
          × (length all ≤ max_entries)
    shown xs = let t = shown_any all in (t.0, t.1, b tab)
