-- ===== src/Mode/Replayed.antt =====
-- What a person sees of mode.js: each tab is in annotation mode or it is not.
use open_webbridge.Base.{
  ℕ, Text, ◌≡◌, refl, ap, ◌∙◌, inl, inr, Option-cases, number_keys, contains, contains-add,
  contains-delete, ◌==◌, is_some, All, Bool, true, false, not, ◌&&◌, Option, none, some, List, [],
  ◌∷◌, if◌then◌else◌, Bool-cases, if_cases, arith,
}
use open_webbridge.Mode.{
  Mode, wake, restore, persist_modes, start, stop, is_annotatable, stop_each, stop_all, is_active,
  active_tabs, handle_tab_removed, handle_tab_updated, remember_frame,
}
use open_webbridge.Mode.Saved.{
  IsSaved, Action, starts, stops, stops_all, removed, updated, announced, asked, listed, StaysGone,
  listed-marks, act, run, restore-same, act-IsSaved, restart-remembers,
}

-- The tabs that are in the mode.
abbrev pub Marks : Type 0
Marks = ℕ → Bool

-- The mode can be started in a tab that is open and shows a page that is not the browser's own.
abbrev pub can_start : (ℕ → Option Text) → ℕ → Bool
can_start tabs t = elim (tabs t) [ none ↦ false | some url ↦ is_annotatable url ]

abbrev mark : ℕ → Bool → Marks → Marks
mark t on m = λ u. if t == u then on else m u

-- What each action means for the marks.
unfoldable pub meaning : Action → Marks → Marks
meaning (starts tabs injected t) m = if can_start tabs t then mark t true m else m
meaning (stops t) m = mark t false m
meaning stops_all m = λ u. false
meaning (removed t) m = mark t false m
meaning (updated complete injected t) m = m
meaning (announced t frame url) m = m
meaning (asked t) m = m
meaning (listed seen) m = λ u. m u && is_some (seen u)

unfoldable pub replay : List Action → Marks → Marks
unfolding meaning
replay [] m = m
replay (a ∷ rest) m = replay rest (meaning a m)

abbrev pub marks_of : Mode → Marks
marks_of s = λ u. contains u s.active

stop-marks :
    (t u : ℕ) (s : Mode)
    → s.restored ≡ true
    → marks_of (stop true (λ _. none) true t s).1 u ≡ mark t false (marks_of s) u
unfolding stop persist_modes
stop-marks t u s h = rw (restore-same (λ _. none) s h) (contains-delete t u s.active)

stop-restored :
    (t : ℕ) (s : Mode) → s.restored ≡ true → (stop true (λ _. none) true t s).1.restored ≡ true
unfolding stop persist_modes
stop-restored t s h = rw (restore-same (λ _. none) s h) h

stop_each-marks :
    (ts : List ℕ) (s : Mode) (u : ℕ)
    → s.restored ≡ true
    → marks_of (stop_each true (λ _. none) true ts s) u
      ≡ (if contains u ts then false else marks_of s u)
unfolding stop_each contains
stop_each-marks [] s u h = refl
stop_each-marks (t ∷ ts) s u h =
    let after = (stop true (λ _. none) true t s).1 in
    ground (arith, stop_each-marks ts after u (stop-restored t s h), stop-marks t u s h)

start-marks :
    (tabs : ℕ → Option Text) (injected : Bool) (t u : ℕ) (s : Mode)
    → s.restored ≡ true
    → marks_of (start true tabs true injected t s).1 u
      ≡ meaning (starts tabs injected t) (marks_of s) u
unfolding start persist_modes meaning
start-marks tabs injected t u s h = elim (Option-cases (tabs t)) [
  | inl e ↦ rw (start, meaning, can_start, e, restore-same tabs s h) refl
  | inr (url, e) ↦ elim (Bool-cases (is_annotatable url)) [
    | inr f ↦ rw (start, meaning, can_start, e, f, restore-same tabs s h) refl
    | inl f ↦ elim (Bool-cases injected) [
      | inl g ↦
          rw (start, meaning, can_start, e, f, g, restore-same tabs s h) (contains-add t u s.active)
      | inr g ↦
          rw (start, meaning, can_start, e, f, g, restore-same tabs s h) (contains-add t u s.active)
    ]
  ]
]

-- Nobody is left once all are stopped.
none_left : (u : ℕ) (ts : List ℕ) → (if contains u ts then false else contains u ts) ≡ false
none_left u ts = ground arith

act-marks :
    (s : Mode) (a : Action) (u : ℕ)
    → s.restored ≡ true
    → marks_of (act s a) u ≡ meaning a (marks_of s) u
unfolding act meaning stop_all is_active active_tabs handle_tab_removed handle_tab_updated
    remember_frame persist_modes
act-marks s (starts tabs injected t) u h = start-marks tabs injected t u s h
act-marks s (stops t) u h = stop-marks t u s h
act-marks s stops_all u h =
    rw (restore-same (λ _. none) s h) (stop_each-marks s.active s u h ∙ none_left u s.active)
act-marks s (removed t) u h = contains-delete t u s.active
act-marks s (updated complete injected t) u h = rw (restore-same (λ _. none) s h) (
    if_cases (λ (r : Mode). marks_of r u ≡ marks_of s u) (not complete) (λ _. refl)
      (λ _.
        if_cases (λ (r : Mode). marks_of r u ≡ marks_of s u) (not (contains t s.active)) (λ _. refl)
          (λ _.
            if_cases (λ (r : Mode). marks_of r u ≡ marks_of s u) injected (λ _. refl) (λ _. refl))))
act-marks s (announced t frame url) u h = refl
act-marks s (asked t) u h = rw (restore-same (λ _. none) s h) refl
act-marks s (listed seen) u h = listed-marks seen s u h

replay-cong :
    (actions : List Action) (m n : Marks) (u : ℕ)
    → ((v : ℕ) → m v ≡ n v)
    → replay actions m u ≡ replay actions n u
replay-cong actions m n u h = ap (λ (k : Marks). replay actions k u) (λ i v. h v i)

run-marks :
    (actions : List Action) (s : Mode) (tabs : ℕ → Option Text) (u : ℕ)
    → All (StaysGone tabs) actions
    → IsSaved tabs s
    → marks_of (run s actions) u ≡ replay actions (marks_of s) u
unfolding run replay
run-marks [] s tabs u g h = refl
run-marks (a ∷ rest) s tabs u (g, gs) h =
    run-marks rest (act s a) tabs u gs (act-IsSaved tabs s a g h)
    ∙ replay-cong rest (marks_of (act s a)) (meaning a (marks_of s)) u (λ v. act-marks s a v h.0)

-- If the memory was read back, every write succeeds, and a tab that a listing does not find is gone for
-- good, the annotation mode is a set of tabs: after any sequence of calls a tab is in it exactly if
-- replaying the calls on a set says so, where a start in an open tab with a page that is not the
-- browser's own puts the tab in, a stop and the closing of the tab take it out, the end of all takes all
-- out, and a listing takes out the tabs that it does not find. A worker that is restarted then finds
-- those of them that are still open.
pub run-refines :
    (actions : List Action) (s : Mode) (tabs : ℕ → Option Text) (t : ℕ)
    → All (StaysGone tabs) actions
    → IsSaved tabs s
    → (contains t (run s actions).active ≡ replay actions (marks_of s) t)
      × (contains t (restore true tabs (wake (run s actions))).active
          ≡ replay actions (marks_of s) t && is_some (tabs t))
run-refines actions s tabs t g h =
    let k = run-marks actions s tabs t g h in
    (k, restart-remembers actions s tabs t g h ∙ ap (λ b. b && is_some (tabs t)) k)
