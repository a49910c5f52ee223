-- ===== src/Mode/Saved.antt =====
-- The memory and the storage of mode.js over the life of a worker and its restart.
use open_webbridge.Base.{
  ℕ, ◌≡◌, ◌⊎◌, refl, ap, ◌∙◌, inl, inr, Option-cases, Text, number_keys, contains, contains-add,
  add, ◌==◌, ==_iff, is_some, Bool, contains-delete, delete, or_else, All, not, if_cases, true,
  false, ◌&&◌, ◌||◌, Option, none, List, [], ◌∷◌, if◌then◌else◌, Bool-cases, arith,
}
use open_webbridge.Mode.{
  Mode, wake, restore_tabs, restore, persist_modes, start, stop, is_annotatable, stop_each,
  stop_all, is_active, active_tabs, present, handle_tab_removed, handle_tab_updated, remember_frame,
}

-- The memory was read back, and the storage agrees with it on the tabs of `tabs`.
abbrev pub IsSaved : (ℕ → Option Text) → Mode → Type 0
IsSaved tabs s =
    (s.restored ≡ true)
    × ((t : ℕ) → is_some (tabs t) ≡ true → contains t (or_else s.saved []) ≡ contains t s.active)

-- What is done in one life of the worker: the storage can be written.
pub data Action : Type 0 where
  starts : (ℕ → Option Text) → Bool → ℕ → Action
  stops : ℕ → Action
  stops_all : Action
  removed : ℕ → Action
  updated : Bool → Bool → ℕ → Action
  announced : ℕ → ℕ → Text → Action
  asked : ℕ → Action
  listed : (ℕ → Option Text) → Action

-- A tab that a listing did not find is not open later.
abbrev pub StaysGone : (ℕ → Option Text) → Action → Type 0
StaysGone tabs (listed seen) = (t : ℕ) → is_some (seen t) ≡ false → is_some (tabs t) ≡ false
StaysGone tabs _ = Unit {0}

abbrev nobody : ℕ → Option Text
nobody t = none

unfoldable pub act : Mode → Action → Mode
act s (starts tabs injected t) = (start true tabs true injected t s).1
act s (stops t) = (stop true nobody true t s).1
act s stops_all = stop_all true nobody true s
act s (removed t) = handle_tab_removed true t s
act s (updated complete injected t) = handle_tab_updated complete true nobody injected t s
act s (announced t frame url) = remember_frame t frame url s
act s (asked t) = (is_active true nobody t s).1
act s (listed seen) = (active_tabs true seen s).1

unfoldable pub run : Mode → List Action → Mode
unfolding act
run s [] = s
run s (a ∷ rest) = run (act s a) rest

pub restore-same : (tabs : ℕ → Option Text) (s : Mode) → s.restored ≡ true → restore true tabs s ≡ s
unfolding restore
restore-same tabs s h = ground arith

-- A listing takes out exactly the tabs that it does not find.
contains-present :
    (seen : ℕ → Option Text) (u : ℕ) (ts active : List ℕ)
    → contains u (present seen ts active).1
      ≡ contains u active && (if contains u ts then is_some (seen u) else true)
unfolding present contains
contains-present seen u [] active = ground arith
contains-present seen u (t ∷ ts) active = elim (Bool-cases (is_some (seen t))) [
  | inl e ↦ rw (e, contains-present seen u ts active) (kept e (Bool-cases (t == u)))
  | inr e ↦
      rw (e, contains-present seen u ts (delete t active), contains-delete t u active)
        (dropped e (Bool-cases (t == u)))
]
  where
    same : (t == u) ≡ true → is_some (seen t) ≡ is_some (seen u)
    same f = ap (λ n. is_some (seen n)) ((==_iff t u).0 f)

    kept :
        is_some (seen t) ≡ true
        → ((t == u) ≡ true) ⊎ ((t == u) ≡ false)
        → (contains u active && (if contains u ts then is_some (seen u) else true))
          ≡ contains u active
            && (if (if t == u then true else contains u ts) then is_some (seen u) else true)
    kept e (inl f) = ground (arith, same f)
    kept e (inr f) = rw f refl

    dropped :
        is_some (seen t) ≡ false
        → ((t == u) ≡ true) ⊎ ((t == u) ≡ false)
        → ((if t == u then false else contains u active)
            && (if contains u ts then is_some (seen u) else true))
          ≡ contains u active
            && (if (if t == u then true else contains u ts) then is_some (seen u) else true)
    dropped e (inl f) = ground (arith, same f)
    dropped e (inr f) = rw f refl

pub listed-marks :
    (seen : ℕ → Option Text) (s : Mode) (u : ℕ)
    → s.restored ≡ true
    → contains u (active_tabs true seen s).1.active ≡ contains u s.active && is_some (seen u)
unfolding active_tabs
listed-marks seen s u h =
    rw (restore-same seen s h) (ground (arith, contains-present seen u s.active s.active))

module _ (tabs : ℕ → Option Text) where
  stop-IsSaved : (t : ℕ) (s : Mode) → IsSaved tabs s → IsSaved tabs (stop true nobody true t s).1
  unfolding stop persist_modes
  stop-IsSaved t s h = rw (restore-same nobody s h.0) (h.0, λ u e. refl)

  stop_each-IsSaved :
      (ts : List ℕ) (s : Mode) → IsSaved tabs s → IsSaved tabs (stop_each true nobody true ts s)
  unfolding stop_each
  stop_each-IsSaved [] s h = h
  stop_each-IsSaved (t ∷ ts) s h =
      stop_each-IsSaved ts (stop true nobody true t s).1 (stop-IsSaved t s h)

  start-IsSaved :
      (pages : ℕ → Option Text) (injected : Bool) (t : ℕ) (s : Mode)
      → IsSaved tabs s
      → IsSaved tabs (start true pages true injected t s).1
  unfolding start persist_modes
  start-IsSaved pages injected t s h = elim (Option-cases (pages t)) [
    | inl e ↦ rw (start, e) back
    | inr (url, e) ↦ elim (Bool-cases (is_annotatable url)) [
      | inr f ↦ rw (start, e, f) back
      | inl f ↦ elim (Bool-cases injected) [
        | inl g ↦ rw (start, e, f, g) (back.0, λ u k. refl)
        | inr g ↦ rw (start, e, f, g) (back.0, λ u k. refl)
      ]
    ]
  ]
    where
      back : IsSaved tabs (restore true pages s)
      back = rw (restore-same pages s h.0) h

  updated-IsSaved :
      (complete injected : Bool) (t : ℕ) (s : Mode)
      → IsSaved tabs s
      → IsSaved tabs (handle_tab_updated complete true nobody injected t s)
  unfolding handle_tab_updated
  updated-IsSaved complete injected t s h = rw (restore-same nobody s h.0) (
      if_cases (λ r. IsSaved tabs r) (not complete) (λ _. h)
        (λ _.
          if_cases (λ r. IsSaved tabs r) (not (contains t s.active)) (λ _. h)
            (λ _. if_cases (λ r. IsSaved tabs r) injected (λ _. h) (λ _. h))))

  listed-IsSaved :
      (seen : ℕ → Option Text) (s : Mode)
      → StaysGone tabs (listed seen)
      → IsSaved tabs s
      → IsSaved tabs (active_tabs true seen s).1
  unfolding active_tabs
  listed-IsSaved seen s gone h =
      rw (restore-same seen s h.0)
        (h.0, λ t e. h.1 t e ∙ ground (arith, contains-present seen t s.active s.active, gone t, e))

  pub act-IsSaved :
      (s : Mode) (a : Action) → StaysGone tabs a → IsSaved tabs s → IsSaved tabs (act s a)
  unfolding act stop_all handle_tab_removed persist_modes remember_frame is_active
  act-IsSaved s (starts pages injected t) g h = start-IsSaved pages injected t s h
  act-IsSaved s (stops t) g h = stop-IsSaved t s h
  act-IsSaved s stops_all g h = rw (restore-same nobody s h.0) (stop_each-IsSaved s.active s h)
  act-IsSaved s (removed t) g h = (h.0, λ u e. refl)
  act-IsSaved s (updated complete injected t) g h = updated-IsSaved complete injected t s h
  act-IsSaved s (announced t frame url) g h = h
  act-IsSaved s (asked t) g h = rw (restore-same nobody s h.0) h
  act-IsSaved s (listed seen) g h = listed-IsSaved seen s g h

  run-IsSaved :
      (actions : List Action) (s : Mode)
      → All (StaysGone tabs) actions
      → IsSaved tabs s
      → IsSaved tabs (run s actions)
  unfolding run
  run-IsSaved [] s g h = h
  run-IsSaved (a ∷ rest) s (g, gs) h = run-IsSaved rest (act s a) gs (act-IsSaved s a g h)

contains-restore_tabs :
    (tabs : ℕ → Option Text) (t : ℕ) (ts active : List ℕ)
    → contains t (restore_tabs tabs ts active)
      ≡ contains t active || (contains t ts && is_some (tabs t))
unfolding restore_tabs contains
contains-restore_tabs tabs t [] active = ground arith
contains-restore_tabs tabs t (u ∷ ts) active = elim (Bool-cases (is_some (tabs u))) [
  | inl e ↦
      rw (e, contains-restore_tabs tabs t ts (add u active), contains-add u t active)
        (absorbed e (Bool-cases (u == t)))
  | inr e ↦ rw (e, contains-restore_tabs tabs t ts active) (skipped e (Bool-cases (u == t)))
]
  where
    there : (u == t) ≡ true → is_some (tabs u) ≡ is_some (tabs t)
    there f = ap (λ n. is_some (tabs n)) ((==_iff u t).0 f)

    absorbed :
        is_some (tabs u) ≡ true
        → ((u == t) ≡ true) ⊎ ((u == t) ≡ false)
        → ((if u == t then true else contains t active) || (contains t ts && is_some (tabs t)))
          ≡ contains t active || ((if u == t then true else contains t ts) && is_some (tabs t))
    absorbed e (inl f) = ground (arith, there f)
    absorbed e (inr f) = rw f refl

    skipped :
        is_some (tabs u) ≡ false
        → ((u == t) ≡ true) ⊎ ((u == t) ≡ false)
        → (contains t active || (contains t ts && is_some (tabs t)))
          ≡ contains t active || ((if u == t then true else contains t ts) && is_some (tabs t))
    skipped e (inl f) = ground (arith, there f)
    skipped e (inr f) = rw f refl

-- If the memory was read back, every write succeeds, and a tab that a listing did not find is gone
-- for good, then after any sequence of calls the tabs in annotation mode that are still open are
-- exactly those in which a worker that is restarted finds the mode on.
pub restart-remembers :
    (actions : List Action) (s : Mode) (tabs : ℕ → Option Text) (t : ℕ)
    → All (StaysGone tabs) actions
    → IsSaved tabs s
    → contains t (restore true tabs (wake (run s actions))).active
      ≡ contains t (run s actions).active && is_some (tabs t)
unfolding restore run contains
restart-remembers actions s tabs t g h =
    let k = run-IsSaved tabs actions s g h in
    rw (contains-restore_tabs tabs t (or_else (run s actions).saved []) []) (ground (arith, k.1 t))
