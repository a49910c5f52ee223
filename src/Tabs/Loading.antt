-- ===== src/Tabs/Loading.antt =====
-- The wait for a page that loads ends (`waitForComplete` and `navigate` of tabs.js).
use mathlib.Core.Option
use open_webbridge.Base.{
  ℕ, zero, suc, ◌+◌, ◌-◌, ◌*◌, ◌/◌, ◌≤◌, ◌≡◌, ◌⊎◌, refl, ap, inl, inr, Text, is_empty, ltb, Bool,
  true, Bool-cases, Option-cases, Result-cases, not, Option, none, some, List, Result, err,
  if◌then◌else◌, if_cases, arith,
}
use open_webbridge.Sessions.{TabInfo, Browser, Bridge}
use open_webbridge.Sessions.Opening.{OpenError, acquire_tab_for_navigation}
use open_webbridge.TabLimit.{Limit}
use open_webbridge.Tabs.{
  Windows, TabError, missing_url, tab_gone, not_acquired, tab_info, wait_for_complete, settle,
  navigate,
}

module _ {W : Type 0} (chrome : Browser W) (windows : Windows W) where
  -- A sleep takes 150 milliseconds or more.
  abbrev pub Ticks : Type 0
  Ticks = (w : W) → windows.now w + 150 ≤ windows.now (windows.sleep w)

  -- The tab is gone, or it is complete, or the time is up.
  abbrev pub IsOver : ℕ → ℕ → ℕ → W → Type 0
  IsOver t started timeout w =
      ((windows.loaded w t ≡ none) ⊎ (windows.loaded w t ≡ some true))
      ⊎ (timeout ≤ windows.now w - started)

  abbrev Ends : ℕ → ℕ → ℕ → ℕ → W → Type 0
  Ends fuel t started timeout w =
      (r : Result TabError TabInfo) × (w' : W) × (wait_for_complete chrome windows fuel t started
          timeout w
        ≡ some (r, w'))
      × IsOver t started timeout w'

  -- One round, given that the rounds after it end.
  step-Ends :
      (fuel t started timeout : ℕ) (w : W)
      → (windows.now w - started + 1 ≤ timeout → Ends fuel t started timeout (windows.sleep w))
      → Ends (suc fuel) t started timeout w
  unfolding wait_for_complete
  step-Ends fuel t started timeout w later =
      elim (Bool-cases (ltb (windows.now w - started) timeout)) [
        | inr past ↦ (tab_info chrome windows t w, w, rw past refl, inr (ground arith))
        | inl early ↦ elim (Option-cases (windows.loaded w t)) [
          | inl gone ↦ (err tab_gone, w, rw (early, gone) refl, inl (inl gone))
          | inr (complete, e) ↦ elim (Bool-cases complete) [
            | inl full ↦ (
              tab_info chrome windows t w,
              w,
              rw (early, e, full) refl,
              inl (inr (rw e (ap some full))),
            )
            | inr busy ↦
                let (r, w', ends, over) = later (ground arith) in
                (r, w', rw (early, e, busy) ends, over)
          ]
        ]
      ]

  wait-Ends :
      (k t started timeout : ℕ) (w : W)
      → Ticks
      → timeout + started ≤ windows.now w + 150 * k
      → Ends (suc k) t started timeout w
  wait-Ends zero t started timeout w ticks near =
      step-Ends zero t started timeout w (λ early. absurd (omega arith))
  wait-Ends (suc k) t started timeout w ticks near =
      step-Ends (suc k) t started timeout w
        (λ early. wait-Ends k t started timeout (windows.sleep w) ticks (omega (arith, ticks w)))

  -- If a sleep takes its 150 milliseconds, the wait for a page ends within one round for each of them
  -- in the time limit and two more, and then the tab is gone, or it is complete, or the time is up.
  pub wait_for_complete-Ends :
      (t timeout : ℕ) (w : W)
      → Ticks
      → (r : Result TabError TabInfo) × (w' : W) × (wait_for_complete chrome windows
            (timeout / 150 + 2)
            t
            (windows.now w)
            timeout
            w
          ≡ some (r, w'))
        × IsOver t (windows.now w) timeout w'
  wait_for_complete-Ends t timeout w ticks =
      let e : timeout / 150 + 2 ≡ suc (timeout / 150 + 1) = omega arith in
      rw e (wait-Ends (timeout / 150 + 1) t (windows.now w) timeout w ticks (omega arith))

  abbrev Answers : Option (Result TabError (Option Text × ℕ) × Bridge W) → Type 0
  Answers o = (r : Result TabError (Option Text × ℕ)) × (b' : Bridge W) × (o ≡ some (r, b'))

  -- If a sleep takes its 150 milliseconds, navigate answers or throws within 202 rounds of its wait,
  -- whatever the session, the caps and the tabs are.
  pub navigate-Ends :
      (host_name : Text → Option Text) (session url title : Text) (new_tab : Bool)
      (limits : List Limit) (b : Bridge W)
      → Ticks
      → (r : Result TabError (Option Text × ℕ)) × (b' : Bridge W) × (navigate chrome windows
            host_name 202 session url new_tab limits title b
          ≡ some (r, b'))
  unfolding navigate
  navigate-Ends host_name session url title new_tab limits b ticks =
      if_cases Answers (is_empty url) (λ _. (err missing_url, b, refl))
        (λ _. elim (Result-cases acquired.0) [
          | inl (why, e) ↦ (err (not_acquired why), acquired.1, rw e refl)
          | inr (t, e) ↦ rw e (loading t)
        ])
    where
      acquired : Result OpenError ℕ × Bridge W
      acquired = acquire_tab_for_navigation chrome host_name session new_tab limits (some url) b

      loading :
          (t : ℕ)
          → let u = windows.load acquired.1.browser t url in
            let told : Bridge W = record acquired.1 { browser = u.1 } in
            Answers (
              if not u.0
              then some (err tab_gone, told)
              else Option.map
                  (λ loaded. settle chrome windows host_name session title t loaded told)
                  (wait_for_complete chrome windows 202 t (windows.now u.1) 30000 u.1))
      loading t =
          let u = windows.load acquired.1.browser t url in
          let told : Bridge W = record acquired.1 { browser = u.1 } in
          if_cases Answers (not u.0) (λ _. (err tab_gone, told, refl))
            (λ _.
              let (r, w', ends, over) = wait_for_complete-Ends t 30000 u.1 ticks in
              (
                (settle chrome windows host_name session title t (r, w') told).0,
                (settle chrome windows host_name session title t (r, w') told).1,
                ap
                    (Option.map
                      (λ loaded. settle chrome windows host_name session title t loaded told))
                    ends,
              ))
