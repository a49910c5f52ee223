-- ===== src/TabLimit/Rules.antt =====
-- Which rules a navigation is checked against (`rulesToCheck` of tablimit.js).
use open_webbridge.Base.{
  ℕ, suc, ◌≤◌, ◌<◌, ◌≡◌, ◌≢◌, ◌⊎◌, inl, inr, refl, Text, is_empty, length, All, All-imp, In, here,
  there, true, false, Option, none, some, List, [], ◌∷◌, Option-cases, arith,
}
use open_webbridge.TabLimit.{
  Limit, Best, clean, has_target, applies, consider, best_of, chosen, host_of, rules_to_check,
}

-- `bestLen + 1` of the loop.
abbrev reach : Best → ℕ
reach none = 0
reach (some (_, n)) = suc n

abbrev specificity : Limit → ℕ
specificity lim = length (clean lim.domain)

consider-reach :
    (host : Text) (best : Best) (lim : Limit)
    → (reach best ≤ reach (consider host best lim))
      × (applies host lim ≡ true → specificity lim < reach (consider host best lim))
unfolding consider
consider-reach host none lim = ground arith
consider-reach host (some (l, n)) lim = ground arith

best_of-reach :
    (host : Text) (best : Best) (lims : List Limit) → reach best ≤ reach (best_of host best lims)
unfolding best_of
best_of-reach host best [] = omega arith
best_of-reach host best (lim ∷ rest) =
    omega
      (arith, best_of-reach host (consider host best lim) rest, (consider-reach host best lim).0)

best_of-above :
    (host : Text) (best : Best) (lims : List Limit)
    → All (λ l. applies host l ≡ true → specificity l < reach (best_of host best lims)) lims
unfolding best_of
best_of-above host best [] = tt
best_of-above host best (lim ∷ rest) = (
  λ h.
      let a : specificity lim < reach (consider host best lim) =
        (consider-reach host best lim).1 h in
      omega (arith, best_of-reach host (consider host best lim) rest),
  best_of-above host (consider host best lim) rest,
)

-- Where a result of the loop comes from.
abbrev Source : Text → Best → List Limit → Limit → ℕ → Type 0
Source host best lims l n =
    (best ≡ some (l, n)) ⊎ (In l lims × (applies host l ≡ true) × (n ≡ specificity l))

consider-source :
    (host : Text) (best : Best) (lim : Limit) (l : Limit) (n : ℕ)
    → consider host best lim ≡ some (l, n)
    → (best ≡ some (l, n)) ⊎ ((l ≡ lim) × (applies host lim ≡ true) × (n ≡ specificity lim))
unfolding consider
consider-source host best lim l n h = ground arith

best_of-Source :
    (host : Text) (best : Best) (lims : List Limit) (l : Limit) (n : ℕ)
    → best_of host best lims ≡ some (l, n)
    → Source host best lims l n
unfolding best_of
best_of-Source host best [] l n h = inl h
best_of-Source host best (lim ∷ rest) l n h =
    elim (best_of-Source host (consider host best lim) rest l n h) [
      | inr later ↦ inr (there later.0, later.1, later.2)
      | inl now ↦ elim (consider-source host best lim l n now) [
        | inl before ↦ inl before
        | inr q ↦ inr (here q.0, rw q.0 q.1, rw q.0 q.2)
      ]
    ]

-- What is checked for a host: nothing where no active rule covers it, or else one rule that
-- covers it, than which no rule that covers it is more specific.
abbrev pub MostSpecific : Text → List Limit → List Limit → Type 0
MostSpecific host limits rules =
    ((rules ≡ []) × All (λ l. applies host l ≡ false) limits)
    ⊎ ((lim : Limit) × (rules ≡ lim ∷ [])
        × In lim limits
        × (applies host lim ≡ true)
        × All (λ l. applies host l ≡ true → specificity l ≤ specificity lim) limits)

chosen-MostSpecific :
    (host : Text) (limits : List Limit)
    → MostSpecific host limits (chosen (best_of host none limits))
chosen-MostSpecific host limits = elim (Option-cases (best_of host none limits)) [
  | inl e ↦
      inl
        (rw e, All-imp (λ l f. ground (arith, f)) limits (rw e at (best_of-above host none limits)))
  | inr ((lim, n), e) ↦ inr (from_source lim n e (best_of-Source host none limits lim n e))
]
  where
    from_source :
        (lim : Limit) (n : ℕ)
        → best_of host none limits ≡ some (lim, n)
        → Source host none limits lim n
        → (l : Limit) × (chosen (best_of host none limits) ≡ l ∷ [])
          × In l limits
          × (applies host l ≡ true)
          × All (λ m. applies host m ≡ true → specificity m ≤ specificity l) limits
    from_source lim n e (inl start) = cc
    from_source lim n e (inr s) = (
      lim,
      rw e,
      s.0,
      s.1,
      All-imp
          (λ m below h.
            let q : reach (best_of host none limits) ≡ suc n = rw e in
            let b : specificity m < reach (best_of host none limits) = below h in
            omega (arith, s.2))
          limits (best_of-above host none limits),
    )

not-is_empty : (t : Text) → t ≢ [] → is_empty t ≡ false
not-is_empty [] n = absurd (n refl)
not-is_empty (x ∷ xs) n = refl

-- A navigation to a page with a host is checked against the most specific active rule that covers
-- the host, and against nothing where no rule covers it.
pub rules_to_check-MostSpecific :
    (host_name : Text → Option Text) (limits : List Limit) (target : Text)
    → has_target (some target) ≡ true
    → host_of host_name target ≢ []
    → MostSpecific (host_of host_name target) limits (rules_to_check host_name limits (some target))
unfolding rules_to_check
rules_to_check-MostSpecific host_name limits target given named =
    rw (given, not-is_empty (host_of host_name target) named)
      (chosen-MostSpecific (host_of host_name target) limits)
