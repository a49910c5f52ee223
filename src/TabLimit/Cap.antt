-- ===== src/TabLimit/Cap.antt =====
-- What the check of the caps guarantees (`assertDomainTabLimits` of tablimit.js).
use open_webbridge.Base.{
  suc, ◌≤◌, ◌<◌, ◌≡◌, ◌↔◌, refl, Text, leb, All, All-imp, In, here, there, Option, List, [], ◌∷◌,
  ok, err, Bool-cases, inl, inr, arith,
}
use open_webbridge.TabLimit.{
  Limit, LimitReached, count_tabs, check_rules, rules_to_check, assert_domain_tab_limits,
}

module _ (host_name : Text → Option Text) where
  check_rules→All :
      (rules : List Limit) (urls : List Text)
      → check_rules host_name rules urls ≡ ok tt
      → All (λ r. count_tabs host_name r urls < r.max) rules
  unfolding check_rules
  check_rules→All [] urls h = tt
  check_rules→All (r ∷ rest) urls h = (ground arith, check_rules→All rest urls (ground arith))

  All→check_rules :
      (rules : List Limit) (urls : List Text)
      → All (λ r. count_tabs host_name r urls < r.max) rules
      → check_rules host_name rules urls ≡ ok tt
  unfolding check_rules
  All→check_rules [] urls h = refl
  All→check_rules (r ∷ rest) urls h = ground (arith, All→check_rules rest urls h.1, h.0)

  -- The check passes exactly when every rule that it looks at has room for one more tab.
  pub assert_domain_tab_limits_iff :
      (limits : List Limit) (target : Option Text) (urls : List Text)
      → (assert_domain_tab_limits host_name limits target urls ≡ ok tt)
        ↔ All (λ r. count_tabs host_name r urls < r.max) (rules_to_check host_name limits target)
  unfolding assert_domain_tab_limits
  assert_domain_tab_limits_iff limits target urls = (
    check_rules→All (rules_to_check host_name limits target) urls,
    All→check_rules (rules_to_check host_name limits target) urls,
  )

  count_tabs-cons :
      (r : Limit) (u : Text) (urls : List Text)
      → count_tabs host_name r (u ∷ urls) ≤ suc (count_tabs host_name r urls)
  unfolding count_tabs
  count_tabs-cons r u urls = ground arith

  -- After a check that passed one more tab, whatever its address, leaves every rule that was
  -- looked at within its cap.
  pub open_within_cap :
      (limits : List Limit) (target : Option Text) (urls : List Text) (opened : Text)
      → assert_domain_tab_limits host_name limits target urls ≡ ok tt
      → All
          (λ r. count_tabs host_name r (opened ∷ urls) ≤ r.max)
          (rules_to_check host_name limits target)
  open_within_cap limits target urls opened h =
      All-imp (λ r room. omega (arith, count_tabs-cons r opened urls))
        (rules_to_check host_name limits target)
        ((assert_domain_tab_limits_iff limits target urls).0 h)

  -- The rule that a refusal reports.
  abbrev pub Blames : LimitReached → List Text → Limit → Type 0
  Blames e urls r =
      (e.domain ≡ r.domain)
      × (e.count ≡ count_tabs host_name r urls)
      × (e.max ≡ r.max)
      × (r.max ≤ count_tabs host_name r urls)

  check_rules-refuses :
      (rules : List Limit) (urls : List Text) (e : LimitReached)
      → check_rules host_name rules urls ≡ err e
      → (r : Limit) × In r rules × Blames e urls r
  unfolding check_rules
  check_rules-refuses [] urls e h = cc
  check_rules-refuses (r ∷ rest) urls e h =
      elim (Bool-cases (leb r.max (count_tabs host_name r urls))) [
        | inl full ↦ (r, here refl, ground arith)
        | inr room ↦
            let (r', m, b) = check_rules-refuses rest urls e (ground arith) in (r', there m, b)
      ]

  -- A refusal reports a rule that was looked at, with its domain, its cap and the number of tabs
  -- that count against it, and that number has reached the cap.
  pub assert_domain_tab_limits-refuses :
      (limits : List Limit) (target : Option Text) (urls : List Text) (e : LimitReached)
      → assert_domain_tab_limits host_name limits target urls ≡ err e
      → (r : Limit) × In r (rules_to_check host_name limits target) × Blames e urls r
  unfolding assert_domain_tab_limits
  assert_domain_tab_limits-refuses limits target urls e h =
      check_rules-refuses (rules_to_check host_name limits target) urls e h
