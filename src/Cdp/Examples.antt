-- ===== src/Cdp/Examples.antt =====
-- The theorems on debugger sessions at concrete inputs.
use open_webbridge.Base.{
  ◌≡◌, ◌⊎◌, In, List, refl, lit, text_keys, text_eq, contains, add, lookup, insert, true, false, ok,
  [], ◌∷◌, ◌++◌,
}
use open_webbridge.Cdp.{
  tab, target_keys, target_eq, attached_now, attach_call, command, attach, ensure_domain,
  enable_domain, is_enabled, is_tab, Call, enable_of,
}
use open_webbridge.Cdp.Quiet.{IsConsistent, ensure_domain_quiet}
use open_webbridge.Cdp.Race.{fresh, interrupted, ensure_domain_after_race}

fresh-IsConsistent : IsConsistent fresh
unfolding lookup
fresh-IsConsistent t h = cc

returns : (ensure_domain attached_now [] [] (tab 3) (lit "DOM") fresh).0 ≡ ok tt
unfolding ensure_domain attach contains
returns = refl

ensure_domain_quiet_example :
    IsConsistent (ensure_domain attached_now [] [] (tab 3) (lit "DOM") fresh).1
    × (contains (tab 3) (ensure_domain attached_now [] [] (tab 3) (lit "DOM") fresh).1.attached
        ≡ true)
    × (is_enabled (tab 3) (lit "DOM") (ensure_domain attached_now [] [] (tab 3) (lit "DOM") fresh).1
        ≡ true)
    × (calls : List Call) × ((ensure_domain attached_now [] [] (tab 3) (lit "DOM") fresh).1.sent
        ≡ [] ++ calls)
    × ((is_enabled (tab 3) (lit "DOM") fresh ≡ true)
        ⊎ In (command (tab 3) (enable_of (lit "DOM"))) calls)
ensure_domain_quiet_example =
    ensure_domain_quiet attached_now (tab 3) (lit "DOM") fresh fresh-IsConsistent returns

calls_test :
    (ensure_domain attached_now [] [] (tab 3) (lit "DOM") fresh).1.sent
    ≡ attach_call (tab 3)
      ∷ command (tab 3) (lit "Page.enable")
      ∷ command (tab 3) (lit "DOM.enable")
      ∷ []
unfolding ensure_domain attach contains add insert lookup enable_domain is_tab target_eq text_eq
calls_test = refl

ensure_domain_after_race_example :
    (contains (tab 3) (interrupted 3 (lit "DOM")).attached ≡ false)
    × (is_enabled (tab 3) (lit "DOM") (interrupted 3 (lit "DOM")) ≡ true)
    × ((ensure_domain attached_now [] [] (tab 3) (lit "DOM") (interrupted 3 (lit "DOM"))).0 ≡ ok tt)
    × ((ensure_domain attached_now [] [] (tab 3) (lit "DOM") (interrupted 3 (lit "DOM"))).1.sent
        ≡ (interrupted 3 (lit "DOM")).sent
          ++ attach_call (tab 3) ∷ command (tab 3) (lit "Page.enable") ∷ [])
unfolding text_eq
ensure_domain_after_race_example = ensure_domain_after_race 3 (lit "DOM") refl
