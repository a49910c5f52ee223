-- ===== src/TabLimit/Examples.antt =====
-- Tests of the caps, and their theorems at concrete inputs. `host_of_test` reads the host of an
-- address such as `https://host/path`, as the platform's URL parser does.
use open_webbridge.Base.{
  ◌≡◌, ◌≢◌, ◌<◌, ◌⊎◌, refl, Text, lit, All, In, starts_with, drop, text_eq, to_lower, trim,
  ends_with, false, Option, none, some, List, [], ◌∷◌, ◌++◌, ok, err, if◌then◌else◌, ◌==◌,
}
use open_webbridge.TabLimit.{
  Limit, clean, domain_matches, has_target, applies, host_of, rules_to_check, count_tabs, covers,
  check_rules, assert_domain_tab_limits, best_of, consider,
}
use open_webbridge.TabLimit.Match.{domain_matches_iff}
use open_webbridge.TabLimit.Rules.{MostSpecific, rules_to_check-MostSpecific}
use open_webbridge.TabLimit.Cap.{
  Blames, assert_domain_tab_limits_iff, assert_domain_tab_limits-refuses,
}

until_slash : Text → Text
until_slash [] = []
until_slash (c ∷ s) = let rest = until_slash s in if c == b'/' then [] else c ∷ rest

abbrev host_name : Text → Option Text
unfolding until_slash starts_with
host_name u = if starts_with u (lit "https://") then some (until_slash (drop 8 u)) else none

abbrev example_com : Limit
example_com = record { domain = lit " Example.com "; max = 2 }

abbrev api_example : Limit
api_example = record { domain = lit "api.example.com"; max = 1 }

abbrev limits : List Limit
limits = example_com ∷ api_example ∷ []

abbrev api_page : Text
api_page = lit "https://api.example.com/v1"

host_of_test : host_of host_name api_page ≡ lit "api.example.com"
unfolding host_of host_name to_lower
host_of_test = refl

needs_label_boundary : domain_matches (lit "badexample.com") (lit "example.com") ≡ false
unfolding domain_matches to_lower trim ends_with text_eq
needs_label_boundary = refl

most_specific_test : rules_to_check host_name limits (some api_page) ≡ api_example ∷ []
unfolding rules_to_check host_of host_name best_of consider applies domain_matches to_lower trim
    ends_with text_eq
most_specific_test = refl

domain_matches_iff_example :
    (clean (lit "Example.com") ≢ [])
    × ((to_lower (lit "WWW.example.com") ≡ clean (lit "Example.com"))
        ⊎ ((p : Text) × (to_lower (lit "WWW.example.com")
              ≡ p ++ (lit "." ++ clean (lit "Example.com")))))
unfolding domain_matches to_lower trim ends_with text_eq
domain_matches_iff_example = (domain_matches_iff (lit "WWW.example.com") (lit "Example.com")).0 refl

rules_to_check-MostSpecific_example :
    MostSpecific
      (host_of host_name api_page)
      limits
      (rules_to_check host_name limits (some api_page))
unfolding has_target trim host_of host_name to_lower
rules_to_check-MostSpecific_example =
    rules_to_check-MostSpecific host_name limits api_page refl (λ e. cc)

abbrev one_tab : List Text
one_tab = lit "https://example.com/a" ∷ []

allowed :
    assert_domain_tab_limits host_name limits (some (lit "https://www.example.com/")) one_tab
    ≡ ok tt
unfolding assert_domain_tab_limits check_rules count_tabs covers rules_to_check host_of host_name
    best_of consider applies domain_matches to_lower trim ends_with text_eq
allowed = refl

assert_domain_tab_limits_iff_example :
    All
      (λ r. count_tabs host_name r one_tab < r.max)
      (rules_to_check host_name limits (some (lit "https://www.example.com/")))
assert_domain_tab_limits_iff_example =
    (assert_domain_tab_limits_iff host_name limits (some (lit "https://www.example.com/"))
        one_tab).0
      allowed

refused :
    assert_domain_tab_limits host_name limits (some api_page) (api_page ∷ [])
    ≡ err (record { domain = lit "api.example.com"; count = 1; max = 1 })
unfolding assert_domain_tab_limits check_rules count_tabs covers rules_to_check host_of host_name
    best_of consider applies domain_matches to_lower trim ends_with text_eq
refused = refl

assert_domain_tab_limits-refuses_example :
    (r : Limit) × In r (rules_to_check host_name limits (some api_page))
    × Blames host_name
        (record { domain = lit "api.example.com"; count = 1; max = 1 })
        (api_page ∷ [])
        r
assert_domain_tab_limits-refuses_example =
    assert_domain_tab_limits-refuses host_name limits (some api_page) (api_page ∷ [])
      (record { domain = lit "api.example.com"; count = 1; max = 1 }) refused
