-- ===== src/TabLimit.antt =====
-- open-webbridge-extension/src/tablimit.js: per-domain caps on the number of tabs.
-- `host_name` stands for `new URL(u).hostname` of the platform: `none` where it throws.
pub mod Match
pub mod Rules
pub mod Cap
mod Examples
use open_webbridge.Base.{
  ℕ, suc, Text, lit, to_lower, trim, ends_with, text_eq, is_empty, length, filter, leb, ltb, Bool,
  true, false, not, ◌&&◌, ◌||◌, Option, none, some, or_else, List, [], ◌∷◌, ◌++◌, Result, ok, err,
  if◌then◌else◌,
}

-- An entry of `domain_tab_limits`; a cap that is missing or not positive is 0.
pub record Limit : Type 0 where
  pub domain : Text
  pub max : ℕ

-- What the error message of a refused tab says.
pub record LimitReached : Type 0 where
  pub domain : Text
  pub count : ℕ
  pub max : ℕ

-- The rule's domain as it is compared.
unfoldable pub clean : Text → Text
clean d = trim (to_lower d)

unfoldable pub domain_matches : Text → Text → Bool
unfolding clean
domain_matches host rule_domain =
    let h = to_lower host in
    let d = clean rule_domain in
    if is_empty d then false else text_eq h d || ends_with h (lit "." ++ d)

unfoldable pub has_target : Option Text → Bool
has_target none = false
has_target (some t) = not (is_empty (trim t))

-- The longest domain found so far with its rule; `none` is the start, `bestLen = -1`.
abbrev pub Best : Type 0
Best = Option (Limit × ℕ)

abbrev pub longer : ℕ → Best → Bool
longer n none = true
longer n (some (_, best_len)) = ltb best_len n

-- The rule is active and covers the host.
unfoldable pub applies : Text → Limit → Bool
applies host lim =
    not (is_empty (clean lim.domain)) && ltb 0 lim.max && domain_matches host (clean lim.domain)

-- One round of the loop over the rules.
unfoldable pub consider : Text → Best → Limit → Best
consider host best lim =
    if applies host lim && longer (length (clean lim.domain)) best
    then some (lim, length (clean lim.domain))
    else best

unfoldable pub best_of : Text → Best → List Limit → Best
best_of host best [] = best
best_of host best (lim ∷ rest) = best_of host (consider host best lim) rest

abbrev pub chosen : Best → List Limit
chosen none = []
chosen (some (lim, _)) = lim ∷ []

module _ (host_name : Text → Option Text) where
  unfoldable pub host_of : Text → Text
  host_of u = elim (host_name u) [ none ↦ [] | some h ↦ to_lower h ]

  unfoldable pub rules_to_check : List Limit → Option Text → List Limit
  unfolding has_target
  rules_to_check limits target =
      if not (has_target target)
      then filter (λ lim. not (is_empty lim.domain) && ltb 0 lim.max) limits
      else (let target_host = host_of (or_else target []) in
          if is_empty target_host then [] else chosen (best_of target_host none limits))

  -- The tabs that count against a rule.
  unfoldable pub covers : Limit → Text → Bool
  covers lim tab_url = not (is_empty tab_url) && domain_matches (host_of tab_url) lim.domain

  unfoldable pub count_tabs : Limit → List Text → ℕ
  count_tabs lim tab_urls = length (filter (covers lim) tab_urls)

  unfoldable pub check_rules : List Limit → List Text → Result LimitReached (Unit {0})
  check_rules [] tab_urls = ok tt
  check_rules (lim ∷ rest) tab_urls =
      let next = check_rules rest tab_urls in
      if leb lim.max (count_tabs lim tab_urls)
      then err (record { domain = lim.domain; count = count_tabs lim tab_urls; max = lim.max })
      else next

  unfoldable pub assert_domain_tab_limits :
      List Limit → Option Text → List Text → Result LimitReached (Unit {0})
  assert_domain_tab_limits limits target tab_urls =
      check_rules (rules_to_check limits target) tab_urls
