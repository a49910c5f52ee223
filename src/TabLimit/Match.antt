-- ===== src/TabLimit/Match.antt =====
-- When a host belongs to a rule's domain (`domainMatches` of tablimit.js).
use open_webbridge.Base.{
  ◌-◌, ◌≡◌, ◌≢◌, ◌↔◌, ◌⊎◌, inl, inr, refl, sym, Text, lit, to_lower, ends_with, text_eq,
  text_eq_iff, text_eq_refl, is_empty, length, length-append, take, drop, take-append-drop, true,
  false, [], ◌∷◌, ◌++◌, Bool-cases, arith,
}
use open_webbridge.TabLimit.{clean, domain_matches}

drop-append : (xs ys : Text) → drop (length xs) (xs ++ ys) ≡ ys
drop-append [] ys = refl
drop-append (x ∷ xs) ys = drop-append xs ys

-- `endsWith` finds exactly the suffixes.
pub ends_with_iff : (s t : Text) → (ends_with s t ≡ true) ↔ ((p : Text) × (s ≡ p ++ t))
unfolding ends_with
ends_with_iff s t = (found, suffix)
  where
    found : ends_with s t ≡ true → (p : Text) × (s ≡ p ++ t)
    found h =
        let e : drop (length s - length t) s ≡ t =
          (text_eq_iff (drop (length s - length t) s) t).0 (ground arith) in
        let q : s ≡ take (length s - length t) s ++ drop (length s - length t) s =
          sym (take-append-drop (length s - length t) s) in
        (take (length s - length t) s, cc)

    suffix : (p : Text) × (s ≡ p ++ t) → ends_with s t ≡ true
    suffix (p, e) =
        let n : length (p ++ t) - length t ≡ length p = omega (arith, length-append p t) in
        rw (e, n, drop-append p t) (ground (arith, length-append p t, text_eq_refl t))

-- A host belongs to a rule exactly when the rule's domain is not blank and the host is that
-- domain or ends in a dot and that domain, case apart.
pub domain_matches_iff :
    (host rule : Text)
    → (domain_matches host rule ≡ true) ↔ (
        (clean rule ≢ [])
        × ((to_lower host ≡ clean rule)
            ⊎ ((p : Text) × (to_lower host ≡ p ++ (lit "." ++ clean rule)))))
unfolding domain_matches
domain_matches_iff host rule = (found, covered)
  where
    h : Text
    h = to_lower host

    d : Text
    d = clean rule

    blank : (t : Text) → is_empty t ≡ false → t ≢ []
    blank [] e q = cc
    blank (x ∷ xs) e q = cc

    full : (t : Text) → t ≢ [] → is_empty t ≡ false
    full [] n = absurd (n refl)
    full (x ∷ xs) n = refl

    found :
        domain_matches host rule ≡ true
        → (d ≢ []) × ((h ≡ d) ⊎ ((p : Text) × (h ≡ p ++ (lit "." ++ d))))
    found m = elim (Bool-cases (is_empty d)) [
      | inl e ↦ ground arith
      | inr e ↦ (
        blank d e,
        elim (Bool-cases (text_eq h d)) [
          | inl q ↦ inl ((text_eq_iff h d).0 q)
          | inr q ↦ inr ((ends_with_iff h (lit "." ++ d)).0 (ground arith))
        ],
      )
    ]

    covered :
        (d ≢ []) × ((h ≡ d) ⊎ ((p : Text) × (h ≡ p ++ (lit "." ++ d))))
        → domain_matches host rule ≡ true
    covered (n, inl e) = rw (full d n, (text_eq_iff h d).1 e) refl
    covered (n, inr w) = rw (full d n, (ends_with_iff h (lit "." ++ d)).1 w) (ground arith)
