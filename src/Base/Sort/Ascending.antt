-- ===== src/Base/Sort/Ascending.antt =====
-- Lists in strictly ascending order of a key, and what keeps them so.
use Prim.Native.Nat.{ℕ, zero, suc, ◌<◌}
use mathlib.Core.Path.{◌≡◌}
use mathlib.Core.Logic.{inl, inr}
use mathlib.Core.Bool.{Bool}
use mathlib.Core.List.{List, [], ◌∷◌, ◌++◌, map}
use native.Mathlib.Omega.{arith}
use open_webbridge.Base.Tests.{Bool-cases}
use open_webbridge.Base.Lists.{drop, filter, All, All-append, All-filter}
use open_webbridge.Base.Sort.{Ascending}

module _ {ℓ} {A : Type ℓ} (key : A → ℕ) where
  pub Ascending-snoc :
      (xs : List A) (x : A)
      → Ascending key xs
      → All (λ y. key y < key x) xs
      → Ascending key (xs ++ x ∷ [])
  Ascending-snoc [] x h b = (tt, tt)
  Ascending-snoc (y ∷ ys) x h b =
      (All-append (λ z. key y < key z) ys (x ∷ []) h.0 (b.0, tt), Ascending-snoc ys x h.1 b.1)

  pub Ascending-drop : (n : ℕ) (xs : List A) → Ascending key xs → Ascending key (drop n xs)
  Ascending-drop zero xs h = h
  Ascending-drop (suc n) [] h = h
  Ascending-drop (suc n) (x ∷ xs) h = Ascending-drop n xs h.1

  pub Ascending-filter :
      (p : A → Bool) (xs : List A) → Ascending key xs → Ascending key (filter p xs)
  Ascending-filter p [] h = h
  Ascending-filter p (x ∷ xs) h = elim (Bool-cases (p x)) [
    | inl e ↦ rw e (All-filter (λ y. key x < key y) p xs h.0, Ascending-filter p xs h.1)
    | inr e ↦ rw e (Ascending-filter p xs h.1)
  ]

  module _ (f : A → A) (keeps : (a : A) → key (f a) ≡ key a) where
    All-map-lt : (n : ℕ) (xs : List A) → All (λ y. n < key y) xs → All (λ y. n < key y) (map f xs)
    All-map-lt n [] h = tt
    All-map-lt n (x ∷ xs) h = (omega (arith, keeps x), All-map-lt n xs h.1)

    pub Ascending-map : (xs : List A) → Ascending key xs → Ascending key (map f xs)
    Ascending-map [] h = tt
    Ascending-map (x ∷ xs) h = (rw (keeps x) (All-map-lt (key x) xs h.0), Ascending-map xs h.1)
