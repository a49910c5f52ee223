-- ===== src/Base/Sort.antt =====
-- `xs.sort((a, b) => key(a) - key(b))`: the sort of JavaScript is stable, as an insertion sort is.
pub mod Ascending
use Prim.Native.Nat.{ℕ, zero, suc, ◌≤◌, ◌<◌}
use mathlib.Core.Path.{◌≡◌, refl}
use mathlib.Core.Logic.{inl, inr}
use mathlib.Core.List.{List, [], ◌∷◌, ◌++◌}
use native.Mathlib.Omega.{arith}
use open_webbridge.Base.Tests.{leb, leb→le, if◌then◌else◌, Bool-cases}
use open_webbridge.Base.Lists.{
  length, take, drop, All, All-imp, In, here, there, All-In, take-append-drop,
}

module _ {ℓ} {A : Type ℓ} (key : A → ℕ) where
  insert_by : A → List A → List A
  insert_by x [] = x ∷ []
  insert_by x (y ∷ ys) =
      let rest = insert_by x ys in if leb (key x) (key y) then x ∷ y ∷ ys else y ∷ rest

  unfoldable pub sort_by : List A → List A
  unfolding insert_by
  sort_by [] = []
  sort_by (x ∷ xs) = insert_by x (sort_by xs)

  -- Every earlier element has a key that is at most a later one's.
  abbrev pub Sorted : List A → Type 0
  Sorted [] = Unit
  Sorted (x ∷ xs) = All (λ y. key x ≤ key y) xs × Sorted xs

  -- The same with no key twice.
  abbrev pub Ascending : List A → Type 0
  Ascending [] = Unit
  Ascending (x ∷ xs) = All (λ y. key x < key y) xs × Ascending xs

  All-insert_by : (P : A → Type 0) (x : A) (xs : List A) → P x → All P xs → All P (insert_by x xs)
  unfolding insert_by
  All-insert_by P x [] p h = (p, tt)
  All-insert_by P x (y ∷ ys) p h = elim (Bool-cases (leb (key x) (key y))) [
    | inl e ↦ rw e (p, h)
    | inr e ↦ rw e (h.0, All-insert_by P x ys p h.1)
  ]

  insert_by-Sorted : (x : A) (xs : List A) → Sorted xs → Sorted (insert_by x xs)
  unfolding insert_by
  insert_by-Sorted x [] h = (tt, tt)
  insert_by-Sorted x (y ∷ ys) h = elim (Bool-cases (leb (key x) (key y))) [
    | inl e ↦
        let le : key x ≤ key y = leb→le (key x) (key y) e in
        rw e ((le, All-imp (λ z q. omega arith) ys h.0), h)
    | inr e ↦
        rw e (All-insert_by (λ z. key y ≤ key z) x ys (ground arith) h.0, insert_by-Sorted x ys h.1)
  ]

  pub sort_by-Sorted : (xs : List A) → Sorted (sort_by xs)
  unfolding sort_by
  sort_by-Sorted [] = tt
  sort_by-Sorted (x ∷ xs) = insert_by-Sorted x (sort_by xs) (sort_by-Sorted xs)

  length-insert_by : (x : A) (xs : List A) → length (insert_by x xs) ≡ suc (length xs)
  unfolding insert_by
  length-insert_by x [] = refl
  length-insert_by x (y ∷ ys) = ground (arith, length-insert_by x ys)

  pub length-sort_by : (xs : List A) → length (sort_by xs) ≡ length xs
  unfolding sort_by
  length-sort_by [] = refl
  length-sort_by (x ∷ xs) = omega (arith, length-sort_by xs, length-insert_by x (sort_by xs))

  insert_by_self : (x : A) (xs : List A) → All (λ y. key x ≤ key y) xs → insert_by x xs ≡ x ∷ xs
  unfolding insert_by
  insert_by_self x [] h = refl
  insert_by_self x (y ∷ ys) h = ground arith

  -- Sorting a sorted list changes nothing.
  pub sort_by_self : (xs : List A) → Sorted xs → sort_by xs ≡ xs
  unfolding sort_by
  sort_by_self [] h = refl
  sort_by_self (x ∷ xs) h = rw (sort_by_self xs h.1) (insert_by_self x xs h.0)

  pub Ascending→Sorted : (xs : List A) → Ascending xs → Sorted xs
  Ascending→Sorted [] h = tt
  Ascending→Sorted (x ∷ xs) h = (All-imp (λ y q. omega arith) xs h.0, Ascending→Sorted xs h.1)

  In-insert_by : {a : A} (x : A) (xs : List A) → In a (insert_by x xs) → In a (x ∷ xs)
  unfolding insert_by
  In-insert_by x [] m = m
  In-insert_by {a} x (y ∷ ys) m = elim (Bool-cases (leb (key x) (key y))) [
    | inl e ↦ rw e at m
    | inr e ↦ swapped (rw e at m) (In-insert_by x ys)
  ]
    where
      under : In a (x ∷ ys) → In a (x ∷ y ∷ ys)
      under (here q) = here q
      under (there r) = there (there r)

      swapped :
          In a (y ∷ insert_by x ys) → (In a (insert_by x ys) → In a (x ∷ ys)) → In a (x ∷ y ∷ ys)
      swapped (here q) ih = there (here q)
      swapped (there r) ih = under (ih r)

  insert_by-In_self : (x : A) (xs : List A) → In x (insert_by x xs)
  unfolding insert_by
  insert_by-In_self x [] = here refl
  insert_by-In_self x (y ∷ ys) = elim (Bool-cases (leb (key x) (key y))) [
    | inl e ↦ rw e (here refl)
    | inr e ↦ rw e (there (insert_by-In_self x ys))
  ]

  insert_by-In : {a : A} (x : A) (xs : List A) → In a xs → In a (insert_by x xs)
  unfolding insert_by
  insert_by-In x [] m = elim m [ ]
  insert_by-In {a} x (y ∷ ys) m = elim (Bool-cases (leb (key x) (key y))) [
    | inl e ↦ rw e (there m)
    | inr e ↦ rw e (moved m (insert_by-In x ys))
  ]
    where
      moved : In a (y ∷ ys) → (In a ys → In a (insert_by x ys)) → In a (y ∷ insert_by x ys)
      moved (here q) ih = here q
      moved (there r) ih = there (ih r)

  pub In-sort_by : {a : A} (xs : List A) → In a (sort_by xs) → In a xs
  unfolding sort_by
  In-sort_by [] m = m
  In-sort_by {a} (x ∷ xs) m = back (In-insert_by x (sort_by xs) m) (In-sort_by xs)
    where
      back : In a (x ∷ sort_by xs) → (In a (sort_by xs) → In a xs) → In a (x ∷ xs)
      back (here q) ih = here q
      back (there r) ih = there (ih r)

  pub sort_by-In : {a : A} (xs : List A) → In a xs → In a (sort_by xs)
  unfolding sort_by
  sort_by-In [] m = m
  sort_by-In {a} (x ∷ xs) m = forth m (sort_by-In xs)
    where
      forth : In a (x ∷ xs) → (In a xs → In a (sort_by xs)) → In a (insert_by x (sort_by xs))
      forth (here q) ih = rw q (insert_by-In_self x (sort_by xs))
      forth (there r) ih = insert_by-In x (sort_by xs) (ih r)

  Sorted-append : (xs ys : List A) {a b : A} → Sorted (xs ++ ys) → In a xs → In b ys → key a ≤ key b
  Sorted-append [] ys s ma mb = elim ma [ ]
  Sorted-append (x ∷ xs) ys {a} {b} s ma mb = first ma (λ m. Sorted-append xs ys s.1 m mb)
    where
      reach : (zs : List A) → In b (zs ++ ys)
      reach [] = mb
      reach (z ∷ zs) = there (reach zs)

      first : In a (x ∷ xs) → (In a xs → key a ≤ key b) → key a ≤ key b
      first (here q) ih = rw q (All-In (λ y. key x ≤ key y) s.0 (reach xs))
      first (there r) ih = ih r

  -- Of a sorted list cut in two, everything before the cut has a key at most that of anything
  -- after it.
  pub Sorted-cut :
      (n : ℕ) (xs : List A) {a b : A}
      → Sorted xs
      → In a (take n xs)
      → In b (drop n xs)
      → key a ≤ key b
  Sorted-cut n xs s ma mb =
      Sorted-append (take n xs) (drop n xs) (rw (take-append-drop n xs) s) ma mb

  pub Sorted-drop : (n : ℕ) (xs : List A) → Sorted xs → Sorted (drop n xs)
  Sorted-drop zero xs h = h
  Sorted-drop (suc n) [] h = h
  Sorted-drop (suc n) (x ∷ xs) h = Sorted-drop n xs h.1
