-- ===== src/Base/Maps.antt =====
-- A JavaScript `Map`, `Set` or object used as a table: entries in insertion order. A write to a
-- key that is present keeps its place, a new key goes last.
use Prim.Native.Nat.{◌+◌, ◌≤◌}
use mathlib.Core.Path.{◌≡◌, refl}
use mathlib.Core.Bool.{Bool, true, false}
use mathlib.Core.Option.{Option, none, some}
use mathlib.Core.List.{List, [], ◌∷◌}
use native.Mathlib.Omega.{arith}
use open_webbridge.Base.Tests.{Eq, if◌then◌else◌, is_some}
use open_webbridge.Base.Lists.{length}

abbrev pub Table {ℓ κ} : Type ℓ → Type κ → Type (ℓ ⊔ κ)
Table K V = List (K × V)

module _ {ℓ κ} {K : Type ℓ} {V : Type κ} where
  -- `[...m.keys()]`, `Object.keys(m)`
  abbrev pub keys : Table K V → List K
  keys [] = []
  keys ((k, _) ∷ m) = k ∷ keys m

  abbrev pub values : Table K V → List V
  values [] = []
  values ((_, v) ∷ m) = v ∷ values m

pub beq_refl {ℓ} : {K : Type ℓ} ⦃e : Eq K⦄ (k : K) → e.beq k k ≡ true
beq_refl ⦃e⦄ k = (e.beq_iff k k).1 refl

module _ {ℓ κ} {K : Type ℓ} ⦃e : Eq K⦄ {V : Type κ} where
  -- `m.get(k)`, `m[k]`
  unfoldable pub lookup : K → Table K V → Option V
  lookup k [] = none
  lookup k ((j, v) ∷ m) = let rest = lookup k m in if e.beq j k then some v else rest

  unfoldable pub insert : K → V → Table K V → Table K V
  insert k v [] = (k, v) ∷ []
  insert k v ((j, w) ∷ m) =
      let rest = insert k v m in if e.beq j k then (j, v) ∷ m else (j, w) ∷ rest

  -- `m.delete(k)`, `delete m[k]`
  unfoldable pub erase : K → Table K V → Table K V
  erase k [] = []
  erase k ((j, v) ∷ m) = let rest = erase k m in if e.beq j k then rest else (j, v) ∷ rest

  -- Deletion of every key in a list.
  unfoldable pub erase_all : List K → Table K V → Table K V
  unfolding erase
  erase_all [] m = m
  erase_all (k ∷ ks) m = erase_all ks (erase k m)

  unfoldable pub has : K → Table K V → Bool
  unfolding lookup
  has k m = is_some (lookup k m)

  pub lookup-insert :
      (k j : K) (v : V) (m : Table K V)
      → lookup j (insert k v m) ≡ (if e.beq k j then some v else lookup j m)
  unfolding lookup insert
  lookup-insert k j v [] = ground arith
  lookup-insert k j v ((i, w) ∷ m) =
      ground (arith, e.beq_iff k j, e.beq_iff i k, e.beq_iff i j, lookup-insert k j v m)

  pub lookup-erase :
      (k j : K) (m : Table K V) → lookup j (erase k m) ≡ (if e.beq k j then none else lookup j m)
  unfolding lookup erase
  lookup-erase k j [] = ground arith
  lookup-erase k j ((i, w) ∷ m) =
      ground (arith, e.beq_iff k j, e.beq_iff i k, e.beq_iff i j, lookup-erase k j m)

  pub length-insert : (k : K) (v : V) (m : Table K V) → length (insert k v m) ≤ length m + 1
  unfolding insert
  length-insert k v [] = omega arith
  length-insert k v ((j, w) ∷ m) = ground (arith, length-insert k v m)

  pub length-erase : (k : K) (m : Table K V) → length (erase k m) ≤ length m
  unfolding erase
  length-erase k [] = omega arith
  length-erase k ((j, w) ∷ m) = ground (arith, length-erase k m)

  pub lookup-insert_self : (k : K) (v : V) (m : Table K V) → lookup k (insert k v m) ≡ some v
  lookup-insert_self k v m = simp (lookup-insert, beq_refl)

  pub lookup-erase_self : (k : K) (m : Table K V) → lookup k (erase k m) ≡ none
  lookup-erase_self k m = simp (lookup-erase, beq_refl)

-- Sets, as lists in insertion order.
module _ {ℓ} {K : Type ℓ} ⦃e : Eq K⦄ where
  unfoldable pub contains : K → List K → Bool
  contains k [] = false
  contains k (j ∷ s) = let rest = contains k s in if e.beq j k then true else rest

  -- `s.add(k)`
  unfoldable pub add : K → List K → List K
  add k [] = k ∷ []
  add k (j ∷ s) = let rest = add k s in if e.beq j k then j ∷ s else j ∷ rest

  -- `s.delete(k)`
  unfoldable pub delete : K → List K → List K
  delete k [] = []
  delete k (j ∷ s) = let rest = delete k s in if e.beq j k then rest else j ∷ rest

  pub contains-add :
      (k j : K) (s : List K) → contains j (add k s) ≡ (if e.beq k j then true else contains j s)
  unfolding contains add
  contains-add k j [] = ground arith
  contains-add k j (i ∷ s) =
      ground (arith, e.beq_iff k j, e.beq_iff i k, e.beq_iff i j, contains-add k j s)

  pub contains-delete :
      (k j : K) (s : List K) → contains j (delete k s) ≡ (if e.beq k j then false else contains j s)
  unfolding contains delete
  contains-delete k j [] = ground arith
  contains-delete k j (i ∷ s) =
      ground (arith, e.beq_iff k j, e.beq_iff i k, e.beq_iff i j, contains-delete k j s)
