-- ===== src/Annotations/Store/Shots.antt =====
-- The table of screenshots: what eviction keeps and deletes.
use open_webbridge.Base.{
  ◌+◌, ◌≤◌, ◌≡◌, refl, inl, inr, Text, text_keys, text_eq, text_eq_iff, length, filter, contains,
  contains-delete, delete, lookup, insert, keys, Table, Bool, true, false, none, List, [], ◌∷◌,
  Bool-cases, arith, if◌then◌else◌, not,
}
use open_webbridge.Annotations.Store.{retain, discard}

-- No key twice.
abbrev pub Distinct : List Text → Type 0
Distinct [] = Unit
Distinct (k ∷ ks) = (contains k ks ≡ false) × Distinct ks

pub lookup-retain :
    (keep : List Text) (k : Text) (m : Table Text Text)
    → lookup k (retain keep m) ≡ (if contains k keep then lookup k m else none)
unfolding lookup retain
lookup-retain keep k [] = ground arith
lookup-retain keep k ((j, v) ∷ m) = ground (arith, lookup-retain keep k m, text_eq_iff j k)

pub lookup-discard :
    (kill : List Text) (k : Text) (m : Table Text Text)
    → lookup k (discard kill m) ≡ (if contains k kill then none else lookup k m)
unfolding lookup discard
lookup-discard kill k [] = ground arith
lookup-discard kill k ((j, v) ∷ m) = ground (arith, lookup-discard kill k m, text_eq_iff j k)

keys-retain :
    (keep : List Text) (m : Table Text Text)
    → keys (retain keep m) ≡ filter (λ k. contains k keep) (keys m)
unfolding retain
keys-retain keep [] = refl
keys-retain keep ((k, v) ∷ m) = ground (arith, keys-retain keep m)

length-keys : (m : Table Text Text) → length (keys m) ≡ length m
length-keys [] = refl
length-keys ((k, v) ∷ m) = omega (arith, length-keys m)

length-delete :
    (k : Text) (s : List Text) → contains k s ≡ true → length (delete k s) + 1 ≤ length s
unfolding contains delete
length-delete k [] h = cc
length-delete k (j ∷ s) h = ground (arith, length-delete k s, length-delete_le k s)
  where
    length-delete_le : (k : Text) (s : List Text) → length (delete k s) ≤ length s
    length-delete_le k [] = omega arith
    length-delete_le k (j ∷ s) = ground (arith, length-delete_le k s)

filter-delete :
    (k : Text) (keep ks : List Text)
    → contains k ks ≡ false
    → filter (λ j. contains j keep) ks ≡ filter (λ j. contains j (delete k keep)) ks
unfolding contains
filter-delete k keep [] h = refl
filter-delete k keep (j ∷ ks) h =
    ground
      (arith, filter-delete k keep ks, contains-delete k j keep, text_eq_iff j k, text_eq_iff k j)

-- Of distinct keys no more lie in a list than it has elements.
filter-length-le :
    (keep ks : List Text) → Distinct ks → length (filter (λ k. contains k keep) ks) ≤ length keep
filter-length-le keep [] d = omega arith
filter-length-le keep (k ∷ ks) d = elim (Bool-cases (contains k keep)) [
  | inl e ↦
      rw (e, filter-delete k keep ks d.0)
        (omega (arith, filter-length-le (delete k keep) ks d.1, length-delete k keep e))
  | inr e ↦ rw e (filter-length-le keep ks d.1)
]

pub length-retain :
    (keep : List Text) (m : Table Text Text)
    → Distinct (keys m)
    → length (retain keep m) ≤ length keep
length-retain keep m d =
    rw (← length-keys (retain keep m), keys-retain keep m) (filter-length-le keep (keys m) d)

contains-filter :
    (p : Text → Bool) (k : Text) (ks : List Text)
    → contains k ks ≡ false
    → contains k (filter p ks) ≡ false
unfolding contains
contains-filter p k [] h = refl
contains-filter p k (j ∷ ks) h = ground (arith, contains-filter p k ks)

Distinct-filter : (p : Text → Bool) (ks : List Text) → Distinct ks → Distinct (filter p ks)
Distinct-filter p [] d = tt
Distinct-filter p (k ∷ ks) d = elim (Bool-cases (p k)) [
  | inl e ↦ rw e (contains-filter p k ks d.0, Distinct-filter p ks d.1)
  | inr e ↦ rw e (Distinct-filter p ks d.1)
]

pub retain-Distinct :
    (keep : List Text) (m : Table Text Text) → Distinct (keys m) → Distinct (keys (retain keep m))
retain-Distinct keep m d =
    rw (keys-retain keep m) (Distinct-filter (λ k. contains k keep) (keys m) d)

keys-discard :
    (kill : List Text) (m : Table Text Text)
    → keys (discard kill m) ≡ filter (λ k. not (contains k kill)) (keys m)
unfolding discard
keys-discard kill [] = refl
keys-discard kill ((k, v) ∷ m) = ground (arith, keys-discard kill m)

pub discard-Distinct :
    (kill : List Text) (m : Table Text Text) → Distinct (keys m) → Distinct (keys (discard kill m))
discard-Distinct kill m d =
    rw (keys-discard kill m) (Distinct-filter (λ k. not (contains k kill)) (keys m) d)

pub length-discard : (kill : List Text) (m : Table Text Text) → length (discard kill m) ≤ length m
unfolding discard
length-discard kill [] = omega arith
length-discard kill ((k, v) ∷ m) = ground (arith, length-discard kill m)

contains-keys-insert :
    (k j : Text) (v : Text) (m : Table Text Text)
    → contains j (keys m) ≡ false
    → text_eq k j ≡ false
    → contains j (keys (insert k v m)) ≡ false
unfolding contains insert
contains-keys-insert k j v [] h n = ground arith
contains-keys-insert k j v ((i, w) ∷ m) h n = ground (arith, contains-keys-insert k j v m)

pub insert-Distinct :
    (k v : Text) (m : Table Text Text) → Distinct (keys m) → Distinct (keys (insert k v m))
unfolding insert contains
insert-Distinct k v [] d = (refl, tt)
insert-Distinct k v ((j, w) ∷ m) d = elim (Bool-cases (text_eq j k)) [
  | inl e ↦ rw e d
  | inr e ↦ rw e (
    contains-keys-insert k j v m d.0 (ground (arith, text_eq_iff j k, text_eq_iff k j)),
    insert-Distinct k v m d.1,
  )
]
