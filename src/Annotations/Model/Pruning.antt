-- ===== src/Annotations/Model/Pruning.antt =====
-- What the caps on records and on screenshots keep (`pruneItems`, `shotIdsToKeep` of model.js).
use open_webbridge.Base.{
  ℕ, ◌-◌, ◌≤◌, ◌≡◌, ◌⊎◌, inl, inr, refl, Text, text_keys, text_eq, text_eq_iff, length, take_last,
  length-take_last, All, In, here, there, In-drop, In-filter, In-sort_by, sort_by-In, sort_by,
  sort_by-Sorted, Sorted, Sorted-drop, filter, has, lookup, insert, lookup-insert, Table, leb, Bool,
  true, or_else, List, [], ◌∷◌, Bool-cases, arith,
}
use open_webbridge.Annotations.Record.{Annotation}
use open_webbridge.Annotations.Model.{seq_of, prune_items, by_seq, shot_ids_to_keep}
use open_webbridge.Annotations.Model.Query.{take_last-newest}

module _ {F : Type 0} where
  pub prune_items-take_last :
      (items : List (Annotation F)) (max : ℕ)
      → prune_items items max ≡ take_last max (sort_by seq_of items)
  unfolding prune_items
  prune_items-take_last items max = elim (Bool-cases (leb (length (sort_by seq_of items)) max)) [
    | inl e ↦ rw e (let z : length (sort_by seq_of items) - max ≡ 0 = ground arith in rw z)
    | inr e ↦ rw e
  ]

  -- Pruning keeps at most `max` records, all of them stored ones, in creation order.
  pub prune_items-bounded :
      (items : List (Annotation F)) (max : ℕ)
      → (length (prune_items items max) ≤ max)
        × Sorted seq_of (prune_items items max)
        × ((a : Annotation F) → In a (prune_items items max) → In a items)
  prune_items-bounded items max = rw (prune_items-take_last items max) (
    length-take_last max (sort_by seq_of items),
    Sorted-drop seq_of (length (sort_by seq_of items) - max) (sort_by seq_of items)
        (sort_by-Sorted seq_of items),
    λ a m.
        In-sort_by seq_of items
          (In-drop (length (sort_by seq_of items) - max) (sort_by seq_of items) m),
  )

  -- A record is pruned only if it is at most as new as every record that is kept.
  pub prune_items-newest :
      (items : List (Annotation F)) (max : ℕ) (a : Annotation F)
      → In a items
      → In a (prune_items items max) ⊎ All (λ b. a.seq ≤ b.seq) (prune_items items max)
  prune_items-newest items max a m = rw (prune_items-take_last items max) (
      take_last-newest max (sort_by seq_of items) (sort_by-Sorted seq_of items)
        (sort_by-In seq_of items m))

  -- A key of `bySeq` is the id of a record.
  has-by_seq :
      (m : Table Text ℕ) (items : List (Annotation F)) (id : Text)
      → has id (by_seq m items) ≡ true
      → (has id m ≡ true) ⊎ ((it : Annotation F) × In it items × (it.id ≡ id))
  unfolding by_seq has
  has-by_seq m [] id h = inl h
  has-by_seq m (it ∷ rest) id h = elim (has-by_seq (insert it.id it.seq m) rest id h) [
    | inr (later, at, q) ↦ inr (later, there at, q)
    | inl now ↦ elim (Bool-cases (text_eq it.id id)) [
      | inl q ↦ inr (it, here refl, (text_eq_iff it.id id).0 q)
      | inr q ↦ inl (ground (arith, lookup-insert it.id id it.seq m))
    ]
  ]

  -- At most `max` screenshots survive, each of an id that had one, and each of a stored record.
  pub shot_ids_to_keep-live :
      (items : List (Annotation F)) (shot_ids : List Text) (max : ℕ)
      → (length (shot_ids_to_keep items shot_ids max) ≤ max)
        × ((id : Text)
            → In id (shot_ids_to_keep items shot_ids max)
            → In id shot_ids × ((it : Annotation F) × In it items × (it.id ≡ id)))
  unfolding shot_ids_to_keep has lookup
  shot_ids_to_keep-live items shot_ids max = (
    length_take_last,
    λ id m.
        let t = In-filter is_live shot_ids (
          In-sort_by newness live
            (In-drop (length (sort_by newness live) - max) (sort_by newness live) m)) in
        (t.0, stored id (has-by_seq [] items id t.1)),
  )
    where
      by : Table Text ℕ
      by = by_seq [] items

      newness : Text → ℕ
      newness id = or_else (lookup id by) 0

      is_live : Text → Bool
      is_live id = has id by

      live : List Text
      live = filter is_live shot_ids

      length_take_last : length (take_last max (sort_by newness live)) ≤ max
      length_take_last = length-take_last max (sort_by newness live)

      stored :
          (id : Text)
          → (has {V = ℕ} id [] ≡ true) ⊎ ((it : Annotation F) × In it items × (it.id ≡ id))
          → (it : Annotation F) × In it items × (it.id ≡ id)
      stored id (inl none_there) = cc
      stored id (inr there_is) = there_is
