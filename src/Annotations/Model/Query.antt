-- ===== src/Annotations/Model/Query.antt =====
-- What a query of the annotation store answers (`filterAnnotations` of model.js).
use open_webbridge.Base.{
  ℕ, ◌-◌, ◌≤◌, ◌<◌, ◌≡◌, ◌++◌, ◌⊎◌, inl, inr, refl, length, take, drop, filter, take_last,
  length-take_last, All, In, In-All, In-append, In-drop, In-filter, filter-In, In-sort_by,
  sort_by-In, sort_by, Sorted, Sorted-cut, Sorted-drop, sort_by-Sorted, take-append-drop, ltb, true,
  ◌&&◌, Option, none, some, List, Bool-cases, arith,
}
use open_webbridge.Annotations.Record.{Annotation, Filter}
use open_webbridge.Annotations.Model.{passes, newest, filter_annotations, seq_of}

module _ {F : Type 0} where
  -- The last `n` of a sorted list: what is left out is not newer than anything kept.
  pub take_last-newest :
      (n : ℕ) (xs : List (Annotation F)) {a : Annotation F}
      → Sorted seq_of xs
      → In a xs
      → In a (take_last n xs) ⊎ All (λ b. a.seq ≤ b.seq) (take_last n xs)
  take_last-newest n xs {a} s m = elim (In-append (take k xs) split) [
    | inr kept ↦ inl kept
    | inl cut ↦
        inr (In-All (λ b. a.seq ≤ b.seq) (drop k xs) (λ b mb. Sorted-cut seq_of k xs s cut mb))
  ]
    where
      k : ℕ
      k = length xs - n

      split : In a (take k xs ++ drop k xs)
      split = rw (take-append-drop k xs) m

  -- How many records a query answers at most, where it sets a limit.
  abbrev pub Within : Option ℕ → List (Annotation F) → Type 0
  Within none out = Unit
  Within (some limit) out = 0 < limit → length out ≤ limit

  newest-Within : (limit : Option ℕ) (xs : List (Annotation F)) → Within limit (newest limit xs)
  unfolding newest
  newest-Within none xs = tt
  newest-Within (some limit) xs = λ h. elim (Bool-cases (ltb 0 limit && ltb limit (length xs))) [
    | inl e ↦ rw e (length-take_last limit xs)
    | inr e ↦ rw e (ground arith)
  ]

  newest-Sorted :
      (limit : Option ℕ) (xs : List (Annotation F))
      → Sorted seq_of xs
      → Sorted seq_of (newest limit xs)
  unfolding newest
  newest-Sorted none xs s = s
  newest-Sorted (some limit) xs s = elim (Bool-cases (ltb 0 limit && ltb limit (length xs))) [
    | inl e ↦ rw e (Sorted-drop seq_of (length xs - limit) xs s)
    | inr e ↦ rw e s
  ]

  In-newest :
      (limit : Option ℕ) (xs : List (Annotation F)) {a : Annotation F}
      → In a (newest limit xs)
      → In a xs
  unfolding newest
  In-newest none xs m = m
  In-newest (some limit) xs {a} m = elim (Bool-cases (ltb 0 limit && ltb limit (length xs))) [
    | inl e ↦ In-drop (length xs - limit) xs (rw e at m)
    | inr e ↦ rw e at m
  ]

  newest-In :
      (limit : Option ℕ) (xs : List (Annotation F)) {a : Annotation F}
      → Sorted seq_of xs
      → In a xs
      → In a (newest limit xs) ⊎ All (λ b. a.seq ≤ b.seq) (newest limit xs)
  unfolding newest
  newest-In none xs s m = inl m
  newest-In (some limit) xs s m = elim (Bool-cases (ltb 0 limit && ltb limit (length xs))) [
    | inl e ↦ rw e (take_last-newest limit xs s m)
    | inr e ↦ rw e (inl m)
  ]

  newest_all : (limit : Option ℕ) (xs : List (Annotation F)) → limit ≡ none → newest limit xs ≡ xs
  unfolding newest
  newest_all none xs e = refl
  newest_all (some limit) xs e = cc

  module _ (items : List (Annotation F)) (f : Filter) where
    -- A query answers only stored records that pass its test, in creation order, and no more of
    -- them than its limit where that is positive.
    pub filter_annotations_sound :
        ((a : Annotation F) → In a (filter_annotations items f) → In a items × (passes f a ≡ true))
        × Sorted seq_of (filter_annotations items f)
        × Within f.limit (filter_annotations items f)
    unfolding filter_annotations
    filter_annotations_sound = (
      λ a m. In-filter (passes f) items (
          In-sort_by seq_of (filter (passes f) items)
            (In-newest f.limit (sort_by seq_of (filter (passes f) items)) m)),
      newest-Sorted f.limit (sort_by seq_of (filter (passes f) items))
          (sort_by-Sorted seq_of (filter (passes f) items)),
      newest-Within f.limit (sort_by seq_of (filter (passes f) items)),
    )

    -- A stored record that passes the test is answered, or is at most as new as every record that
    -- is answered; without a limit it is answered.
    pub filter_annotations_complete :
        (a : Annotation F)
        → In a items
        → passes f a ≡ true
        → (In a (filter_annotations items f)
            ⊎ All (λ b. a.seq ≤ b.seq) (filter_annotations items f))
          × (f.limit ≡ none → In a (filter_annotations items f))
    unfolding filter_annotations
    filter_annotations_complete a m p = (
      newest-In f.limit sorted (sort_by-Sorted seq_of (filter (passes f) items)) found,
      λ unlimited. rw (newest_all f.limit sorted unlimited) found,
    )
      where
        sorted : List (Annotation F)
        sorted = sort_by seq_of (filter (passes f) items)

        found : In a sorted
        found = sort_by-In seq_of (filter (passes f) items) (filter-In (passes f) m p)
