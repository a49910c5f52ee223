-- ===== src/Annotations/Store/Removal.antt =====
-- Which records `remove` and `patch` of store.js are about.
use open_webbridge.Base.{
  ◌<◌, ◌≡◌, ◌↔◌, refl, ap, inl, inr, Text, text_keys, text_eq, text_eq_iff, length, filter,
  contains, map, All-In, In, here, there, In-map, In-filter, filter-In, Ascending, Bool, true,
  false, not, none, List, [], ◌∷◌, Bool-cases, arith, if◌then◌else◌, ◌==◌,
}
use open_webbridge.Annotations.Record.{Annotation, Filter}
use open_webbridge.Annotations.Model.{passes, filter_annotations, seq_of, id_of}
use open_webbridge.Annotations.Model.Query.{filter_annotations_sound, filter_annotations_complete}
use open_webbridge.Annotations.Store.{
  Store, Changes, touch, persist_items, persist_shots, remove, patch, patch_items, apply_changes,
}
use open_webbridge.Annotations.Store.Invariant.{IsValid, WellNamed}
use open_webbridge.Annotations.Store.Submission.{name-injective}

module _ {F : Type 0} where
  contains-ids :
      {a : Annotation F} {xs : List (Annotation F)} → In a xs → contains a.id (map id_of xs) ≡ true
  unfolding contains
  contains-ids {a} {xs = x ∷ xs} (here e) =
      ground (arith, text_eq_iff x.id a.id, ap (λ (y : Annotation F). y.id) e)
  contains-ids {a} {xs = x ∷ xs} (there m) = ground (arith, contains-ids m)
  contains-ids {xs = []} m = elim m [ ]

  ids-contains :
      (id : Text) (xs : List (Annotation F))
      → contains id (map id_of xs) ≡ true
      → (b : Annotation F) × In b xs × (b.id ≡ id)
  unfolding contains
  ids-contains id [] h = cc
  ids-contains id (x ∷ xs) h = elim (Bool-cases (text_eq x.id id)) [
    | inl e ↦ (x, here refl, (text_eq_iff x.id id).0 e)
    | inr e ↦ let (b, m, q) = ids-contains id xs (ground arith) in (b, there m, q)
  ]

  -- In ascending order one number names one record.
  Ascending-unique :
      {a b : Annotation F} {xs : List (Annotation F)}
      → Ascending seq_of xs
      → In a xs
      → In b xs
      → a.seq ≡ b.seq
      → a ≡ b
  Ascending-unique h (here e) (here e') q = cc
  Ascending-unique {a} {b} {xs = x ∷ xs} h (here e) (there m) q =
      let lt : x.seq < b.seq = All-In (λ y. x.seq < y.seq) h.0 m in
      absurd (omega (arith, ap (λ (y : Annotation F). y.seq) e))
  Ascending-unique {a} {b} {xs = x ∷ xs} h (there m) (here e) q =
      let lt : x.seq < a.seq = All-In (λ y. x.seq < y.seq) h.0 m in
      absurd (omega (arith, ap (λ (y : Annotation F). y.seq) e))
  Ascending-unique h (there m) (there m') q = Ascending-unique h.1 m m' q

  -- In a valid store one id names one record.
  id_unique :
      {a b : Annotation F} (s : Store F)
      → IsValid s
      → In a s.items
      → In b s.items
      → a.id ≡ b.id
      → a ≡ b
  id_unique {a} {b} s v ma mb q =
      let wa : WellNamed s.seq a = All-In (WellNamed s.seq) v.named ma in
      let wb : WellNamed s.seq b = All-In (WellNamed s.seq) v.named mb in
      Ascending-unique v.ascending ma mb (name-injective a.seq b.seq (cc (wa.1, wb.1)))

  -- An id is among those of the records that a query answers exactly when the query answers the
  -- record that it names.
  targeted :
      (f : Filter) (s : Store F) (a : Annotation F)
      → IsValid s
      → In a s.items
      → contains a.id (map id_of (filter_annotations s.items f)) ≡ true
      → In a (filter_annotations s.items f)
  targeted f s a v m h =
      let (b, mb, q) = ids-contains a.id (filter_annotations s.items f) h in
      let mb' = ((filter_annotations_sound s.items f).0 b mb).0 in
      let e : b ≡ a = id_unique s v mb' m q in rw e at mb

  remove-items :
      (f : Filter) (written shots_written shots_retried : Bool) (s : Store F)
      → (remove f written shots_written shots_retried s).1.items
        ≡ filter (λ it. not (contains it.id (map id_of (filter_annotations s.items f)))) s.items
  unfolding remove persist_items persist_shots touch contains
  remove-items f written shots_written shots_retried s = elim (Bool-cases (0 == length targets)) [
    | inl e ↦ rw e (nothing targets (ground arith) s.items)
    | inr e ↦ ground (arith, e)
  ]
    where
      targets : List (Annotation F)
      targets = filter_annotations s.items f

      nothing :
          (ts : List (Annotation F))
          → length ts ≡ 0
          → (xs : List (Annotation F)) → xs ≡ filter (λ it. not (contains it.id (map id_of ts))) xs
      nothing [] e [] = refl
      nothing [] e (x ∷ xs) = ap (x ∷◌) (nothing [] e xs)
      nothing (t ∷ ts) e xs = absurd (omega arith)

  spared :
      (f : Filter) (s : Store F) (a : Annotation F)
      → IsValid s
      → In a s.items
      → passes f a ≡ false
      → contains a.id (map id_of (filter_annotations s.items f)) ≡ false
  spared f s a v m fails =
      elim (Bool-cases (contains a.id (map id_of (filter_annotations s.items f)))) [
        | inr out ↦ out
        | inl hit ↦
            let t = (filter_annotations_sound s.items f).0 a (targeted f s a v m hit) in
            cc (t.1, fails)
      ]

  -- Deleting by any filter leaves the records that do not pass it.
  pub remove-spares :
      (f : Filter) (written shots_written shots_retried : Bool) (s : Store F) (a : Annotation F)
      → IsValid s
      → In a s.items
      → passes f a ≡ false
      → In a (remove f written shots_written shots_retried s).1.items
  remove-spares f written shots_written shots_retried s a v m fails =
      rw (remove-items f written shots_written shots_retried s) (
        filter-In (λ it. not (contains it.id (map id_of (filter_annotations s.items f)))) m
          (rw (spared f s a v m fails) refl))

  -- Deleting by a filter without a limit deletes the records that pass it and no others.
  pub remove-exact :
      (f : Filter) (written shots_written shots_retried : Bool) (s : Store F)
      → IsValid s
      → f.limit ≡ none
      → (a : Annotation F)
      → In a (remove f written shots_written shots_retried s).1.items
        ↔ (In a s.items × (passes f a ≡ false))
  remove-exact f written shots_written shots_retried s v unlimited a =
      rw (remove-items f written shots_written shots_retried s) (kept, stays)
    where
      outside : Annotation F → Bool
      outside it = not (contains it.id (map id_of (filter_annotations s.items f)))

      kept : In a (filter outside s.items) → In a s.items × (passes f a ≡ false)
      kept m =
          let t = In-filter outside s.items m in
          (
            t.0,
            elim (Bool-cases (passes f a)) [
              | inr no_match ↦ no_match
              | inl match ↦
                  let target = (filter_annotations_complete s.items f a t.0 match).1 unlimited in
                  ground (arith, contains-ids target, t.1)
            ],
          )

      stays : In a s.items × (passes f a ≡ false) → In a (filter outside s.items)
      stays (m, fails) = filter-In outside m (rw (spared f s a v m fails) refl)

  patch-items :
      (f : Filter) (changes : Changes) (stamp : Text) (written : Bool) (s : Store F)
      → (patch f changes stamp written s).1.items
        ≡ patch_items (map id_of (filter_annotations s.items f)) changes stamp s.items
  unfolding patch persist_items touch
  patch-items f changes stamp written s = ground arith

  module _ (ids : List Text) (changes : Changes) (stamp : Text) (items : List (Annotation F))
      (a : Annotation F) where
    moved :
        In a items
        → contains a.id ids ≡ true
        → In (apply_changes changes stamp a) (patch_items ids changes stamp items)
    unfolding patch_items
    moved m h =
        let e : (if contains a.id ids then apply_changes changes stamp a else a)
            ≡ apply_changes changes stamp a =
          rw h in
        rw e at (In-map (λ it. if contains it.id ids then apply_changes changes stamp it else it) m)

    stayed : In a items → contains a.id ids ≡ false → In a (patch_items ids changes stamp items)
    unfolding patch_items
    stayed m h =
        let e : (if contains a.id ids then apply_changes changes stamp a else a) ≡ a = rw h in
        rw e at (In-map (λ it. if contains it.id ids then apply_changes changes stamp it else it) m)

  -- A patch changes the records that its filter answers, each in the way that was asked for, and
  -- leaves every other record as it was.
  pub patch-exact :
      (f : Filter) (changes : Changes) (stamp : Text) (written : Bool) (s : Store F)
      → IsValid s
      → (a : Annotation F) → In a s.items
      → (In a (filter_annotations s.items f)
          → In (apply_changes changes stamp a) (patch f changes stamp written s).1.items)
        × (passes f a ≡ false → In a (patch f changes stamp written s).1.items)
  patch-exact f changes stamp written s v a m =
      rw (patch-items f changes stamp written s) (changed, untouched)
    where
      ids : List Text
      ids = map id_of (filter_annotations s.items f)

      changed :
          In a (filter_annotations s.items f)
          → In (apply_changes changes stamp a) (patch_items ids changes stamp s.items)
      changed t = moved ids changes stamp s.items a m (contains-ids t)

      untouched : passes f a ≡ false → In a (patch_items ids changes stamp s.items)
      untouched fails = stayed ids changes stamp s.items a m (spared f s a v m fails)
