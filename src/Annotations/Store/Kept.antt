-- ===== src/Annotations/Store/Kept.antt =====
-- Every operation of store.js keeps the invariant, whether the writes to storage succeed or fail.
use open_webbridge.Base.{
  ℕ, ◌+◌, ◌-◌, ◌≤◌, ◌≡◌, refl, inl, inr, Text, lit, text_keys, is_empty, decimal, length, filter,
  length-filter, contains, insert, keys, map, All-append, All-drop, All-filter, All-imp, Ascending,
  Ascending-snoc, Ascending-drop, Ascending-filter, Ascending→Sorted, sort_by_self, take_last,
  length-take_last, Table, Bool, not, Option, List, [], ◌∷◌, ◌++◌, Bool-cases, arith, if◌then◌else◌,
  any, has, ◌==◌,
}
use open_webbridge.Annotations.Record.{Float, Annotation, RawInput, Filter}
use open_webbridge.Annotations.Model.{
  seq_of, id_of, make_record, prune_items, shot_ids_to_keep, filter_annotations, max_annotations,
  max_shots,
}
use open_webbridge.Annotations.Model.Pruning.{prune_items-take_last, shot_ids_to_keep-live}
use open_webbridge.Annotations.Store.{
  Store, Changes, load, retain, discard, touch, persist_items, add, apply_changes, patch_items,
  patch, remove, mark_shot, set_shot,
}
use open_webbridge.Annotations.Store.Shots.{
  Distinct, length-retain, retain-Distinct, discard-Distinct, length-discard, insert-Distinct,
}
use open_webbridge.Annotations.Store.Invariant.{
  WellNamed, IsValid, IsDurable, make_record-seq, make_record-id, map-IsValid, touch-IsDurable,
  persist_items-IsDurable, persist_shots-IsDurable,
}

module _ {F : Type 0} where
  numbered-IsValid : (s : Store F) → IsValid s → IsValid (record s { seq = s.seq + 1 })
  numbered-IsValid s v = record {
    ascending = v.ascending;
    named = All-imp (λ y w. let le : y.seq ≤ s.seq = w.0 in (omega arith, w.1)) s.items v.named;
    capped = v.capped;
    distinct = v.distinct;
    shots_capped = v.shots_capped;
  }

  module _ (float : Float F) (strip_hash : Text → Option Text) where
    grow-IsValid :
        (s : Store F) (it : Annotation F)
        → it.seq ≡ s.seq + 1
        → it.id ≡ lit "a" ++ decimal it.seq
        → IsValid s
        → IsValid
            (record s { seq = s.seq + 1; items = prune_items (s.items ++ it ∷ []) max_annotations })
    grow-IsValid s it e n v =
        let up : Ascending seq_of (s.items ++ it ∷ []) =
          Ascending-snoc seq_of s.items it v.ascending
            (All-imp (λ y w. let le : y.seq ≤ s.seq = w.0 in omega arith) s.items v.named) in
        let q : prune_items (s.items ++ it ∷ []) max_annotations
            ≡ take_last max_annotations (s.items ++ it ∷ []) =
          rw (
            prune_items-take_last (s.items ++ it ∷ []) max_annotations,
            sort_by_self seq_of (s.items ++ it ∷ [])
                (Ascending→Sorted seq_of (s.items ++ it ∷ []) up),
          ) in
        record {
          ascending = rw q (
              Ascending-drop seq_of (length (s.items ++ it ∷ []) - max_annotations)
                (s.items ++ it ∷ []) up);
          named = rw q (
              All-drop (WellNamed (s.seq + 1)) (length (s.items ++ it ∷ []) - max_annotations)
                (s.items ++ it ∷ [])
                (All-append (WellNamed (s.seq + 1)) s.items (it ∷ [])
                  (All-imp (λ y w. let le : y.seq ≤ s.seq = w.0 in (omega arith, w.1)) s.items
                    v.named)
                  ((omega arith, n), tt)));
          capped = rw q (length-take_last max_annotations (s.items ++ it ∷ []));
          distinct = v.distinct;
          shots_capped = v.shots_capped;
        }

    -- A submission, stored or refused, keeps the invariant.
    pub add-IsDurable :
        (input : RawInput F) (tab_id : Option ℕ) (session stamp : Text) (written : Bool)
        (s : Store F)
        → IsDurable s
        → IsDurable (add float strip_hash input tab_id session stamp written s).1
    unfolding add load
    add-IsDurable input tab_id session stamp written s v = elim (Bool-cases (is_empty it.comment)) [
      | inl e ↦ rw e (numbered-IsValid s v.0, v.1)
      | inr e ↦ rw e (
          persist_items-IsDurable written _
            (touch-IsDurable _ (grow-IsValid s it seq_is name_is v.0, v.1)))
    ]
      where
        it : Annotation F
        it = make_record float strip_hash (s.seq + 1) input tab_id session stamp

        seq_is : it.seq ≡ s.seq + 1
        seq_is = make_record-seq float strip_hash (s.seq + 1) input tab_id session stamp

        name_is : it.id ≡ lit "a" ++ decimal it.seq
        name_is = make_record-id float strip_hash (s.seq + 1) input tab_id session stamp

  patched-IsValid :
      (ids : List Text) (changes : Changes) (stamp : Text) (s : Store F)
      → IsValid s
      → IsValid (record s { items = patch_items ids changes stamp s.items })
  unfolding patch_items apply_changes
  patched-IsValid ids changes stamp s v =
      map-IsValid (λ it. if contains it.id ids then apply_changes changes stamp it else it)
        (λ it. ground arith) (λ it. ground arith) s v

  marked-IsValid :
      (id : Text) (kept : Table Text Text) (s : Store F)
      → Distinct (keys kept)
      → length kept ≤ max_shots
      → IsValid s
      → IsValid (record s { items = map (mark_shot id kept) s.items; shots = kept })
  unfolding mark_shot
  marked-IsValid id kept s d few v =
      let w = map-IsValid (mark_shot id kept) (λ it. refl) (λ it. refl) s v in
      record {
        ascending = w.ascending;
        named = w.named;
        capped = w.capped;
        distinct = d;
        shots_capped = few;
      }

  -- A patch keeps the invariant.
  pub patch-IsDurable :
      (f : Filter) (changes : Changes) (stamp : Text) (written : Bool) (s : Store F)
      → IsDurable s
      → IsDurable (patch f changes stamp written s).1
  unfolding patch load
  patch-IsDurable f changes stamp written s v = elim (Bool-cases (0 == length targets)) [
    | inl e ↦ rw e patched
    | inr e ↦ rw e (persist_items-IsDurable written _ (touch-IsDurable _ patched))
  ]
    where
      targets : List (Annotation F)
      targets = filter_annotations s.items f

      ids : List Text
      ids = map id_of targets

      patched : IsDurable (record s { items = patch_items ids changes stamp s.items })
      patched = (patched-IsValid ids changes stamp s v.0, v.1)

  -- Deleting records and their screenshots keeps the invariant.
  pub remove-IsDurable :
      (f : Filter) (written shots_written shots_retried : Bool) (s : Store F)
      → IsDurable s
      → IsDurable (remove f written shots_written shots_retried s).1
  unfolding remove load
  remove-IsDurable f written shots_written shots_retried s v =
      elim (Bool-cases (0 == length targets)) [
        | inl e ↦ rw e v
        | inr e ↦ elim (Bool-cases (any (λ id. has id s.shots) kill)) [
          | inl d ↦ rw (e, d) (persist_shots-IsDurable shots_written shots_retried _ gone)
          | inr d ↦ rw (e, d) gone
        ]
      ]
    where
      targets : List (Annotation F)
      targets = filter_annotations s.items f

      kill : List Text
      kill = map id_of targets

      left : List (Annotation F)
      left = filter (λ it. not (contains it.id kill)) s.items

      gone :
          IsDurable (
            persist_items written (touch (record s { items = left; shots = discard kill s.shots })))
      gone = persist_items-IsDurable written _ (
          touch-IsDurable _ (
            record {
              ascending =
                  Ascending-filter seq_of (λ it. not (contains it.id kill)) s.items v.0.ascending;
              named =
                  All-filter (WellNamed s.seq) (λ it. not (contains it.id kill)) s.items v.0.named;
              capped =
                  omega
                    (arith, length-filter (λ it. not (contains it.id kill)) s.items, v.0.capped);
              distinct = discard-Distinct kill s.shots v.0.distinct;
              shots_capped = omega (arith, length-discard kill s.shots, v.0.shots_capped);
            },
            v.1,
          ))

  -- Storing a screenshot keeps the invariant: what is over the cap is evicted.
  pub set_shot-IsDurable :
      (id data_url : Text) (shots_written shots_retried written : Bool) (s : Store F)
      → IsDurable s
      → IsDurable (set_shot id data_url shots_written shots_retried written s).1
  unfolding set_shot load
  set_shot-IsDurable id data_url shots_written shots_retried written s v =
      elim (Bool-cases (is_empty data_url)) [
        | inl e ↦ rw e v
        | inr e ↦ rw e (
            persist_items-IsDurable written _
              (persist_shots-IsDurable shots_written shots_retried _ (touch-IsDurable _ marked)))
      ]
    where
      put : Table Text Text
      put = insert id data_url s.shots

      keep : List Text
      keep = shot_ids_to_keep s.items (keys put) max_shots

      put_distinct : Distinct (keys put)
      put_distinct = insert-Distinct id data_url s.shots v.0.distinct

      marked : IsDurable (record s {
        items = map (mark_shot id (retain keep put)) s.items;
        shots = retain keep put;
      })
      marked = (
        marked-IsValid id (retain keep put) s (retain-Distinct keep put put_distinct) few v.0,
        v.1,
      )
        where
          few : length (retain keep put) ≤ max_shots
          few = omega (
            arith,
            length-retain keep put put_distinct,
            (shot_ids_to_keep-live s.items (keys put) max_shots).0,
          )
