-- ===== src/Annotations/Store/Screenshots.antt =====
-- Whether a record that advertises a screenshot has one.
use open_webbridge.Base.{
  ℕ, ◌≡◌, refl, ap, sort_by, inl, inr, Text, text_keys, text_eq_iff, text_eq_refl, is_empty, length,
  filter, contains, lookup, insert, lookup-insert, has, keys, map, any, All, All-of-map, In, In-All,
  All-In, In-filter, In-map, Table, Bool, true, false, not, none, List, [], ◌∷◌, Bool-cases, arith,
  ◌==◌, here, there,
}
use open_webbridge.Annotations.Record.{Annotation, Filter}
use open_webbridge.Annotations.Model.{
  id_of, filter_annotations, shot_ids_to_keep, by_seq, max_shots,
}
use open_webbridge.Annotations.Store.{
  Store, retain, discard, touch, persist_items, persist_shots, remove, mark_shot, set_shot,
  get_shot,
}
use open_webbridge.Annotations.Store.Shots.{lookup-discard}

abbrev pub Backed : {F : Type 0} → Table Text Text → Annotation F → Type 0
Backed shots it = it.has_screenshot ≡ true → has it.id shots ≡ true

-- Every record that advertises a screenshot has one.
abbrev pub IsHonest : {F : Type 0} → Store F → Type 0
IsHonest s = All (Backed s.shots) s.items

has-discard :
    (kill : List Text) (k : Text) (m : Table Text Text)
    → contains k kill ≡ false
    → has k m ≡ true
    → has k (discard kill m) ≡ true
unfolding has
has-discard kill k m out h = ground (arith, lookup-discard kill k m)

module _ {F : Type 0} where
  persist_items-IsHonest :
      (written : Bool) (s : Store F) → IsHonest s → IsHonest (persist_items written s)
  unfolding persist_items
  persist_items-IsHonest true s h = h
  persist_items-IsHonest false s h = h

  mark_shot-Backed :
      (id : Text) (kept : Table Text Text) (it : Annotation F) → Backed kept (mark_shot id kept it)
  unfolding mark_shot
  mark_shot-Backed id kept it = ground arith

  -- After a screenshot is stored, and the write of the screenshots succeeds, every record that
  -- advertises a screenshot has one, also those whose image was evicted.
  pub set_shot-IsHonest :
      (id data_url : Text) (shots_retried written : Bool) (s : Store F)
      → IsHonest s
      → IsHonest (set_shot id data_url true shots_retried written s).1
  unfolding set_shot persist_shots touch
  set_shot-IsHonest id data_url shots_retried written s h = elim (Bool-cases (is_empty data_url)) [
    | inl e ↦ rw e h
    | inr e ↦ rw e (
        persist_items-IsHonest written _ (
          marked (
            retain (shot_ids_to_keep s.items (keys (insert id data_url s.shots)) max_shots)
              (insert id data_url s.shots))))
  ]
    where
      marked : (kept : Table Text Text) → All (Backed kept) (map (mark_shot id kept) s.items)
      marked kept = All-of-map (Backed kept) (mark_shot id kept) s.items (
          In-All (λ it. Backed kept (mark_shot id kept it)) s.items
            (λ it _. mark_shot-Backed id kept it))

  -- Deleting records leaves the screenshots of the others, where the write succeeds.
  pub remove-IsHonest :
      (f : Filter) (written shots_retried : Bool) (s : Store F)
      → IsHonest s
      → IsHonest (remove f written true shots_retried s).1
  unfolding remove persist_shots touch
  remove-IsHonest f written shots_retried s h = elim (Bool-cases (0 == length targets)) [
    | inl e ↦ rw e h
    | inr e ↦ elim (Bool-cases (any (λ id. has id s.shots) kill)) [
      | inl d ↦ rw (e, d) (persist_items-IsHonest written (touch gone) left_IsHonest)
      | inr d ↦ rw (e, d) (persist_items-IsHonest written _ left_IsHonest)
    ]
  ]
    where
      targets : List (Annotation F)
      targets = filter_annotations s.items f

      kill : List Text
      kill = map id_of targets

      stays : Annotation F → Bool
      stays it = not (contains it.id kill)

      left_IsHonest : All (Backed (discard kill s.shots)) (filter stays s.items)
      left_IsHonest = In-All (Backed (discard kill s.shots)) (filter stays s.items) (λ it m shown.
          let t = In-filter stays s.items m in
          let backed : Backed s.shots it = All-In (Backed s.shots) h t.0 in
          has-discard kill it.id s.shots (ground arith) (backed shown))

      gone : Store F
      gone = record s { items = filter stays s.items; shots = discard kill s.shots }

  by_seq-keeps :
      (m : Table Text ℕ) (items : List (Annotation F)) (id : Text)
      → has id m ≡ true
      → has id (by_seq m items) ≡ true
  unfolding by_seq has
  by_seq-keeps m [] id h = h
  by_seq-keeps m (a ∷ items) id h =
      by_seq-keeps (insert a.id a.seq m) items id (ground (arith, lookup-insert a.id id a.seq m))

  by_seq-has :
      {it : Annotation F} (m : Table Text ℕ) {items : List (Annotation F)}
      → In it items
      → has it.id (by_seq m items) ≡ true
  unfolding by_seq has
  by_seq-has {it} m {items = a ∷ items} (here e) = by_seq-keeps (insert a.id a.seq m) items it.id (
      ground (
        arith,
        lookup-insert a.id it.id a.seq m,
        text_eq_iff a.id it.id,
        ap (λ (x : Annotation F). x.id) e,
      ))
  by_seq-has m {items = a ∷ items} (there p) = by_seq-has (insert a.id a.seq m) p
  by_seq-has m {items = []} p = elim p [ ]

  -- The image of a stored record, where it is the only one, is kept.
  keep-only :
      (it : Annotation F) (items : List (Annotation F))
      → In it items
      → shot_ids_to_keep items (it.id ∷ []) max_shots ≡ it.id ∷ []
  unfolding shot_ids_to_keep sort_by
  keep-only it items m = rw (by_seq-has [] m)

  kept-only :
      (it : Annotation F) (data_url : Text) (items : List (Annotation F)) (shots : Table Text Text)
      → In it items
      → shots ≡ []
      → retain
          (shot_ids_to_keep items (keys (insert it.id data_url shots)) max_shots)
          (insert it.id data_url shots)
        ≡ (it.id, data_url) ∷ []
  unfolding insert retain contains
  kept-only it data_url items shots m e =
      rw (e, keep-only it items m) (ground (arith, text_eq_refl it.id))

  advertises :
      (it : Annotation F) (data_url : Text) {items : List (Annotation F)}
      → In it items
      → (a : Annotation F) × In a (map (mark_shot it.id ((it.id, data_url) ∷ [])) items)
        × (a.id ≡ it.id)
        × (a.has_screenshot ≡ true)
  unfolding mark_shot has lookup
  advertises it data_url m = (
    mark_shot it.id ((it.id, data_url) ∷ []) it,
    In-map (mark_shot it.id ((it.id, data_url) ∷ [])) m,
    refl,
    ground (arith, text_eq_refl it.id),
  )

  -- A screenshot that is the only one, and whose write fails, is dropped again, and its record
  -- goes on advertising it.
  pub set_shot-unbacked :
      (it : Annotation F) (data_url : Text) (retried written : Bool) (s : Store F)
      → In it s.items
      → s.shots ≡ []
      → is_empty data_url ≡ false
      → ((set_shot it.id data_url false retried written s).0 ≡ false)
        × (get_shot it.id (set_shot it.id data_url false retried written s).1 ≡ none)
        × ((a : Annotation F) × In a (set_shot it.id data_url false retried written s).1.items
            × (a.id ≡ it.id)
            × (a.has_screenshot ≡ true))
  unfolding set_shot persist_shots persist_items touch get_shot discard contains has lookup
  set_shot-unbacked it data_url true true s m none_yet given =
      simp (given, kept-only it data_url s.items s.shots m none_yet, text_eq_refl it.id)
        (refl, refl, advertises it data_url m)
  set_shot-unbacked it data_url true false s m none_yet given =
      simp (given, kept-only it data_url s.items s.shots m none_yet, text_eq_refl it.id)
        (refl, refl, advertises it data_url m)
  set_shot-unbacked it data_url false true s m none_yet given =
      simp (given, kept-only it data_url s.items s.shots m none_yet, text_eq_refl it.id)
        (refl, refl, advertises it data_url m)
  set_shot-unbacked it data_url false false s m none_yet given =
      simp (given, kept-only it data_url s.items s.shots m none_yet, text_eq_refl it.id)
        (refl, refl, advertises it data_url m)
