-- ===== src/Annotations/Store/Invariant.antt =====
-- The invariant of the annotation store, and that saving keeps it (store.js).
use open_webbridge.Base.{
  ℕ, zero, suc, ◌+◌, ◌≤◌, ◌≡◌, refl, Text, lit, text_keys, decimal, length, length-map, take, keys,
  map, All, All-imp, All-of-map, Ascending, Ascending-map, Table, Bool, true, false, Option, List,
  ◌++◌, arith, if◌then◌else◌, ◌/◌, ◌==◌,
}
use open_webbridge.Annotations.Record.{Float, Annotation, RawInput}
use open_webbridge.Annotations.Model.{seq_of, make_record, max_annotations, max_shots}
use open_webbridge.Annotations.Store.{Store, load, discard, touch, persist_items, persist_shots}
use open_webbridge.Annotations.Store.Shots.{Distinct, discard-Distinct, length-discard}

-- A record is named by its number, and numbered below the store's counter.
abbrev pub WellNamed : {F : Type 0} → ℕ → Annotation F → Type 0
WellNamed n it = (it.seq ≤ n) × (it.id ≡ lit "a" ++ decimal it.seq)

-- The records stand in creation order with no number twice, at most 500 of them; at most 30
-- screenshots, each under a key of its own.
pub record IsValid {F : Type 0} (s : Store F) : Type 0 where
  pub ascending : Ascending seq_of s.items
  pub named : All (WellNamed s.seq) s.items
  pub capped : length s.items ≤ max_annotations
  pub distinct : Distinct (keys s.shots)
  pub shots_capped : length s.shots ≤ max_shots

-- A valid store, from which a restart would load a valid store.
abbrev pub IsDurable : {F : Type 0} → Store F → Type 0
IsDurable s = IsValid s × IsValid (load s)

module _ {F : Type 0} (float : Float F) (strip_hash : Text → Option Text) where
  pub make_record-seq :
      (seq : ℕ) (input : RawInput F) (tab_id : Option ℕ) (session stamp : Text)
      → (make_record float strip_hash seq input tab_id session stamp).seq ≡ seq
  unfolding make_record
  make_record-seq seq input tab_id session stamp = refl

  pub make_record-id :
      (seq : ℕ) (input : RawInput F) (tab_id : Option ℕ) (session stamp : Text)
      → (make_record float strip_hash seq input tab_id session stamp).id
        ≡ lit "a" ++ decimal (make_record float strip_hash seq input tab_id session stamp).seq
  unfolding make_record
  make_record-id seq input tab_id session stamp = refl

module _ {F : Type 0} where
  -- What changes records one by one, and leaves their numbers and names, keeps the invariant.
  pub map-IsValid :
      (f : Annotation F → Annotation F)
      → ((it : Annotation F) → (f it).seq ≡ it.seq)
      → ((it : Annotation F) → (f it).id ≡ it.id)
      → (s : Store F) → IsValid s
      → IsValid (record s { items = map f s.items })
  map-IsValid f same_seq same_id s v = record {
    ascending = Ascending-map seq_of f same_seq s.items v.ascending;
    named = All-of-map (WellNamed s.seq) f s.items (
        All-imp (λ it w. (rw (same_seq it) w.0, rw (same_seq it, same_id it) w.1)) s.items v.named);
    capped = rw (length-map f s.items) v.capped;
    distinct = v.distinct;
    shots_capped = v.shots_capped;
  }

  pub touch-IsDurable : (s : Store F) → IsDurable s → IsDurable (touch s)
  unfolding touch load
  touch-IsDurable s d = (same_data s d.0, d.1)
    where
      same_data : (t : Store F) → IsValid t → IsValid (record t { revision = s.revision + 1 })
      same_data t v = record {
        ascending = v.ascending;
        named = v.named;
        capped = v.capped;
        distinct = v.distinct;
        shots_capped = v.shots_capped;
      }

  -- The counter that is loaded is not below any record's number.
  counter-named :
      (n : ℕ) (items : List (Annotation F))
      → All (WellNamed n) items
      → All (WellNamed (if n == 0 then length items else n)) items
  counter-named zero items h =
      All-imp (λ it w. let le : it.seq ≤ 0 = w.0 in (omega arith, w.1)) items h
  counter-named (suc n) items h = rw nonzero h
    where
      nonzero : (suc n == 0) ≡ false
      nonzero = ground arith

  pub persist_items-IsDurable :
      (written : Bool) (s : Store F) → IsDurable s → IsDurable (persist_items written s)
  unfolding persist_items load
  persist_items-IsDurable true s (v, l) = (
    record {
      ascending = v.ascending;
      named = v.named;
      capped = v.capped;
      distinct = v.distinct;
      shots_capped = v.shots_capped;
    },
    record {
      ascending = v.ascending;
      named = counter-named s.seq s.items v.named;
      capped = v.capped;
      distinct = l.distinct;
      shots_capped = l.shots_capped;
    },
  )
  persist_items-IsDurable false s d = d

  -- Saving the screenshots keeps the invariant.
  with_shots :
      (m : Table Text Text) (s t : Store F)
      → IsValid s
      → Distinct (keys m)
      → length m ≤ max_shots
      → t.seq ≡ s.seq
      → t.items ≡ s.items
      → t.shots ≡ m
      → IsValid t
  with_shots m s t v d c es ei em = record {
    ascending = rw ei v.ascending;
    named = rw (es, ei) v.named;
    capped = rw ei v.capped;
    distinct = rw em d;
    shots_capped = rw em c;
  }

  pub persist_shots-IsDurable :
      (written retried : Bool) (s : Store F)
      → IsDurable s
      → IsDurable (persist_shots written retried s)
  unfolding persist_shots load
  persist_shots-IsDurable written retried s (v, l) = go written retried
    where
      kill : List Text
      kill = take ((length (keys s.shots) + 1) / 2) (keys s.shots)

      d : Distinct (keys (discard kill s.shots))
      d = discard-Distinct kill s.shots v.distinct

      c : length (discard kill s.shots) ≤ max_shots
      c = omega (arith, length-discard kill s.shots, v.shots_capped)

      go : (w r : Bool) → IsDurable (persist_shots w r s)
      go true r = (
        with_shots s.shots s _ v v.distinct v.shots_capped refl refl refl,
        with_shots s.shots (load s) _ l v.distinct v.shots_capped refl refl refl,
      )
      go false true = (
        with_shots (discard kill s.shots) s _ v d c refl refl refl,
        with_shots (discard kill s.shots) (load s) _ l d c refl refl refl,
      )
      go false false = (with_shots (discard kill s.shots) s _ v d c refl refl refl, l)
