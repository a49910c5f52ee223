-- ===== src/Annotations/Store/Submission.antt =====
-- Reading a submission back (`add` and `get` of store.js).
use open_webbridge.Base.{
  ℕ, zero, suc, ◌+◌, ◌-◌, ◌≤◌, ◌<◌, ◌≡◌, refl, ap, inl, inr, Text, lit, text_eq, text_eq_iff,
  text_eq_refl, is_empty, decimal, decimal-injective, length, length-append, drop, find, All,
  All-imp, All-drop, sort_by_self, Ascending→Sorted, Ascending-snoc, Ascending, Bool, true, false,
  Option, some, List, [], ◌∷◌, ◌++◌, Bool-cases, arith, ok,
}
use open_webbridge.Annotations.Record.{Float, Annotation, RawInput}
use open_webbridge.Annotations.Model.{make_record, prune_items, max_annotations, seq_of}
use open_webbridge.Annotations.Model.Pruning.{prune_items-take_last}
use open_webbridge.Annotations.Store.{Store, load, touch, persist_items, get, add}
use open_webbridge.Annotations.Store.Invariant.{IsValid, WellNamed, make_record-seq, make_record-id}

module _ {ℓ} {A : Type ℓ} where
  drop-snoc :
      (n : ℕ) (xs : List A) (x : A) → n ≤ length xs → drop n (xs ++ x ∷ []) ≡ drop n xs ++ x ∷ []
  drop-snoc zero xs x h = refl
  drop-snoc (suc n) [] x h = absurd (omega arith)
  drop-snoc (suc n) (y ∷ ys) x h = drop-snoc n ys x (omega arith)

  find-snoc :
      (p : A → Bool) (xs : List A) (x : A)
      → All (λ y. p y ≡ false) xs
      → p x ≡ true
      → find p (xs ++ x ∷ []) ≡ some x
  find-snoc p [] x h e = rw e
  find-snoc p (y ∷ ys) x h e = rw h.0 (find-snoc p ys x h.1 e)

pub name-injective : (m n : ℕ) → lit "a" ++ decimal m ≡ lit "a" ++ decimal n → m ≡ n
name-injective m n e = decimal-injective m n (ap (drop 1) e)

module _ {F : Type 0} (float : Float F) (strip_hash : Text → Option Text) where
  -- Pruning keeps a record that is newer than all others, as the last one.
  prune_items-snoc :
      (items : List (Annotation F)) (it : Annotation F)
      → Ascending seq_of items
      → All (λ y. y.seq < it.seq) items
      → prune_items (items ++ it ∷ []) max_annotations
        ≡ drop (suc (length items) - max_annotations) items ++ it ∷ []
  prune_items-snoc items it a b =
      let n : length (items ++ it ∷ []) ≡ suc (length items) =
        omega (arith, length-append items (it ∷ [])) in
      rw
        (
          prune_items-take_last (items ++ it ∷ []) max_annotations,
          sort_by_self seq_of (items ++ it ∷ [])
              (Ascending→Sorted seq_of (items ++ it ∷ []) (Ascending-snoc seq_of items it a b)),
          n,
        )
        (drop-snoc (suc (length items) - max_annotations) items it (omega arith))

  other_name :
      (n : ℕ) (it y : Annotation F)
      → it.seq ≡ suc n
      → it.id ≡ lit "a" ++ decimal it.seq
      → WellNamed n y
      → text_eq y.id it.id ≡ false
  other_name n it y e named w = elim (Bool-cases (text_eq y.id it.id)) [
    | inr ne ↦ ne
    | inl same ↦
        let q : lit "a" ++ decimal y.seq ≡ lit "a" ++ decimal it.seq =
          cc (w.1, named, (text_eq_iff y.id it.id).0 same) in
        let k : y.seq ≡ it.seq = name-injective y.seq it.seq q in
        let le : y.seq ≤ n = w.0 in absurd (omega arith)
  ]

  module _ (input : RawInput F) (tab_id : Option ℕ) (session stamp : Text) where
    -- What an accepted submission leaves in the store: the others, without the oldest where the
    -- cap is reached, and the new record.
    pub add-items :
        (s : Store F)
        → IsValid s
        → (it : Annotation F) → (add float strip_hash input tab_id session stamp true s).0 ≡ ok it
        → ((add float strip_hash input tab_id session stamp true s).1.items
            ≡ drop (suc (length s.items) - max_annotations) s.items ++ it ∷ [])
          × ((load (add float strip_hash input tab_id session stamp true s).1).items
              ≡ drop (suc (length s.items) - max_annotations) s.items ++ it ∷ [])
          × (it.seq ≡ suc s.seq)
          × (it.id ≡ lit "a" ++ decimal it.seq)
    unfolding add touch persist_items load
    add-items s v it accepted = elim (Bool-cases (is_empty made.comment)) [
      | inl e ↦ ground (arith, e)
      | inr e ↦
          let q : it ≡ made = ground (arith, e) in
          rw (q, e)
            (
              kept,
              kept,
              made_seq,
              make_record-id float strip_hash (s.seq + 1) input tab_id session stamp,
            )
    ]
      where
        made : Annotation F
        made = make_record float strip_hash (s.seq + 1) input tab_id session stamp

        made_seq : made.seq ≡ suc s.seq
        made_seq =
            omega (arith, make_record-seq float strip_hash (s.seq + 1) input tab_id session stamp)

        kept :
            prune_items (s.items ++ made ∷ []) max_annotations
            ≡ drop (suc (length s.items) - max_annotations) s.items ++ made ∷ []
        kept = prune_items-snoc s.items made v.ascending (
            All-imp (λ y w. let le : y.seq ≤ s.seq = w.0 in omega (arith, made_seq)) s.items
              v.named)

    -- A submission that is accepted and saved is found under its id, at once and after the service
    -- worker has started again.
    pub get-add :
        (s : Store F)
        → IsValid s
        → (it : Annotation F) → (add float strip_hash input tab_id session stamp true s).0 ≡ ok it
        → (get it.id (add float strip_hash input tab_id session stamp true s).1 ≡ some it)
          × (get it.id (load (add float strip_hash input tab_id session stamp true s).1) ≡ some it)
    unfolding get
    get-add s v it accepted = let k = add-items s v it accepted in (rw k.0 found, rw k.1 found)
      where
        older : List (Annotation F)
        older = drop (suc (length s.items) - max_annotations) s.items

        others : All (λ y. text_eq y.id it.id ≡ false) older
        others =
            let k = add-items s v it accepted in
            All-drop (λ y. text_eq y.id it.id ≡ false) (suc (length s.items) - max_annotations)
              s.items (All-imp (λ y w. other_name s.seq it y k.2 k.3 w) s.items v.named)

        found : find (λ y. text_eq y.id it.id) (older ++ it ∷ []) ≡ some it
        found = find-snoc (λ y. text_eq y.id it.id) older it others (text_eq_refl it.id)
