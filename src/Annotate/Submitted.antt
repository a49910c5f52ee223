-- ===== src/Annotate/Submitted.antt =====
-- From a submission of the page to the list of the agent (mode.js, store.js, annotate.js).
use open_webbridge.Base.{
  ℕ, ◌+◌, ◌≡◌, refl, sym, ap, subst, ◌∙◌, Result-cases, inl, inr, Text, lit, to_lower, text_eq,
  text_eq_iff, is_empty, find, map, drop, In, here, there, In-map, In-append_right, length,
  contains, text_keys, ◌-◌, suc, Bool, true, false, Bool-cases, Option, none, some, or_else, List,
  [], ◌∷◌, Result, ok, err, if◌then◌else◌, if_cases, arith,
}
use open_webbridge.Annotations.Record.{Float, Annotation, RawInput}
use open_webbridge.Annotations.Model.{make_record, passes, max_annotations}
use open_webbridge.Annotations.Model.Query.{filter_annotations_complete}
use open_webbridge.Annotations.Model.Wire.{Wire, to_wire}
use open_webbridge.Annotations.Store.{
  Store, StoreError, list, add, get, set_shot, mark_shot, persist_items, persist_shots, touch,
}
use open_webbridge.Annotations.Store.Invariant.{IsValid}
use open_webbridge.Annotations.Store.Submission.{add-items}
use open_webbridge.Annotations.Store.Wait.{Poll}
use open_webbridge.Annotate.{Desk, World}
use open_webbridge.Annotate.Pages.{
  add_note, PageReply, added, id_in, replied, add_from_page, handle_page_message,
}
use open_webbridge.Annotate.Args.{no_args, normalize_status, ids_of, build_filter}
use open_webbridge.Annotate.Operations.{
  StatusLine, listed, wait_of_args, status_line, list_op, annotations,
}
use open_webbridge.Annotate.Shown.{store-sync}

module _ {F : Type 0} where
  -- A record that is open and has this id.
  abbrev pub HasOpen : Text → List (Annotation F) → Type 0
  HasOpen id items = (it : Annotation F) × In it items × (it.id ≡ id) × (it.status ≡ lit "open")

  items-persist_items : (written : Bool) (s : Store F) → (persist_items written s).items ≡ s.items
  unfolding persist_items
  items-persist_items written s =
      if_cases (λ (r : Store F). r.items ≡ s.items) written (λ _. refl) (λ _. refl)

  items-persist_shots :
      (written retried : Bool) (s : Store F) → (persist_shots written retried s).items ≡ s.items
  unfolding persist_shots
  items-persist_shots written retried s =
      if_cases (λ (r : Store F). r.items ≡ s.items) written (λ _. refl)
        (λ _. if_cases (λ (r : Store F). r.items ≡ s.items) retried (λ _. refl) (λ _. refl))

  set_shot-HasOpen :
      (id name data_url : Text) (shots_written shots_retried written : Bool) (s : Store F)
      → HasOpen id s.items
      → HasOpen id (set_shot name data_url shots_written shots_retried written s).1.items
  unfolding set_shot touch mark_shot
  set_shot-HasOpen id name data_url shots_written shots_retried written s (it, m, named, status) =
      if_cases (λ (r : Bool × Store F). HasOpen id r.1.items) (is_empty data_url)
        (λ _. (it, m, named, status))
        (λ _.
          subst (HasOpen id)
            (sym
              (items-persist_items written _ ∙ items-persist_shots shots_written shots_retried _))
            (_, In-map (mark_shot name _) m, named, status))

  find-In :
      (p : Annotation F → Bool) (xs : List (Annotation F)) {a : Annotation F}
      → In a xs
      → p a ≡ true
      → (b : Annotation F) × (find p xs ≡ some b) × (p b ≡ true)
  find-In p [] m h = elim m [ ]
  find-In p (x ∷ xs) (here q) h = let e : p x ≡ true = rw (← q) h in (x, rw e refl, e)
  find-In p (x ∷ xs) (there m) h = elim (Bool-cases (p x)) [
    | inl e ↦ (x, rw e refl, e)
    | inr e ↦ let (b, found, k) = find-In p xs m h in (b, rw e found, k)
  ]

  get-HasOpen :
      (id : Text) (s : Store F)
      → HasOpen id s.items
      → (b : Annotation F) × (get id s ≡ some b) × (b.id ≡ id)
  unfolding get
  get-HasOpen id s (it, m, named, status) =
      let (b, found, k) =
        find-In (λ y. text_eq y.id id) s.items m ((text_eq_iff it.id id).1 named) in
      (b, found, (text_eq_iff b.id id).0 k)

  open-passes :
      (it : Annotation F)
      → it.status ≡ lit "open"
      → passes (build_filter no_args (lit "open")) it ≡ true
  unfolding passes build_filter normalize_status ids_of to_lower text_eq contains
  open-passes it status = rw status refl

  module _ (float : Float F) (strip_hash : Text → Option Text) (input : RawInput F) (tab : Option ℕ)
      (session stamp : Text) (s : Store F) where
    status-add :
        (written : Bool) (it : Annotation F)
        → (add float strip_hash input tab session stamp written s).0 ≡ ok it
        → it.status ≡ lit "open"
    unfolding add make_record
    status-add written it h =
        elim (Bool-cases
          (is_empty (make_record float strip_hash (s.seq + 1) input tab session stamp).comment)) [
            | inl e ↦ ground (arith, e)
            | inr e ↦
                let q : it ≡ make_record float strip_hash (s.seq + 1) input tab session stamp =
                  ground (arith, e) in
                ap (λ (y : Annotation F). y.status) q
          ]

    add-HasOpen :
        (it : Annotation F)
        → IsValid s
        → (add float strip_hash input tab session stamp true s).0 ≡ ok it
        → HasOpen it.id (add float strip_hash input tab session stamp true s).1.items
    add-HasOpen it valid accepted =
        let (items, again, seq, named) =
          add-items float strip_hash input tab session stamp s valid it accepted in
        (
          it,
          rw items
              (In-append_right (drop (suc (length s.items) - max_annotations) s.items) (here refl)),
          refl,
          status-add true it accepted,
        )

  module _ (w : World) (float : Float F) (session url : Text) (t frame : ℕ) (input : RawInput F)
      (capture : Bool) (d : Desk F) where
    abbrev added_to : Result StoreError (Annotation F) × Store F
    added_to = add float w.strip_hash input (some t) session w.stamp w.written d.store

    abbrev shot_of : Text
    shot_of = if capture then or_else w.shot [] else []

    -- The store once the screenshot, if any, is in it.
    abbrev kept : Annotation F → Store F
    kept it =
        if is_empty shot_of
        then added_to.1
        else (set_shot it.id shot_of w.shots_written w.shots_retried w.written added_to.1).1

    kept-HasOpen :
        (it : Annotation F)
        → IsValid d.store
        → w.written ≡ true
        → added_to.0 ≡ ok it
        → HasOpen it.id (kept it).items
    kept-HasOpen it valid writes accepted =
        let there : HasOpen it.id added_to.1.items =
          subst
            (λ b.
              (add float w.strip_hash input (some t) session w.stamp b d.store).0 ≡ ok it
              → HasOpen it.id
                  (add float w.strip_hash input (some t) session w.stamp b d.store).1.items)
            (sym writes)
            (add-HasOpen float w.strip_hash input (some t) session w.stamp d.store it valid)
            accepted in
        if_cases (λ (s : Store F). HasOpen it.id s.items) (is_empty shot_of) (λ _. there)
          (λ _.
            set_shot-HasOpen it.id it.id shot_of w.shots_written w.shots_retried w.written
              added_to.1 there)

    abbrev handled : Result StoreError (PageReply F) × Desk F
    handled = handle_page_message w float session (some t) frame url (add_note input capture) d

    abbrev page_added : Result StoreError (Option (Annotation F)) × Desk F
    page_added = add_from_page w float session t input capture d

    page_added-refused :
        (why : StoreError)
        → added_to.0 ≡ err why
        → page_added ≡ (err why, record d { store = added_to.1 })
    unfolding add_from_page
    page_added-refused why e = rw (add_from_page, e) refl

    page_added-accepted :
        (it : Annotation F)
        → added_to.0 ≡ ok it
        → page_added ≡ (ok (get it.id (kept it)), record d { store = kept it })
    unfolding add_from_page
    page_added-accepted it e = rw (add_from_page, e) refl

    handled-added : handled ≡ replied w t page_added
    unfolding handle_page_message
    handled-added = refl

    -- What an accepted submission answers and leaves.
    add_note-HasOpen :
        (reply : PageReply F) (d' : Desk F)
        → IsValid d.store
        → w.written ≡ true
        → handled ≡ (ok reply, d')
        → (id : Text) × (reply ≡ added (some id)) × HasOpen id d'.store.items
    add_note-HasOpen reply d' valid writes h = elim (Result-cases added_to.0) [
      | inl (x, e) ↦
          let k = sym (handled-added ∙ ap (replied w t) (page_added-refused x e)) ∙ h in
          let r : err x ≡ ok reply = ap (λ p. p.0) k in cc (r)
      | inr (it, e) ↦
          let k = sym (handled-added ∙ ap (replied w t) (page_added-accepted it e)) ∙ h in
          let there = kept-HasOpen it valid writes e in
          let (b, found, named) = get-HasOpen it.id (kept it) there in
          let same = sym (ap (λ p. p.1.store) k) ∙ store-sync w t (record d { store = kept it }) in
          let r : ok (added (id_in w (get it.id (kept it)))) ≡ ok reply = ap (λ p. p.0) k in
          (
            it.id,
            ground (arith, r, found, named),
            subst (λ s. HasOpen it.id s.items) (sym same) there,
          )
    ]

    -- A submission of a page whose note is accepted and can be saved is answered with its id, and when
    -- the agent then lists the annotations with no arguments, a record with that id is in the answer,
    -- and it is open.
    pub submission_listed :
        (reply : PageReply F) (d' : Desk F) (rounds : ℕ → Poll F) (later : Desk F)
        → IsValid d.store
        → w.written ≡ true
        → handle_page_message w float session (some t) frame url (add_note input capture) d
          ≡ (ok reply, d')
        → (id : Text) × (wires : List (Wire F)) × (line : StatusLine) × (x : Wire F) × (reply
            ≡ added (some id))
          × ((annotations w rounds later no_args d').0
              ≡ ok (listed wires d'.store.seq none false line))
          × In x wires
          × (x.id ≡ id)
          × (x.status ≡ lit "open")
    unfolding annotations list_op list build_filter wait_of_args to_lower text_eq to_wire
    submission_listed reply d' rounds later valid writes h =
        let (id, answered, (it, m, named, status)) = add_note-HasOpen reply d' valid writes h in
        let f = build_filter no_args (lit "open") in
        let there =
          (filter_annotations_complete d'.store.items f it m (open-passes it status)).1 refl in
        (
          id,
          map (to_wire false) (list f d'.store),
          (status_line w d').0,
          to_wire false it,
          answered,
          refl,
          In-map (to_wire false) there,
          named,
          status,
        )
