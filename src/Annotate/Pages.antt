-- ===== src/Annotate/Pages.antt =====
-- open-webbridge-extension/src/annotations/mode.js: what the annotator in a page sends and is shown.
use open_webbridge.Base.{
  ℕ, Text, lit, text_eq, number_keys, filter, Table, lookup, is_empty, Bool, false, Option, none,
  some, or_else, List, [], ◌∷◌, ◌++◌, Result, ok, err, if◌then◌else◌,
}
use open_webbridge.Annotations.Record.{Float, Annotation, RawInput, Filter, no_filter}
use open_webbridge.Annotations.Model.{url_key}
use open_webbridge.Annotations.Store.{
  Store, StoreError, Changes, list, get, add, patch, remove, set_shot,
}
use open_webbridge.Mode.{Mode, StartError, restore, remember_frame, is_active, start, stop}
use open_webbridge.Annotate.{Desk, World}

-- `{ status: "all" }`, and the same with one id.
abbrev pub every : Filter
every = record no_filter { status = lit "all" }

abbrev pub only : Text → Filter
only id = record every { ids = id ∷ [] }

pub data PageMessage (F : Type 0) : Type 0 where
  ready stop_mode : PageMessage F
  -- With whether a screenshot is asked for.
  add_note : RawInput F → Bool → PageMessage F
  update_note : Text → Text → Option Text → PageMessage F
  delete_note : Text → PageMessage F
  other_message : Text → PageMessage F

pub data PageReply (F : Type 0) : Type 0 where
  shown : Bool → List (Annotation F) → PageReply F
  added : Option Text → PageReply F
  done : PageReply F
  refused : Text → PageReply F

module _ {F : Type 0} (w : World) where
  unfoldable pub annotations_for_url : Text → Store F → List (Annotation F)
  annotations_for_url url s =
      filter (λ it. text_eq it.url_key (url_key w.strip_hash url)) (list every s)

  unfoldable pub sync_frames : ℕ → Table ℕ Text → Desk F → Desk F
  unfolding annotations_for_url
  sync_frames t [] d = d
  sync_frames t ((frame, url) ∷ rest) d = sync_frames t rest (record d {
    pushed =
        d.pushed
        ++ (record { tab = t; frame = frame; annotations = annotations_for_url url d.store }) ∷ [];
  })

  unfoldable pub sync : ℕ → Desk F → Desk F
  unfolding sync_frames
  sync t d = sync_frames t (or_else (lookup t d.mode.frames) []) d

  abbrev pub started_at :
      ℕ → Desk F → Result StartError (Unit {0}) × Mode → Result StartError (Unit {0}) × Desk F
  started_at t d (err why, m) = (err why, record d { mode = m })
  started_at t d (ok u, m) = (ok u, sync t (record d { mode = m }))

  -- `start`, which ends with a `sync`.
  unfoldable pub start_mode : ℕ → Desk F → Result StartError (Unit {0}) × Desk F
  unfolding start
  start_mode t d = started_at t d (start w.readable w.tabs w.modes_written w.injected t d.mode)

  unfoldable pub sync_each : List ℕ → Desk F → Desk F
  unfolding sync
  sync_each [] d = d
  sync_each (t ∷ ts) d = sync_each ts (sync t d)

  unfoldable pub sync_all : Desk F → Desk F
  unfolding restore sync_each
  sync_all d =
      let r = restore w.readable w.tabs d.mode in sync_each r.active (record d { mode = r })

  unfoldable pub add_from_page :
      Float F
      → Text
      → ℕ
      → RawInput F
      → Bool
      → Desk F
      → Result StoreError (Option (Annotation F)) × Desk F
  unfolding add set_shot get
  add_from_page float session t input capture d =
      let r = add float w.strip_hash input (some t) session w.stamp w.written d.store in
      elim r.0 [
        | err why ↦ (err why, record d { store = r.1 })
        | ok it ↦
            let shot = if capture then or_else w.shot [] else [] in
            let kept : Store F =
              if is_empty shot
              then r.1
              else (set_shot it.id shot w.shots_written w.shots_retried w.written r.1).1 in
            (ok (get it.id kept), record d { store = kept })
      ]

  -- Messages that need no tab of their own send the pins again if they come from one.
  abbrev pub sync_from : Option ℕ → Desk F → Desk F
  sync_from none d = d
  sync_from (some t) d = sync t d

  abbrev pub id_in : Option (Annotation F) → Option Text
  id_in none = none
  id_in (some it) = some it.id

  abbrev pub replied :
      ℕ
      → Result StoreError (Option (Annotation F)) × Desk F
      → Result StoreError (PageReply F) × Desk F
  replied t (err why, d) = (err why, d)
  replied t (ok made, d) = (ok (added (id_in made)), sync t d)

  unfoldable pub handle_page_message :
      Float F
      → Text
      → Option ℕ
      → ℕ
      → Text
      → PageMessage F
      → Desk F
      → Result StoreError (PageReply F) × Desk F
  unfolding annotations_for_url sync add_from_page remember_frame is_active stop patch remove
  handle_page_message float session none frame url ready d = (ok (shown false []), d)
  handle_page_message float session (some t) frame url ready d =
      let r = is_active w.readable w.tabs t (remember_frame t frame url d.mode) in
      (
        ok (shown r.0 (if r.0 then annotations_for_url url d.store else [])),
        record d { mode = r.1 },
      )
  handle_page_message float session none frame url (add_note input capture) d =
      (ok (refused (lit "no tab")), d)
  handle_page_message float session (some t) frame url (add_note input capture) d =
      replied t (add_from_page float session t input capture d)
  handle_page_message float session tab frame url (update_note id status comment) d =
      let changes : Changes = record { status = status; comment = comment; note = none } in
      let r = patch (only id) changes w.stamp w.written d.store in
      (ok done, sync_from tab (record d { store = r.1 }))
  handle_page_message float session tab frame url (delete_note id) d =
      let r = remove (only id) w.written w.shots_written w.shots_retried d.store in
      (ok done, sync_from tab (record d { store = r.1 }))
  handle_page_message float session none frame url stop_mode d = (ok done, d)
  handle_page_message float session (some t) frame url stop_mode d =
      (ok done, record d { mode = (stop w.readable w.tabs w.modes_written t d.mode).1 })
  handle_page_message float session tab frame url (other_message type) d =
      (ok (refused (lit "unknown annotation message " ++ type)), d)
