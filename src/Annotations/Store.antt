-- ===== src/Annotations/Store.antt =====
-- open-webbridge-extension/src/annotations/store.js: the annotation store of the service worker.
--
-- Each operation changes the state in one run of JavaScript between two `await`s, so it is one
-- step here. A write to `chrome.storage.local` succeeds or fails by a Boolean argument; what it
-- has stored is `saved_items` and `saved_shots`, from which `load` starts again.
pub mod Shots
pub mod Invariant
pub mod Kept
pub mod Reach
pub mod Screenshots
pub mod Submission
pub mod Removal
pub mod Wait
use open_webbridge.Base.{
  ℕ, ◌+◌, ◌-◌, ◌/◌, Text, text_keys, text_eq, is_empty, length, take, filter, find, contains,
  lookup, insert, has, erase, keys, map, any, is_some, Table, Bool, true, false, not, ◌&&◌, Option,
  none, some, List, [], ◌∷◌, ◌++◌, Result, ok, err, if◌then◌else◌, leb, ◌==◌,
}
use open_webbridge.Annotations.Record.{Float, Annotation, RawInput, Filter}
use open_webbridge.Annotations.Model.{
  filter_annotations, make_record, prune_items, sanitize_comment, sanitize_note, shot_ids_to_keep,
  id_of, max_annotations, max_shots,
}

pub record Store (F : Type 0) : Type 0 where
  pub seq : ℕ
  pub items : List (Annotation F)
  pub shots : Table Text Text
  pub revision : ℕ
  pub saved_items : Option (ℕ × List (Annotation F))
  pub saved_shots : Option (Table Text Text)

-- `throw new Error("annotation comment is empty")`
pub data StoreError : Type 0 where
  empty_comment : StoreError

-- What `patch` is asked to change.
pub record Changes : Type 0 where
  pub status : Text
  pub comment : Option Text
  pub note : Option Text

-- What `remove` reports.
pub record Removed : Type 0 where
  pub removed : ℕ
  pub remaining : ℕ

-- `for (const key of Object.keys(m)) if (!keep.has(key)) delete m[key]`, and the opposite test.
unfoldable pub retain : List Text → Table Text Text → Table Text Text
retain keep [] = []
retain keep ((k, v) ∷ m) =
    let rest = retain keep m in if contains k keep then (k, v) ∷ rest else rest

unfoldable pub discard : List Text → Table Text Text → Table Text Text
discard kill [] = []
discard kill ((k, v) ∷ m) =
    let rest = discard kill m in if contains k kill then rest else (k, v) ∷ rest

module _ {F : Type 0} where
  -- `load` of a service worker that starts: what was saved, or an empty store.
  unfoldable pub load : Store F → Store F
  load s = record {
    seq = elim s.saved_items [
      | none ↦ 0
      | some (seq, items) ↦ if seq == 0 then length items else seq
    ];
    items = elim s.saved_items [ none ↦ [] | some (_, items) ↦ items ];
    shots = elim s.saved_shots [ none ↦ [] | some shots ↦ shots ];
    revision = 0;
    saved_items = s.saved_items;
    saved_shots = s.saved_shots;
  }

  -- `load` if the storage cannot be read: an empty store, over what is still saved.
  unfoldable pub load_unread : Store F → Store F
  load_unread s = record s { seq = 0; items = []; shots = []; revision = 0 }

  unfoldable pub persist_items : Bool → Store F → Store F
  persist_items written s = if written then record s { saved_items = some (s.seq, s.items) } else s

  -- A first write that fails drops the older half of the images and is tried once more.
  unfoldable pub persist_shots : Bool → Bool → Store F → Store F
  persist_shots written retried s =
      let half = take ((length (keys s.shots) + 1) / 2) (keys s.shots) in
      let fewer : Store F = record s { shots = discard half s.shots } in
      if written
      then record s { saved_shots = some s.shots }
      else if retried
      then record fewer { saved_shots = some fewer.shots }
      else fewer

  unfoldable pub touch : Store F → Store F
  touch s = record s { revision = s.revision + 1 }

  unfoldable pub list : Filter → Store F → List (Annotation F)
  list f s = filter_annotations s.items f

  unfoldable pub get : Text → Store F → Option (Annotation F)
  get id s = find (λ it. text_eq it.id id) s.items

  unfoldable pub get_shot : Text → Store F → Option Text
  get_shot id s = lookup id s.shots

  -- The number is taken before the comment is looked at.
  unfoldable pub add :
      Float F
      → (Text → Option Text)
      → RawInput F
      → Option ℕ
      → Text
      → Text
      → Bool
      → Store F
      → Result StoreError (Annotation F) × Store F
  add float strip_hash input tab_id session stamp written s =
      let it = make_record float strip_hash (s.seq + 1) input tab_id session stamp in
      let numbered : Store F = record s { seq = s.seq + 1 } in
      if is_empty it.comment then (err empty_comment, numbered) else (
        ok it,
        persist_items written
            (touch (record numbered { items = prune_items (s.items ++ it ∷ []) max_annotations })),
      )

  -- The assignments to one record that a patch is about.
  unfoldable pub apply_changes : Changes → Text → Annotation F → Annotation F
  apply_changes changes stamp it = record it {
    status = if is_empty changes.status then it.status else changes.status;
    comment = elim changes.comment [ none ↦ it.comment | some c ↦ sanitize_comment (some c) ];
    note = elim changes.note [ none ↦ it.note | some n ↦ sanitize_note (some n) ];
    updated_at = stamp;
  }

  unfoldable pub patch_items :
      List Text → Changes → Text → List (Annotation F) → List (Annotation F)
  patch_items ids changes stamp =
      map (λ it. if contains it.id ids then apply_changes changes stamp it else it)

  -- The records that match are shared with the store, so the answer shows them changed.
  unfoldable pub patch : Filter → Changes → Text → Bool → Store F → List (Annotation F) × Store F
  patch f changes stamp written s =
      let targets = filter_annotations s.items f in
      let ids = map id_of targets in
      let patched : Store F = record s { items = patch_items ids changes stamp s.items } in
      (
        patch_items ids changes stamp targets,
        if 0 == length targets then patched else persist_items written (touch patched),
      )

  unfoldable pub remove : Filter → Bool → Bool → Bool → Store F → Removed × Store F
  remove f written shots_written shots_retried s =
      let targets = filter_annotations s.items f in
      let kill = map id_of targets in
      let left = filter (λ it. not (contains it.id kill)) s.items in
      let gone : Store F =
        persist_items written (touch (record s { items = left; shots = discard kill s.shots })) in
      if 0 == length targets then (record { removed = 0; remaining = length s.items }, s) else (
        record { removed = length targets; remaining = length left },
        if any (λ id. has id s.shots) kill
            then persist_shots shots_written shots_retried gone
            else gone,
      )

  -- `has_screenshot` after a write: the record that was written says what is stored, and no other
  -- record advertises an image that is gone.
  unfoldable pub mark_shot : Text → Table Text Text → Annotation F → Annotation F
  mark_shot id shots it = record it {
    has_screenshot =
        if text_eq it.id id then has it.id shots else it.has_screenshot && has it.id shots;
  }

  unfoldable pub set_shot : Text → Text → Bool → Bool → Bool → Store F → Bool × Store F
  set_shot id data_url shots_written shots_retried written s =
      let put = insert id data_url s.shots in
      let kept = retain (shot_ids_to_keep s.items (keys put) max_shots) put in
      let marked : Store F = record s { items = map (mark_shot id kept) s.items; shots = kept } in
      let done = persist_items written (persist_shots shots_written shots_retried (touch marked)) in
      if is_empty data_url then (false, s) else (has id done.shots, done)
