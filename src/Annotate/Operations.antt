-- ===== src/Annotate/Operations.antt =====
-- open-webbridge-extension/src/tools/annotate.js: the tool `annotations`, on the store.
use open_webbridge.Base.{
  ℕ, Text, lit, text_keys, text_eq, to_lower, is_empty, is_some, map, starts_with, drop, ◌==◌, ltb,
  ◌+◌, ◌/◌, Bool, true, false, not, ◌&&◌, ◌||◌, Option, none, some, or_else, List, [], ◌∷◌, Result,
  ok, err, if◌then◌else◌,
}
use open_webbridge.Annotations.Record.{Annotation}
use open_webbridge.Annotations.Model.{Stats, stats, clamp_wait, default_wait_ms}
use open_webbridge.Annotations.Model.Wire.{Wire, to_wire}
use open_webbridge.Annotations.Store.{Changes, Removed, list, get, get_shot, patch, remove}
use open_webbridge.Annotations.Store.Wait.{Poll, wait_for_new}
use open_webbridge.Mode.{active_tabs}
use open_webbridge.Annotate.{Desk, World}
use open_webbridge.Annotate.Pages.{sync_all}
use open_webbridge.Annotate.Args.{default_wait, wait_of, Args, build_filter, has_targeting, one_id}

pub data OpError : Type 0 where
  untargeted nothing_to_change no_id : OpError
  unknown_op no_annotation no_screenshot : Text → OpError

-- The totals that end a list.
pub record StatusLine : Type 0 where
  pub total : ℕ
  pub open_count : ℕ
  pub resolved : ℕ
  pub annotating : List ℕ

pub data OpAnswer (F : Type 0) : Type 0 where
  -- The records, the cursor, the wait if there was one, and whether it found nothing.
  listed : List (Wire F) → ℕ → Option ℕ → Bool → StatusLine → OpAnswer F
  cleared : Removed → OpAnswer F
  updated : List (Wire F) → OpAnswer F
  screenshot : Text → Text → OpAnswer F
  counted : Stats → List ℕ → OpAnswer F

unfoldable pub after_comma : Text → Option Text
after_comma [] = none
after_comma (c ∷ s) = let rest = after_comma s in if c == 44 then some s else rest

-- `.replace(/^data:[^,]*,/, "")`
unfoldable pub strip_data_url : Text → Text
unfolding after_comma
strip_data_url s = if starts_with s (lit "data:") then or_else (after_comma (drop 5 s)) s else s

unfoldable pub wait_of_args : Args → ℕ
wait_of_args a = elim a.wait [
  | none ↦ 0
  | some (default_wait) ↦ clamp_wait (some default_wait_ms)
  | some (wait_of ms) ↦ clamp_wait ms
]

-- `{ ...args, status: "all", verbose: args.verbose !== false }`
abbrev pub get_args : Args → Args
get_args a = record a { status = lit "all"; verbose = some (or_else a.verbose true) }

abbrev pub no_wires : {F : Type 0} → List (Annotation F) → Bool
no_wires [] = true
no_wires (_ ∷ _) = false

unfoldable pub screenshot_op : {F : Type 0} → Args → Desk F → Result OpError (OpAnswer F) × Desk F
unfolding one_id strip_data_url
screenshot_op a d =
    let id = one_id a in
    if is_empty id then (err no_id, d) else elim (get id d.store) [
      | none ↦ (err (no_annotation id), d)
      | some it ↦
          let shot = or_else (get_shot id d.store) [] in
          if is_empty shot
          then (err (no_screenshot id), d)
          else (ok (screenshot it.id (strip_data_url shot)), d)
    ]

module _ {F : Type 0} (w : World) where
  unfoldable pub status_line : Desk F → StatusLine × Desk F
  unfolding active_tabs stats
  status_line d =
      let s = stats d.store.items in
      let r = active_tabs w.readable w.tabs d.mode in
      (
        record {
          total = s.total;
          open_count = s.open_count;
          resolved = s.resolved;
          annotating = r.0;
        },
        record d { mode = r.1 },
      )

  -- While it waits, others change the store: `rounds` are the polls, `later` is the state once the
  -- wait has ended.
  unfoldable pub list_op :
      (ℕ → Poll F) → Desk F → Args → Desk F → Result OpError (OpAnswer F) × Desk F
  unfolding wait_of_args build_filter status_line
  list_op rounds later a d =
      let f = build_filter a (lit "open") in
      let ms = wait_of_args a in
      let waits = ltb 0 ms in
      let found : List (Annotation F) =
        if waits
        then or_else (wait_for_new (ms / 250 + 2) f ms rounds (rounds 0).now) []
        else list f d.store in
      let now = if waits then later else d in
      let line = status_line now in
      (
        ok (
            listed (map (to_wire (or_else a.verbose false)) found) now.store.seq
              (if waits then some ms else none) (waits && no_wires found) line.0),
        line.1,
      )

  unfoldable pub clear_op : Args → Desk F → Result OpError (OpAnswer F) × Desk F
  unfolding build_filter sync_all
  clear_op a d =
      let r =
        remove (build_filter a (lit "all")) w.written w.shots_written w.shots_retried d.store in
      (ok (cleared r.0), sync_all w (record d { store = r.1 }))

  unfoldable pub patch_op : Args → Text → Desk F → Result OpError (OpAnswer F) × Desk F
  unfolding build_filter has_targeting sync_all
  patch_op a status d =
      let changes : Changes = record { status = status; comment = a.comment; note = a.note } in
      let r = patch (build_filter a (lit "all")) changes w.stamp w.written d.store in
      if not (has_targeting a) && not a.all
      then (err untargeted, d)
      else if is_empty status && not (is_some a.note) && not (is_some a.comment)
      then (err nothing_to_change, d)
      else (ok (updated (map (to_wire false) r.0)), sync_all w (record d { store = r.1 }))

  unfoldable pub stats_op : Desk F → Result OpError (OpAnswer F) × Desk F
  stats_op d =
      let r = active_tabs w.readable w.tabs d.mode in
      (ok (counted (stats d.store.items) r.0), record d { mode = r.1 })

  unfoldable pub annotations :
      (ℕ → Poll F) → Desk F → Args → Desk F → Result OpError (OpAnswer F) × Desk F
  unfolding list_op clear_op patch_op screenshot_op stats_op
  annotations rounds later a d =
      let op = to_lower (if is_empty a.op then lit "list" else a.op) in
      if text_eq op (lit "list")
      then list_op rounds later a d
      else if text_eq op (lit "get")
      then list_op rounds later (get_args a) d
      else if text_eq op (lit "clear") || text_eq op (lit "delete")
      then clear_op a d
      else if text_eq op (lit "resolve")
      then patch_op a (lit "resolved") d
      else if text_eq op (lit "reopen")
      then patch_op a (lit "open") d
      else if text_eq op (lit "note")
      then patch_op a [] d
      else if text_eq op (lit "screenshot")
      then screenshot_op a d
      else if text_eq op (lit "stats")
      then stats_op d
      else (err (unknown_op op), d)
