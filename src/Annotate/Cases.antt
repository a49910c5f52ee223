-- ===== src/Annotate/Cases.antt =====
-- The operations of the tool `annotations` (annotate.js), one by one.
use open_webbridge.Base.{
  ℕ, ◌≡◌, refl, Text, lit, text_eq, to_lower, is_empty, Bool, true, false, ◌||◌, List, [], or_else,
  Result, err, if◌then◌else◌, if_cases, ok, not, ◌&&◌, is_some, map, Option-cases, inl, inr, arith,
}
use open_webbridge.Annotations.Store.Wait.{Poll}
use open_webbridge.Annotate.{Desk, World}
use open_webbridge.Annotate.Args.{Args, build_filter, has_targeting, one_id}
use open_webbridge.Annotate.Pages.{sync_all}
use open_webbridge.Annotations.Record.{Annotation}
use open_webbridge.Annotations.Model.Wire.{to_wire}
use open_webbridge.Annotations.Store.{Store, Changes, patch, remove, get, get_shot}
use open_webbridge.Annotate.Operations.{
  OpError, unknown_op, OpAnswer, untargeted, nothing_to_change, no_id, no_annotation, no_screenshot,
  listed, cleared, updated, screenshot, counted, strip_data_url, wait_of_args, get_args, list_op,
  clear_op, patch_op, screenshot_op, stats_op, annotations,
}

-- Whether the arguments ask for `clear` or `delete`.
abbrev pub clears : Args → Bool
clears a =
    let op = to_lower (if is_empty a.op then lit "list" else a.op) in
    text_eq op (lit "clear") || text_eq op (lit "delete")

-- What holds of each operation holds of the tool.
pub annotations-cases {κ} :
    {F : Type 0} (w : World) (rounds : ℕ → Poll F) (later : Desk F) (a : Args) (d : Desk F)
    (P : Result OpError (OpAnswer F) × Desk F → Type κ)
    → ((v : Args) → wait_of_args v ≡ wait_of_args a → P (list_op w rounds later v d))
    → (clears a ≡ true → P (clear_op w a d))
    → ((status : Text) → P (patch_op w a status d))
    → P (screenshot_op a d)
    → P (stats_op w d)
    → ((op : Text) → P (err (unknown_op op), d))
    → P (annotations w rounds later a d)
unfolding annotations wait_of_args
annotations-cases w rounds later a d P lists clear patches shot counts unknown =
    let op = to_lower (if is_empty a.op then lit "list" else a.op) in
    if_cases P (text_eq op (lit "list")) (λ _. lists a refl)
      (λ _.
        if_cases P (text_eq op (lit "get")) (λ _. lists (get_args a) refl)
          (λ _. if_cases P (text_eq op (lit "clear") || text_eq op (lit "delete")) clear (λ _.
            if_cases P (text_eq op (lit "resolve")) (λ _. patches (lit "resolved"))
              (λ _.
                if_cases P (text_eq op (lit "reopen")) (λ _. patches (lit "open"))
                  (λ _.
                    if_cases P (text_eq op (lit "note")) (λ _. patches [])
                      (λ _.
                        if_cases P (text_eq op (lit "screenshot")) (λ _. shot)
                          (λ _.
                            if_cases P (text_eq op (lit "stats")) (λ _. counts)
                              (λ _. unknown op))))))))

-- The answer of an operation that changes the records.
abbrev pub is_change : {F : Type 0} → Result OpError (OpAnswer F) → Bool
is_change (ok (updated _)) = true
is_change (ok (cleared _)) = true
is_change (ok (listed _ _ _ _ _)) = false
is_change (ok (screenshot _ _)) = false
is_change (ok (counted _ _)) = false
is_change (err _) = false

module _ {F : Type 0} (w : World) (a : Args) (d : Desk F) where
  abbrev pub changes_of : Text → Changes
  changes_of status = record { status = status; comment = a.comment; note = a.note }

  abbrev pub patched : Text → List (Annotation F) × Store F
  patched status = patch (build_filter a (lit "all")) (changes_of status) w.stamp w.written d.store

  -- The state that a patch and a deletion leave, before the pages are told.
  abbrev pub patched_desk : Text → Desk F
  patched_desk status = record d { store = (patched status).1 }

  abbrev pub cleared_desk : Desk F
  cleared_desk = record d {
    store =
        (remove (build_filter a (lit "all")) w.written w.shots_written w.shots_retried d.store).1;
  }

module _ {κ} {F : Type 0} (w : World) (a : Args) (status : Text) (d : Desk F)
    (P : Result OpError (OpAnswer F) × Desk F → Type κ) where
  -- A patch is refused, or it is done.
  pub patch_op-cases :
      (has_targeting a ≡ false → a.all ≡ false → P (err untargeted, d))
      → P (err nothing_to_change, d)
      → (not (has_targeting a) && not a.all ≡ false
          → P (
            ok (updated (map (to_wire false) (patched w a d status).0)),
            sync_all w (patched_desk w a d status),
          ))
      → P (patch_op w a status d)
  unfolding patch_op
  patch_op-cases loose idle changes =
      if_cases P (not (has_targeting a) && not a.all) (λ h. loose (ground arith) (ground arith))
        (λ aimed.
          if_cases P (is_empty status && not (is_some a.note) && not (is_some a.comment))
            (λ _. idle) (λ _. changes aimed))

-- A screenshot is read, or there is none; nothing changes.
pub screenshot_op-cases {κ} :
    {F : Type 0} (a : Args) (d : Desk F) (P : Result OpError (OpAnswer F) × Desk F → Type κ)
    → ((r : Result OpError (OpAnswer F)) → is_change r ≡ false → P (r, d))
    → P (screenshot_op a d)
unfolding screenshot_op
screenshot_op-cases a d P reads =
    if_cases P (is_empty (one_id a)) (λ _. reads (err no_id) refl)
      (λ _. elim (Option-cases (get (one_id a) d.store)) [
        | inl e ↦ rw e (reads (err (no_annotation (one_id a))) refl)
        | inr (it, e) ↦ rw e (
            if_cases P (is_empty (or_else (get_shot (one_id a) d.store) []))
              (λ _. reads (err (no_screenshot (one_id a))) refl)
              (λ _.
                reads
                  (ok
                    (screenshot it.id (strip_data_url (or_else (get_shot (one_id a) d.store) []))))
                  refl))
      ])
