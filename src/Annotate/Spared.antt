-- ===== src/Annotate/Spared.antt =====
-- What the tool `annotations` cannot change (annotate.js).
use open_webbridge.Base.{ℕ, ltb, ◌≡◌, refl, sym, subst, lit, In, false, if_cases, arith}
use open_webbridge.Annotations.Record.{Annotation}
use open_webbridge.Annotations.Model.{passes}
use open_webbridge.Annotations.Store.Invariant.{IsValid}
use open_webbridge.Annotations.Store.Removal.{remove-spares, patch-exact}
use open_webbridge.Annotations.Store.Wait.{Poll}
use open_webbridge.Annotate.{Desk, World}
use open_webbridge.Annotate.Args.{Args, build_filter, has_targeting}
use open_webbridge.Annotate.Operations.{
  wait_of_args, status_line, list_op, clear_op, stats_op, annotations,
}
use open_webbridge.Annotate.Cases.{
  clears, annotations-cases, patch_op-cases, screenshot_op-cases, changes_of, patched_desk,
  cleared_desk,
}
use open_webbridge.Annotate.Shown.{store-sync_all}

module _ {F : Type 0} (w : World) (rounds : ℕ → Poll F) (later : Desk F) where
  -- A list leaves the store as it was, or as others have left it during the wait.
  store-list_op :
      (a : Args) (d : Desk F)
      → later.store ≡ d.store
      → (list_op w rounds later a d).1.store ≡ d.store
  unfolding list_op status_line
  store-list_op a d same =
      if_cases (λ (now : Desk F). now.store ≡ d.store) (ltb 0 (wait_of_args a)) (λ _. same)
        (λ _. refl)

  -- Without ids, an address, a tab or a `since`, and without `all`, no operation but `clear` and
  -- `delete` changes anything in the store, where nothing else changes it during a wait.
  pub annotations-untargeted :
      (a : Args) (d : Desk F)
      → later.store ≡ d.store
      → has_targeting a ≡ false
      → a.all ≡ false
      → clears a ≡ false
      → (annotations w rounds later a d).1.store ≡ d.store
  unfolding stats_op
  annotations-untargeted a d same loose not_all keeps =
      annotations-cases w rounds later a d (λ r. r.1.store ≡ d.store)
        (λ v _. store-list_op v d same) (λ clearing. cc)
        (λ status.
          patch_op-cases w a status d (λ r. r.1.store ≡ d.store) (λ _ _. refl) refl
            (λ aimed. ground (arith, loose, not_all, aimed)))
        (screenshot_op-cases a d (λ r. r.1.store ≡ d.store) (λ _ _. refl)) refl (λ _. refl)

  -- Whatever the operation, its arguments and its outcome, a record that the filter made of the
  -- arguments rejects is in the store as before, where nothing else changes the store during a wait. The
  -- filter asks for the ids, the address and the tab that were given, for a number above a `since` that
  -- is a number, and for a status that is `open` or `resolved`; any other status or `since` asks for
  -- nothing, so that a `clear` with such a status spares no record on its account.
  pub annotations-spares :
      (a : Args) (d : Desk F) (it : Annotation F)
      → later.store ≡ d.store
      → IsValid d.store
      → In it d.store.items
      → passes (build_filter a (lit "all")) it ≡ false
      → In it (annotations w rounds later a d).1.store.items
  unfolding stats_op clear_op
  annotations-spares a d it same valid m fails =
      annotations-cases w rounds later a d (λ r. In it r.1.store.items)
        (λ v _. subst (λ s. In it s.items) (sym (store-list_op v d same)) m)
        (λ _.
          subst (λ s. In it s.items) (sym (store-sync_all w (cleared_desk w a d)))
            (remove-spares (build_filter a (lit "all")) w.written w.shots_written w.shots_retried
              d.store it valid m fails))
        (λ status.
          patch_op-cases w a status d (λ r. In it r.1.store.items) (λ _ _. m) m
            (λ aimed.
              subst (λ s. In it s.items) (sym (store-sync_all w (patched_desk w a d status)))
                ((patch-exact (build_filter a (lit "all")) (changes_of w a d status) w.stamp
                    w.written d.store valid it m).1
                  fails)))
        (screenshot_op-cases a d (λ r. In it r.1.store.items) (λ _ _. m)) m (λ _. m)
