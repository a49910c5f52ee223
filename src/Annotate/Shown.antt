-- ===== src/Annotate/Shown.antt =====
-- The pages are shown what an operation of the agent has changed (`sync` and `syncAll` of mode.js).
use open_webbridge.Base.{
  ℕ, ◌≡◌, refl, ap, subst, ◌∙◌, Text, number_keys, Table, lookup, or_else, In, here, there,
  In-append_left, In-append_right, true, List, [], ◌∷◌, ◌++◌,
}
use open_webbridge.Annotations.Store.{Store}
use open_webbridge.Annotations.Store.Wait.{Poll}
use open_webbridge.Mode.{restore}
use open_webbridge.Annotate.{Push, Desk, World}
use open_webbridge.Annotate.Pages.{annotations_for_url, sync_frames, sync, sync_each, sync_all}
use open_webbridge.Annotate.Args.{Args}
use open_webbridge.Annotate.Cases.{
  is_change, patched_desk, cleared_desk, annotations-cases, patch_op-cases, screenshot_op-cases,
}
use open_webbridge.Annotate.Operations.{list_op, clear_op, stats_op, annotations}

-- Every frame of an annotated tab that has announced itself was sent the records of its address.
abbrev pub IsShown : {F : Type 0} → World → Desk F → Type 0
IsShown {F} w d =
    (t frame : ℕ) (url : Text)
    → In t d.mode.active
    → In (frame, url) (or_else (lookup t d.mode.frames) [])
    → In {A = Push F}
        (record { tab = t; frame = frame; annotations = annotations_for_url w url d.store })
        d.pushed

module _ {F : Type 0} (w : World) where
  abbrev push_of : ℕ → ℕ → Text → Store F → Push F
  push_of t frame url s = record {
    tab = t;
    frame = frame;
    annotations = annotations_for_url w url s;
  }

  abbrev pushed_to : ℕ → ℕ → Text → Desk F → Desk F
  pushed_to t frame url d = record d { pushed = d.pushed ++ push_of t frame url d.store ∷ [] }

  sync_frames-rest :
      (t : ℕ) (fs : Table ℕ Text) (d : Desk F)
      → ((sync_frames w t fs d).store ≡ d.store) × ((sync_frames w t fs d).mode ≡ d.mode)
  unfolding sync_frames
  sync_frames-rest t [] d = (refl, refl)
  sync_frames-rest t ((frame, url) ∷ fs) d = sync_frames-rest t fs (pushed_to t frame url d)

  sync_frames-keeps :
      (t : ℕ) (fs : Table ℕ Text) (d : Desk F) {p : Push F}
      → In p d.pushed
      → In p (sync_frames w t fs d).pushed
  unfolding sync_frames
  sync_frames-keeps t [] d m = m
  sync_frames-keeps t ((frame, url) ∷ fs) d m =
      sync_frames-keeps t fs (pushed_to t frame url d)
        (In-append_left (push_of t frame url d.store ∷ []) m)

  sync_frames-In :
      (t : ℕ) (fs : Table ℕ Text) (d : Desk F) {frame : ℕ} {url : Text}
      → In (frame, url) fs
      → In (push_of t frame url d.store) (sync_frames w t fs d).pushed
  unfolding sync_frames
  sync_frames-In t [] d m = elim m [ ]
  sync_frames-In t ((f, u) ∷ fs) d {frame} {url} (here e) =
      let first : push_of t frame url d.store ≡ push_of t f u d.store =
        ap (λ (p : ℕ × Text). push_of t p.0 p.1 d.store) e in
      sync_frames-keeps t fs (pushed_to t f u d) (In-append_right d.pushed (here first))
  sync_frames-In t ((f, u) ∷ fs) d (there m) = sync_frames-In t fs (pushed_to t f u d) m

  pub store-sync : (t : ℕ) (d : Desk F) → (sync w t d).store ≡ d.store
  unfolding sync
  store-sync t d = (sync_frames-rest t (or_else (lookup t d.mode.frames) []) d).0

  pub mode-sync : (t : ℕ) (d : Desk F) → (sync w t d).mode ≡ d.mode
  unfolding sync
  mode-sync t d = (sync_frames-rest t (or_else (lookup t d.mode.frames) []) d).1

  sync_each-rest :
      (ts : List ℕ) (d : Desk F)
      → ((sync_each w ts d).store ≡ d.store) × ((sync_each w ts d).mode ≡ d.mode)
  unfolding sync_each
  sync_each-rest [] d = (refl, refl)
  sync_each-rest (t ∷ ts) d =
      let r = sync_each-rest ts (sync w t d) in (r.0 ∙ store-sync t d, r.1 ∙ mode-sync t d)

  sync_each-keeps :
      (ts : List ℕ) (d : Desk F) {p : Push F} → In p d.pushed → In p (sync_each w ts d).pushed
  unfolding sync_each sync
  sync_each-keeps [] d m = m
  sync_each-keeps (t ∷ ts) d m =
      sync_each-keeps ts (sync w t d)
        (sync_frames-keeps t (or_else (lookup t d.mode.frames) []) d m)

  sync_each-In :
      (ts : List ℕ) (d : Desk F) {t frame : ℕ} {url : Text}
      → In t ts
      → In (frame, url) (or_else (lookup t d.mode.frames) [])
      → In (push_of t frame url d.store) (sync_each w ts d).pushed
  unfolding sync_each sync
  sync_each-In [] d m k = elim m [ ]
  sync_each-In (x ∷ ts) d {t} {frame} {url} (here e) k = sync_each-keeps ts (sync w x d) (
      subst (λ u. In (push_of t frame url d.store) (sync w u d).pushed) e
        (sync_frames-In t (or_else (lookup t d.mode.frames) []) d k))
  sync_each-In (x ∷ ts) d {t} {frame} {url} (there m) k =
      subst (λ s. In (push_of t frame url s) (sync_each w ts (sync w x d)).pushed) (store-sync x d)
        (sync_each-In ts (sync w x d) m (rw (mode-sync x d) k))

  pub store-sync_all : (d : Desk F) → (sync_all w d).store ≡ d.store
  unfolding sync_all
  store-sync_all d =
      let r = restore w.readable w.tabs d.mode in
      (sync_each-rest r.active (record d { mode = r })).0

  sync_all-IsShown : (d : Desk F) → IsShown w (sync_all w d)
  unfolding sync_all
  sync_all-IsShown d t frame url on announced =
      let r = restore w.readable w.tabs d.mode in
      let now : Desk F = record d { mode = r } in
      let rest = sync_each-rest r.active now in
      rw rest.0 (sync_each-In r.active now (rw rest.1 at on) (rw rest.1 at announced))

  -- After an operation of the agent that answers that it has changed or deleted records, every frame
  -- that has announced itself in a tab in annotation mode was sent the records of its address, as the
  -- store now holds them.
  pub annotations-IsShown :
      (rounds : ℕ → Poll F) (later : Desk F) (a : Args) (d : Desk F)
      → is_change (annotations w rounds later a d).0 ≡ true
      → IsShown w (annotations w rounds later a d).1
  unfolding list_op clear_op stats_op
  annotations-IsShown rounds later a d =
      annotations-cases w rounds later a d (λ r. is_change r.0 ≡ true → IsShown w r.1)
        (λ v same h. cc (h)) (λ clears h. sync_all-IsShown (cleared_desk w a d))
        (λ status.
          patch_op-cases w a status d (λ r. is_change r.0 ≡ true → IsShown w r.1)
            (λ loose all h. cc) (λ h. cc) (λ aimed h. sync_all-IsShown (patched_desk w a d status)))
        (screenshot_op-cases a d (λ r. is_change r.0 ≡ true → IsShown w r.1) (λ r same h. cc))
        (λ h. cc) (λ op h. cc)
