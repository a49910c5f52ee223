-- ===== src/Tools/Reading.antt =====
-- evaluate.js, frames.js and capture.js of open-webbridge-extension/src/tools.
use open_webbridge.Base.{
  ℕ, Text, lit, text_eq, text_keys, trim, to_lower, is_empty, contains, lookup, Table, ◌==◌, Bool,
  false, not, ◌||◌, Option, none, some, or_else, List, [], ◌∷◌, if◌then◌else◌,
}
use open_webbridge.Cdp.{Target, tab}
use open_webbridge.Sessions.{Browser}
use open_webbridge.Tools.Page.{
  Quad, Clip, scroll_into_view, run_code, call_function, get_box_model, capture, print, object,
  Debugger, bad_arguments, Tool, ◌>>=◌, ◌>>◌, give, throw, catch, target_in, active_tab_of, ensure,
  ask,
}
use open_webbridge.Tools.Elements.{resolve_object_id, expect_value, expect_box}
use open_webbridge.Tools.Outline.{tab_info}

-- An entry of `chrome.debugger.getTargets`; the title and `attached` are passed on by the source.
pub record Frame : Type 0 where
  pub id : Text
  pub tab_id : Option ℕ
  pub kind : Text
  pub url : Text

unfoldable pub belongs : ℕ → Frame → Bool
belongs n f = (elim f.tab_id [ none ↦ false | some t ↦ t == n ]) || text_eq f.kind (lit "iframe")

-- The loop of `frames`, with the ids that it has seen.
unfoldable pub frames_of : ℕ → List Text → List Frame → List Frame
unfolding belongs
frames_of n seen [] = []
frames_of n seen (f ∷ fs) =
    let skipped = frames_of n seen fs in
    let taken = frames_of n (f.id ∷ seen) fs in
    if not (belongs n f) || contains f.id seen then skipped else f ∷ taken

-- `Math.min`, `Math.max`, the difference, and the bounds of a quality and of a scale.
pub record Sizes (F : Type 0) : Type 0 where
  pub least : F → F → F
  pub greatest : F → F → F
  pub minus : F → F → F
  pub no_quality : F
  pub full_quality : F
  pub least_scale : F
  pub own_scale : F
  pub greatest_scale : F

abbrev sized : Text → ℕ → ℕ → Text × (ℕ × ℕ)
sized name width height = (name, (width, height))

abbrev pub papers : Table Text (ℕ × ℕ)
papers =
    sized (lit "letter") 850 1100
    ∷ sized (lit "a4") 827 1170
    ∷ sized (lit "legal") 850 1400
    ∷ sized (lit "a3") 1170 1650
    ∷ sized (lit "tabloid") 1100 1700
    ∷ []

unfoldable pub paper_of : Text → ℕ × ℕ
paper_of name =
    or_else (lookup (to_lower (if is_empty name then lit "letter" else name)) papers) (850, 1100)

unfoldable pub format_of : Text → Text
format_of format =
    if text_eq format (lit "jpeg") || text_eq format (lit "jpg") then lit "jpeg" else lit "png"

module _ {F W : Type 0} (debugger : Debugger F W) (chrome : Browser W) where
  unfoldable pub frames : List Frame → Text → Tool F W (ℕ × List Frame)
  unfolding active_tab_of frames_of
  frames targets session = do n ← active_tab_of session; give (n, frames_of n [] targets)

  unfoldable pub run_in : Target → Text → Tool F W (Option Text)
  unfolding ensure ask
  run_in t code =
      if is_empty (trim code)
      then throw (bad_arguments (lit "evaluate requires code: string"))
      else (do
        ensure debugger t (lit "Runtime")
        r ← ask debugger t (run_code code)
        expect_value r)

  unfoldable pub evaluate : Text → Text → Text → Tool F W (Option Text)
  unfolding active_tab_of run_in
  evaluate session frame code = do n ← active_tab_of session; run_in (target_in frame n) code

  module _ (sizes : Sizes F) where
    abbrev of_four : (F → F → F) → F → F → F → F → F
    of_four op a b c d = op (op (op a b) c) d

    unfoldable pub clip_of : Quad F → Clip F
    clip_of q =
        let left = of_four sizes.least q.a.x q.b.x q.c.x q.d.x in
        let top = of_four sizes.least q.a.y q.b.y q.c.y q.d.y in
        record {
          corner = record { x = left; y = top };
          width = sizes.minus (of_four sizes.greatest q.a.x q.b.x q.c.x q.d.x) left;
          height = sizes.minus (of_four sizes.greatest q.a.y q.b.y q.c.y q.d.y) top;
        }

    unfoldable pub quality_of : Text → Option F → Option F
    quality_of format none = none
    quality_of format (some q) =
        if text_eq format (lit "jpeg")
        then some (sizes.greatest sizes.no_quality (sizes.least sizes.full_quality q))
        else none

    -- What is shown of an element; that it cannot be scrolled to is dropped.
    unfoldable pub clip_for : Target → Text → Tool F W (Option (Clip F))
    unfolding resolve_object_id ask clip_of
    clip_for t selector = if is_empty selector then give none else (do
      id ← resolve_object_id debugger t selector
      catch (ask debugger t (call_function id scroll_into_view [])) (give (object none))
      r ← ask debugger t (get_box_model id)
      q ← expect_box r
      give (some (clip_of q)))

    unfoldable pub screenshot : Text → Text → Option F → Text → Tool F W (Text × Option Text)
    unfolding active_tab_of ensure clip_for ask quality_of format_of
    screenshot session format quality selector = do
      n ← active_tab_of session
      ensure debugger (tab n) (lit "Page")
      clip ← clip_for (tab n) selector
      r ← ask debugger (tab n) (
          capture (record {
            format = format_of format;
            quality = quality_of (format_of format) quality;
            clip = clip;
          }))
      shot ← expect_value r
      give (format_of format, shot)

    unfoldable pub scale_of : Option F → F
    scale_of scale =
        sizes.greatest sizes.least_scale
          (sizes.least sizes.greatest_scale (or_else scale sizes.own_scale))

    unfoldable pub save_as_pdf : Text → Text → Option F → Bool → Bool → Tool F W (Option Text)
    unfolding active_tab_of ensure ask scale_of paper_of
    save_as_pdf session paper scale landscape background = do
      n ← active_tab_of session
      ensure debugger (tab n) (lit "Page")
      r ← ask debugger (tab n) (
          print (record {
            landscape = landscape;
            background = background;
            scale = scale_of scale;
            paper = paper_of paper;
          }))
      pdf ← expect_value r
      tab_info debugger chrome n
      give pdf
