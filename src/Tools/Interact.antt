-- ===== src/Tools/Interact.antt =====
-- open-webbridge-extension/src/tools/interact.js: what the tools do to an element.
use open_webbridge.Base.{
  ℕ, Text, lit, is_empty, length, true, false, not, Option, or_else, List, [], ◌∷◌, if◌then◌else◌,
}
use open_webbridge.Cdp.{Target}
use open_webbridge.Tools.Page.{
  Point, Geometry, moved, pressed, released, scroll_into_view, click_element, describe_element,
  fill_value, select_value, Command, mouse_event, scroll_by, set_files, Debugger, bad_arguments,
  Tool, ◌>>=◌, ◌>>◌, give, throw, catch, target_of, attach_to, ensure, ask,
}
use open_webbridge.Tools.Elements.{resolve_object_id, call_on, center_of_element, point_for}

pub data Method : Type 0 where
  mouse synthetic : Method

pub record Clicked : Type 0 where
  pub method : Method
  pub info : Option Text

pub data Scrolled (F : Type 0) : Type 0 where
  element : Scrolled F
  window : F → F → Scrolled F

-- `{ type, x, y }` of a pointer that moves, and of the left button.
abbrev pub hovering : {F : Type 0} → Point F → Command F
hovering p = mouse_event (record { kind = moved; place = p; held = false; counted = false })

abbrev pub dragging : {F : Type 0} → Point F → Command F
dragging p = mouse_event (record { kind = moved; place = p; held = true; counted = false })

abbrev pub pressing : {F : Type 0} → Point F → Command F
pressing p = mouse_event (record { kind = pressed; place = p; held = true; counted = true })

abbrev pub releasing : {F : Type 0} → Point F → Command F
releasing p = mouse_event (record { kind = released; place = p; held = true; counted = true })

module _ {F W : Type 0} (debugger : Debugger F W) (geometry : Geometry F) where
  unfoldable pub mouse_click : Target → Text → Tool F W Method
  unfolding center_of_element attach_to ask
  mouse_click t id = do
    p ← center_of_element debugger geometry t id
    attach_to debugger t
    ask debugger t (hovering p)
    ask debugger t (pressing p)
    ask debugger t (releasing p)
    give mouse

  -- An element that is off screen or of no size gets a click of the page's own.
  unfoldable pub synthetic_click : Target → Text → Tool F W Method
  unfolding call_on
  synthetic_click t id = do call_on debugger t id click_element []; give synthetic

  unfoldable pub click : Text → Text → Text → Tool F W Clicked
  unfolding target_of resolve_object_id call_on mouse_click synthetic_click
  click session frame selector = do
    t ← target_of session frame
    id ← resolve_object_id debugger t selector
    call_on debugger t id scroll_into_view []
    method ← catch (mouse_click t id) (synthetic_click t id)
    info ← call_on debugger t id describe_element []
    give (record { method = method; info = info })

  unfoldable pub fill : Text → Text → Text → Option Text → Tool F W (Option Text)
  unfolding target_of resolve_object_id call_on
  fill session frame selector value = do
    t ← target_of session frame
    id ← resolve_object_id debugger t selector
    call_on debugger t id fill_value (or_else value [] ∷ [])

  unfoldable pub hover : Text → Text → Text → Option F → Option F → Tool F W (Unit {0})
  unfolding target_of point_for attach_to ask
  hover session frame selector x y = do
    t ← target_of session frame
    p ← point_for debugger geometry t selector x y
    attach_to debugger t
    ask debugger t (hovering p)
    give tt

  unfoldable pub scroll_element : Target → Text → Tool F W (Scrolled F)
  unfolding resolve_object_id call_on
  scroll_element t selector = do
    id ← resolve_object_id debugger t selector
    call_on debugger t id scroll_into_view []
    give element

  unfoldable pub scroll_window : Target → F → F → Tool F W (Scrolled F)
  unfolding ask
  scroll_window t dx dy = do ask debugger t (scroll_by dx dy); give (window dx dy)

  unfoldable pub scroll : Text → Text → Text → Option F → Option F → Tool F W (Scrolled F)
  unfolding target_of ensure scroll_element scroll_window
  scroll session frame selector x y = do
    t ← target_of session frame
    ensure debugger t (lit "Runtime")
    (if not (is_empty selector)
        then scroll_element t selector
        else scroll_window t (or_else x geometry.zero_point) (or_else y geometry.zero_point))

  -- The wanted text is `value`, or `label` where there is no value.
  unfoldable pub select_option :
      Text → Text → Text → Option Text → Option Text → Tool F W (Option Text)
  unfolding target_of resolve_object_id call_on
  select_option session frame selector wanted label = do
    t ← target_of session frame
    id ← resolve_object_id debugger t selector
    call_on debugger t id select_value (or_else wanted (or_else label []) ∷ [])

  unfoldable pub set_input_files : Target → Text → List Text → Tool F W ℕ
  unfolding resolve_object_id ask
  set_input_files t selector files = do
    id ← resolve_object_id debugger t selector
    ask debugger t (set_files id files)
    give (length files)

  unfoldable pub upload : Text → Text → Text → List Text → Tool F W ℕ
  unfolding target_of set_input_files
  upload session frame selector files = do
    t ← target_of session frame
    elim files [
      | [] ↦ throw (bad_arguments (lit "upload requires files: string[] of absolute paths"))
      | f ∷ rest ↦ set_input_files t selector (f ∷ rest)
    ]
