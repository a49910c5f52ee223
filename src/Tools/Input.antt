-- ===== src/Tools/Input.antt =====
-- open-webbridge-extension/src/tools/interact.js: keys, drags and taps.
use open_webbridge.Base.{
  ℕ, zero, suc, ◌+◌, Text, lit, text_keys, is_empty, length, ◌==◌, Table, lookup, Bool, true, false,
  Option, none, some, or_else, [], ◌∷◌, Result, ok, err, if◌then◌else◌,
}
use open_webbridge.Cdp.{Target}
use open_webbridge.Tools.Page.{
  Point, Geometry, KeySpec, focus_element, key_down, key_up, key_char, enable_touch, touch_start,
  touch_end, object, Debugger, debugger_error, bad_arguments, Fault, is_thrown, Env, Tool, ◌>>=◌,
  ◌>>◌, give, throw, catch, target_of, attach_to, ask,
}
use open_webbridge.Tools.Elements.{resolve_object_id, call_on, point_for}
use open_webbridge.Tools.Interact.{hovering, dragging, pressing, releasing}

abbrev special : Text → ℕ → Option Text → Text × KeySpec
special name code text = (name, record { key = name; key_code = some code; text = text })

-- The keys that have a code; their `code` is their `key`. Names that every JavaScript object inherits
-- are left out.
abbrev pub keys_table : Table Text KeySpec
keys_table =
    special (lit "Enter") 13 (some (13 ∷ []))
    ∷ special (lit "Tab") 9 none
    ∷ special (lit "Escape") 27 none
    ∷ special (lit "Backspace") 8 none
    ∷ special (lit "Delete") 46 none
    ∷ special (lit "ArrowUp") 38 none
    ∷ special (lit "ArrowDown") 40 none
    ∷ special (lit "ArrowLeft") 37 none
    ∷ special (lit "ArrowRight") 39 none
    ∷ special (lit "PageDown") 34 none
    ∷ special (lit "PageUp") 33 none
    ∷ special (lit "Home") 36 none
    ∷ special (lit "End") 35 none
    ∷ []

-- Another key is typed if it is one code unit long.
unfoldable pub spec_of : Text → KeySpec
spec_of key =
    or_else (lookup key keys_table)
      (record { key = key; key_code = none; text = if length key == 1 then some key else none })

module _ {F W : Type 0} (debugger : Debugger F W) where
  unfoldable pub type_text : Target → Option Text → Tool F W (Unit {0})
  unfolding ask
  type_text t none = give tt
  type_text t (some text) = ask debugger t (key_char text) >> give tt

  unfoldable pub strike : Target → KeySpec → Tool F W (Unit {0})
  unfolding ask type_text
  strike t spec = do
    ask debugger t (key_down spec)
    type_text t spec.text
    ask debugger t (key_up spec)
    give tt

  unfoldable pub focus_on : Target → Text → Tool F W (Unit {0})
  unfolding resolve_object_id call_on
  focus_on t selector = if is_empty selector then give tt else (do
    id ← resolve_object_id debugger t selector
    call_on debugger t id focus_element []
    give tt)

  unfoldable pub press_on : Target → Text → Text → Tool F W (Unit {0})
  unfolding focus_on attach_to strike spec_of
  press_on t selector key =
      if is_empty key
      then throw (bad_arguments (lit "press_key requires key"))
      else (do focus_on t selector; attach_to debugger t; strike t (spec_of key))

  unfoldable pub press_key : Text → Text → Text → Text → Tool F W (Unit {0})
  unfolding target_of press_on
  press_key session frame selector key = do t ← target_of session frame; press_on t selector key

  module _ (geometry : Geometry F) where
    -- The steps `i` to `i + left - 1` of six.
    unfoldable pub drag_steps : Target → Point F → Point F → ℕ → ℕ → Tool F W (Unit {0})
    unfolding ask
    drag_steps t start end i zero = give tt
    drag_steps t start end i (suc left) = do
      ask debugger t (
          dragging (record {
            x = geometry.between start.x end.x i 6;
            y = geometry.between start.y end.y i 6;
          }))
      drag_steps t start end (i + 1) left

    unfoldable pub drag_between : Target → Point F → Point F → Tool F W (Unit {0})
    unfolding attach_to ask drag_steps
    drag_between t start end = do
      attach_to debugger t
      ask debugger t (hovering start)
      ask debugger t (pressing start)
      drag_steps t start end 1 6
      ask debugger t (releasing end)
      give tt

    unfoldable pub drag :
        Text
        → Text
        → Text
        → Option F
        → Option F
        → Text
        → Option F
        → Option F
        → Tool F W (Point F × Point F)
    unfolding target_of point_for drag_between
    drag session frame from from_x from_y to to_x to_y = do
      t ← target_of session frame
      start ← point_for debugger geometry t from from_x from_y
      end ← point_for debugger geometry t to to_x to_y
      drag_between t start end
      give (start, end)

    -- `withTimeout`: a wait that has no end is one that throws after 1.5 seconds.
    abbrev pub timed_out : {A : Type 0} → Result Fault A × Env F W → Result Fault A × Env F W
    timed_out (ok a, e) = (ok a, e)
    timed_out (err x, e) =
        (err (if is_thrown x then x else debugger_error (lit "touch dispatch timed out")), e)

    abbrev pub with_timeout : {A : Type 0} → Tool F W A → Tool F W A
    with_timeout m e = timed_out (m e)

    -- An error of the switch to touch is dropped; the wait for it has no limit.
    unfoldable pub touch_tap : Target → Point F → Tool F W Bool
    unfolding ask
    touch_tap t p = do
      catch (ask debugger t enable_touch) (give (object none))
      with_timeout (ask debugger t (touch_start p))
      with_timeout (ask debugger t touch_end)
      give true

    unfoldable pub mouse_tap : Target → Point F → Tool F W Bool
    unfolding ask
    mouse_tap t p = do ask debugger t (pressing p); ask debugger t (releasing p); give false

    -- The answer says whether the touch went through; the mouse stands in otherwise.
    unfoldable pub tap : Text → Text → Text → Option F → Option F → Tool F W (Point F × Bool)
    unfolding target_of point_for attach_to touch_tap mouse_tap
    tap session frame selector x y = do
      t ← target_of session frame
      p ← point_for debugger geometry t selector x y
      attach_to debugger t
      touched ← catch (touch_tap t p) (mouse_tap t p)
      give (p, touched)
