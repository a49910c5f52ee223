-- ===== src/Tools/Elements.antt =====
-- open-webbridge-extension/src/tools/interact.js: from a selector to an element and a point.
use open_webbridge.Base.{
  ℕ, Text, lit, trim, is_empty, starts_with, drop, leb, ◌==◌, Bool, true, false, not, ◌&&◌, ◌||◌,
  Option, none, some, List, [], ◌∷◌, ok, err, if◌then◌else◌,
}
use open_webbridge.Cdp.{Target}
use open_webbridge.Refs.{get_backend_id}
use open_webbridge.Tools.Page.{
  Point, Quad, Geometry, PageFunction, scroll_into_view, resolve_node, query_selector,
  call_function, get_box_model, Reply, object, exception, box, value, tree, Debugger, Fault,
  missing_selector, no_point, unknown_ref, unresolved_ref, invalid_selector, no_match, call_failed,
  debugger_error, Tool, ◌>>=◌, ◌>>◌, give, throw, ensure, ask,
}

abbrev is_digit : ℕ → Bool
is_digit c = leb 48 c && leb c 57

unfoldable pub all_digits : Text → Bool
all_digits [] = true
all_digits (c ∷ s) = let rest = all_digits s in if is_digit c then rest else false

-- The number of `/^e(\d+)$/i`: 69 and 101 are the codes of E and e.
unfoldable pub after_e : Text → Option Text
unfolding all_digits
after_e [] = none
after_e (c ∷ s) = if (c == 101 || c == 69) && not (is_empty s) && all_digits s then some s else none

-- `/^@?e(\d+)$/i`
unfoldable pub ref_of : Text → Option Text
unfolding after_e
ref_of s = if starts_with s (lit "@") then after_e (drop 1 s) else after_e s

abbrev pub expect_object : {F W : Type 0} → Fault → Reply F → Tool F W Text
expect_object fault (object (some id)) = give id
expect_object fault (object none) = throw fault
expect_object fault (exception _) = throw fault
expect_object fault (box _) = throw fault
expect_object fault (value _) = throw fault
expect_object fault (tree _) = throw fault

-- The answer of `document.querySelector`.
abbrev pub expect_match : {F W : Type 0} → Text → Reply F → Tool F W Text
expect_match selector (exception _) = throw (invalid_selector selector)
expect_match selector (object o) = expect_object (no_match selector) (object o)
expect_match selector (box b) = throw (no_match selector)
expect_match selector (value v) = throw (no_match selector)
expect_match selector (tree ns) = throw (no_match selector)

-- `none` of a value is undefined.
abbrev pub expect_value : {F W : Type 0} → Reply F → Tool F W (Option Text)
expect_value (exception why) = throw (call_failed why)
expect_value (value v) = give (some v)
expect_value (object _) = give none
expect_value (box _) = give none
expect_value (tree _) = give none

abbrev pub expect_box : {F W : Type 0} → Reply F → Tool F W (Quad F)
expect_box (box q) = give q
expect_box (object _) = throw (debugger_error (lit "no box model"))
expect_box (exception _) = throw (debugger_error (lit "no box model"))
expect_box (value _) = throw (debugger_error (lit "no box model"))
expect_box (tree _) = throw (debugger_error (lit "no box model"))

module _ {F W : Type 0} (debugger : Debugger F W) where
  unfoldable pub resolve_ref : Target → Text → Text → Tool F W Text
  unfolding ask
  resolve_ref t selector number e = elim (get_backend_id t number e.bridge.refs) [
    | none ↦ (err (unknown_ref selector), e)
    | some backend ↦
        (ask debugger t (resolve_node backend) >>= expect_object (unresolved_ref selector)) e
  ]

  unfoldable pub resolve_selector : Target → Text → Tool F W Text
  unfolding ask ensure
  resolve_selector t selector = do
    ensure debugger t (lit "Runtime")
    r ← ask debugger t (query_selector selector)
    expect_match selector r

  unfoldable pub resolve_object_id : Target → Text → Tool F W Text
  unfolding resolve_ref resolve_selector ref_of
  resolve_object_id t selector e =
      if is_empty selector then (err missing_selector, e) else elim (ref_of (trim selector)) [
        | some number ↦ resolve_ref t selector number e
        | none ↦ resolve_selector t selector e
      ]

  unfoldable pub call_on : Target → Text → PageFunction → List Text → Tool F W (Option Text)
  unfolding ask
  call_on t id fn args = do r ← ask debugger t (call_function id fn args); expect_value r

  module _ (geometry : Geometry F) where
    unfoldable pub center_of : Quad F → Point F
    center_of q = record {
      x = geometry.mean q.a.x q.b.x q.c.x q.d.x;
      y = geometry.mean q.a.y q.b.y q.c.y q.d.y;
    }

    unfoldable pub center_of_element : Target → Text → Tool F W (Point F)
    unfolding ask center_of
    center_of_element t id = do
      r ← ask debugger t (get_box_model id)
      q ← expect_box r
      give (center_of q)

    -- A point of the page: the middle of an element, or the coordinates that are given.
    unfoldable pub point_for : Target → Text → Option F → Option F → Tool F W (Point F)
    unfolding resolve_object_id call_on center_of_element
    point_for t selector x y e =
        if not (is_empty selector)
        then (do
          id ← resolve_object_id t selector
          call_on t id scroll_into_view []
          center_of_element t id)
            e
        else elim x [
          | none ↦ (err no_point, e)
          | some px ↦ elim y [
            | none ↦ (err no_point, e)
            | some py ↦ (ok (record { x = px; y = py }), e)
          ]
        ]
