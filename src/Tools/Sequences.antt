-- ===== src/Tools/Sequences.antt =====
-- The sequences of input events of press_key and drag (interact.js).
use open_webbridge.Base.{
  ℕ, zero, suc, ◌+◌, ◌≡◌, ap, ◌∙◌, Text, is_empty, false, Option, none, some, List, [], ◌∷◌, ◌++◌,
  ok,
}
use open_webbridge.Cdp.{Target}
use open_webbridge.Sessions.{session_of}
use open_webbridge.Tools.Page.{
  Point, Geometry, KeySpec, Command, key_down, key_up, key_char, Debugger, Env, go_on, ◌>>◌, give,
  target_in,
}
use open_webbridge.Tools.Elements.{point_for}
use open_webbridge.Tools.Interact.{hovering, dragging, pressing, releasing}
use open_webbridge.Tools.Input.{
  spec_of, type_text, strike, focus_on, press_on, press_key, drag_steps, drag_between, drag,
}
use open_webbridge.Tools.Runs.{
  Sends, give-Sends, then-Sends, opened, target_of-ok, Attaches, Answers, attach_to-Sends,
  ask-Sends,
}

abbrev pub place : {F : Type 0} → F → F → Point F
place px py = record { x = px; y = py }

-- The events of one key: down, its character if it has one, up.
abbrev pub strokes : {F : Type 0} → Target → KeySpec → List (Target × Command F)
strokes t spec =
    (t, key_down spec) ∷ (elim spec.text [ none ↦ [] | some text ↦ (t, key_char text) ∷ [] ])
    ++ (t, key_up spec) ∷ []

module _ {F : Type 0} (geometry : Geometry F) where
  -- The pointer at the steps `i` to `i + left - 1` of six, the button held.
  abbrev pub way : Target → Point F → Point F → ℕ → ℕ → List (Target × Command F)
  way t start end i zero = []
  way t start end i (suc left) =
      (
        t,
        dragging (record {
          x = geometry.between start.x end.x i 6;
          y = geometry.between start.y end.y i 6;
        }),
      )
      ∷ way t start end (i + 1) left

  -- A drag: a move to the start, a press, six moves with the button held, a release at the end.
  abbrev pub gesture : Target → Point F → Point F → List (Target × Command F)
  gesture t start end =
      (t, hovering start) ∷ (t, pressing start) ∷ (way t start end 1 6 ++ (t, releasing end) ∷ [])

module _ {F W : Type 0} (debugger : Debugger F W) (attaches : Attaches debugger) where
  type_text-Sends :
      (t : Target) (text : Option Text)
      → ((s : Text) → Answers debugger (key_char s))
      → Sends (type_text debugger t text) (elim text [ none ↦ [] | some s ↦ (t, key_char s) ∷ [] ])
  unfolding type_text
  type_text-Sends t none h = give-Sends tt
  type_text-Sends t (some s) h =
      then-Sends _ _ ((t, key_char s) ∷ []) [] (ask-Sends debugger t (key_char s) attaches (h s))
        (give-Sends tt)

  strike-Sends :
      (t : Target) (spec : KeySpec)
      → ((s : Text) → Answers debugger (key_char s))
      → Answers debugger (key_down spec)
      → Answers debugger (key_up spec)
      → Sends (strike debugger t spec) (strokes t spec)
  unfolding strike
  strike-Sends t spec typed down up =
      then-Sends _ _ ((t, key_down spec) ∷ []) _
        (ask-Sends debugger t (key_down spec) attaches down)
        (then-Sends _ _ _ ((t, key_up spec) ∷ []) (type_text-Sends t spec.text typed) (
          then-Sends _ _ ((t, key_up spec) ∷ []) [] (ask-Sends debugger t (key_up spec) attaches up)
            (give-Sends tt)))

  press_on-Sends :
      (t : Target) (key : Text)
      → is_empty key ≡ false
      → ((s : Text) → Answers debugger (key_char s))
      → Answers debugger (key_down (spec_of key))
      → Answers debugger (key_up (spec_of key))
      → Sends (press_on debugger t [] key) (strokes t (spec_of key))
  unfolding press_on focus_on
  press_on-Sends t key there typed down up = rw there (
      then-Sends _ _ [] _ (give-Sends tt) (
        then-Sends _ _ [] _ (attach_to-Sends debugger t attaches)
          (strike-Sends t (spec_of key) typed down up)))

  -- In a session with an open tab, where the debugger attaches and answers these events, pressing a
  -- named key with no selector returns and sends exactly that key's events to the tab or the frame:
  -- down, the character if the key has one, up.
  pub press_key_sends :
      (session frame key : Text) (n : ℕ) (e : Env F W)
      → (session_of session e.bridge).active_tab ≡ some n
      → is_empty key ≡ false
      → ((s : Text) → Answers debugger (key_char s))
      → Answers debugger (key_down (spec_of key))
      → Answers debugger (key_up (spec_of key))
      → (e' : Env F W) × (press_key debugger session frame [] key e ≡ (ok tt, e'))
        × (e'.log ≡ e.log ++ strokes (target_in frame n) (spec_of key))
  unfolding press_key
  press_key_sends session frame key n e open_tab there typed down up =
      let (u, e', returns, sent) =
        press_on-Sends (target_in frame n) key there typed down up (opened session e) in
      (
        e',
        ap (go_on (λ t. press_on debugger t [] key)) (target_of-ok session frame n e open_tab)
            ∙ returns,
        sent,
      )

  module _ (geometry : Geometry F) where
    drag_steps-Sends :
        (t : Target) (start end : Point F) (i left : ℕ)
        → ((p : Point F) → Answers debugger (dragging p))
        → Sends (drag_steps debugger geometry t start end i left) (way geometry t start end i left)
    unfolding drag_steps
    drag_steps-Sends t start end i zero h = give-Sends tt
    drag_steps-Sends t start end i (suc left) h =
        then-Sends _ _ (_ ∷ []) _ (ask-Sends debugger t _ attaches (h _))
          (drag_steps-Sends t start end (i + 1) left h)

    drag_between-Sends :
        (t : Target) (start end : Point F)
        → ((p : Point F) → Answers debugger (dragging p))
        → Answers debugger (hovering start)
        → Answers debugger (pressing start)
        → Answers debugger (releasing end)
        → Sends (drag_between debugger geometry t start end) (gesture geometry t start end)
    unfolding drag_between
    drag_between-Sends t start end moves to_start down up =
        then-Sends _ _ [] _ (attach_to-Sends debugger t attaches) (
          then-Sends _ _ ((t, hovering start) ∷ []) _
            (ask-Sends debugger t (hovering start) attaches to_start)
            (then-Sends _ _ ((t, pressing start) ∷ []) _
              (ask-Sends debugger t (pressing start) attaches down)
              (then-Sends _ _ (way geometry t start end 1 6) ((t, releasing end) ∷ [])
                (drag_steps-Sends t start end 1 6 moves)
                (then-Sends _ _ ((t, releasing end) ∷ []) []
                  (ask-Sends debugger t (releasing end) attaches up) (give-Sends tt)))))

    -- In a session with an open tab, where the debugger attaches and answers mouse events, a drag
    -- between two given points returns them and sends exactly: a move to the start, a press there,
    -- six moves with the button held, and one release at the end.
    pub drag_sends :
        (session frame : Text) (n : ℕ) (x y x' y' : F) (e : Env F W)
        → (session_of session e.bridge).active_tab ≡ some n
        → ((p : Point F) → Answers debugger (dragging p))
        → ((p : Point F) → Answers debugger (hovering p))
        → ((p : Point F) → Answers debugger (pressing p))
        → ((p : Point F) → Answers debugger (releasing p))
        → (e' : Env F W) × (drag debugger geometry session frame []
              (some x)
              (some y)
              []
              (some x')
              (some y')
              e
            ≡ (ok (place x y, place x' y'), e'))
          × (e'.log ≡ e.log ++ gesture geometry (target_in frame n) (place x y) (place x' y'))
    unfolding drag point_for
    drag_sends session frame n x y x' y' e open_tab moves to_start down up =
        let t = target_in frame n in
        let start = place x y in
        let end = place x' y' in
        let (u, e', returns, sent) =
          drag_between-Sends t start end moves (to_start start) (down start) (up end)
            (opened session e) in
        (
          e',
          ap (go_on (λ t. drag_between debugger geometry t start end >> give (start, end)))
                (target_of-ok session frame n e open_tab)
              ∙ ap (go_on (λ _. give (start, end))) returns,
          sent,
        )
