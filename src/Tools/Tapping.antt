-- ===== src/Tools/Tapping.antt =====
-- The events of a tap (interact.js).
use open_webbridge.Base.{
  ℕ, ◌≡◌, refl, sym, ap, subst, ◌∙◌, lit, if_cases, if◌then◌else◌, Text, Bool, true, false, none,
  some, List, [], ◌∷◌, ◌++◌, Result, ok, err,
}
use mathlib.Core.List.{append_assoc}
use open_webbridge.Cdp.{Target, tab, target}
use open_webbridge.Cdp
use open_webbridge.Sessions.{session_of}
use open_webbridge.Tools.Page.{
  Point, Geometry, Command, method_of, enable_touch, touch_start, touch_end, Reply, object,
  Debugger, Fault, debugger_error, is_thrown, Env, go_on, recover, ◌>>=◌, ◌>>◌, give, catch,
  with_cdp, attach_to, target_in, deliver, ask,
}
use open_webbridge.Tools.Elements.{point_for}
use open_webbridge.Tools.Interact.{pressing, releasing}
use open_webbridge.Tools.Input.{timed_out, with_timeout, touch_tap, mouse_tap, tap}
use open_webbridge.Tools.Runs.{
  opened, target_of-ok, go_on-eq-ok, Attaches, Answers, attach_to-Sends, ask-Sends, Acknowledges,
  Ends, give-Ends, bind-Ends, recover-ok, log-deliver, ask-Ends,
}
use open_webbridge.Tools.Sequences.{place}

-- The last two events of a tap: of a touch, or of the mouse.
abbrev pub taps : {F : Type 0} → Target → Point F → Bool → List (Target × Command F)
taps t p true = (t, touch_start p) ∷ (t, touch_end) ∷ []
taps t p false = (t, pressing p) ∷ (t, releasing p) ∷ []

-- The commands of a tool that returned end in `cs`.
abbrev pub EndsIn : {F W : Type 0} → Env F W → List (Target × Command F) → Type 0
EndsIn {F} e cs = (before : List (Target × Command F)) × (e.log ≡ before ++ cs)

module _ {F W : Type 0} (debugger : Debugger F W) where
  log-with_cdp :
      {A : Type 0} (r : Result Text A × Cdp.Cdp) (e : Env F W) → (with_cdp r e).1.log ≡ e.log
  log-with_cdp (ok a, s) e = refl
  log-with_cdp (err x, s) e = refl

  -- A command that was answered is the last one sent.
  log-ask :
      (t : Target) (c : Command F) (e : Env F W) (r : Reply F) (e' : Env F W)
      → ask debugger t c e ≡ (ok r, e')
      → e'.log ≡ e.log ++ (t, c) ∷ []
  unfolding ask
  log-ask t c e r e' h =
      let sent =
        Cdp.send (debugger.attach_answer e.bridge.browser t) [] t (method_of c) e.bridge.cdp in
      let (u, e1, s, d) = go_on-eq-ok (λ _. deliver debugger t c) (with_cdp sent e) r e' h in
      let here = log-deliver debugger t c e1 in
      let same = log-with_cdp sent e in
      let one = ap (λ p. p.1.log) s in
      let two = ap (λ p. p.1.log) d in sym two ∙ here ∙ ap (λ l. l ++ (t, c) ∷ []) (sym one ∙ same)

  module _ (geometry : Geometry F) where
    timed_out-ok :
        {A : Type 0} (r : Result Fault A × Env F W) (a : A) (e' : Env F W)
        → timed_out debugger geometry r ≡ (ok a, e')
        → r ≡ (ok a, e')
    timed_out-ok (ok b, e) a e' h = h
    timed_out-ok (err x, e) a e' h = cc

    timed_out-throws :
        {A : Type 0} (r : Result Fault A × Env F W) (x : Fault) (e' : Env F W)
        → timed_out debugger geometry r ≡ (err x, e')
        → is_thrown x ≡ true
    timed_out-throws (ok b, e) x e' h = cc
    timed_out-throws (err y, e) x e' h =
        let late : Fault = debugger_error (lit "touch dispatch timed out") in
        let same : (if is_thrown y then y else late) ≡ x = cc h in
        subst (λ z. is_thrown z ≡ true) same
          (if_cases (λ z. is_thrown z ≡ true) (is_thrown y) (λ thrown. thrown) (λ _. refl))

    -- An end, or a time limit: the switch to touch is the only wait that may last for ever.
    touch_tap-Ends :
        (t : Target) (p : Point F)
        → Acknowledges debugger enable_touch
        → Ends (touch_tap debugger geometry t p)
    unfolding touch_tap
    touch_tap-Ends t p heard =
        bind-Ends (catch (ask debugger t enable_touch) (give (object none))) _
          (λ e x e' h.
            let (b, back) =
              recover-ok (ask debugger t enable_touch e) (object none)
                (ask-Ends debugger t enable_touch heard e) in
            cc (h, back))
          (λ _.
            bind-Ends (with_timeout debugger geometry (ask debugger t (touch_start p))) _
              (λ e. timed_out-throws (ask debugger t (touch_start p) e))
              (λ _.
                bind-Ends (with_timeout debugger geometry (ask debugger t touch_end)) _
                  (λ e. timed_out-throws (ask debugger t touch_end e)) (λ _. give-Ends true)))

    touch_tap-EndsIn :
        (t : Target) (p : Point F) (e : Env F W) (touched : Bool) (e' : Env F W)
        → touch_tap debugger geometry t p e ≡ (ok touched, e')
        → (true ≡ touched) × EndsIn e' ((t, touch_start p) ∷ (t, touch_end) ∷ [])
    unfolding touch_tap
    touch_tap-EndsIn t p e touched e' h =
        let (a, e1, h1, k1) =
          go_on-eq-ok _ (catch (ask debugger t enable_touch) (give (object none)) e) touched e' h in
        let (b, e2, h2, k2) =
          go_on-eq-ok _ (with_timeout debugger geometry (ask debugger t (touch_start p)) e1) touched
            e' k1 in
        let (c, e3, h3, k3) =
          go_on-eq-ok _ (with_timeout debugger geometry (ask debugger t touch_end) e2) touched e'
            k2 in
        let started =
          log-ask t (touch_start p) e1 b e2
            (timed_out-ok (ask debugger t (touch_start p) e1) b e2 h2) in
        let ended =
          log-ask t touch_end e2 c e3 (timed_out-ok (ask debugger t touch_end e2) c e3 h3) in
        (
          cc,
          (
            e1.log,
            sym (ap (λ p. p.1.log) k3)
                ∙ ended
                ∙ ap (λ l. l ++ (t, touch_end) ∷ []) started
                ∙ append_assoc e1.log ((t, touch_start p) ∷ []) ((t, touch_end) ∷ []),
          ),
        )

    mouse_tap-EndsIn :
        (t : Target) (p : Point F)
        → Attaches debugger
        → Answers debugger (pressing p)
        → Answers debugger (releasing p)
        → (e : Env F W)
        → (e' : Env F W) × (mouse_tap debugger geometry t p e ≡ (ok false, e'))
          × EndsIn e' (taps t p false)
    unfolding mouse_tap
    mouse_tap-EndsIn t p attaches down up e =
        let (r, e1, h1, l1) = ask-Sends debugger t (pressing p) attaches down e in
        let (r', e2, h2, l2) = ask-Sends debugger t (releasing p) attaches up e1 in
        (
          e2,
          ap (go_on (λ _. ask debugger t (releasing p) >> give false)) h1
              ∙ ap (go_on (λ _. give false)) h2,
          (
            e.log,
            l2
                ∙ ap (λ l. l ++ (t, releasing p) ∷ []) l1
                ∙ append_assoc e.log ((t, pressing p) ∷ []) ((t, releasing p) ∷ []),
          ),
        )

    lands :
        (t : Target) (p : Point F) (e : Env F W) (r : Result Fault Bool × Env F W)
        → Attaches debugger
        → Answers debugger (pressing p)
        → Answers debugger (releasing p)
        → Acknowledges debugger enable_touch
        → touch_tap debugger geometry t p e ≡ r
        → (touched : Bool) × (e' : Env F W) × (recover (mouse_tap debugger geometry t p) r
            ≡ (ok touched, e'))
          × EndsIn e' (taps t p touched)
    lands t p e (ok b, e') attaches down up heard h =
        let (through, ends) = touch_tap-EndsIn t p e b e' h in
        (b, e', refl, subst (λ b. EndsIn e' (taps t p b)) through ends)
    lands t p e (err x, e1) attaches down up heard h =
        let (e', returns, ends) = mouse_tap-EndsIn t p attaches down up e1 in
        (false, e', rw (touch_tap-Ends t p heard e x e1 h) returns, ends)

    -- Whatever the debugger does to touches, even if it never acknowledges one: if it attaches, answers
    -- presses and releases, and acknowledges the switch to touches by an answer or an error, a tap at a
    -- given point in a session with an open tab returns, and the last it has sent is the start and the
    -- end of a touch if the answer says that the touch went through, and a press and a release of the
    -- mouse there if not.
    pub tap_lands :
        (session frame : Text) (n : ℕ) (x y : F) (e : Env F W)
        → Attaches debugger
        → (session_of session e.bridge).active_tab ≡ some n
        → ((p : Point F) → Answers debugger (pressing p))
        → ((p : Point F) → Answers debugger (releasing p))
        → Acknowledges debugger enable_touch
        → (touched : Bool) × (e' : Env F W) × (tap debugger geometry session frame []
              (some x)
              (some y)
              e
            ≡ (ok (place x y, touched), e'))
          × EndsIn e' (taps (target_in frame n) (place x y) touched)
    unfolding tap point_for
    tap_lands session frame n x y e attaches open_tab down up heard =
        let t = target_in frame n in
        let p = place x y in
        let (u, e1, attached, l1) = attach_to-Sends debugger t attaches (opened session e) in
        let (touched, e2, returns, ends) =
          lands t p e1 (touch_tap debugger geometry t p e1) attaches (down p) (up p) heard refl in
        (
          touched,
          e2,
          ap
                (go_on (λ t.
                  attach_to debugger t
                  >> (catch (touch_tap debugger geometry t p) (mouse_tap debugger geometry t p)
                      >>= (λ b. give (place x y, b)))))
                (target_of-ok session frame n e open_tab)
              ∙ ap
                  (go_on (λ _.
                    catch (touch_tap debugger geometry t p) (mouse_tap debugger geometry t p)
                    >>= (λ b. give (place x y, b))))
                  attached
              ∙ ap (go_on (λ b. give (place x y, b))) returns,
          ends,
        )
