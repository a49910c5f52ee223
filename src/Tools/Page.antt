-- ===== src/Tools/Page.antt =====
-- What a tool of open-webbridge-extension/src/tools does to a page: it sends commands through the
-- debugger (`cdp.send`), reads the references of the last snapshot, and may throw.
--
-- The page is outside: `Debugger F W` is what `chrome.debugger` answers, on the state `W` of the
-- browser; a command may also be never acknowledged, while an attach, and the commands of cdp.js that
-- enable a domain, are always answered. Nothing is detached while a command is awaited. A coordinate is a value of a type `F`,
-- with the arithmetic of JavaScript's numbers that the tools use as `Geometry F`.
use open_webbridge.Base.{
  ℕ, Text, lit, is_empty, Bool, true, false, Option, none, some, List, [], ◌∷◌, ◌++◌, Result, ok,
  err, if◌then◌else◌,
}
use open_webbridge.Cdp.{Cdp, Target, tab, target, AttachAnswer, attach, ensure_domain}
use open_webbridge.Cdp
use open_webbridge.Sessions.{Bridge, get_active_tab}
use open_webbridge.Snapshot.{Node}

pub record Point (F : Type 0) : Type 0 where
  pub x : F
  pub y : F

-- The corners of a content box, in the order of `DOM.getBoxModel`.
pub record Quad (F : Type 0) : Type 0 where
  pub a : Point F
  pub b : Point F
  pub c : Point F
  pub d : Point F

-- `(p + q + r + s) / 4`, `p + ((q - p) * i) / steps`, and `Number(x) || 0` of a missing value.
pub record Geometry (F : Type 0) : Type 0 where
  pub mean : F → F → F → F → F
  pub between : F → F → ℕ → ℕ → F
  pub zero_point : F

-- The functions that run in the page.
pub data PageFunction : Type 0 where
  scroll_into_view focus_element click_element describe_element fill_value select_value :
      PageFunction

pub data MouseKind : Type 0 where
  moved pressed released : MouseKind

-- `held` is `button: "left", buttons: 1`, `counted` is `clickCount: 1`.
pub record Mouse (F : Type 0) : Type 0 where
  pub kind : MouseKind
  pub place : Point F
  pub held : Bool
  pub counted : Bool

pub record KeySpec : Type 0 where
  pub key : Text
  pub key_code : Option ℕ
  pub text : Option Text

-- The parameters of `Page.captureScreenshot` and `Page.printToPDF`; lengths are in hundredths of an inch.
pub record Clip (F : Type 0) : Type 0 where
  pub corner : Point F
  pub width : F
  pub height : F

pub record Shot (F : Type 0) : Type 0 where
  pub format : Text
  pub quality : Option F
  pub clip : Option (Clip F)

pub record Print (F : Type 0) : Type 0 where
  pub landscape : Bool
  pub background : Bool
  pub scale : F
  pub paper : ℕ × ℕ

-- What `emulate` sets.
pub record Device (F : Type 0) : Type 0 where
  pub width : Option F
  pub height : Option F
  pub scale_factor : Option F
  pub mobile : Bool

pub record Location (F : Type 0) : Type 0 where
  pub latitude : Option F
  pub longitude : Option F
  pub accuracy : Option F

pub data Command (F : Type 0) : Type 0 where
  resolve_node : ℕ → Command F
  query_selector : Text → Command F
  call_function : Text → PageFunction → List Text → Command F
  get_box_model : Text → Command F
  mouse_event : Mouse F → Command F
  key_down key_up : KeySpec → Command F
  key_char : Text → Command F
  scroll_by : F → F → Command F
  set_files : Text → List Text → Command F
  enable_touch : Command F
  touch_start : Point F → Command F
  touch_end : Command F
  run_code : Text → Command F
  get_tree : Command F
  capture : Shot F → Command F
  print : Print F → Command F
  set_device : Device F → Command F
  set_agent : Text → Command F
  set_location : Location F → Command F
  clear_device clear_location : Command F

abbrev pub method_of : {F : Type 0} → Command F → Text
method_of (resolve_node _) = lit "DOM.resolveNode"
method_of (query_selector _) = lit "Runtime.evaluate"
method_of (call_function _ _ _) = lit "Runtime.callFunctionOn"
method_of (get_box_model _) = lit "DOM.getBoxModel"
method_of (mouse_event _) = lit "Input.dispatchMouseEvent"
method_of (key_down _) = lit "Input.dispatchKeyEvent"
method_of (key_up _) = lit "Input.dispatchKeyEvent"
method_of (key_char _) = lit "Input.dispatchKeyEvent"
method_of (scroll_by _ _) = lit "Runtime.evaluate"
method_of (set_files _ _) = lit "DOM.setFileInputFiles"
method_of enable_touch = lit "Emulation.setTouchEmulationEnabled"
method_of (touch_start _) = lit "Input.dispatchTouchEvent"
method_of touch_end = lit "Input.dispatchTouchEvent"
method_of (run_code _) = lit "Runtime.evaluate"
method_of get_tree = lit "Accessibility.getFullAXTree"
method_of (capture _) = lit "Page.captureScreenshot"
method_of (print _) = lit "Page.printToPDF"
method_of (set_device _) = lit "Emulation.setDeviceMetricsOverride"
method_of (set_agent _) = lit "Emulation.setUserAgentOverride"
method_of (set_location _) = lit "Emulation.setGeolocationOverride"
method_of clear_device = lit "Emulation.clearDeviceMetricsOverride"
method_of clear_location = lit "Emulation.clearGeolocationOverride"

-- An answer: the object that was found, if any; what was thrown in the page; a box; a value; a tree.
pub data Reply (F : Type 0) : Type 0 where
  object : Option Text → Reply F
  exception : Text → Reply F
  box : Quad F → Reply F
  value : Text → Reply F
  tree : List Node → Reply F

pub record Debugger (F W : Type 0) : Type 0 where
  pub attach_answer : W → Target → AttachAnswer
  -- An error is what `chrome.debugger.sendCommand` reports.
  pub reply : W → Target → Command F → Result Text (Reply F) × W
  -- The command is never acknowledged: neither an answer nor an error comes.
  pub is_silent : W → Target → Command F → Bool

-- What a tool throws.
pub data Fault : Type 0 where
  no_open_tab tab_gone missing_selector no_point : Fault
  unknown_ref unresolved_ref invalid_selector no_match call_failed : Text → Fault
  debugger_error : Text → Fault
  bad_arguments : Text → Fault
  -- Not thrown: what is awaited never comes, so that nothing that follows runs.
  unanswered : Fault

-- The extension's state, and the commands that were sent with their parameters, the last one last.
pub record Env (F W : Type 0) : Type 0 where
  pub bridge : Bridge W
  pub log : List (Target × Command F)

abbrev pub Tool : Type 0 → Type 0 → Type 0 → Type 0
Tool F W A = Env F W → Result Fault A × Env F W

abbrev pub go_on :
    {F W A B : Type 0} → (A → Tool F W B) → Result Fault A × Env F W → Result Fault B × Env F W
go_on f (ok a, e) = f a e
go_on f (err x, e) = (err x, e)

infixl 5 ◌>>=◌ ◌>>◌
abbrev pub ◌>>=◌ : {F W A B : Type 0} → Tool F W A → (A → Tool F W B) → Tool F W B
◌>>=◌ m f e = go_on f (m e)

abbrev pub ◌>>◌ : {F W A B : Type 0} → Tool F W A → Tool F W B → Tool F W B
◌>>◌ m k e = go_on (λ _. k) (m e)

abbrev pub give : {F W A : Type 0} → A → Tool F W A
give a e = (ok a, e)

abbrev pub throw : {F W A : Type 0} → Fault → Tool F W A
throw x e = (err x, e)

abbrev pub is_thrown : Fault → Bool
is_thrown unanswered = false
is_thrown _ = true

abbrev pub recover :
    {F W A : Type 0} → Tool F W A → Result Fault A × Env F W → Result Fault A × Env F W
recover h (ok a, e) = (ok a, e)
recover h (err x, e) = if is_thrown x then h e else (err x, e)

-- `try { m } catch { h }`: what `m` did before it threw stays. There is no catch of what hangs.
abbrev pub catch : {F W A : Type 0} → Tool F W A → Tool F W A → Tool F W A
catch m h e = recover h (m e)

abbrev pub with_cdp : {F W A : Type 0} → Result Text A × Cdp → Env F W → Result Fault A × Env F W
with_cdp (ok a, c) e = (ok a, record e { bridge = record e.bridge { cdp = c } })
with_cdp (err x, c) e = (err (debugger_error x), record e { bridge = record e.bridge { cdp = c } })

-- `getActiveTab(session)`
unfoldable pub active_tab_of : {F W : Type 0} → Text → Tool F W ℕ
active_tab_of session e =
    let r = get_active_tab session e.bridge in
    let opened : Env _ _ = record e { bridge = r.1 } in
    elim r.0 [ none ↦ (err no_open_tab, opened) | some t ↦ (ok t, opened) ]

-- `args.frame ? { targetId: args.frame } : tabId`, which is also the key of the references.
abbrev pub target_in : Text → ℕ → Target
target_in frame n = if is_empty frame then tab n else target frame

unfoldable pub target_of : {F W : Type 0} → Text → Text → Tool F W Target
unfolding active_tab_of
target_of session frame = do n ← active_tab_of session; give (target_in frame n)

module _ {F W : Type 0} (debugger : Debugger F W) where
  unfoldable pub attach_to : Target → Tool F W (Unit {0})
  attach_to t e = with_cdp (attach (debugger.attach_answer e.bridge.browser t) [] t e.bridge.cdp) e

  unfoldable pub ensure : Target → Text → Tool F W (Unit {0})
  ensure t domain e =
      with_cdp
        (ensure_domain (debugger.attach_answer e.bridge.browser t) [] [] t domain e.bridge.cdp) e

  -- `cdp.send` has attached; the command is on its way whatever the answer is.
  unfoldable pub deliver : Target → Command F → Tool F W (Reply F)
  deliver t c e =
      let r = debugger.reply e.bridge.browser t c in
      let after : Env F W = record e {
        bridge = record e.bridge { browser = r.1 };
        log = e.log ++ (t, c) ∷ [];
      } in
      if debugger.is_silent e.bridge.browser t c
      then (err unanswered, after)
      else elim r.0 [ ok a ↦ (ok a, after) | err x ↦ (err (debugger_error x), after) ]

  unfoldable pub ask : Target → Command F → Tool F W (Reply F)
  unfolding deliver
  ask t c e =
      (with_cdp
            (Cdp.send (debugger.attach_answer e.bridge.browser t) [] t (method_of c) e.bridge.cdp)
          >> deliver t c)
        e
