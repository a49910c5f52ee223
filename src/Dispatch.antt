-- ===== src/Dispatch.antt =====
-- open-webbridge-extension/src/dispatcher.js: a tool call by the name of its action. The tools
-- themselves are a parameter. Names that every JavaScript object inherits (`toString`) are left out.
use open_webbridge.Base.{
  Text, lit, text_keys, is_empty, contains, List, [], ◌∷◌, ◌++◌, Result, err, if◌then◌else◌,
}

abbrev pub action_names : List Text
action_names =
    lit "navigate"
    ∷ lit "find_tab"
    ∷ lit "list_tabs"
    ∷ lit "list_sessions"
    ∷ lit "activate_tab"
    ∷ lit "close_tab"
    ∷ lit "close_session"
    ∷ lit "snapshot"
    ∷ lit "evaluate"
    ∷ lit "frames"
    ∷ lit "click"
    ∷ lit "fill"
    ∷ lit "hover"
    ∷ lit "scroll"
    ∷ lit "press_key"
    ∷ lit "select_option"
    ∷ lit "upload"
    ∷ lit "drag"
    ∷ lit "tap"
    ∷ lit "screenshot"
    ∷ lit "save_as_pdf"
    ∷ lit "annotate"
    ∷ lit "annotations"
    ∷ lit "network"
    ∷ lit "emulate"
    ∷ lit "download"
    ∷ lit "dialog"
    ∷ lit "cookies"
    ∷ []

module _ {S A R : Type 0} (handler : Text → A → Text → S → Result Text R × S) where
  -- A call without a session works in the default one.
  unfoldable pub dispatch : Text → A → Text → S → Result Text R × S
  dispatch action args session s =
      if contains action action_names
      then handler action args (if is_empty session then lit "default" else session) s
      else (err (lit "unknown action: " ++ action), s)
