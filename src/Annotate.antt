-- ===== src/Annotate.antt =====
-- The annotations as the agent and the page reach them: open-webbridge-extension/src/tools/annotate.js
-- and the messages of the page in open-webbridge-extension/src/annotations/mode.js, on the store and
-- the set of annotated tabs. An operation is one step: nothing else runs while it waits.
pub mod Pages
pub mod Args
pub mod Tool
pub mod Operations
pub mod Cases
pub mod Spared
pub mod Shown
pub mod Submitted
pub mod Examples
use open_webbridge.Base.{ℕ, Text, Bool, Option, List}
use open_webbridge.Annotations.Record.{Annotation}
use open_webbridge.Annotations.Store.{Store}
use open_webbridge.Mode.{Mode}

-- An `OWB_ANN_SYNC` message to a frame.
pub record Push (F : Type 0) : Type 0 where
  pub tab : ℕ
  pub frame : ℕ
  pub annotations : List (Annotation F)

pub record Desk (F : Type 0) : Type 0 where
  pub store : Store F
  pub mode : Mode
  pub pushed : List (Push F)

-- What an operation meets outside: whether storage can be read and written (the modes, the records,
-- the images and their second try), the addresses of the tabs, whether the script can be injected,
-- `new URL` without the fragment, the time, what `getActiveTab(session)` answers, the tab in front of
-- the user, and the image of a capture.
pub record World : Type 0 where
  pub readable : Bool
  pub modes_written : Bool
  pub written : Bool
  pub shots_written : Bool
  pub shots_retried : Bool
  pub tabs : ℕ → Option Text
  pub injected : Bool
  pub strip_hash : Text → Option Text
  pub stamp : Text
  pub session_tab : Option ℕ
  pub focused : Option ℕ
  pub shot : Option Text
