-- ===== src/Worker.antt =====
-- open-webbridge-extension/src/background.js: the service worker, which passes the events of the
-- browser and the messages of the popup and of pages on to the modules.
--
-- `TEST` is WsClient.Probe and is left out; CONNECT and DISCONNECT are the calls up to their first
-- await (the rest are events of WsClient). Of an event, `World` holds what the browser answers.
pub mod Closing
pub mod Toggling
mod Examples
use open_webbridge.Base.{
  ℕ, Text, lit, text_eq, Bool, true, false, not, Option, none, some, or_else, List, [], ◌∷◌, ◌++◌,
  Result, ok, err, if◌then◌else◌,
}
use open_webbridge.WsClient.{
  Ws, Event, State, connected, Notice, alarm_event, connect_call, disconnect_call, step,
}
use open_webbridge.Sessions.{Bridge, session_for_tab}
use open_webbridge.Sessions
use open_webbridge.Network.{Capture}
use open_webbridge.Dialogs.{Dialogs}
use open_webbridge.Mode.{
  Mode, StartError, is_active, start, stop, handle_tab_removed, handle_tab_updated,
}
use open_webbridge.Annotations.Record.{Float}
use open_webbridge.Annotations.Store.{StoreError}
use open_webbridge.Annotate.{Desk, World}
use open_webbridge.Annotate.Pages.{start_mode, PageMessage, PageReply, handle_page_message}

-- The state of the whole extension: the link, the sessions with the references and the debugger, the
-- annotations, and what network.js and dialogs.js keep for each tab.
pub record Extension (F W : Type 0) : Type 0 where
  pub link : Ws
  pub bridge : Bridge W
  pub desk : Desk F
  pub capture : Capture
  pub dialogs : Dialogs

pub data Signal (F : Type 0) : Type 0 where
  -- `onInstalled`, `onStartup`, the keepalive alarm, and the first run of the script.
  revive : Signal F
  tab_closed : ℕ → Signal F
  -- Whether the page is complete.
  tab_changed : Bool → ℕ → Signal F
  shortcut : Text → Signal F
  -- From a tab, if any, with the frame and the address.
  from_page : Option ℕ → ℕ → Text → PageMessage F → Signal F
  get_status toggle_annotate disconnect_link : Signal F
  connect_to other : Text → Signal F

pub record Status : Type 0 where
  pub is_connected : Bool
  pub url : Text
  pub notice : Option Notice
  pub tab : Option ℕ
  pub annotating : Bool

pub data Answer (F : Type 0) : Type 0 where
  nothing acknowledged no_active_tab : Answer F
  page_answer : Result StoreError (PageReply F) → Answer F
  status : Status → Answer F
  toggled : Bool → Answer F
  not_started : StartError → Answer F
  unknown_message : Text → Answer F

abbrev pub linked : State → Bool
linked connected = true
linked _ = false

-- A start that throws leaves what it has done.
abbrev pub begun : {F : Type 0} → Result StartError (Unit {0}) × Desk F → Answer F × Desk F
begun (err why, d) = (not_started why, d)
begun (ok _, d) = (toggled true, d)

unfoldable pub toggle : {F : Type 0} → World → ℕ → Desk F → Answer F × Desk F
unfolding is_active start_mode stop
toggle w t d =
    let r = is_active w.readable w.tabs t d.mode in
    if r.0
    then (toggled false, record d { mode = (stop w.readable w.tabs w.modes_written t r.1).1 })
    else begun (start_mode w t (record d { mode = r.1 }))

module _ {F W : Type 0} (w : World) where
  abbrev pub with_desk : Extension F W → Answer F × Desk F → Answer F × Extension F W
  with_desk x r = (r.0, record x { desk = r.1 })

  unfoldable pub toggle_focused : Extension F W → Answer F × Extension F W
  unfolding toggle
  toggle_focused x = elim w.focused [
    | none ↦ (no_active_tab, x)
    | some t ↦ with_desk x (toggle w t x.desk)
  ]

  unfoldable pub status_of : Extension F W → Answer F × Extension F W
  unfolding is_active
  status_of x = elim w.focused [
    | none ↦ (
      status (record {
        is_connected = linked x.link.state;
        url = x.link.current_url;
        notice = x.link.notice;
        tab = none;
        annotating = false;
      }),
      x,
    )
    | some t ↦
        let r = is_active w.readable w.tabs t x.desk.mode in
        (
          status (record {
            is_connected = linked x.link.state;
            url = x.link.current_url;
            notice = x.link.notice;
            tab = some t;
            annotating = r.0;
          }),
          record x { desk = record x.desk { mode = r.1 } },
        )
  ]

  unfoldable pub close_tab : ℕ → Extension F W → Extension F W
  unfolding handle_tab_removed
  close_tab t x = record x {
    bridge = Sessions.handle_tab_removed t x.bridge;
    desk = record x.desk { mode = handle_tab_removed w.modes_written t x.desk.mode };
  }

  -- The session that owns the tab of a page.
  abbrev owner : Option ℕ → Extension F W → Text
  owner none x = []
  owner (some t) x = session_for_tab t x.bridge.sessions

  unfoldable pub on_signal : Float F → Signal F → Extension F W → Answer F × Extension F W
  unfolding step close_tab handle_tab_updated toggle_focused handle_page_message status_of
      session_for_tab
  on_signal float revive x = (nothing, record x { link = step alarm_event x.link })
  on_signal float (tab_closed t) x = (nothing, close_tab t x)
  on_signal float (tab_changed complete t) x = (
    nothing,
    record x {
      desk = record x.desk {
        mode = handle_tab_updated complete w.readable w.tabs w.injected t x.desk.mode;
      };
    },
  )
  on_signal float (shortcut command) x =
      if text_eq command (lit "toggle-annotate")
      then (nothing, (toggle_focused x).1)
      else (nothing, x)
  on_signal float (from_page tab frame url message) x =
      let r = handle_page_message w float (owner tab x) tab frame url message x.desk in
      (page_answer r.0, record x { desk = r.1 })
  on_signal float get_status x = status_of x
  on_signal float toggle_annotate x = toggle_focused x
  on_signal float (connect_to url) x =
      (acknowledged, record x { link = step (connect_call url) x.link })
  on_signal float disconnect_link x =
      (acknowledged, record x { link = step disconnect_call x.link })
  on_signal float (other type) x = (unknown_message type, x)
