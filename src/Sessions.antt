-- ===== src/Sessions.antt =====
-- open-webbridge-extension/src/sessions.js: the named sessions, each a group of tabs.
--
-- The browser is outside: `Browser W` is what the source calls of `chrome.tabs`, `chrome.tabGroups`
-- and `chrome.storage.local`, on a state `W` that the model says nothing about. A call that may
-- reject answers an option or a Boolean. An operation is one step here. In the source its awaits may
-- let another call in: navigate, find_tab and activate_tab take the lock of the tabs only while caps are set, and
-- the closing of tabs, sessions and groups never takes it.
pub mod Groups
pub mod Closing
pub mod Opening
pub mod Owned
pub mod Removed
pub mod Emptied
pub mod Closed
pub mod Reached
pub mod Acquired
mod Examples
use open_webbridge.Base.{
  ℕ, Text, lit, text_eq, is_empty, text_keys, number_keys, Table, keys, lookup, insert, erase,
  contains, add, delete, any, map, filter, ◌==◌, is_some, Bool, true, false, not, ◌&&◌, ◌||◌,
  Option, none, some, or_else, List, [], ◌∷◌, Result, ok, err, if◌then◌else◌, ◌≡◌,
}
use open_webbridge.Cdp.{Cdp, tab, cleanup}
use open_webbridge.Refs.{Refs, clear_refs}

pub record Group : Type 0 where
  pub id : ℕ
  pub title : Option Text

-- The addresses that `chrome.tabs.get` reports.
pub record TabInfo : Type 0 where
  pub url : Option Text
  pub pending_url : Option Text

pub record Browser (W : Type 0) : Type 0 where
  pub tab_get : W → ℕ → Option TabInfo
  -- Whether the tab was closed; the call rejects otherwise.
  pub tab_remove : W → ℕ → Bool × W
  -- A blank tab in the background.
  pub tab_create : W → Option ℕ × W
  -- The tab joins the group, or a new one; the answer is the group.
  pub tab_group : W → ℕ → Option ℕ → Option ℕ × W
  pub group_query : W → Option (List Group)
  pub group_tabs : W → ℕ → Option (List ℕ)
  pub group_title : W → ℕ → Text → Bool × W
  -- The table of owned groups; `none` if there is none or it cannot be read.
  pub storage_get : W → Option (Table ℕ Text)
  pub storage_set : W → Table ℕ Text → W

pub record Session : Type 0 where
  pub group_id : Option ℕ
  pub active_tab : Option ℕ
  pub tab_ids : List ℕ

-- The extension's state: the sessions, the references of refs.js, the debugger of cdp.js, and the
-- browser.
pub record Bridge (W : Type 0) : Type 0 where
  pub sessions : Table Text Session
  pub refs : Refs
  pub cdp : Cdp
  pub browser : W

abbrev pub new_session : Session
new_session = record { group_id = none; active_tab = none; tab_ids = [] }

abbrev pub session_key : Text → Text
session_key name = if is_empty name then lit "default" else name

-- `[...tabIds][tabIds.size - 1]`
unfoldable pub last_of : List ℕ → Option ℕ
last_of [] = none
last_of (t ∷ ts) = let rest = last_of ts in if is_some rest then rest else some t

abbrev pub session_in : Text → Table Text Session → Session
session_in key sessions = or_else (lookup key sessions) new_session

module _ {W : Type 0} where
  -- The session that a name has, after `getSession`.
  abbrev pub session_of : Text → Bridge W → Session
  session_of name b = session_in (session_key name) b.sessions

  unfoldable pub put : Text → Session → Bridge W → Bridge W
  put name s b = record b { sessions = insert (session_key name) s b.sessions }

  -- A session that is not there is made.
  unfoldable pub get_session : Text → Bridge W → Bridge W
  unfolding put
  get_session name b = put name (session_of name b) b

  -- `none` is the error that asks for a call of navigate.
  unfoldable pub get_active_tab : Text → Bridge W → Option ℕ × Bridge W
  unfolding get_session
  get_active_tab name b = ((session_of name b).active_tab, get_session name b)

  unfoldable pub bind_tab : Text → ℕ → Bridge W → Bridge W
  unfolding put
  bind_tab name t b =
      put name
        (record (session_of name b) {
          tab_ids = add t (session_of name b).tab_ids;
          active_tab = some t;
        })
        b

-- The first session that holds the tab, or the empty text.
unfoldable pub session_for_tab : ℕ → Table Text Session → Text
session_for_tab t [] = []
session_for_tab t ((name, s) ∷ rest) =
    let others = session_for_tab t rest in if contains t s.tab_ids then name else others

abbrev pub is_active : ℕ → Session → Bool
is_active t s = elim s.active_tab [ none ↦ false | some a ↦ a == t ]

-- What the removal of a tab does to a session.
unfoldable pub drop_tab : ℕ → Session → Session
unfolding last_of
drop_tab t s =
    let ids = delete t s.tab_ids in
    if contains t s.tab_ids && is_active t s
    then record s { tab_ids = ids; active_tab = last_of ids }
    else record s { tab_ids = ids }

unfoldable pub drop_everywhere : ℕ → Table Text Session → Table Text Session
unfolding drop_tab
drop_everywhere t [] = []
drop_everywhere t ((name, s) ∷ rest) = (name, drop_tab t s) ∷ drop_everywhere t rest

unfoldable pub handle_tab_removed : {W : Type 0} → ℕ → Bridge W → Bridge W
unfolding drop_everywhere
handle_tab_removed t b = record b {
  sessions = drop_everywhere t b.sessions;
  refs = clear_refs (tab t) b.refs;
  cdp = cleanup (tab t) b.cdp;
}

module _ {W : Type 0} (chrome : Browser W) where
  unfoldable pub tab_exists : W → Option ℕ → Bool
  tab_exists w none = false
  tab_exists w (some t) = is_some (chrome.tab_get w t)

  unfoldable pub load_owned : W → Table ℕ Text
  load_owned w = or_else (chrome.storage_get w) []

  unfoldable pub remember_owned : Text → ℕ → W → W
  unfolding load_owned
  remember_owned name g w = chrome.storage_set w (insert g (session_key name) (load_owned w))

  unfoldable pub forget_owned_group : ℕ → W → W
  unfolding load_owned
  forget_owned_group g w = chrome.storage_set w (erase g (load_owned w))
