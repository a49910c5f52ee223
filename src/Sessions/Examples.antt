-- ===== src/Sessions/Examples.antt =====
-- A small browser, and the theorems on sessions at concrete inputs.
use open_webbridge.Base.{
  ℕ, ◌+◌, ◌≡◌, refl, Text, lit, text_eq, text_keys, number_keys, Table, lookup, insert, contains,
  contains-delete, beq_refl, add, delete, true, false, Option, none, some, or_else, List, [], ◌∷◌,
  if◌then◌else◌, arith, ok,
}
use open_webbridge.Sessions.{TabInfo, Browser, Bridge, session_of, tab_exists}
use open_webbridge.Sessions.Opening.{acquire_tab_for_navigation}
use open_webbridge.Sessions.Owned.{IsOwned}
use open_webbridge.Sessions.Emptied.{IsSound}
use open_webbridge.Sessions.Reached.{
  Action, navigate, bind, close_tab, close_all, tab_removed, run, run-IsOwned,
}
use open_webbridge.Sessions.Acquired.{acquire-Active}
use open_webbridge.Cdp.{target_keys}

-- The open tabs, the number of the next one, and the storage. It knows no groups.
record World : Type 0 where
  tabs : List ℕ
  next : ℕ
  owned : Table ℕ Text

abbrev blank : TabInfo
blank = record { url = some (lit "about:blank"); pending_url = none }

unfoldable world_get : World → ℕ → Option TabInfo
world_get w t = if contains t w.tabs then some blank else none

abbrev chrome : Browser World
chrome = record {
  tab_get = world_get;
  tab_remove = λ w t. (contains t w.tabs, record w { tabs = delete t w.tabs });
  tab_create = λ w. (some w.next, record w { tabs = add w.next w.tabs; next = w.next + 1 });
  tab_group = λ w t g. (some (or_else g 1), w);
  group_query = λ w. some [];
  group_tabs = λ w g. some [];
  group_title = λ w g title. (true, w);
  storage_get = λ w. some w.owned;
  storage_set = λ w owned. record w { owned = owned };
}

chrome-IsSound : IsSound chrome
unfolding world_get
chrome-IsSound = record {
  gone = λ w t h. rw (contains-delete t t w.tabs, beq_refl t) refl;
  stays = λ w t u h. ground (arith, contains-delete t u w.tabs);
}

abbrev host_name : Text → Option Text
host_name u = some u

abbrev start : Bridge World
start = record {
  sessions = [];
  refs = [];
  cdp = record { attached = []; enabled = []; sent = [] };
  browser = record { tabs = []; next = 7; owned = [] };
}

start-IsOwned : IsOwned start.sessions
unfolding lookup
start-IsOwned key = refl

abbrev work : List Action
work =
    navigate (lit "a") true [] none
    ∷ navigate (lit "a") true [] none
    ∷ bind (lit "a") 3
    ∷ tab_removed 3
    ∷ close_tab (lit "a")
    ∷ navigate (lit "b") false [] none
    ∷ close_all (lit "b")
    ∷ []

run-IsOwned_example : IsOwned (run chrome host_name start work).sessions
run-IsOwned_example = run-IsOwned chrome host_name work start chrome-IsSound start-IsOwned

first_tab : (acquire_tab_for_navigation chrome host_name (lit "a") true [] none start).0 ≡ ok 7
unfolding acquire_tab_for_navigation tab_exists lookup insert text_eq
first_tab = refl

acquire-Active_example :
    (session_of
      (lit "a")
      (acquire_tab_for_navigation chrome host_name (lit "a") true [] none start).1).active_tab
    ≡ some 7
acquire-Active_example = acquire-Active chrome host_name (lit "a") true [] none start 7 first_tab

abbrev bound : Bridge World
bound = run chrome host_name start (bind (lit "a") 3 ∷ [])
