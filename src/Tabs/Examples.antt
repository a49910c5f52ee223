-- ===== src/Tabs/Examples.antt =====
-- The theorems on the tab tools at a concrete browser: its state is the time, tab 4 is open and never
-- done with loading.
use open_webbridge.Base.{
  ℕ, ◌+◌, ◌≡◌, refl, Text, lit, text_eq, sort_by, true, false, Option, none, some, [], ◌∷◌, Result,
  ok, arith,
}
use open_webbridge.Sessions.{TabInfo, Browser, Bridge, bind_tab}
use open_webbridge.Tabs.{Windows, TabError, navigate, find_tab}
use open_webbridge.Tabs.Loading.{navigate-Ends}
use open_webbridge.Tabs.Finding.{IsFound, find_tab-IsFound}

abbrev address : Text
address = lit "https://a.com/x"

abbrev info : TabInfo
info = record { url = some address; pending_url = none }

abbrev chrome : Browser ℕ
chrome = record {
  tab_get = λ w t. some info;
  tab_remove = λ w t. (true, w);
  tab_create = λ w. (some 8, w);
  tab_group = λ w t g. (none, w);
  group_query = λ w. none;
  group_tabs = λ w g. none;
  group_title = λ w g title. (true, w);
  storage_get = λ w. none;
  storage_set = λ w owned. w;
}

abbrev windows : Windows ℕ
windows = record {
  load = λ w t url. (true, w);
  show = λ w t. (true, w);
  focus = λ w t. w;
  query = λ w. record { id = 4; info = info; active = false; index = 0 } ∷ [];
  loaded = λ w t. some false;
  now = λ w. w;
  sleep = λ w. w + 150;
}

-- The address is its own host here.
abbrev host_name : Text → Option Text
host_name u = some u

abbrev start : Bridge ℕ
start = record {
  sessions = [];
  refs = [];
  cdp = record { attached = []; enabled = []; sent = [] };
  browser = 0;
}

navigate-Ends_example :
    (r : Result TabError (Option Text × ℕ)) × (b' : Bridge ℕ) × (navigate chrome windows host_name
        202
        (lit "work")
        address
        true
        []
        []
        start
      ≡ some (r, b'))
navigate-Ends_example =
    navigate-Ends chrome windows host_name (lit "work") address [] true [] start (λ w. omega arith)

found :
    find_tab chrome windows host_name (lit "work") address false [] start
    ≡ (ok (some address, 4), bind_tab (lit "work") 4 start)
unfolding find_tab text_eq sort_by
found = refl

find_tab-IsFound_example :
    IsFound chrome windows host_name
      (lit "work")
      address
      false
      start
      (some address)
      4
      (bind_tab (lit "work") 4 start)
find_tab-IsFound_example =
    find_tab-IsFound chrome windows host_name (lit "work") address false [] start (some address) 4
      (bind_tab (lit "work") 4 start) found
