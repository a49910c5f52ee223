-- ===== src/Tabs.antt =====
-- open-webbridge-extension/src/tools/tabs.js: the tools that open, find, show and close tabs.
--
-- What tabs.js calls of `chrome.tabs` and `chrome.windows` beyond `Browser W`, and the clock, is
-- `Windows W`. A tool is one step: what other calls do during its awaits is left out, which
-- the lock of the tabs prevents only while caps are set.
pub mod Loading
pub mod Finding
mod Examples
use mathlib.Core.Option
use open_webbridge.Base.{
  ℕ, zero, suc, ◌+◌, ◌-◌, Text, lit, text_eq, is_empty, starts_with, ends_with, includes, drop,
  text_keys, number_keys, contains, ltb, leb, ◌==◌, map, sort_by, filter, find, length, is_some,
  Bool, true, false, not, ◌&&◌, ◌||◌, Option, none, some, or_else, List, [], ◌∷◌, ◌++◌, Result, ok,
  err, if◌then◌else◌,
}
use open_webbridge.Sessions.{
  Group, TabInfo, Browser, Session, Bridge, session_of, get_active_tab, bind_tab,
}
use open_webbridge.Sessions.Groups.{reconcile, set_group_title, tracked_group_ids}
use open_webbridge.Sessions.Closing.{close_active_tab, close_session, close_group}
use open_webbridge.Sessions.Opening.{
  OpenError, url_of, ensure_domain_tab_limits, acquire_tab_for_navigation,
}
use open_webbridge.TabLimit.{Limit, LimitReached}

-- A tab as `chrome.tabs.query({})` lists it.
pub record OpenTab : Type 0 where
  pub id : ℕ
  pub info : TabInfo
  pub active : Bool
  pub index : ℕ

pub record Windows (W : Type 0) : Type 0 where
  -- `chrome.tabs.update` with an address, and with `active: true`: whether it succeeded.
  pub load : W → ℕ → Text → Bool × W
  pub show : W → ℕ → Bool × W
  -- `chrome.windows.update` with `focused: true`, whose failure is ignored.
  pub focus : W → ℕ → W
  pub query : W → List OpenTab
  -- Whether the status of the tab is `complete`; `none` if it is gone.
  pub loaded : W → ℕ → Option Bool
  -- `Date.now()`, and the state after a sleep of 150 milliseconds.
  pub now : W → ℕ
  pub sleep : W → W

pub data TabError : Type 0 where
  missing_url no_open_tab tab_gone : TabError
  not_acquired : OpenError → TabError
  no_match : Text → TabError
  too_many : LimitReached → TabError

-- A tab as `list_tabs` answers it.
pub record Listed : Type 0 where
  pub tab : ℕ
  pub url : Option Text

-- A group as `list_sessions` answers it.
pub record ListedGroup : Type 0 where
  pub session : Text
  pub group : ℕ
  pub tab_count : ℕ
  pub orphaned : Bool

module _ {W : Type 0} (chrome : Browser W) (windows : Windows W) where
  -- `chrome.tabs.get`
  abbrev pub tab_info : ℕ → W → Result TabError TabInfo
  tab_info t w = elim (chrome.tab_get w t) [ none ↦ err tab_gone | some info ↦ ok info ]

  -- The loop, with fuel for its rounds; `none` means that the fuel ran out.
  unfoldable pub wait_for_complete : ℕ → ℕ → ℕ → ℕ → W → Option (Result TabError TabInfo × W)
  wait_for_complete zero t started timeout w = none
  wait_for_complete (suc fuel) t started timeout w =
      let later = wait_for_complete fuel t started timeout (windows.sleep w) in
      if ltb (windows.now w - started) timeout
      then elim (windows.loaded w t) [
        | none ↦ some (err tab_gone, w)
        | some complete ↦ if complete then some (tab_info t w, w) else later
      ]
      else some (tab_info t w, w)

  module _ (host_name : Text → Option Text) where
    -- What follows once the tab was told to load the address.
    unfoldable pub settle :
        Text
        → Text
        → ℕ
        → Result TabError TabInfo × W
        → Bridge W
        → Result TabError (Option Text × ℕ) × Bridge W
    unfolding set_group_title
    settle session title t loaded b =
        let here : Bridge W = record b { browser = loaded.1 } in
        elim loaded.0 [
          | err why ↦ (err why, here)
          | ok info ↦ (
            ok (info.url, t),
            (if is_empty title then here else (set_group_title chrome session title here)),
          )
        ]

    -- The fuel is for the wait, whose limit is 30 seconds.
    unfoldable pub navigate :
        ℕ
        → Text
        → Text
        → Bool
        → List Limit
        → Text
        → Bridge W
        → Option (Result TabError (Option Text × ℕ) × Bridge W)
    unfolding acquire_tab_for_navigation wait_for_complete settle
    navigate fuel session url new_tab limits title b =
        let r = acquire_tab_for_navigation chrome host_name session new_tab limits (some url) b in
        if is_empty url then some (err missing_url, b) else elim r.0 [
          | err why ↦ some (err (not_acquired why), r.1)
          | ok t ↦
              let u = windows.load r.1.browser t url in
              let told : Bridge W = record r.1 { browser = u.1 } in
              if not u.0
              then some (err tab_gone, told)
              else Option.map (λ loaded. settle session title t loaded told)
                  (wait_for_complete fuel t (windows.now u.1) 30000 u.1)
        ]

    -- `.replace(/^https?:\/\//, "").split("/")[0]`
    unfoldable pub up_to_slash : Text → Text
    up_to_slash [] = []
    up_to_slash (c ∷ s) = let rest = up_to_slash s in if c == 47 then [] else c ∷ rest

    unfoldable pub bare_host : Text → Text
    unfolding up_to_slash
    bare_host url = up_to_slash (
        if starts_with url (lit "http://")
        then drop 7 url
        else if starts_with url (lit "https://")
        then drop 8 url
        else url)

    unfoldable pub wanted_host : Text → Text
    unfolding bare_host
    wanted_host url =
        let host = or_else (host_name url) [] in if is_empty host then bare_host url else host

    unfoldable pub matches : Text → OpenTab → Bool
    unfolding wanted_host
    matches url t =
        let address = or_else t.info.url [] in
        let host = or_else (host_name address) [] in
        let want = wanted_host url in
        not (is_empty address)
        && (not (is_empty want) && (text_eq host want || ends_with host (lit "." ++ want))
            || includes address url)

    -- The tab in front among those that match, or the one with the lowest index.
    unfoldable pub chosen_of : Bool → List OpenTab → Option OpenTab
    chosen_of in_front [] = none
    chosen_of in_front (t ∷ ts) =
        if in_front
        then some (or_else (find (λ x. x.active) (t ∷ ts)) t)
        else find (λ x. true) (sort_by (λ x. x.index) (t ∷ ts))

    unfoldable pub find_tab :
        Text → Text → Bool → List Limit → Bridge W → Result TabError (Option Text × ℕ) × Bridge W
    unfolding matches chosen_of ensure_domain_tab_limits bind_tab
    find_tab session url in_front limits b =
        if is_empty url
        then (err missing_url, b)
        else elim (chosen_of in_front (filter (matches url) (windows.query b.browser))) [
          | none ↦ (err (no_match url), b)
          | some t ↦
              elim (ensure_domain_tab_limits chrome host_name limits (some (url_of t.info))
                (some t.id) b) [
                  | err why ↦ (err (too_many why), b)
                  | ok _ ↦ (ok (t.info.url, t.id), bind_tab session t.id b)
                ]
        ]

    unfoldable pub show_tab : Text → ℕ → List Limit → Bridge W → Result TabError ℕ × Bridge W
    unfolding ensure_domain_tab_limits bind_tab
    show_tab session t limits b = elim (chrome.tab_get b.browser t) [
      | none ↦ (err tab_gone, b)
      | some current ↦
          elim (ensure_domain_tab_limits chrome host_name limits (some (url_of current)) (some t)
            b) [
              | err why ↦ (err (too_many why), b)
              | ok _ ↦
                  let r = windows.show b.browser t in
                  if r.0
                  then (ok t, bind_tab session t (record b { browser = windows.focus r.1 t }))
                  else (err tab_gone, record b { browser = r.1 })
            ]
    ]

    unfoldable pub activate_tab :
        Text → Option ℕ → List Limit → Bridge W → Result TabError ℕ × Bridge W
    unfolding get_active_tab show_tab
    activate_tab session (some t) limits b = show_tab session t limits b
    activate_tab session none limits b =
        let r = get_active_tab session b in
        elim r.0 [ none ↦ (err no_open_tab, r.1) | some t ↦ show_tab session t limits r.1 ]

  -- The tabs that are there; the titles of the tabs and of their groups are left out.
  unfoldable pub listed_tabs : List ℕ → W → List Listed
  listed_tabs [] w = []
  listed_tabs (t ∷ ts) w =
      let rest = listed_tabs ts w in
      elim (chrome.tab_get w t) [
        | none ↦ rest
        | some info ↦ record { tab = t; url = info.url } ∷ rest
      ]

  unfoldable pub list_tabs : Text → Bridge W → List Listed × Bridge W
  unfolding reconcile listed_tabs
  list_tabs session b =
      let r = reconcile chrome session b in
      (listed_tabs (session_of session r).tab_ids r.browser, r)

  unfoldable pub close_tab : Text → Bridge W → Bool × Bridge W
  unfolding close_active_tab
  close_tab session b = close_active_tab chrome session b

  unfoldable pub list_sessions : Bridge W → List ListedGroup
  unfolding tracked_group_ids
  list_sessions b =
      map
        (λ g. record {
          session = or_else g.title [];
          group = g.id;
          tab_count = length (or_else (chrome.group_tabs b.browser g.id) []);
          orphaned = not (contains g.id (tracked_group_ids chrome b));
        })
        (or_else (chrome.group_query b.browser) [])

  unfoldable pub close_session_tool : Text → Option ℕ → Bridge W → ℕ × Bridge W
  unfolding close_session close_group
  close_session_tool session none b = close_session chrome session b
  close_session_tool session (some g) b = close_group chrome g b
