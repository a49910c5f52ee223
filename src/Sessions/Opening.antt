-- ===== src/Sessions/Opening.antt =====
-- The tab that a navigation goes to, after the caps of tablimit.js were checked.
use open_webbridge.Base.{
  ℕ, Text, text_keys, number_keys, Table, keys, lookup, contains, add, delete, filter, is_empty,
  is_some, Bool, ◌||◌, Option, none, some, or_else, List, [], ◌∷◌, ◌++◌, Result, ok, err,
  if◌then◌else◌,
}
use open_webbridge.Sessions.{
  Group, TabInfo, Browser, Session, Bridge, session_of, put, tab_exists, load_owned,
}
use open_webbridge.Sessions.Groups.{reconcile, group_tab, add_all, group_ids}
use open_webbridge.Sessions.Closing.{close_active_tab}
use open_webbridge.TabLimit.{Limit, LimitReached, assert_domain_tab_limits}

-- `t.pendingUrl || t.url || ""`
unfoldable pub url_of : TabInfo → Text
url_of t =
    if is_empty (or_else t.pending_url []) then or_else t.url [] else or_else t.pending_url []

abbrev pub without : Option ℕ → List ℕ → List ℕ
without none ids = ids
without (some t) ids = delete t ids

unfoldable pub all_tab_ids : Table Text Session → List ℕ
all_tab_ids [] = []
all_tab_ids ((_, s) ∷ rest) = s.tab_ids ++ all_tab_ids rest

pub data OpenError : Type 0 where
  limit_reached : LimitReached → OpenError
  could_not_close : ℕ → OpenError
  could_not_create : OpenError

module _ {W : Type 0} (chrome : Browser W) (host_name : Text → Option Text) where
  -- A group of the sessions: by the stored table, by a session's memory, or by its title.
  unfoldable pub is_managed : Bridge W → Group → Bool
  is_managed b g =
      is_some (lookup g.id (load_owned chrome b.browser))
      || contains g.id (group_ids chrome b.sessions)
      || contains (or_else g.title []) (keys b.sessions)

  unfoldable pub managed_groups_tabs : Bridge W → List Group → List ℕ
  unfolding is_managed
  managed_groups_tabs b [] = []
  managed_groups_tabs b (g ∷ rest) =
      let others = managed_groups_tabs b rest in
      if is_managed b g then or_else (chrome.group_tabs b.browser g.id) [] ++ others else others

  unfoldable pub collect_managed_tab_ids : Bridge W → List ℕ
  unfolding all_tab_ids managed_groups_tabs
  collect_managed_tab_ids b =
      let own =
        add_all (filter (λ t. tab_exists chrome b.browser (some t)) (all_tab_ids b.sessions)) [] in
      elim (chrome.group_query b.browser) [
        | none ↦ own
        | some groups ↦ add_all (managed_groups_tabs b groups) own
      ]

  unfoldable pub tab_urls : W → List ℕ → List Text
  unfolding url_of
  tab_urls w [] = []
  tab_urls w (t ∷ ts) =
      let rest = tab_urls w ts in
      elim (chrome.tab_get w t) [ none ↦ rest | some i ↦ url_of i ∷ rest ]

  unfoldable pub ensure_domain_tab_limits :
      List Limit → Option Text → Option ℕ → Bridge W → Result LimitReached (Unit {0})
  unfolding tab_urls collect_managed_tab_ids
  ensure_domain_tab_limits limits target exclude b = elim limits [
    | [] ↦ ok tt
    | l ∷ ls ↦
        assert_domain_tab_limits host_name (l ∷ ls) target
          (tab_urls b.browser (without exclude (collect_managed_tab_ids b)))
  ]

  unfoldable pub open_tab : Text → Bridge W → Result OpenError ℕ × Bridge W
  unfolding put group_tab
  open_tab name b =
      let created = chrome.tab_create b.browser in
      let after : Bridge W = record b { browser = created.1 } in
      elim created.0 [
        | none ↦ (err could_not_create, after)
        | some t ↦
            let s = session_of name b in
            let held =
              put name (record s { tab_ids = add t s.tab_ids; active_tab = some t }) after in
            (ok t, group_tab chrome name t held)
      ]

  -- The tab in the foreground is closed first where the call asks for a new one.
  unfoldable pub replace_tab : Text → Option ℕ → Bridge W → Result OpenError ℕ × Bridge W
  unfolding open_tab close_active_tab
  replace_tab name none b = open_tab name b
  replace_tab name (some t) b =
      let c = close_active_tab chrome name b in
      if c.0 then open_tab name c.1 else (err (could_not_close t), c.1)

  -- `none` as the active tab is no tab that exists.
  unfoldable pub current_tab : Text → Bridge W → Option ℕ
  current_tab name b =
      let a = (session_of name b).active_tab in if tab_exists chrome b.browser a then a else none

  unfoldable pub acquire_tab_for_navigation :
      Text → Bool → List Limit → Option Text → Bridge W → Result OpenError ℕ × Bridge W
  unfolding reconcile ensure_domain_tab_limits replace_tab current_tab
  acquire_tab_for_navigation name new_tab limits target b =
      let r = reconcile chrome name b in
      let current = current_tab name r in
      elim (ensure_domain_tab_limits limits target current r) [
        | err e ↦ (err (limit_reached e), r)
        | ok u ↦ elim current [
          | none ↦ replace_tab name none r
          | some t ↦ if new_tab then replace_tab name (some t) r else (ok t, r)
        ]
      ]
