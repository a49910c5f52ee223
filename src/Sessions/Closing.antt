-- ===== src/Sessions/Closing.antt =====
-- The closing of tabs, of sessions and of groups.
use open_webbridge.Base.{
  ℕ, suc, Text, text_keys, number_keys, keys, erase, erase_all, delete, filter, ◌==◌, is_empty,
  Bool, true, false, Option, none, some, List, [], ◌∷◌, if◌then◌else◌,
}
use open_webbridge.Sessions.{
  Browser, Session, Bridge, session_key, last_of, session_of, put, get_session, tab_exists,
  load_owned, forget_owned_group,
}
use open_webbridge.Sessions.Groups.{owns, reconcile}
use open_webbridge.Cdp.{tab}
use open_webbridge.Cdp
use open_webbridge.Refs.{clear_refs}

-- `|| null`
abbrev pub or_null : Option ℕ → Option ℕ
or_null none = none
or_null (some t) = if t == 0 then none else some t

abbrev pub forget_tab : ℕ → Session → Session
forget_tab t s = record s {
  tab_ids = delete t s.tab_ids;
  active_tab = last_of (delete t s.tab_ids);
}

module _ {W : Type 0} (chrome : Browser W) where
  -- A tab that the browser cannot close counts as closed if it is gone.
  unfoldable pub remove_managed_tab : ℕ → Bridge W → Bool × Bridge W
  remove_managed_tab t b =
      let removed = chrome.tab_remove b.browser t in
      let after : Bridge W = record b { cdp = Cdp.detach (tab t) b.cdp; browser = removed.1 } in
      let cleared : Bridge W = record after { refs = clear_refs (tab t) b.refs } in
      if removed.0
      then (true, cleared)
      else if tab_exists chrome removed.1 (some t)
      then (false, after)
      else (true, cleared)

  unfoldable pub close_active_tab : Text → Bridge W → Bool × Bridge W
  unfolding get_session put remove_managed_tab
  close_active_tab name b =
      let b1 = get_session name b in
      elim (session_of name b).active_tab [
        | none ↦ (false, b1)
        | some t ↦
            let r = remove_managed_tab t b1 in
            if r.0 then (true, put name (forget_tab t (session_of name b)) r.1) else (false, r.1)
      ]

  -- The tabs are closed one by one; those that are closed leave the session.
  unfoldable pub close_each : Text → List ℕ → ℕ → Bridge W → ℕ × Bridge W
  unfolding remove_managed_tab put
  close_each name [] closed b = (closed, b)
  close_each name (t ∷ ts) closed b =
      let r = remove_managed_tab t b in
      let s = session_of name b in
      close_each name ts (if r.0 then suc closed else closed)
        (if r.0 then put name (record s { tab_ids = delete t s.tab_ids }) r.1 else r.1)

  unfoldable pub forget_owned_session : Text → W → W
  forget_owned_session name w =
      let owned = load_owned chrome w in
      chrome.storage_set w (erase_all (filter (owns owned (session_key name)) (keys owned)) owned)

  unfoldable pub settle : Text → Bridge W → Bridge W
  unfolding forget_owned_session put
  settle name b =
      let s = session_of name b in
      if is_empty s.tab_ids
      then record b {
        sessions = erase (session_key name) b.sessions;
        browser = forget_owned_session name b.browser;
      }
      else if tab_exists chrome b.browser s.active_tab
      then b
      else put name (record s { active_tab = or_null (last_of s.tab_ids) }) b

  unfoldable pub close_session : Text → Bridge W → ℕ × Bridge W
  unfolding close_each settle
  close_session name b =
      let r = reconcile chrome name b in
      let c = close_each name (session_of name r).tab_ids 0 r in (c.0, settle name c.1)

  -- The tabs of a group: how many were closed and how many remain.
  unfoldable pub close_tabs : List ℕ → ℕ × ℕ → Bridge W → (ℕ × ℕ) × Bridge W
  unfolding remove_managed_tab
  close_tabs [] counts b = (counts, b)
  close_tabs (t ∷ ts) (closed, remaining) b =
      let r = remove_managed_tab t b in
      close_tabs ts (if r.0 then (suc closed, remaining) else (closed, suc remaining)) r.1

  unfoldable pub close_group : ℕ → Bridge W → ℕ × Bridge W
  unfolding close_tabs
  close_group g b = elim (chrome.group_tabs b.browser g) [
    | none ↦ (0, b)
    | some ts ↦
        let r = close_tabs ts (0, 0) b in
        if r.0.1 == 0
        then (r.0.0, record r.1 { browser = forget_owned_group chrome g r.1.browser })
        else (r.0.0, r.1)
  ]
