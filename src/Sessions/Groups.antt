-- ===== src/Sessions/Groups.antt =====
-- The tab groups of a session: they are found again after the memory was lost, and titled.
use open_webbridge.Base.{
  ℕ, Text, text_eq, text_keys, number_keys, Table, keys, lookup, add, any, filter, ◌==◌, Bool,
  false, ◌||◌, none, some, or_else, List, [], ◌∷◌, if◌then◌else◌,
}
use open_webbridge.Sessions.{
  Group, Browser, Session, Bridge, session_key, last_of, session_of, put, get_session, tab_exists,
  load_owned, remember_owned,
}

abbrev pub owns : Table ℕ Text → Text → ℕ → Bool
owns owned key g = elim (lookup g owned) [ none ↦ false | some k ↦ text_eq k key ]

-- The groups of a session: by their title, or by the stored table.
unfoldable pub belongs : Table ℕ Text → Text → Group → Bool
belongs owned key g = text_eq (or_else g.title []) key || owns owned key g.id

unfoldable pub add_all : List ℕ → List ℕ → List ℕ
add_all [] ids = ids
add_all (t ∷ ts) ids = add_all ts (add t ids)

-- The memory points at a group that the browser no longer has.
unfoldable pub drop_stale : List Group → Session → Session
drop_stale all s = elim s.group_id [
  | none ↦ s
  | some g ↦ if any (λ h. h.id == g) all then s else record s { group_id = none }
]

module _ {W : Type 0} (chrome : Browser W) where
  -- Each group is remembered as the session's, and its tabs join the session.
  unfoldable pub adopt : Text → List Group → Session → W → Session × W
  unfolding add_all
  adopt name [] s w = (s, w)
  adopt name (g ∷ rest) s w =
      let v = remember_owned chrome name g.id w in
      adopt name rest
        (record s { tab_ids = add_all (or_else (chrome.group_tabs v g.id) []) s.tab_ids }) v

  unfoldable pub refresh_active : Session × W → Session
  refresh_active (s, w) =
      if tab_exists chrome w s.active_tab then s else record s { active_tab = last_of s.tab_ids }

  unfoldable pub reconcile_groups : Text → List Group → List Group → Bridge W → Bridge W
  unfolding adopt refresh_active put drop_stale
  reconcile_groups name all [] b = put name (drop_stale all (session_of name b)) b
  reconcile_groups name all (g ∷ rest) b =
      let r =
        adopt name (g ∷ rest) (record (session_of name b) { group_id = some g.id }) b.browser in
      put name (refresh_active r) (record b { browser = r.1 })

  unfoldable pub reconcile : Text → Bridge W → Bridge W
  unfolding get_session reconcile_groups belongs
  reconcile name b =
      let started = get_session name b in
      elim (chrome.group_query b.browser) [
        | none ↦ started
        | some all ↦
            reconcile_groups name all
              (filter (belongs (load_owned chrome b.browser) (session_key name)) all) started
      ]

  unfoldable pub group_ids : Table Text Session → List ℕ
  group_ids [] = []
  group_ids ((_, s) ∷ rest) =
      let others = group_ids rest in elim s.group_id [ none ↦ others | some g ↦ g ∷ others ]

  -- Every group that a session has or that the stored table names.
  unfoldable pub tracked_group_ids : Bridge W → List ℕ
  unfolding group_ids
  tracked_group_ids b =
      add_all (keys (load_owned chrome b.browser)) (add_all (group_ids b.sessions) [])

  -- Grouping is best effort: what is thrown is dropped.
  unfoldable pub group_tab : Text → ℕ → Bridge W → Bridge W
  unfolding get_session put
  group_tab name t b =
      let b1 = get_session name b in
      let s = session_of name b in
      let answer = chrome.tab_group b.browser t s.group_id in
      let after : Bridge W = record b1 { browser = answer.1 } in
      elim answer.0 [
        | none ↦ after
        | some g ↦ elim s.group_id [
          | some old ↦ record after { browser = remember_owned chrome name old after.browser }
          | none ↦
              let titled = chrome.group_title answer.1 g (session_key name) in
              let grouped =
                put name (record s { group_id = some g }) (record after { browser = titled.1 }) in
              if titled.0
              then record grouped { browser = remember_owned chrome name g titled.1 }
              else grouped
        ]
      ]

  unfoldable pub set_group_title : Text → Text → Bridge W → Bridge W
  unfolding get_session
  set_group_title name title b =
      let b1 = get_session name b in
      elim (session_of name b).group_id [
        | none ↦ b1
        | some g ↦
            let titled = chrome.group_title b.browser g title in
            if titled.0
            then record b1 { browser = remember_owned chrome name g titled.1 }
            else record b1 { browser = titled.1 }
      ]
