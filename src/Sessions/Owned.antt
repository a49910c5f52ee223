-- ===== src/Sessions/Owned.antt =====
-- The active tab of a session under the parts of the operations of sessions.js.
use open_webbridge.Base.{
  ℕ, ◌≡◌, refl, inl, inr, Option-cases, Text, text_eq, text_keys, number_keys, Table, insert, erase,
  lookup-insert, lookup-erase, contains, contains-add, beq_refl, add, ◌==◌, Bool, true, Option,
  none, some, or_else, List, [], ◌∷◌, Bool-cases, arith, any,
}
use open_webbridge.Sessions.{
  Group, Browser, Session, Bridge, session_key, last_of, session_in, session_of, put, get_session,
  bind_tab, tab_exists, remember_owned,
}
use open_webbridge.Sessions.Groups.{
  add_all, drop_stale, adopt, refresh_active, reconcile_groups, reconcile, group_tab,
}

-- The active tab, if there is one, is among the session's tabs.
abbrev pub is_held : Option ℕ → List ℕ → Bool
is_held none ids = true
is_held (some t) ids = contains t ids

abbrev pub IsOwned : Table Text Session → Type 0
IsOwned sessions =
    (key : Text)
    → is_held (session_in key sessions).active_tab (session_in key sessions).tab_ids ≡ true

pub last_held : (ids : List ℕ) → is_held (last_of ids) ids ≡ true
unfolding last_of contains
last_held [] = refl
last_held (t ∷ ts) = elim (Option-cases (last_of ts)) [
  | inl e ↦ rw (e, beq_refl t) refl
  | inr (u, e) ↦ let k = rw e at (last_held ts) in rw e (ground (arith, k))
]

insert-IsOwned :
    (key : Text) (s : Session) (sessions : Table Text Session)
    → is_held s.active_tab s.tab_ids ≡ true
    → IsOwned sessions
    → IsOwned (insert key s sessions)
insert-IsOwned key s sessions held h k = elim (Bool-cases (text_eq key k)) [
  | inl e ↦ rw (lookup-insert key k s sessions, e) held
  | inr e ↦ rw (lookup-insert key k s sessions, e) (h k)
]

pub erase-IsOwned :
    (key : Text) (sessions : Table Text Session) → IsOwned sessions → IsOwned (erase key sessions)
erase-IsOwned key sessions h k = elim (Bool-cases (text_eq key k)) [
  | inl e ↦ rw (lookup-erase key k sessions, e) refl
  | inr e ↦ rw (lookup-erase key k sessions, e) (h k)
]

pub held-add :
    (t : ℕ) (a : Option ℕ) (ids : List ℕ) → is_held a ids ≡ true → is_held a (add t ids) ≡ true
held-add t none ids h = refl
held-add t (some u) ids h = rw (contains-add t u ids) (ground (arith, h))

held-add_all :
    (ts : List ℕ) (a : Option ℕ) (ids : List ℕ)
    → is_held a ids ≡ true
    → is_held a (add_all ts ids) ≡ true
unfolding add_all
held-add_all [] a ids h = h
held-add_all (t ∷ ts) a ids h = held-add_all ts a (add t ids) (held-add t a ids h)

module _ {W : Type 0} where
  pub put-IsOwned :
      (name : Text) (s : Session) (b : Bridge W)
      → is_held s.active_tab s.tab_ids ≡ true
      → IsOwned b.sessions
      → IsOwned (put name s b).sessions
  unfolding put
  put-IsOwned name s b held h = insert-IsOwned (session_key name) s b.sessions held h

  pub get_session-IsOwned :
      (name : Text) (b : Bridge W) → IsOwned b.sessions → IsOwned (get_session name b).sessions
  unfolding get_session
  get_session-IsOwned name b h = put-IsOwned name (session_of name b) b (h (session_key name)) h

  pub bind_tab-IsOwned :
      (name : Text) (t : ℕ) (b : Bridge W)
      → IsOwned b.sessions
      → IsOwned (bind_tab name t b).sessions
  unfolding bind_tab
  bind_tab-IsOwned name t b h =
      put-IsOwned name
        (record (session_of name b) {
          tab_ids = add t (session_of name b).tab_ids;
          active_tab = some t;
        })
        b (rw (contains-add t t (session_of name b).tab_ids, beq_refl t) refl) h

module _ {W : Type 0} (chrome : Browser W) where
  adopt-held :
      (name : Text) (groups : List Group) (s : Session) (w : W)
      → is_held s.active_tab s.tab_ids ≡ true
      → is_held (adopt chrome name groups s w).0.active_tab (adopt chrome name groups s w).0.tab_ids
        ≡ true
  unfolding adopt
  adopt-held name [] s w h = h
  adopt-held name (g ∷ rest) s w h =
      let v = remember_owned chrome name g.id w in
      let ids = or_else (chrome.group_tabs v g.id) [] in
      adopt-held name rest (record s { tab_ids = add_all ids s.tab_ids }) v
        (held-add_all ids s.active_tab s.tab_ids h)

  refresh_active-held :
      (s : Session) (w : W)
      → is_held s.active_tab s.tab_ids ≡ true
      → is_held (refresh_active chrome (s, w)).active_tab (refresh_active chrome (s, w)).tab_ids
        ≡ true
  unfolding refresh_active
  refresh_active-held s w h = elim (Bool-cases (tab_exists chrome w s.active_tab)) [
    | inl e ↦ rw e h
    | inr e ↦ rw e (last_held s.tab_ids)
  ]

  drop_stale-held :
      (all : List Group) (s : Session)
      → is_held s.active_tab s.tab_ids ≡ true
      → is_held (drop_stale all s).active_tab (drop_stale all s).tab_ids ≡ true
  unfolding drop_stale
  drop_stale-held all s h = elim (Option-cases s.group_id) [
    | inl e ↦ rw e h
    | inr (g, e) ↦ elim (Bool-cases (any (λ k. k.id == g) all)) [
      | inl there ↦ rw (e, there) h
      | inr gone ↦ rw (e, gone) h
    ]
  ]

  reconcile_groups-IsOwned :
      (name : Text) (all groups : List Group) (b : Bridge W)
      → IsOwned b.sessions
      → IsOwned (reconcile_groups chrome name all groups b).sessions
  unfolding reconcile_groups
  reconcile_groups-IsOwned name all [] b h =
      put-IsOwned name (drop_stale all (session_of name b)) b
        (drop_stale-held all (session_of name b) (h (session_key name))) h
  reconcile_groups-IsOwned name all (g ∷ rest) b h =
      let s : Session = record (session_of name b) { group_id = some g.id } in
      let r = adopt chrome name (g ∷ rest) s b.browser in
      put-IsOwned name (refresh_active chrome r) (record b { browser = r.1 })
        (refresh_active-held r.0 r.1
          (adopt-held name (g ∷ rest) s b.browser (h (session_key name))))
        h

  pub reconcile-IsOwned :
      (name : Text) (b : Bridge W) → IsOwned b.sessions → IsOwned (reconcile chrome name b).sessions
  unfolding reconcile
  reconcile-IsOwned name b h = elim (Option-cases (chrome.group_query b.browser)) [
    | inl e ↦ rw (reconcile, e) (get_session-IsOwned name b h)
    | inr (all, e) ↦
        rw (reconcile, e)
          (reconcile_groups-IsOwned name all _ (get_session name b) (get_session-IsOwned name b h))
  ]

  pub group_tab-IsOwned :
      (name : Text) (t : ℕ) (b : Bridge W)
      → IsOwned b.sessions
      → IsOwned (group_tab chrome name t b).sessions
  unfolding group_tab
  group_tab-IsOwned name t b h =
      let started = get_session-IsOwned name b h in
      let answer = chrome.tab_group b.browser t (session_of name b).group_id in
      let grouped : (g : ℕ)
          → IsOwned (
              insert (session_key name) (record (session_of name b) { group_id = some g })
                (get_session name b).sessions) =
        λ g.
          insert-IsOwned (session_key name) (record (session_of name b) { group_id = some g }) _
            (h (session_key name)) started in
      elim (Option-cases answer.0) [
        | inl e ↦ rw (group_tab, e) started
        | inr (g, e) ↦ elim (Option-cases (session_of name b).group_id) [
          | inr (old, f) ↦ rw (group_tab, e, f) started
          | inl f ↦ elim (Bool-cases (chrome.group_title answer.1 g (session_key name)).0) [
            | inl done ↦ rw (group_tab, e, f, done) (grouped g)
            | inr failed ↦ rw (group_tab, e, f, failed) (grouped g)
          ]
        ]
      ]
