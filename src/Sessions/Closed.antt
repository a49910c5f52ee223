-- ===== src/Sessions/Closed.antt =====
-- The active tab of a session under the closing operations of sessions.js.
use open_webbridge.Base.{
  ℕ, ◌≡◌, refl, sym, ◌∙◌, inl, inr, Option-cases, Text, text_eq, is_empty, text_keys, text_eq_iff,
  number_keys, lookup-insert, lookup-erase, delete, ◌==◌, true, false, Option, none, some, List, [],
  ◌∷◌, Bool-cases,
}
use open_webbridge.Sessions.{
  Browser, Session, Bridge, session_key, last_of, session_in, session_of, put, get_session,
  tab_exists,
}
use open_webbridge.Sessions.Groups.{reconcile}
use open_webbridge.Sessions.Closing.{
  remove_managed_tab, forget_tab, close_active_tab, or_null, settle, close_session, close_tabs,
  close_group,
}
use open_webbridge.Sessions.Owned.{
  is_held, IsOwned, last_held, put-IsOwned, get_session-IsOwned, reconcile-IsOwned,
}
use open_webbridge.Sessions.Emptied.{IsSound, IsNearly, sessions-remove, close_each-IsNearly}

module _ {W : Type 0} (chrome : Browser W) where
  or_null-held :
      (a : Option ℕ) (ids : List ℕ) → is_held a ids ≡ true → is_held (or_null a) ids ≡ true
  or_null-held none ids h = refl
  or_null-held (some t) ids h = elim (Bool-cases (t == 0)) [ inl e ↦ rw e refl | inr e ↦ rw e h ]

  -- All sessions but the one that is closed.
  others_held :
      (name : Text) (b : Bridge W) (key : Text)
      → IsNearly chrome name b
      → text_eq (session_key name) key ≡ false
      → is_held (session_in key b.sessions).active_tab (session_in key b.sessions).tab_ids ≡ true
  others_held name b key h e = elim (h key) [ inl k ↦ k | inr (f, k) ↦ cc ]

  abbrev cleared : Text → Bridge W → Session
  cleared name b = record (session_of name b) {
    active_tab = or_null (last_of (session_of name b).tab_ids);
  }

  settle-IsOwned :
      (name : Text) (b : Bridge W)
      → IsNearly chrome name b
      → IsOwned (settle chrome name b).sessions
  unfolding settle put
  settle-IsOwned name b h key = elim (Bool-cases (is_empty (session_of name b).tab_ids)) [
    | inl none_left ↦ elim (Bool-cases (text_eq (session_key name) key)) [
      | inl e ↦ rw (none_left, lookup-erase (session_key name) key b.sessions, e) refl
      | inr e ↦
          rw (none_left, lookup-erase (session_key name) key b.sessions, e)
            (others_held name b key h e)
    ]
    | inr some_left ↦
        elim (Bool-cases (tab_exists chrome b.browser (session_of name b).active_tab)) [
          | inl e ↦
              rw (some_left, e)
                (elim (h key) [
                  | inl k ↦ k
                  | inr (f, k) ↦
                      (let g = (text_eq_iff (session_key name) key).0 f in
                        let j = rw (sym g) at k in cc)
                ])
          | inr e ↦ elim (Bool-cases (text_eq (session_key name) key)) [
            | inl f ↦
                rw
                  (
                    some_left,
                    e,
                    lookup-insert (session_key name) key (cleared name b) b.sessions,
                    f,
                  )
                  (or_null-held (last_of (session_of name b).tab_ids) (session_of name b).tab_ids
                    (last_held (session_of name b).tab_ids))
            | inr f ↦
                rw
                  (
                    some_left,
                    e,
                    lookup-insert (session_key name) key (cleared name b) b.sessions,
                    f,
                  )
                  (others_held name b key h f)
          ]
        ]
  ]

  pub close_session-IsOwned :
      (name : Text) (b : Bridge W)
      → IsSound chrome
      → IsOwned b.sessions
      → IsOwned (close_session chrome name b).1.sessions
  unfolding close_session
  close_session-IsOwned name b sound h =
      let r = reconcile chrome name b in
      settle-IsOwned name _ (
        close_each-IsNearly chrome name (session_of name r).tab_ids 0 r sound
          (λ key. inl (reconcile-IsOwned chrome name b h key)))

  pub close_active_tab-IsOwned :
      (name : Text) (b : Bridge W)
      → IsOwned b.sessions
      → IsOwned (close_active_tab chrome name b).1.sessions
  unfolding close_active_tab
  close_active_tab-IsOwned name b h = elim (Option-cases (session_of name b).active_tab) [
    | inl e ↦ rw (close_active_tab, e) started
    | inr (t, e) ↦ elim (Bool-cases (remove_managed_tab chrome t (get_session name b)).0) [
      | inl c ↦
          rw (close_active_tab, e, c)
            (put-IsOwned name (forget_tab t (session_of name b))
              (remove_managed_tab chrome t (get_session name b)).1
              (last_held (delete t (session_of name b).tab_ids)) (kept t))
      | inr c ↦ rw (close_active_tab, e, c) (kept t)
    ]
  ]
    where
      started : IsOwned (get_session name b).sessions
      started = get_session-IsOwned name b h

      kept : (t : ℕ) → IsOwned (remove_managed_tab chrome t (get_session name b)).1.sessions
      kept t = rw (sessions-remove chrome t (get_session name b)) started

  sessions-close_tabs :
      (ts : List ℕ) (counts : ℕ × ℕ) (b : Bridge W)
      → (close_tabs chrome ts counts b).1.sessions ≡ b.sessions
  unfolding close_tabs
  sessions-close_tabs [] counts b = refl
  sessions-close_tabs (t ∷ ts) (closed, remaining) b =
      sessions-close_tabs ts _ (remove_managed_tab chrome t b).1 ∙ sessions-remove chrome t b

  pub close_group-IsOwned :
      (g : ℕ) (b : Bridge W) → IsOwned b.sessions → IsOwned (close_group chrome g b).1.sessions
  unfolding close_group
  close_group-IsOwned g b h = rw (sessions-close_group) h
    where
      sessions-close_group : (close_group chrome g b).1.sessions ≡ b.sessions
      sessions-close_group = elim (Option-cases (chrome.group_tabs b.browser g)) [
        | inl e ↦ rw (close_group, e) refl
        | inr (ts, e) ↦ elim (Bool-cases ((close_tabs chrome ts (0, 0) b).0.1 == 0)) [
          | inl all ↦ rw (close_group, e, all) (sessions-close_tabs ts (0, 0) b)
          | inr left ↦ rw (close_group, e, left) (sessions-close_tabs ts (0, 0) b)
        ]
      ]
