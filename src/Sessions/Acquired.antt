-- ===== src/Sessions/Acquired.antt =====
-- The outcome of `acquireTabForNavigation` of sessions.js.
use open_webbridge.Base.{
  ℕ, ◌≡◌, refl, ap, inl, inr, Option-cases, Text, text_keys, number_keys, lookup-insert, beq_refl,
  add, Bool, Option, none, some, List, if◌then◌else◌, Bool-cases, arith, Result, ok, err,
}
use open_webbridge.Sessions.{Browser, Session, Bridge, session_key, session_of, put, get_session}
use open_webbridge.Sessions.Groups.{reconcile, group_tab}
use open_webbridge.Sessions.Closing.{close_active_tab}
use open_webbridge.Sessions.Opening.{
  OpenError, limit_reached, open_tab, replace_tab, current_tab, ensure_domain_tab_limits,
  acquire_tab_for_navigation,
}
use open_webbridge.TabLimit.{Limit, LimitReached}

module _ {W : Type 0} where
  put_lem : (name : Text) (s : Session) (b : Bridge W) → session_of name (put name s b) ≡ s
  unfolding put
  put_lem name s b =
      rw
        (
          lookup-insert (session_key name) (session_key name) s b.sessions,
          beq_refl (session_key name),
        )
        refl

  session_of-get_session :
      (name : Text) (b : Bridge W) → session_of name (get_session name b) ≡ session_of name b
  unfolding get_session
  session_of-get_session name b = put_lem name (session_of name b) b

module _ {W : Type 0} (chrome : Browser W) where
  -- Grouping a tab changes no active tab of its session.
  group_tab-active :
      (name : Text) (t : ℕ) (b : Bridge W)
      → (session_of name (group_tab chrome name t b)).active_tab ≡ (session_of name b).active_tab
  unfolding group_tab
  group_tab-active name t b = elim (Option-cases answer.0) [
    | inl e ↦ rw (group_tab, e) same
    | inr (g, e) ↦ elim (Option-cases (session_of name b).group_id) [
      | inr (old, f) ↦ rw (group_tab, e, f) same
      | inl f ↦ elim (Bool-cases (chrome.group_title answer.1 g (session_key name)).0) [
        | inl done ↦ rw (group_tab, e, f, done) (joined g)
        | inr failed ↦ rw (group_tab, e, f, failed) (joined g)
      ]
    ]
  ]
    where
      answer : Option ℕ × W
      answer = chrome.tab_group b.browser t (session_of name b).group_id

      same : (session_of name (get_session name b)).active_tab ≡ (session_of name b).active_tab
      same = ap (λ s. s.active_tab) (session_of-get_session name b)

      joined :
          (g : ℕ)
          → (session_of name (
              put name
                (record (session_of name b) { group_id = some g })
                (get_session name b))).active_tab
            ≡ (session_of name b).active_tab
      joined g =
          ap (λ s. s.active_tab)
            (put_lem name (record (session_of name b) { group_id = some g }) (get_session name b))

  abbrev Active : Text → Result OpenError ℕ × Bridge W → Type 0
  Active name r = (t : ℕ) → r.0 ≡ ok t → (session_of name r.1).active_tab ≡ some t

module _ {W : Type 0} (chrome : Browser W) (host_name : Text → Option Text) where
  open_tab-Active :
      (name : Text) (b : Bridge W) → Active chrome name (open_tab chrome host_name name b)
  unfolding open_tab
  open_tab-Active name b t h = elim (Option-cases (chrome.tab_create b.browser).0) [
    | inl e ↦ let k = rw (open_tab, e) at h in cc
    | inr (u, e) ↦
        (let k = rw (open_tab, e) at h in
          let after : Bridge W = record b { browser = (chrome.tab_create b.browser).1 } in
          let s : Session = record (session_of name b) {
            tab_ids = add u (session_of name b).tab_ids;
            active_tab = some u;
          } in
          let own = ap (λ s. s.active_tab) (put_lem name s after) in
          let kept = group_tab-active chrome name u (put name s after) in
          rw (open_tab, e, kept, own) cc)
  ]

  replace_tab-Active :
      (name : Text) (a : Option ℕ) (b : Bridge W)
      → Active chrome name (replace_tab chrome host_name name a b)
  unfolding replace_tab
  replace_tab-Active name none b = open_tab-Active name b
  replace_tab-Active name (some t) b = elim (Bool-cases (close_active_tab chrome name b).0) [
    | inl e ↦ rw (replace_tab, e) (open_tab-Active name (close_active_tab chrome name b).1)
    | inr e ↦ rw (replace_tab, e) (λ u h. cc)
  ]

  current_tab-active :
      (name : Text) (t : ℕ) (b : Bridge W)
      → current_tab chrome host_name name b ≡ some t
      → (session_of name b).active_tab ≡ some t
  unfolding current_tab
  current_tab-active name t b h = ground (arith, h)

  -- If a navigation is given a tab, that tab is the active one of its session afterwards, whether
  -- it was there before, replaces the one that was closed, or is the first.
  pub acquire-Active :
      (name : Text) (new_tab : Bool) (limits : List Limit) (target : Option Text) (b : Bridge W)
      (t : ℕ)
      → (acquire_tab_for_navigation chrome host_name name new_tab limits target b).0 ≡ ok t
      → (session_of name
          (acquire_tab_for_navigation chrome host_name name new_tab limits target b).1).active_tab
        ≡ some t
  unfolding acquire_tab_for_navigation
  acquire-Active name new_tab limits target b =
      checked (ensure_domain_tab_limits chrome host_name limits target current r) current (λ t h. h)
    where
      r : Bridge W
      r = reconcile chrome name b

      current : Option ℕ
      current = current_tab chrome host_name name r

      checked :
          (v : Result LimitReached (Unit {0})) (a : Option ℕ)
          → ((t : ℕ) → a ≡ some t → current ≡ some t)
          → Active chrome name (elim v as (λ _. Result OpenError ℕ × Bridge W) [
            | err e ↦ (err (limit_reached e), r)
            | ok u ↦ elim a as (λ _. Result OpenError ℕ × Bridge W) [
              | none ↦ replace_tab chrome host_name name none r
              | some t ↦ if new_tab then replace_tab chrome host_name name (some t) r else (ok t, r)
            ]
          ])
      checked (err e) a k = λ t h. cc
      checked (ok u) none k = replace_tab-Active name none r
      checked (ok u) (some t) k = elim (Bool-cases new_tab) [
        | inl e ↦ rw e (replace_tab-Active name (some t) r)
        | inr e ↦ rw e (λ v h. current_tab-active name v r (k v cc))
      ]
