-- ===== src/Sessions/Reached.antt =====
-- The active tab of a session under every sequence of calls of sessions.js.
use open_webbridge.Base.{
  ℕ, inl, inr, Option-cases, Text, text_keys, number_keys, Bool, Option, none, some, List, [], ◌∷◌,
  if◌then◌else◌, Bool-cases, Result, ok, err,
}
use open_webbridge.Sessions.{Browser, Bridge, session_of, bind_tab, handle_tab_removed}
use open_webbridge.Sessions.Groups.{reconcile, set_group_title}
use open_webbridge.Sessions.Closing.{close_active_tab, close_session, close_group}
use open_webbridge.Sessions.Opening.{
  OpenError, limit_reached, open_tab, replace_tab, current_tab, ensure_domain_tab_limits,
  acquire_tab_for_navigation,
}
use open_webbridge.Sessions.Owned.{
  IsOwned, get_session-IsOwned, bind_tab-IsOwned, reconcile-IsOwned, group_tab-IsOwned,
}
use open_webbridge.Sessions.Removed.{removed-IsOwned}
use open_webbridge.TabLimit.{Limit, LimitReached}
use open_webbridge.Sessions.Emptied.{IsSound}
use open_webbridge.Sessions.Closed.{
  close_session-IsOwned, close_active_tab-IsOwned, close_group-IsOwned,
}

module _ {W : Type 0} (chrome : Browser W) (host_name : Text → Option Text) where
  open_tab-IsOwned :
      (name : Text) (b : Bridge W)
      → IsOwned b.sessions
      → IsOwned (open_tab chrome host_name name b).1.sessions
  unfolding open_tab bind_tab
  open_tab-IsOwned name b h = elim (Option-cases (chrome.tab_create b.browser).0) [
    | inl e ↦ rw (open_tab, e) h
    | inr (t, e) ↦
        rw (open_tab, e)
          (let after : Bridge W = record b { browser = (chrome.tab_create b.browser).1 } in
            group_tab-IsOwned chrome name t (bind_tab name t after)
              (bind_tab-IsOwned name t after h))
  ]

  replace_tab-IsOwned :
      (name : Text) (a : Option ℕ) (b : Bridge W)
      → IsOwned b.sessions
      → IsOwned (replace_tab chrome host_name name a b).1.sessions
  unfolding replace_tab
  replace_tab-IsOwned name none b h = open_tab-IsOwned name b h
  replace_tab-IsOwned name (some t) b h = elim (Bool-cases (close_active_tab chrome name b).0) [
    | inl e ↦
        rw (replace_tab, e) (open_tab-IsOwned name _ (close_active_tab-IsOwned chrome name b h))
    | inr e ↦ rw (replace_tab, e) (close_active_tab-IsOwned chrome name b h)
  ]

  acquire-IsOwned :
      (name : Text) (new_tab : Bool) (limits : List Limit) (target : Option Text) (b : Bridge W)
      → IsOwned b.sessions
      → IsOwned
          (acquire_tab_for_navigation chrome host_name name new_tab limits target b).1.sessions
  unfolding acquire_tab_for_navigation
  acquire-IsOwned name new_tab limits target b h =
      checked (ensure_domain_tab_limits chrome host_name limits target current r) current
    where
      r : Bridge W
      r = reconcile chrome name b

      current : Option ℕ
      current = current_tab chrome host_name name r

      there : IsOwned r.sessions
      there = reconcile-IsOwned chrome name b h

      checked :
          (v : Result LimitReached (Unit {0})) (a : Option ℕ)
          → IsOwned
              (elim v as (λ _. Result OpenError ℕ × Bridge W) [
                | err e ↦ (err (limit_reached e), r)
                | ok u ↦ elim a as (λ _. Result OpenError ℕ × Bridge W) [
                  | none ↦ replace_tab chrome host_name name none r
                  | some t ↦
                      if new_tab then replace_tab chrome host_name name (some t) r else (ok t, r)
                ]
              ]).1.sessions
      checked (err e) a = there
      checked (ok u) none = replace_tab-IsOwned name none r there
      checked (ok u) (some t) = elim (Bool-cases new_tab) [
        | inl e ↦ rw e (replace_tab-IsOwned name (some t) r there)
        | inr e ↦ rw e there
      ]

-- The calls of sessions.js by the tools, and the browser's report that a tab was closed.
pub data Action : Type 0 where
  navigate : Text → Bool → List Limit → Option Text → Action
  title_group : Text → Text → Action
  bind : Text → ℕ → Action
  find_session : Text → Action
  close_tab close_all : Text → Action
  close_one_group : ℕ → Action
  tab_removed : ℕ → Action

unfoldable pub act : {W : Type 0} → Browser W → (Text → Option Text) → Bridge W → Action → Bridge W
unfolding acquire_tab_for_navigation
act chrome host_name b (navigate name new_tab limits target) =
    (acquire_tab_for_navigation chrome host_name name new_tab limits target b).1
act chrome host_name b (title_group name title) = set_group_title chrome name title b
act chrome host_name b (bind name t) = bind_tab name t b
act chrome host_name b (find_session name) = reconcile chrome name b
act chrome host_name b (close_tab name) = (close_active_tab chrome name b).1
act chrome host_name b (close_all name) = (close_session chrome name b).1
act chrome host_name b (close_one_group g) = (close_group chrome g b).1
act chrome host_name b (tab_removed t) = handle_tab_removed t b

unfoldable pub run :
    {W : Type 0} → Browser W → (Text → Option Text) → Bridge W → List Action → Bridge W
unfolding act
run chrome host_name b [] = b
run chrome host_name b (a ∷ rest) = run chrome host_name (act chrome host_name b a) rest

set_group_title-IsOwned :
    {W : Type 0} (chrome : Browser W) (name title : Text) (b : Bridge W)
    → IsOwned b.sessions
    → IsOwned (set_group_title chrome name title b).sessions
unfolding set_group_title
set_group_title-IsOwned chrome name title b h = elim (Option-cases (session_of name b).group_id) [
  | inl e ↦ rw (set_group_title, e) (get_session-IsOwned name b h)
  | inr (g, e) ↦ elim (Bool-cases (chrome.group_title b.browser g title).0) [
    | inl f ↦ rw (set_group_title, e, f) (get_session-IsOwned name b h)
    | inr f ↦ rw (set_group_title, e, f) (get_session-IsOwned name b h)
  ]
]

act-IsOwned :
    {W : Type 0} (chrome : Browser W) (host_name : Text → Option Text) (b : Bridge W) (a : Action)
    → IsSound chrome
    → IsOwned b.sessions
    → IsOwned (act chrome host_name b a).sessions
unfolding act
act-IsOwned chrome host_name b (navigate name new_tab limits target) sound h =
    acquire-IsOwned chrome host_name name new_tab limits target b h
act-IsOwned chrome host_name b (title_group name title) sound h =
    set_group_title-IsOwned chrome name title b h
act-IsOwned chrome host_name b (bind name t) sound h = bind_tab-IsOwned name t b h
act-IsOwned chrome host_name b (find_session name) sound h = reconcile-IsOwned chrome name b h
act-IsOwned chrome host_name b (close_tab name) sound h = close_active_tab-IsOwned chrome name b h
act-IsOwned chrome host_name b (close_all name) sound h =
    close_session-IsOwned chrome name b sound h
act-IsOwned chrome host_name b (close_one_group g) sound h = close_group-IsOwned chrome g b h
act-IsOwned chrome host_name b (tab_removed t) sound h = removed-IsOwned t b h

-- In a browser where a closed tab is gone and closing one brings no other back, after any sequence
-- of calls of the tools and of tabs that the user closes, the active tab of each session, if it has
-- one, is among the session's tabs.
pub run-IsOwned :
    {W : Type 0} (chrome : Browser W) (host_name : Text → Option Text) (actions : List Action)
    (b : Bridge W)
    → IsSound chrome
    → IsOwned b.sessions
    → IsOwned (run chrome host_name b actions).sessions
unfolding run
run-IsOwned chrome host_name [] b sound h = h
run-IsOwned chrome host_name (a ∷ rest) b sound h =
    run-IsOwned chrome host_name rest (act chrome host_name b a) sound
      (act-IsOwned chrome host_name b a sound h)
