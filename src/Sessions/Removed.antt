-- ===== src/Sessions/Removed.antt =====
-- `handleTabRemoved` of sessions.js.
use open_webbridge.Base.{
  ℕ, ◌≡◌, ◌≢◌, ◌⊎◌, refl, inl, inr, Option-cases, Text, text_eq, text_keys, number_keys, Table,
  lookup, lookup-erase, contains, contains-delete, beq_refl, delete, true, false, ◌&&◌, none, some,
  [], ◌∷◌, Bool-cases, arith,
}
use open_webbridge.Sessions.{
  Session, Bridge, session_in, is_active, drop_tab, drop_everywhere, handle_tab_removed,
}
use open_webbridge.Sessions.Owned.{is_held, IsOwned, last_held}
use open_webbridge.Cdp.{Target, tab, target_keys, cleanup}
use open_webbridge.Refs.{Refs, clear_refs, get_backend_id}

-- A session of a name is what its entry has become.
session_in-drop :
    (t : ℕ) (key : Text) (sessions : Table Text Session)
    → session_in key (drop_everywhere t sessions) ≡ drop_tab t (session_in key sessions)
unfolding drop_everywhere lookup drop_tab contains delete
session_in-drop t key [] = refl
session_in-drop t key ((name, s) ∷ rest) = elim (Bool-cases (text_eq name key)) [
  | inl e ↦ rw e refl
  | inr e ↦ rw e (session_in-drop t key rest)
]

tab_ids-drop : (t : ℕ) (s : Session) → (drop_tab t s).tab_ids ≡ delete t s.tab_ids
unfolding drop_tab
tab_ids-drop t s = ground arith

drop_tab-held :
    (t : ℕ) (s : Session)
    → is_held s.active_tab s.tab_ids ≡ true
    → is_held (drop_tab t s).active_tab (drop_tab t s).tab_ids ≡ true
unfolding drop_tab
drop_tab-held t s h = elim (Bool-cases (contains t s.tab_ids && is_active t s)) [
  | inl e ↦ rw e (last_held (delete t s.tab_ids))
  | inr e ↦ rw e (kept (Option-cases s.active_tab) e)
]
  where
    kept :
        (s.active_tab ≡ none) ⊎ ((u : ℕ) × (s.active_tab ≡ some u))
        → (contains t s.tab_ids && is_active t s) ≡ false
        → is_held s.active_tab (delete t s.tab_ids) ≡ true
    kept (inl f) k = rw f refl
    kept (inr (u, f)) k =
        let here = rw f at h in
        let apart = rw f at k in rw (f, contains-delete t u s.tab_ids) (ground (arith, here, apart))

no_refs : (t : Target) (ref : Text) (refs : Refs) → get_backend_id t ref (clear_refs t refs) ≡ none
unfolding get_backend_id clear_refs
no_refs t ref refs = ground (arith, lookup-erase t t refs, beq_refl t)

pub removed-IsOwned :
    {W : Type 0} (t : ℕ) (b : Bridge W)
    → IsOwned b.sessions
    → IsOwned (handle_tab_removed t b).sessions
unfolding handle_tab_removed
removed-IsOwned t b h key =
    rw (session_in-drop t key b.sessions) (drop_tab-held t (session_in key b.sessions) (h key))

-- After a tab was removed, no session holds it, every session holds the same other tabs as before,
-- no reference on it resolves, and the debugger neither is attached to it nor has a domain marked.
pub handle_tab_removed-forgets :
    {W : Type 0} (t : ℕ) (b : Bridge W) (key : Text) (other : ℕ) (ref : Text)
    → (contains t (session_in key (handle_tab_removed t b).sessions).tab_ids ≡ false)
      × (other ≢ t
          → contains other (session_in key (handle_tab_removed t b).sessions).tab_ids
            ≡ contains other (session_in key b.sessions).tab_ids)
      × (get_backend_id (tab t) ref (handle_tab_removed t b).refs ≡ none)
      × (contains (tab t) (handle_tab_removed t b).cdp.attached ≡ false)
      × (lookup (tab t) (handle_tab_removed t b).cdp.enabled ≡ none)
unfolding handle_tab_removed cleanup
handle_tab_removed-forgets t b key other ref =
    rw (session_in-drop t key b.sessions, tab_ids-drop t (session_in key b.sessions))
      (
        rw (contains-delete t t (session_in key b.sessions).tab_ids, beq_refl t) refl,
        λ apart.
            rw (contains-delete t other (session_in key b.sessions).tab_ids)
              (ground (arith, apart)),
        no_refs (tab t) ref b.refs,
        rw (contains-delete (tab t) (tab t) b.cdp.attached, beq_refl (tab t)) refl,
        rw (lookup-erase (tab t) (tab t) b.cdp.enabled, beq_refl (tab t)) refl,
      )
