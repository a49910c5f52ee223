-- ===== src/Cdp/Race.antt =====
-- What a detach from outside does that falls into an attach.
use open_webbridge.Base.{
  ℕ, ◌≡◌, refl, Text, lit, text_keys, text_eq, text_eq_refl, contains, add, delete, lookup, insert,
  erase, true, false, [], ◌∷◌, ◌++◌, ok,
}
use open_webbridge.Cdp.{
  tab, target_keys, target_eq_refl, Cdp, attached_now, attach_call, command, cleanup, is_enabled,
  enable_domain, is_tab, attach, ensure_domain,
}

abbrev pub fresh : Cdp
fresh = record { attached = []; enabled = []; sent = [] }

-- A domain is ensured, and the tab is detached from outside while the attach enables the domain of
-- pages.
abbrev pub interrupted : ℕ → Text → Cdp
interrupted n domain = (ensure_domain attached_now (tab n ∷ []) [] (tab n) domain fresh).1

-- With no session at first, if the debugger is detached from a tab while the first attach enables
-- the domain of pages, ensuring a domain other than that one marks it although nothing is attached.
-- Ensuring it again attaches anew and returns, and no call of it enables the domain.
pub ensure_domain_after_race :
    (n : ℕ) (domain : Text)
    → text_eq domain (lit "Page") ≡ false
    → (contains (tab n) (interrupted n domain).attached ≡ false)
      × (is_enabled (tab n) domain (interrupted n domain) ≡ true)
      × ((ensure_domain attached_now [] [] (tab n) domain (interrupted n domain)).0 ≡ ok tt)
      × ((ensure_domain attached_now [] [] (tab n) domain (interrupted n domain)).1.sent
          ≡ (interrupted n domain).sent
            ++ attach_call (tab n) ∷ command (tab n) (lit "Page.enable") ∷ [])
unfolding ensure_domain attach enable_domain contains add delete lookup insert erase is_tab cleanup
ensure_domain_after_race n domain other =
    simp (target_eq_refl (tab n), text_eq_refl domain, other) (refl, refl, refl, refl)
