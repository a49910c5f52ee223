-- ===== src/Sessions/Emptied.antt =====
-- The active tabs of the sessions while the tabs of one session are closed (sessions.js).
use open_webbridge.Base.{
  ℕ, suc, ◌≡◌, ◌⊎◌, refl, ap, inl, inr, Text, text_eq, text_keys, number_keys, lookup-insert,
  contains-delete, delete, ◌==◌, is_some, Bool, true, false, Option, none, some, List, [], ◌∷◌,
  if◌then◌else◌, Bool-cases, arith,
}
use open_webbridge.Sessions.{
  Browser, Session, Bridge, session_key, session_in, session_of, put, tab_exists,
}
use open_webbridge.Sessions.Closing.{remove_managed_tab, close_each}
use open_webbridge.Sessions.Owned.{is_held}

-- What the source relies on: a tab that the browser says it closed is gone, and closing a tab
-- brings no other one back.
pub record IsSound {W : Type 0} (chrome : Browser W) : Type 0 where
  pub gone :
      (w : W) (t : ℕ)
      → (chrome.tab_remove w t).0 ≡ true
      → is_some (chrome.tab_get (chrome.tab_remove w t).1 t) ≡ false
  pub stays :
      (w : W) (t u : ℕ)
      → is_some (chrome.tab_get (chrome.tab_remove w t).1 u) ≡ true
      → is_some (chrome.tab_get w u) ≡ true

module _ {W : Type 0} (chrome : Browser W) where
  pub sessions-remove :
      (t : ℕ) (b : Bridge W) → (remove_managed_tab chrome t b).1.sessions ≡ b.sessions
  unfolding remove_managed_tab
  sessions-remove t b = ground arith

  -- A tab that was reported closed does not exist afterwards.
  remove-gone :
      (t : ℕ) (b : Bridge W)
      → IsSound chrome
      → (remove_managed_tab chrome t b).0 ≡ true
      → tab_exists chrome (remove_managed_tab chrome t b).1.browser (some t) ≡ false
  unfolding remove_managed_tab tab_exists
  remove-gone t b sound h = ground (arith, sound.gone b.browser t)

  remove-stays :
      (t u : ℕ) (b : Bridge W)
      → IsSound chrome
      → tab_exists chrome (remove_managed_tab chrome t b).1.browser (some u) ≡ true
      → tab_exists chrome b.browser (some u) ≡ true
  unfolding remove_managed_tab tab_exists
  remove-stays t u b sound h = ground (arith, sound.stays b.browser t u)

  exists-remove :
      (t : ℕ) (a : Option ℕ) (b : Bridge W)
      → IsSound chrome
      → tab_exists chrome b.browser a ≡ false
      → tab_exists chrome (remove_managed_tab chrome t b).1.browser a ≡ false
  unfolding tab_exists
  exists-remove t none b sound h = refl
  exists-remove t (some u) b sound h = ground (arith, remove-stays t u b sound)

  held-delete :
      (t : ℕ) (a : Option ℕ) (ids : List ℕ)
      → is_held a ids ≡ true
      → (is_held a (delete t ids) ≡ true) ⊎ (a ≡ some t)
  held-delete t none ids h = inl refl
  held-delete t (some u) ids h = elim (Bool-cases (t == u)) [
    | inl e ↦ inr (ground (arith))
    | inr e ↦ inl (rw (contains-delete t u ids) (ground (arith)))
  ]

  -- While a session is closed, its active tab may already be gone.
  abbrev pub IsNearly : Text → Bridge W → Type 0
  IsNearly name b =
      (key : Text)
      → (is_held (session_in key b.sessions).active_tab (session_in key b.sessions).tab_ids ≡ true)
        ⊎ ((text_eq (session_key name) key ≡ true)
            × (tab_exists chrome b.browser (session_in key b.sessions).active_tab ≡ false))

  abbrev keep_open : Text → ℕ → Bridge W → Bridge W
  keep_open name t b = (remove_managed_tab chrome t b).1

  abbrev drop_closed : Text → ℕ → Bridge W → Bridge W
  drop_closed name t b =
      put name (record (session_of name b) { tab_ids = delete t (session_of name b).tab_ids })
        (keep_open name t b)

  keep_open-IsNearly :
      (name : Text) (t : ℕ) (b : Bridge W)
      → IsSound chrome
      → IsNearly name b
      → IsNearly name (keep_open name t b)
  keep_open-IsNearly name t b sound h key = elim (h key) [
    | inl e ↦ inl (rw (sessions-remove t b) e)
    | inr (e, f) ↦ inr (e, rw (sessions-remove t b) (exists-remove t _ b sound f))
  ]

  own_tab :
      (name : Text) (t : ℕ) (b : Bridge W)
      → IsSound chrome
      → (remove_managed_tab chrome t b).0 ≡ true
      → IsNearly name b
      → (is_held (session_of name b).active_tab (delete t (session_of name b).tab_ids) ≡ true)
        ⊎ (tab_exists chrome (keep_open name t b).browser (session_of name b).active_tab ≡ false)
  own_tab name t b sound closed h = elim (h (session_key name)) [
    | inr (e, f) ↦ inr (exists-remove t _ b sound f)
    | inl e ↦ elim (held-delete t _ _ e) [
      | inl k ↦ inl k
      | inr k ↦ inr (rw k (remove-gone t b sound closed))
    ]
  ]

  drop_closed-IsNearly :
      (name : Text) (t : ℕ) (b : Bridge W)
      → IsSound chrome
      → (remove_managed_tab chrome t b).0 ≡ true
      → IsNearly name b
      → IsNearly name (drop_closed name t b)
  unfolding put
  drop_closed-IsNearly name t b sound closed h key =
      let s : Session = record (session_of name b) {
        tab_ids = delete t (session_of name b).tab_ids;
      } in
      elim (Bool-cases (text_eq (session_key name) key)) [
        | inl e ↦
            rw (lookup-insert (session_key name) key s (keep_open name t b).sessions, e)
              (elim (own_tab name t b sound closed h) [ inl k ↦ inl k | inr k ↦ inr (refl, k) ])
        | inr e ↦
            rw (lookup-insert (session_key name) key s (keep_open name t b).sessions, e)
              (let k = keep_open-IsNearly name t b sound h key in rw e at k)
      ]

  close_each_next :
      (name : Text) (t : ℕ) (ts : List ℕ) (n : ℕ) (b : Bridge W) (c : Bool)
      → (remove_managed_tab chrome t b).0 ≡ c
      → close_each chrome name (t ∷ ts) n b
        ≡ close_each chrome name ts
            (if c then suc n else n)
            (if c then drop_closed name t b else keep_open name t b)
  unfolding close_each
  close_each_next name t ts n b c = ap (λ c.
      close_each chrome name ts (if c then suc n else n)
        (if c then drop_closed name t b else keep_open name t b))

  pub close_each-IsNearly :
      (name : Text) (ts : List ℕ) (n : ℕ) (b : Bridge W)
      → IsSound chrome
      → IsNearly name b
      → IsNearly name (close_each chrome name ts n b).1
  unfolding close_each
  close_each-IsNearly name [] n b sound h = h
  close_each-IsNearly name (t ∷ ts) n b sound h =
      elim (Bool-cases (remove_managed_tab chrome t b).0) [
        | inl e ↦ rw (close_each_next name t ts n b true e) (
            close_each-IsNearly name ts (suc n) (drop_closed name t b) sound
              (drop_closed-IsNearly name t b sound e h))
        | inr e ↦ rw (close_each_next name t ts n b false e) (
            close_each-IsNearly name ts n (keep_open name t b) sound
              (keep_open-IsNearly name t b sound h))
      ]
