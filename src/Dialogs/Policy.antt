-- ===== src/Dialogs/Policy.antt =====
-- How dialogs are answered, and how many are remembered (dialogs.js).
use open_webbridge.Base.{
  ℕ, ◌≤◌, ◌≡◌, refl, inl, inr, Text, number_keys, lit, text_eq, length, length-append, length-drop,
  lookup, lookup-insert, ◌==◌, Bool, Option, none, some, or_else, List, [], ◌∷◌, ◌++◌, Bool-cases,
  arith, if◌then◌else◌,
}
use open_webbridge.Dialogs.{
  Dialog, Dialogs, Reply, default_policy, is_accept, remember, on_dialog, list_dialogs, action_of,
  set_policy,
}

-- What the tool and the browser do.
pub data Event : Type 0 where
  opens : Option ℕ → Dialog → Event
  configures : ℕ → Text → Option Text → Event

unfoldable pub handle : Dialogs → Event → Dialogs
handle s (opens tab d) = (on_dialog tab d s).1
handle s (configures tab word prompt_text) = set_policy tab word prompt_text s

unfoldable pub run : Dialogs → List Event → Dialogs
unfolding handle
run s [] = s
run s (e ∷ rest) = run (handle s e) rest

abbrev pub fresh : Dialogs
fresh = record { policy = []; recent = [] }

-- The last word that a history configures for a tab, or the one that stood before.
unfoldable pub last_word : ℕ → Text → List Event → Text
last_word tab word [] = word
last_word tab word (opens t d ∷ rest) = last_word tab word rest
last_word tab word (configures t w p ∷ rest) = last_word tab (if t == tab then w else word) rest

-- Whether a tab's dialogs are accepted.
abbrev accepting : ℕ → Dialogs → Bool
accepting tab s = is_accept (or_else (lookup tab s.policy) default_policy).action

accepting-action_of : (word : Text) → is_accept (action_of word) ≡ text_eq word (lit "accept")
unfolding is_accept action_of
accepting-action_of word = ground arith

handle-opens :
    (tab : ℕ) (t : Option ℕ) (d : Dialog) (s : Dialogs) → (handle s (opens t d)).policy ≡ s.policy
unfolding handle on_dialog
handle-opens tab none d s = refl
handle-opens tab (some t) d s = refl

handle-configures :
    (tab t : ℕ) (w : Text) (p : Option Text) (s : Dialogs)
    → accepting tab (handle s (configures t w p))
      ≡ (if t == tab then text_eq w (lit "accept") else accepting tab s)
unfolding handle set_policy
handle-configures tab t w p s = elim (Bool-cases (t == tab)) [
  | inl e ↦
      rw (lookup-insert t tab (record { action = action_of w; prompt_text = p }) s.policy, e)
        (accepting-action_of w)
  | inr e ↦ rw (lookup-insert t tab (record { action = action_of w; prompt_text = p }) s.policy, e)
]

run-accepting :
    (tab : ℕ) (events : List Event) (s : Dialogs) (word : Text)
    → accepting tab s ≡ text_eq word (lit "accept")
    → accepting tab (run s events) ≡ text_eq (last_word tab word events) (lit "accept")
unfolding run last_word
run-accepting tab [] s word h = h
run-accepting tab (opens t d ∷ rest) s word h =
    run-accepting tab rest (handle s (opens t d)) word (rw (handle-opens tab t d s) h)
run-accepting tab (configures t w p ∷ rest) s word h =
    run-accepting tab rest (handle s (configures t w p)) (if t == tab then w else word)
      (ground (arith, handle-configures tab t w p s))

nothing_set : (tab : ℕ) → accepting tab fresh ≡ text_eq [] (lit "accept")
unfolding is_accept lookup text_eq
nothing_set tab = refl

-- A dialog of a tab is accepted exactly if `accept` is the last word that was configured for that
-- tab; it is dismissed if none was. The answer goes to the tab that shows the dialog.
pub on_dialog_by_policy :
    (tab : ℕ) (d : Dialog) (events : List Event)
    → (r : Reply) × ((on_dialog (some tab) d (run fresh events)).0 ≡ some r)
      × (r.tab ≡ tab)
      × (r.accepts ≡ text_eq (last_word tab [] events) (lit "accept"))
unfolding on_dialog
on_dialog_by_policy tab d events = (
  record {
    tab = tab;
    accepts = accepting tab (run fresh events);
    prompt_text = (or_else (lookup tab (run fresh events).policy) default_policy).prompt_text;
  },
  refl,
  refl,
  run-accepting tab events fresh [] (nothing_set tab),
)

-- Every list of recent dialogs within its cap.
abbrev pub IsShort : Dialogs → Type 0
IsShort s = (tab : ℕ) → length (list_dialogs tab s) ≤ 20

length-remember : (d : Dialog) (r : List Dialog) → length r ≤ 20 → length (remember d r) ≤ 20
unfolding remember
length-remember d r h = ground (arith, length-append r (d ∷ []), length-drop 1 (r ++ d ∷ []))

handle-IsShort : (e : Event) (s : Dialogs) → IsShort s → IsShort (handle s e)
unfolding handle on_dialog set_policy list_dialogs
handle-IsShort (opens none d) s h tab = h tab
handle-IsShort (opens (some t) d) s h tab =
    rw (lookup-insert t tab (remember d (or_else (lookup t s.recent) [])) s.recent)
      (ground (arith, h tab, length-remember d (or_else (lookup t s.recent) []), h t))
handle-IsShort (configures t w p) s h tab = h tab

-- Whatever dialogs open, at most 20 are remembered for a tab.
pub run-IsShort : (events : List Event) (s : Dialogs) → IsShort s → IsShort (run s events)
unfolding run
run-IsShort [] s h = h
run-IsShort (e ∷ rest) s h = run-IsShort rest (handle s e) (handle-IsShort e s h)
