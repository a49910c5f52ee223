-- ===== src/Mode/Woken.antt =====
-- `handleTabRemoved` of mode.js when the event wakes a suspended worker.
use open_webbridge.Base.{
  ℕ, ◌≡◌, refl, Text, number_keys, contains, delete, true, false, Option, some, [],
}
use open_webbridge.Mode.{Mode, wake, restore, persist_modes, handle_tab_removed}

-- The closing of a tab that wakes the worker empties the stored list if the write succeeds: every
-- other tab has lost its annotation mode, at once and after the memory is read back, whatever was
-- stored and whatever tabs are open.
pub removed-forgets_all :
    (s : Mode) (t other : ℕ) (tabs : ℕ → Option Text)
    → ((handle_tab_removed true t (wake s)).saved ≡ some [])
      × (contains other (restore true tabs (handle_tab_removed true t (wake s))).active ≡ false)
unfolding handle_tab_removed persist_modes restore delete contains
removed-forgets_all s t other tabs = (refl, refl)
