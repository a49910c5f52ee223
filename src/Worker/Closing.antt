-- ===== src/Worker/Closing.antt =====
-- What forgets a closed tab, and what does not (background.js).
use open_webbridge.Base.{ℕ, ◌≡◌, Text, number_keys, contains, lookup, false, none}
use open_webbridge.Cdp.{tab, target_keys}
use open_webbridge.Refs.{get_backend_id}
use open_webbridge.Sessions.{session_in}
use open_webbridge.Mode.{Mode}
use open_webbridge.Worker.{Extension}

-- No session holds the tab, no reference, no debugger session and no enabled domain, not the
-- annotation mode and none of its frames.
abbrev pub IsForgotten : {F W : Type 0} → ℕ → Extension F W → Type 0
IsForgotten t x =
    ((key : Text) → contains t (session_in key x.bridge.sessions).tab_ids ≡ false)
    × ((ref : Text) → get_backend_id (tab t) ref x.bridge.refs ≡ none)
    × (contains (tab t) x.bridge.cdp.attached ≡ false)
    × (lookup (tab t) x.bridge.cdp.enabled ≡ none)
    × (contains t x.desk.mode.active ≡ false)
    × (lookup t x.desk.mode.frames ≡ none)
