-- ===== src/Worker/Examples.antt =====
-- The theorems on the whole extension at concrete inputs: tab 7 is in annotation mode.
use open_webbridge.Base.{
  ℕ, ◌≡◌, refl, lit, number_keys, contains, to_lower, starts_with, true, not, none, some, [], ◌∷◌,
}
use open_webbridge.Mode.{is_annotatable}
use open_webbridge.Annotate.Examples.{page, world, desk}
use open_webbridge.WsClient
use open_webbridge.Worker.{Extension, toggled, toggle}
use open_webbridge.Worker.Toggling.{toggle_twice}

abbrev extension : Extension ℕ (Unit {0})
extension = record {
  link = WsClient.fresh;
  bridge = record {
    sessions =
        (lit "work", record { group_id = none; active_tab = some 7; tab_ids = 7 ∷ 9 ∷ [] }) ∷ [];
    refs = [];
    cdp = record { attached = []; enabled = []; sent = [] };
    browser = tt;
  };
  desk = desk;
  capture = record { buffers = (7, []) ∷ []; capturing = 7 ∷ [] };
  dialogs = record { policy = []; recent = [] };
}

annotatable : is_annotatable page ≡ true
unfolding is_annotatable to_lower starts_with
annotatable = refl

toggle_twice_example :
    ((toggle world 9 desk).0 ≡ toggled (not (contains 9 desk.mode.active)))
    × ((toggle world 9 (toggle world 9 desk).1).0 ≡ toggled (contains 9 desk.mode.active))
    × ((u : ℕ)
        → contains u (toggle world 9 (toggle world 9 desk).1).1.mode.active
          ≡ contains u desk.mode.active)
toggle_twice_example = toggle_twice world 9 desk refl ((page, refl, annotatable), refl)
