-- ===== src/Snapshot/Examples.antt =====
-- A small page, and the theorems on outlines at concrete inputs.
use open_webbridge.Base.{
  ◌≡◌, refl, lit, text_eq, text_keys, decimal, lookup, insert, contains, false, some, [], ◌∷◌, trim,
}
use open_webbridge.Snapshot.{Node, snapshot}
use open_webbridge.Snapshot.Bounds.{IsSane, snapshot-IsSane}

abbrev page : Node
page = record {
  node_id = lit "1";
  parent_id = [];
  role = lit "WebArea";
  name = lit "Shop";
  value = [];
  ignored = false;
  backend_id = some 10;
  child_ids = lit "2" ∷ [];
}

abbrev buy : Node
buy = record {
  node_id = lit "2";
  parent_id = lit "1";
  role = lit "button";
  name = lit " Buy   now ";
  value = [];
  ignored = false;
  backend_id = some 20;
  child_ids = [];
}

outline_test : snapshot 3 (page ∷ buy ∷ []) ≡ record {
  lines = lit "- WebArea \"Shop\" @e1" ∷ lit "  - button \"Buy now\" @e2" ∷ [];
  ref_map = (lit "1", 10) ∷ (lit "2", 20) ∷ [];
  ref_counter = 2;
  emitted = 2;
  truncated = false;
}
unfolding snapshot lookup insert text_eq contains trim decimal
outline_test = refl

snapshot-IsSane_example : IsSane (snapshot 3 (page ∷ buy ∷ []))
snapshot-IsSane_example = snapshot-IsSane 3 (page ∷ buy ∷ [])
