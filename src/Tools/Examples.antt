-- ===== src/Tools/Examples.antt =====
-- A small page, and the theorems on the tools at concrete inputs. A coordinate is a natural number.
use open_webbridge.Base.{
  In, Option, ℕ, ◌+◌, ◌≡◌, refl, Text, lit, decimal, lookup, text_keys, text_eq, contains, insert,
  add, trim, Bool, true, false, none, some, List, [], ◌∷◌, Result, ok, arith,
}
use open_webbridge.Cdp.{
  Target, tab, AttachAnswer, attached_now, target_eq, is_tab, attach, enable_domain, ensure_domain,
}
use open_webbridge.Cdp
use open_webbridge.Sessions.{Browser, Session, get_active_tab, session_of}
use open_webbridge.Snapshot.{Node, snapshot}
use open_webbridge.Tools.Page.{
  Geometry, Command, resolve_node, get_tree, Reply, value, tree, object, Debugger, Fault,
  unresolved_ref, Env, ◌>>=◌, ask,
}
use open_webbridge.Tools.Emulate.{Applied, Rounding, emulate}
use open_webbridge.Tools.Overrides.{clearing, emulate_clears}
use open_webbridge.Tools.Reading.{Frame, belongs, frames_of}
use open_webbridge.Tools.Listing.{ids_of, frames_of-exact}
use open_webbridge.Annotations.Store.Shots.{Distinct}
use open_webbridge.Tools.Elements.{expect_object, resolve_object_id}
use open_webbridge.Tools.Input.{drag, tap}
use open_webbridge.Tools.Outline.{PageOutline, text_of, take_snapshot}
use open_webbridge.Tools.Runs.{Attaches}
use open_webbridge.Tools.Sequences.{gesture, drag_sends, place}
use open_webbridge.Tools.Tapping.{taps, EndsIn, tap_lands}
use open_webbridge.Snapshot.Sources.{IsElement}
use open_webbridge.Tools.References.{reference, references_resolve}

abbrev button : Node
button = record {
  node_id = lit "1";
  parent_id = [];
  role = lit "button";
  name = lit "Save";
  value = [];
  ignored = false;
  backend_id = some 17;
  child_ids = [];
}

abbrev answer : {W : Type 0} → W → Target → Command ℕ → Result Text (Reply ℕ) × W
answer w t get_tree = (ok (tree (button ∷ [])), w)
answer w t (resolve_node _) = (ok (object (some (lit "object-1"))), w)
answer w t _ = (ok (value []), w)

-- A browser that the model says nothing more about has one state.
abbrev debugger : Debugger ℕ (Unit {0})
debugger = record {
  attach_answer = λ _ _. attached_now;
  reply = answer;
  is_silent = λ _ _ _. false;
}

attaches : Attaches debugger
attaches w t = refl

abbrev grid : Geometry ℕ
grid = record { mean = λ p q r s. p; between = λ p q i n. p + i; zero_point = 0 }

abbrev session : Session
session = record { group_id = none; active_tab = some 7; tab_ids = 7 ∷ [] }

abbrev start : Env ℕ (Unit {0})
start = record {
  bridge = record {
    sessions = (lit "work", session) ∷ [];
    refs = [];
    cdp = record { attached = []; enabled = []; sent = [] };
    browser = tt;
  };
  log = [];
}

open_tab : (session_of (lit "work") start.bridge).active_tab ≡ some 7
unfolding lookup text_eq
open_tab = refl

drag_sends_example :
    (e' : Env ℕ (Unit {0})) × (drag debugger grid
        (lit "work")
        []
        []
        (some 1)
        (some 2)
        []
        (some 30)
        (some 40)
        start
      ≡ (ok (place 1 2, place 30 40), e'))
    × (e'.log ≡ gesture grid (tab 7) (place 1 2) (place 30 40))
drag_sends_example =
    drag_sends debugger attaches grid (lit "work") [] 7 1 2 30 40 start open_tab
      (λ p w t. (value [], refl, refl)) (λ p w t. (value [], refl, refl))
      (λ p w t. (value [], refl, refl)) (λ p w t. (value [], refl, refl))

tap_lands_example :
    (touched : Bool) × (e' : Env ℕ (Unit {0})) × (tap debugger grid
        (lit "work")
        []
        []
        (some 1)
        (some 2)
        start
      ≡ (ok (place 1 2, touched), e'))
    × EndsIn e' (taps (tab 7) (place 1 2) touched)
tap_lands_example =
    tap_lands debugger grid (lit "work") [] 7 1 2 start attaches open_tab
      (λ p w t. (value [], refl, refl)) (λ p w t. (value [], refl, refl)) (λ w t. refl)

abbrev chrome : Browser (Unit {0})
chrome = record {
  tab_get = λ w t. some (record { url = some (lit "https://example.com/"); pending_url = none });
  tab_remove = λ w t. (true, w);
  tab_create = λ w. (some 8, w);
  tab_group = λ w t g. (none, w);
  group_query = λ w. none;
  group_tabs = λ w g. none;
  group_title = λ w g title. (true, w);
  storage_get = λ w. none;
  storage_set = λ w owned. w;
}

abbrev outlined : Result Fault PageOutline × Env ℕ (Unit {0})
outlined = take_snapshot debugger chrome 2 (lit "work") [] start

abbrev outline : PageOutline
outline = record {
  url = some (lit "https://example.com/");
  frame = [];
  ref_count = 1;
  text = lit "- button \"Save\" @e1";
}

outlined_ok : outlined.0 ≡ ok outline
unfolding take_snapshot lookup text_eq get_active_tab ensure_domain attach contains enable_domain
    insert is_tab target_eq add Cdp.send trim decimal
outlined_ok = refl

references_resolve_example :
    (w : Unit {0}) × (nodes : List Node) × (b : ℕ) × ((debugger.reply w (tab 7) get_tree).0
      ≡ ok (tree nodes))
    × (outline.text ≡ text_of (snapshot 2 nodes))
    × (lookup (decimal 1) (snapshot 2 nodes).ref_map ≡ some b)
    × IsElement nodes b
    × (resolve_object_id debugger (tab 7) (reference 1) outlined.1
        ≡ (ask debugger (tab 7) (resolve_node b) >>= expect_object (unresolved_ref (reference 1)))
            outlined.1)
references_resolve_example =
    references_resolve debugger chrome 2 7 1 (lit "work") [] start outline outlined.1 open_tab
      (λ i. (outlined_ok i, outlined.1)) (omega arith) (omega arith)

abbrev rounding : Rounding ℕ
rounding = record { whole = λ n. n; no_factor = 0; usual_accuracy = 100 }

emulate_clears_example :
    (a : Applied) × (e' : Env ℕ (Unit {0})) × (emulate debugger rounding
        (lit "work")
        true
        none
        []
        none
        start
      ≡ (ok a, e'))
    × (e'.log ≡ clearing (tab 7))
emulate_clears_example =
    emulate_clears debugger rounding (lit "work") [] none none 7 start attaches (λ c m w t. refl)
      open_tab

abbrev frame_at : Text → Option ℕ → Text → Frame
frame_at id tab_id kind = record { id = id; tab_id = tab_id; kind = kind; url = [] }

abbrev targets : List Frame
targets =
    frame_at (lit "p") (some 7) (lit "page")
    ∷ frame_at (lit "q") (some 8) (lit "page")
    ∷ frame_at (lit "f") none (lit "iframe")
    ∷ frame_at (lit "p") (some 7) (lit "page")
    ∷ []

frames_of-exact_example :
    Distinct (ids_of (frames_of 7 [] targets))
    × ((g : Frame) → In g (frames_of 7 [] targets) → In g targets × (belongs 7 g ≡ true))
    × ((f : Frame)
        → In f targets
        → belongs 7 f ≡ true
        → contains f.id (ids_of (frames_of 7 [] targets)) ≡ true)
frames_of-exact_example = frames_of-exact 7 targets
