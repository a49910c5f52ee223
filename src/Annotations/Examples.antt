-- ===== src/Annotations/Examples.antt =====
-- Tests of the annotation store, and its theorems at concrete inputs. A coordinate is a natural
-- number here, an address has no fragment.
use open_webbridge.Base.{
  ℕ, ◌+◌, ◌*◌, ◌/◌, ◌≤◌, ◌≡◌, ◌↔◌, ◌⊎◌, refl, Text, lit, text_keys, text_eq, trim, length, Sorted,
  All, In, here, true, false, Option, none, some, List, [], ◌∷◌, arith, ok,
}
use open_webbridge.Annotations.Record.{Float, RawElement, RawInput, Annotation, no_filter}
use open_webbridge.Annotations.Model.{clip, make_record, passes, filter_annotations, seq_of}
use open_webbridge.Annotations.Model.Query.{
  Within, filter_annotations_sound, filter_annotations_complete,
}
use open_webbridge.Annotations.Model.Bounds.{ElementFits, make_record-fits}
use open_webbridge.Annotations.Store.{
  Store, Changes, load, add, get, patch, remove, set_shot, get_shot, apply_changes,
}
use open_webbridge.Annotations.Store.Invariant.{IsValid}
use open_webbridge.Annotations.Store.Reach.{
  fresh, Reach, start, next, added, restarted, Reach-IsDurable,
}
use open_webbridge.Annotations.Store.Screenshots.{IsHonest, set_shot-IsHonest, set_shot-unbacked}
use open_webbridge.Annotations.Store.Submission.{get-add}
use open_webbridge.Annotations.Store.Removal.{remove-exact, patch-exact}
use open_webbridge.Annotations.Store.Wait.{Poll, Answers, wait_for_new, wait_for_new-Answers}

abbrev pub whole : Float ℕ
whole = record {
  is_finite = λ _. true;
  times_hundred = λ n. n * 100;
  round = λ n. n;
  over_hundred = λ n. n / 100;
  nought = 0;
}

abbrev pub no_fragment : Text → Option Text
no_fragment u = some u

abbrev pub raw_button : RawElement ℕ
raw_button = record {
  tag = some (lit "BUTTON");
  role = some (lit "button");
  name = none;
  text = some (lit "Save");
  selector = some (lit "#save");
  selector_kind = some (lit "id");
  unique = true;
  shadow = false;
  selectors = record { css = none; xpath = none; testid = none; aria = none; text = none };
  attrs = (lit "type", some (lit "submit")) ∷ (lit "title", some []) ∷ [];
  ancestors = some (lit "form") ∷ [];
  rect = some (record { x = 1; y = 2; w = 30; h = 10 });
  page = none;
}

abbrev pub note_input : RawInput ℕ
note_input = record {
  comment = some (lit " too small ");
  url = some (lit "https://example.com/a");
  title = some (lit "A page");
  frame_url = none;
  top_frame = true;
  element = raw_button;
  viewport = none;
}

abbrev pub stamp : Text
stamp = lit "2025-01-01T00:00:00.000Z"

abbrev pub first : Annotation ℕ
first = make_record whole no_fragment 1 note_input (some 7) (lit "default") stamp

abbrev pub second : Annotation ℕ
second = make_record whole no_fragment 2 note_input none (lit "work") stamp

abbrev pub two : List (Annotation ℕ)
two = first ∷ second ∷ []

make_record-fits_example :
    (length first.comment ≤ 4000)
    × (length first.url ≤ 2000)
    × (length first.title ≤ 300)
    × (length first.frame_url ≤ 2000)
    × ElementFits first.element
make_record-fits_example =
    make_record-fits whole no_fragment 1 note_input (some 7) (lit "default") stamp

filter_annotations_sound_example :
    ((a : Annotation ℕ)
      → In a (filter_annotations two no_filter)
      → In a two × (passes no_filter a ≡ true))
    × Sorted seq_of (filter_annotations two no_filter)
    × Within none (filter_annotations two no_filter)
filter_annotations_sound_example = filter_annotations_sound two no_filter

filter_annotations_complete_example :
    (In first (filter_annotations two no_filter)
      ⊎ All (λ b. first.seq ≤ b.seq) (filter_annotations two no_filter))
    × (no_filter.limit ≡ none → In first (filter_annotations two no_filter))
unfolding passes make_record text_eq
filter_annotations_complete_example =
    filter_annotations_complete two no_filter first (here refl) refl

abbrev ids : List Text
ids = lit "a1" ∷ lit "a9" ∷ []

abbrev after_add : Store ℕ
after_add = (add whole no_fragment note_input (some 7) (lit "default") stamp true fresh).1

accepted : (add whole no_fragment note_input (some 7) (lit "default") stamp true fresh).0 ≡ ok first
unfolding add make_record clip trim
accepted = refl

history : Reach whole no_fragment (load after_add)
history = next (next start (added note_input (some 7) (lit "default") stamp true)) restarted

Reach-IsDurable_example : IsValid (load after_add) × IsValid (load (load after_add))
Reach-IsDurable_example = Reach-IsDurable whole no_fragment history

fresh-IsValid : IsValid (fresh {F = ℕ})
fresh-IsValid = record {
  ascending = tt;
  named = tt;
  capped = omega arith;
  distinct = tt;
  shots_capped = omega arith;
}

get-add_example :
    (get first.id after_add ≡ some first) × (get first.id (load after_add) ≡ some first)
get-add_example =
    get-add whole no_fragment note_input (some 7) (lit "default") stamp fresh fresh-IsValid first
      accepted

-- A store of the two records.
abbrev pub pair : Store ℕ
pair = record {
  seq = 2;
  items = two;
  shots = [];
  revision = 0;
  saved_items = none;
  saved_shots = none;
}

pub pair-IsValid : IsValid pair
unfolding make_record
pair-IsValid = record {
  ascending = ((omega arith, tt), (tt, tt));
  named = ((omega arith, refl), ((omega arith, refl), tt));
  capped = omega arith;
  distinct = tt;
  shots_capped = omega arith;
}

set_shot-IsHonest_example : IsHonest (set_shot (lit "a1") (lit "data:x") true true true pair).1
unfolding make_record
set_shot-IsHonest_example =
    set_shot-IsHonest (lit "a1") (lit "data:x") true true pair ((λ e. cc), ((λ e. cc), tt))

set_shot-unbacked_example :
    ((set_shot first.id (lit "data:x") false true true pair).0 ≡ false)
    × (get_shot first.id (set_shot first.id (lit "data:x") false true true pair).1 ≡ none)
    × ((a : Annotation ℕ) × In a (set_shot first.id (lit "data:x") false true true pair).1.items
        × (a.id ≡ first.id)
        × (a.has_screenshot ≡ true))
set_shot-unbacked_example =
    set_shot-unbacked first (lit "data:x") true true pair (here refl) refl refl

remove-exact_example :
    In first (remove no_filter true true true pair).1.items
    ↔ (In first two × (passes no_filter first ≡ false))
remove-exact_example = remove-exact no_filter true true true pair pair-IsValid refl first

abbrev resolve : Changes
resolve = record { status = lit "resolved"; comment = none; note = some (lit "done") }

patch-exact_example :
    (In first (filter_annotations two no_filter)
      → In (apply_changes resolve stamp first) (patch no_filter resolve stamp true pair).1.items)
    × (passes no_filter first ≡ false → In first (patch no_filter resolve stamp true pair).1.items)
patch-exact_example = patch-exact no_filter resolve stamp true pair pair-IsValid first (here refl)

-- A clock on which a second passes between rounds, over a store that stays empty.
abbrev quiet : ℕ → Poll ℕ
quiet i = record { now = 1000 * i; store = fresh }

wait_for_new-Answers_example :
    (found : List (Annotation ℕ)) × (wait_for_new (600 / 250 + 2) no_filter 600 quiet 0
      ≡ some found)
    × Answers no_filter 600 quiet found
wait_for_new-Answers_example = wait_for_new-Answers no_filter 600 quiet (λ i. ground arith)
