-- ===== src/Annotate/Examples.antt =====
-- The theorems on the two annotation tools at concrete inputs: two notes, and one tab in annotation
-- mode with one frame.
use open_webbridge.Base.{
  ℕ, ◌≡◌, refl, Text, lit, text_eq, to_lower, trim, decimal, sort_by, contains, text_keys,
  number_keys, In, here, true, false, none, some, List, [], ◌∷◌, Result, ok,
}
use open_webbridge.Annotations.Model.{make_record, passes, prune_items}
use open_webbridge.Annotations.Model.Wire.{Wire}
use open_webbridge.Annotations.Store.{StoreError, persist_items, persist_shots, touch, mark_shot}
use open_webbridge.Annotations.Store.Wait.{Poll}
use open_webbridge.Annotations.Examples.{
  whole, no_fragment, note_input, stamp, first, pair, pair-IsValid,
}
use open_webbridge.Annotate.{Desk, World}
use open_webbridge.Annotate.Pages.{PageReply, add_note, added, handle_page_message}
use open_webbridge.Annotate.Args.{Args, no_args, build_filter, has_targeting}
use open_webbridge.Annotate.Operations.{StatusLine, listed, annotations}
use open_webbridge.Annotate.Cases.{is_change}
use open_webbridge.Annotate.Shown.{IsShown, annotations-IsShown}
use open_webbridge.Annotate.Spared.{annotations-untargeted, annotations-spares}
use open_webbridge.Annotate.Submitted.{submission_listed}

abbrev pub page : Text
page = lit "https://example.com/a"

abbrev pub world : World
world = record {
  readable = true;
  modes_written = true;
  written = true;
  shots_written = true;
  shots_retried = true;
  tabs = λ t. some page;
  injected = true;
  strip_hash = no_fragment;
  stamp = stamp;
  session_tab = some 7;
  focused = none;
  shot = some (lit "data:image/jpeg;base64,AA");
}

abbrev pub desk : Desk ℕ
desk = record {
  store = pair;
  mode = record {
    active = 7 ∷ [];
    frames = (7, (0, page) ∷ []) ∷ [];
    restored = true;
    saved = some (7 ∷ []);
    told = [];
  };
  pushed = [];
}

abbrev polls : ℕ → Poll ℕ
polls i = record { now = i; store = pair }

abbrev delete_first : Args
delete_first = record no_args { op = lit "delete"; ids = lit "a1" ∷ [] }

deleted : is_change (annotations world polls desk delete_first desk).0 ≡ true
unfolding annotations to_lower text_eq
deleted = refl

annotations-IsShown_example : IsShown world (annotations world polls desk delete_first desk).1
annotations-IsShown_example = annotations-IsShown world polls desk delete_first desk deleted

abbrev resolve_nothing : Args
resolve_nothing = record no_args { op = lit "resolve" }

annotations-untargeted_example : (annotations world polls desk resolve_nothing desk).1.store ≡ pair
unfolding has_targeting to_lower text_eq
annotations-untargeted_example =
    annotations-untargeted world polls desk resolve_nothing desk refl refl refl refl

abbrev resolve_second : Args
resolve_second = record no_args {
  op = lit "resolve";
  ids = lit "a2" ∷ [];
  note = some (lit "done");
}

annotations-spares_example :
    In first (annotations world polls desk resolve_second desk).1.store.items
unfolding passes build_filter make_record text_eq contains trim decimal
annotations-spares_example =
    annotations-spares world polls desk resolve_second desk first refl pair-IsValid (here refl) refl

abbrev handled : Result StoreError (PageReply ℕ) × Desk ℕ
handled = handle_page_message world whole [] (some 7) 0 page (add_note note_input true) desk

-- The page's note is answered with its number.
accepted : handled.0 ≡ ok (added (some (lit "a3")))
unfolding handle_page_message make_record trim persist_items persist_shots touch prune_items sort_by
    text_eq mark_shot decimal
accepted = refl

submission_listed_example :
    (id : Text) × (wires : List (Wire ℕ)) × (line : StatusLine) × (x : Wire ℕ) × (◌≡◌
      {A = PageReply ℕ}
      (added (some (lit "a3")))
      (added (some id)))
    × ((annotations world polls desk no_args handled.1).0
        ≡ ok (listed wires handled.1.store.seq none false line))
    × In x wires
    × (x.id ≡ id)
    × (x.status ≡ lit "open")
submission_listed_example =
    submission_listed world whole [] page 7 0 note_input true desk (added (some (lit "a3")))
      handled.1 polls desk pair-IsValid refl (λ i. (accepted i, handled.1))
