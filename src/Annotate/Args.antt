-- ===== src/Annotate/Args.antt =====
-- open-webbridge-extension/src/tools/annotate.js: the arguments of the two tools, and the query that
-- they make.
use open_webbridge.Base.{
  ℕ, Text, lit, text_keys, to_lower, is_empty, is_some, contains, Bool, true, false, not, ◌||◌,
  Option, none, some, List, [], ◌∷◌, if◌then◌else◌,
}
use open_webbridge.Annotations.Record.{Filter}

-- `wait_ms`: `true`, or a number, `none` if it is not one or below 0.
pub data Wait : Type 0 where
  default_wait : Wait
  wait_of : Option ℕ → Wait

-- The arguments; a text that is empty and one that is missing are alike to the source. `some none`
-- is a `since` that is given and is not a number.
pub record Args : Type 0 where
  pub op : Text
  pub ids : List Text
  pub id : Text
  pub status : Text
  pub url : Text
  pub tab_id : Option ℕ
  pub since : Option (Option ℕ)
  pub limit : Option ℕ
  pub note : Option Text
  pub comment : Option Text
  pub all : Bool
  pub verbose : Option Bool
  pub wait : Option Wait
  -- `target === "active"`
  pub front : Bool

abbrev pub no_args : Args
no_args = record {
  op = [];
  ids = [];
  id = [];
  status = [];
  url = [];
  tab_id = none;
  since = none;
  limit = none;
  note = none;
  comment = none;
  all = false;
  verbose = none;
  wait = none;
  front = false;
}

abbrev statuses : List Text
statuses = lit "open" ∷ lit "resolved" ∷ lit "all" ∷ []

unfoldable pub normalize_status : Text → Text → Text
normalize_status value fallback =
    let s = to_lower value in if contains s statuses then s else fallback

-- The empty list is null.
unfoldable pub ids_of : Args → List Text
ids_of a = elim a.ids [ [] ↦ if is_empty a.id then [] else a.id ∷ [] | i ∷ is ↦ i ∷ is ]

abbrev pub usable : Option (Option ℕ) → Option ℕ
usable none = none
usable (some since) = since

unfoldable pub build_filter : Args → Text → Filter
unfolding normalize_status ids_of
build_filter a default_status = record {
  status = normalize_status a.status default_status;
  url = a.url;
  tab_id = a.tab_id;
  ids = ids_of a;
  since = usable a.since;
  limit = a.limit;
}

abbrev any_id : List Text → Bool
any_id [] = false
any_id (_ ∷ _) = true

unfoldable pub has_targeting : Args → Bool
unfolding ids_of
has_targeting a = any_id (ids_of a) || not (is_empty a.url) || is_some a.tab_id || is_some a.since

-- `args.id || args.ids[0]`
unfoldable pub one_id : Args → Text
one_id a = elim a.ids [ [] ↦ a.id | i ∷ _ ↦ if is_empty a.id then i else a.id ]
