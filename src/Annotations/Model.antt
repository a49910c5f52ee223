-- ===== src/Annotations/Model.antt =====
-- open-webbridge-extension/src/annotations/model.js: the pure rules of the annotation store.
-- `strip_hash` stands for `new URL(u)` with its fragment dropped, as text; `none` where it throws.
pub mod Query
pub mod Pruning
pub mod Counts
pub mod Bounds
pub mod Wire
use open_webbridge.Base.{
  ℕ, suc, ◌+◌, ◌-◌, Text, lit, to_lower, trim, includes, text_eq, text_keys, is_empty, decimal,
  length, take, drop, filter, contains, sort_by, take_last, lookup, insert, has, is_some, Table,
  map, leb, ltb, ◌==◌, Bool, true, false, not, ◌&&◌, ◌||◌, Option, none, some, or_else, List, [],
  ◌∷◌, ◌++◌, if◌then◌else◌,
}
use mathlib.Core.Option
use open_webbridge.Annotations.Record.{
  Float, Rect, Viewport, Selectors, Element, Annotation, RawSelectors, RawElement, RawInput, Filter,
}

abbrev pub max_annotations : ℕ
max_annotations = 500

abbrev pub max_shots : ℕ
max_shots = 30

abbrev pub default_wait_ms : ℕ
default_wait_ms = 60000

abbrev pub max_wait_ms : ℕ
max_wait_ms = 240000

abbrev pub max_comment : ℕ
max_comment = 4000

abbrev pub max_note : ℕ
max_note = 4000

unfoldable pub url_key : (Text → Option Text) → Text → Text
url_key strip_hash url = or_else (strip_hash url) url

unfoldable pub clip : Option Text → ℕ → Text
clip none max = []
clip (some s) max = if ltb max (length s) then take max s else s

unfoldable pub sanitize_comment : Option Text → Text
unfolding clip
sanitize_comment text = trim (clip text max_comment)

unfoldable pub sanitize_note : Option Text → Text
unfolding clip
sanitize_note text = trim (clip text max_note)

-- The loop over the first attributes: one that is empty after clipping is skipped.
unfoldable pub out_attrs : Table Text Text → Table Text (Option Text) → Table Text Text
unfolding clip
out_attrs out [] = out
out_attrs out ((k, raw) ∷ rest) =
    let key = trim (clip (some k) 40) in
    let v = clip raw 200 in
    out_attrs (if not (is_empty key) && not (is_empty v) then insert key v out else out) rest

unfoldable pub sanitize_selectors : RawSelectors → Selectors
unfolding clip
sanitize_selectors s = record {
  css = clip s.css 600;
  xpath = clip s.xpath 600;
  testid = clip s.testid 200;
  aria = clip s.aria 200;
  text = clip s.text 200;
}

module _ {F : Type 0} (float : Float F) where
  open float use {is_finite, times_hundred, round, over_hundred, nought}

  unfoldable pub num : F → F
  num v = if is_finite v then over_hundred (round (times_hundred v)) else nought

  unfoldable pub rect : Option (Rect F) → Option (Rect F)
  unfolding num
  rect = Option.map (λ r. record { x = num r.x; y = num r.y; w = num r.w; h = num r.h })

  unfoldable pub sanitize_element : RawElement F → Element F
  unfolding clip rect out_attrs sanitize_selectors
  sanitize_element e = record {
    tag = to_lower (clip e.tag 40);
    role = clip e.role 40;
    name = clip e.name 200;
    text = clip e.text 400;
    selector = clip e.selector 600;
    selector_kind = clip e.selector_kind 20;
    unique = e.unique;
    shadow = e.shadow;
    selectors = sanitize_selectors e.selectors;
    attrs = out_attrs [] (take 12 e.attrs);
    ancestors = map (λ a. clip a 120) (take 6 e.ancestors);
    rect = rect e.rect;
    page = rect e.page;
  }

  -- `stamp` is the ISO text of the time.
  unfoldable pub make_record :
      (Text → Option Text) → ℕ → RawInput F → Option ℕ → Text → Text → Annotation F
  unfolding clip url_key sanitize_element sanitize_comment
  make_record strip_hash seq src tab_id session stamp = record {
    id = lit "a" ++ decimal seq;
    seq = seq;
    created_at = stamp;
    updated_at = stamp;
    status = lit "open";
    comment = sanitize_comment src.comment;
    note = [];
    url = clip src.url 2000;
    url_key = url_key strip_hash (clip src.url 2000);
    title = clip src.title 300;
    tab_id = tab_id;
    session = (let s = clip (some session) 120 in if is_empty s then none else some s);
    frame_url = if src.top_frame then [] else clip src.frame_url 2000;
    top_frame = src.top_frame;
    element = sanitize_element src.element;
    viewport = Option.map (λ v. record { w = num v.w; h = num v.h; dpr = num v.dpr }) src.viewport;
    has_screenshot = false;
  }

abbrev pub wanted_status : Filter → Text
wanted_status f = if is_empty f.status then lit "open" else f.status

-- An empty list of ids filters nothing.
abbrev pub among : List Text → Text → Bool
among [] id = true
among (i ∷ ids) id = contains id (map trim (i ∷ ids))

module _ {F : Type 0} where
  abbrev pub seq_of : Annotation F → ℕ
  seq_of it = it.seq

  abbrev pub id_of : Annotation F → Text
  id_of it = it.id

  abbrev at_tab : Option ℕ → Annotation F → Bool
  at_tab none it = true
  at_tab (some t) it = or_else it.tab_id 0 == t

  abbrev is_after : Option ℕ → Annotation F → Bool
  is_after none it = true
  is_after (some n) it = ltb n it.seq

  -- The test of `filterAnnotations`. A record with no tab counts as tab 0, `Number(null)`.
  unfoldable pub passes : Filter → Annotation F → Bool
  passes f it =
      among f.ids it.id
      && (text_eq (wanted_status f) (lit "all") || text_eq it.status (wanted_status f))
      && (is_empty f.url || includes (to_lower it.url) (to_lower f.url))
      && at_tab f.tab_id it
      && is_after f.since it

  -- The newest of a list in creation order, where a limit is set.
  unfoldable pub newest : Option ℕ → List (Annotation F) → List (Annotation F)
  newest none out = out
  newest (some limit) out =
      if ltb 0 limit && ltb limit (length out) then take_last limit out else out

  unfoldable pub filter_annotations : List (Annotation F) → Filter → List (Annotation F)
  filter_annotations items f = newest f.limit (sort_by seq_of (filter (passes f) items))

  unfoldable pub prune_items : List (Annotation F) → ℕ → List (Annotation F)
  prune_items items max =
      let list = sort_by seq_of items in
      if leb (length list) max then list else drop (length list - max) list

  -- `bySeq`: the number of each record, the last one counting where an id stands twice.
  unfoldable pub by_seq : Table Text ℕ → List (Annotation F) → Table Text ℕ
  by_seq m [] = m
  by_seq m (it ∷ rest) = by_seq (insert it.id it.seq m) rest

  unfoldable pub shot_ids_to_keep : List (Annotation F) → List Text → ℕ → List Text
  shot_ids_to_keep items shot_ids max =
      let by = by_seq [] items in
      take_last max (sort_by (λ id. or_else (lookup id by) 0) (filter (λ id. has id by) shot_ids))

-- Counts over the store.
pub record Stats : Type 0 where
  pub total : ℕ
  pub open_count : ℕ
  pub resolved : ℕ
  pub with_screenshot : ℕ
  pub pages : Table Text ℕ

module _ {F : Type 0} where
  abbrev pub is_resolved : Annotation F → Bool
  is_resolved it = text_eq it.status (lit "resolved")

  unfoldable pub page_of : Annotation F → Text
  page_of it = if is_empty it.url_key then it.url else it.url_key

  -- One round of the loop.
  unfoldable pub count_item : Stats → Annotation F → Stats
  unfolding page_of
  count_item s it = record s {
    open_count = if is_resolved it then s.open_count else s.open_count + 1;
    resolved = if is_resolved it then s.resolved + 1 else s.resolved;
    with_screenshot = if it.has_screenshot then s.with_screenshot + 1 else s.with_screenshot;
    pages = insert (page_of it) (or_else (lookup (page_of it) s.pages) 0 + 1) s.pages;
  }

  unfoldable pub count_items : Stats → List (Annotation F) → Stats
  unfolding count_item
  count_items s [] = s
  count_items s (it ∷ rest) = count_items (count_item s it) rest

  unfoldable pub stats : List (Annotation F) → Stats
  unfolding count_items
  stats items =
      count_items
        (record {
          total = length items;
          open_count = 0;
          resolved = 0;
          with_screenshot = 0;
          pages = [];
        })
        items

-- `none` is a number that is not finite or is below 0.
unfoldable pub clamp_wait : Option ℕ → ℕ
clamp_wait none = 0
clamp_wait (some n) =
    if n == 0
    then 0
    else (let raised = if ltb n 250 then 250 else n in
        if ltb max_wait_ms raised then max_wait_ms else raised)
