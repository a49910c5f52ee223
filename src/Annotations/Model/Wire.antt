-- ===== src/Annotations/Model/Wire.antt =====
-- `toWire` of model.js: the part of a record that the agent is sent. A field that is not sent is
-- `none`.
use open_webbridge.Base.{
  ℕ, Text, lit, text_eq, is_empty, Table, Bool, Option, none, some, List, if◌then◌else◌,
}
use open_webbridge.Annotations.Record.{Rect, Viewport, Selectors, Annotation}

-- What only a verbose answer adds.
pub record Details (F : Type 0) : Type 0 where
  pub selectors : Selectors
  pub selector_kind : Text
  pub attrs : Table Text Text
  pub ancestors : List Text
  pub shadow : Bool
  pub rect : Option (Rect F)
  pub page : Option (Rect F)
  pub viewport : Option (Viewport F)
  pub url_key : Text
  pub top_frame : Bool

pub record Wire (F : Type 0) : Type 0 where
  pub id : Text
  pub seq : ℕ
  pub status : Text
  pub comment : Text
  pub created_at : Text
  pub url : Text
  pub title : Text
  pub tab_id : Option ℕ
  pub tag : Text
  pub name : Text
  pub text : Text
  pub selector : Text
  pub unique : Bool
  pub has_screenshot : Bool
  pub note : Option Text
  pub updated_at : Option Text
  pub session : Option Text
  pub frame_url : Option Text
  pub role : Option Text
  pub details : Option (Details F)

-- A text that is sent unless it is empty.
abbrev pub if_any : Text → Option Text
if_any t = if is_empty t then none else some t

unfoldable pub details_of : {F : Type 0} → Annotation F → Details F
details_of it = record {
  selectors = it.element.selectors;
  selector_kind = it.element.selector_kind;
  attrs = it.element.attrs;
  ancestors = it.element.ancestors;
  shadow = it.element.shadow;
  rect = it.element.rect;
  page = it.element.page;
  viewport = it.viewport;
  url_key = it.url_key;
  top_frame = it.top_frame;
}

unfoldable pub to_wire : {F : Type 0} → Bool → Annotation F → Wire F
unfolding details_of
to_wire verbose it = record {
  id = it.id;
  seq = it.seq;
  status = it.status;
  comment = it.comment;
  created_at = it.created_at;
  url = it.url;
  title = it.title;
  tab_id = it.tab_id;
  tag = it.element.tag;
  name = it.element.name;
  text = it.element.text;
  selector = it.element.selector;
  unique = it.element.unique;
  has_screenshot = it.has_screenshot;
  note = if_any it.note;
  updated_at = if text_eq it.status (lit "resolved") then some it.updated_at else none;
  session = elim it.session [ none ↦ none | some s ↦ if_any s ];
  frame_url = if it.top_frame then none else if_any it.frame_url;
  role = if_any it.element.role;
  details = if verbose then some (details_of it) else none;
}
