-- ===== src/Annotations/Record.antt =====
-- The stored annotation record and the raw submission it is made from
-- (open-webbridge-extension/src/annotations/model.js).
--
-- A number that a page reports (a coordinate) is a value of a type `F` with the operations of
-- `Float`, which stand for those of JavaScript's numbers. `none` in a raw field is null or
-- undefined. The fields of an object come in the order of `Object.keys`.
use open_webbridge.Base.{ℕ, Text, Bool, Option, List, Table}

-- JavaScript's numbers, as far as `num` uses them.
pub record Float (F : Type 0) : Type 0 where
  pub is_finite : F → Bool
  pub times_hundred : F → F
  pub round : F → F
  pub over_hundred : F → F
  pub nought : F

module _ (F : Type 0) where
  pub record Rect : Type 0 where
    pub x : F
    pub y : F
    pub w : F
    pub h : F

  pub record Viewport : Type 0 where
    pub w : F
    pub h : F
    pub dpr : F

pub record Selectors : Type 0 where
  pub css : Text
  pub xpath : Text
  pub testid : Text
  pub aria : Text
  pub text : Text

pub record Element (F : Type 0) : Type 0 where
  pub tag : Text
  pub role : Text
  pub name : Text
  pub text : Text
  pub selector : Text
  pub selector_kind : Text
  pub unique : Bool
  pub shadow : Bool
  pub selectors : Selectors
  pub attrs : Table Text Text
  pub ancestors : List Text
  pub rect : Option (Rect F)
  pub page : Option (Rect F)

pub record Annotation (F : Type 0) : Type 0 where
  pub id : Text
  pub seq : ℕ
  pub created_at : Text
  pub updated_at : Text
  pub status : Text
  pub comment : Text
  pub note : Text
  pub url : Text
  pub url_key : Text
  pub title : Text
  pub tab_id : Option ℕ
  pub session : Option Text
  pub frame_url : Text
  pub top_frame : Bool
  pub element : Element F
  pub viewport : Option (Viewport F)
  pub has_screenshot : Bool

-- What the annotator in the page sends; nothing of it is trusted.
pub record RawSelectors : Type 0 where
  pub css : Option Text
  pub xpath : Option Text
  pub testid : Option Text
  pub aria : Option Text
  pub text : Option Text

pub record RawElement (F : Type 0) : Type 0 where
  pub tag : Option Text
  pub role : Option Text
  pub name : Option Text
  pub text : Option Text
  pub selector : Option Text
  pub selector_kind : Option Text
  pub unique : Bool
  pub shadow : Bool
  pub selectors : RawSelectors
  pub attrs : Table Text (Option Text)
  pub ancestors : List (Option Text)
  pub rect : Option (Rect F)
  pub page : Option (Rect F)

pub record RawInput (F : Type 0) : Type 0 where
  pub comment : Option Text
  pub url : Option Text
  pub title : Option Text
  pub frame_url : Option Text
  pub top_frame : Bool
  pub element : RawElement F
  pub viewport : Option (Viewport F)

-- What `filterAnnotations` is asked for. An empty status, list of ids or address asks for nothing;
-- so does a number that is missing or not finite, a negative `since` and a limit that is not
-- positive.
pub record Filter : Type 0 where
  pub status : Text
  pub ids : List Text
  pub url : Text
  pub tab_id : Option ℕ
  pub since : Option ℕ
  pub limit : Option ℕ

abbrev pub no_filter : Filter
no_filter = record {
  status = List.[];
  ids = List.[];
  url = List.[];
  tab_id = Option.none;
  since = Option.none;
  limit = Option.none;
}
