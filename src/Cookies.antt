-- ===== src/Cookies.antt =====
-- open-webbridge-extension/src/tools/cookies.js: which cookies are exported, and how.
--
-- The cookies come from the debugger. `by_locale` stands for the sort by domain and name with
-- `localeCompare` of the platform.
use open_webbridge.Base.{
  ℕ, Text, lit, text_eq, to_lower, starts_with, ends_with, drop, is_empty, filter, map, length,
  Bool, true, false, ◌||◌, Option, none, some, List, [], ◌∷◌, ◌++◌, Result, ok, err, if◌then◌else◌,
}

-- `expires` in whole seconds, `none` where it is no number or not positive.
pub record RawCookie : Type 0 where
  pub name : Text
  pub value : Text
  pub domain : Text
  pub path : Text
  pub expires : Option ℕ
  pub http_only : Bool
  pub secure : Bool
  pub same_site : Option Text

pub record Cookie : Type 0 where
  pub name : Text
  pub value : Text
  pub domain : Text
  pub path : Text
  pub expires : Option ℕ
  pub session : Bool
  pub http_only : Bool
  pub secure : Bool
  pub same_site : Option Text

pub record Export : Type 0 where
  pub count : ℕ
  pub cookies : List Cookie
  pub header : Text

-- The lowercased domain without its leading dot.
unfoldable pub bare : Text → Text
bare d = let l = to_lower d in if starts_with l (lit ".") then drop 1 l else l

unfoldable pub matches_domain : Text → Text → Bool
unfolding bare
matches_domain cookie_domain want =
    text_eq (bare cookie_domain) (bare want)
    || ends_with (bare cookie_domain) (lit "." ++ bare want)

unfoldable pub shape : RawCookie → Cookie
shape c = record {
  name = c.name;
  value = c.value;
  domain = c.domain;
  path = c.path;
  expires = c.expires;
  session = elim c.expires [ none ↦ true | some _ ↦ false ];
  http_only = c.http_only;
  secure = c.secure;
  same_site = c.same_site;
}

unfoldable pub header_of : List Cookie → Text
header_of [] = []
header_of (c ∷ cs) =
    let rest = header_of cs in
    c.name ++ lit "=" ++ c.value ++ (elim cs [ [] ↦ [] | _ ∷ _ ↦ lit "; " ++ rest ])

-- The command and the answer of the call of the debugger that it makes, `all_cookies` or the
-- cookies of the page; another command is refused.
unfoldable pub listed : Text → List RawCookie → List RawCookie → Result Text (List RawCookie)
listed cmd all_cookies page_cookies =
    if text_eq cmd (lit "all")
    then ok all_cookies
    else if text_eq cmd (lit "get") || is_empty cmd
    then ok page_cookies
    else err (lit "unknown cookies cmd: " ++ cmd ++ lit " (use get|all)")

unfoldable pub export_cookies : (List RawCookie → List RawCookie) → Text → List RawCookie → Export
unfolding matches_domain shape header_of
export_cookies by_locale domain list =
    let chosen =
      if is_empty domain then list else filter (λ c. matches_domain c.domain domain) list in
    let out = map shape (by_locale chosen) in
    record { count = length out; cookies = out; header = header_of out }
