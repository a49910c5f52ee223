-- ===== src/Tools/Downloads.antt =====
-- open-webbridge-extension/src/tools/downloads.js: downloads through `chrome.downloads`, which is
-- outside: `DownloadApi W`, whose calls answer or reject with a message.
use open_webbridge.Base.{
  ℕ, Text, lit, text_eq, is_empty, ◌==◌, Bool, Option, none, some, List, Result, ok, err,
  if◌then◌else◌,
}

pub record Item : Type 0 where
  pub id : ℕ
  pub url : Text
  pub filename : Text
  pub state : Text
  pub bytes_received : ℕ
  pub total_bytes : ℕ
  pub exists : Bool

-- The options of `chrome.downloads.download`.
pub record Options : Type 0 where
  pub url : Text
  pub filename : Option Text
  pub save_as : Option Bool

pub record DownloadApi (W : Type 0) : Type 0 where
  pub download : W → Options → Result Text ℕ × W
  -- The newest first, at most so many.
  pub search : W → ℕ → Result Text (List Item) × W
  pub cancel : W → ℕ → Result Text (Unit {0}) × W

pub data DownloadError : Type 0 where
  no_url no_id : DownloadError
  unknown_cmd rejected : Text → DownloadError

pub data DownloadAnswer : Type 0 where
  started : ℕ → DownloadAnswer
  items : List Item → DownloadAnswer
  cancelled : DownloadAnswer

pub record DownloadArgs : Type 0 where
  pub cmd : Text
  pub url : Text
  pub filename : Text
  pub save_as : Option Bool
  pub limit : Option ℕ
  pub id : Option ℕ

abbrev pub answered :
    {W A : Type 0}
    → (A → DownloadAnswer)
    → Result Text A × W
    → Result DownloadError DownloadAnswer × W
answered f (ok a, w) = (ok (f a), w)
answered f (err why, w) = (err (rejected why), w)

abbrev pub limit_of : Option ℕ → ℕ
limit_of none = 20
limit_of (some n) = if n == 0 then 20 else n

abbrev pub options_of : DownloadArgs → Options
options_of a = record {
  url = a.url;
  filename = if is_empty a.filename then none else some a.filename;
  save_as = a.save_as;
}

unfoldable pub download :
    {W : Type 0} → DownloadApi W → DownloadArgs → W → Result DownloadError DownloadAnswer × W
download api a w =
    let cmd = if is_empty a.cmd then lit "list" else a.cmd in
    if text_eq cmd (lit "start")
    then (if is_empty a.url
        then (err no_url, w)
        else answered started (api.download w (options_of a)))
    else if text_eq cmd (lit "list")
    then answered items (api.search w (limit_of a.limit))
    else if text_eq cmd (lit "cancel")
    then elim a.id [ none ↦ (err no_id, w) | some id ↦ answered (λ _. cancelled) (api.cancel w id) ]
    else (err (unknown_cmd cmd), w)
