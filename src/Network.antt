-- ===== src/Network.antt =====
-- open-webbridge-extension/src/tools/network.js: the capture of network activity per tab.
pub mod Buffer
mod Examples
use open_webbridge.Base.{
  ℕ, ◌+◌, ◌-◌, Text, to_lower, text_eq, text_keys, number_keys, is_empty, includes, length, drop,
  take, filter, find, take_last, contains, add, delete, lookup, insert, Table, ltb, Bool, true,
  false, Option, none, some, or_else, List, [], ◌∷◌, ◌++◌, Result, ok, err, if◌then◌else◌,
}

abbrev pub max_entries : ℕ
max_entries = 500

pub record Entry : Type 0 where
  pub request_id : Text
  pub url : Text
  pub method : Text
  pub kind : Option Text
  pub status : Option ℕ
  pub mime_type : Option Text

-- `buffers` and `capturing`, by tab.
pub record Capture : Type 0 where
  pub buffers : Table ℕ (List Entry)
  pub capturing : List ℕ

-- The debugger events that are looked at, and any other.
pub data NetEvent : Type 0 where
  request_will_be_sent : (request_id url method : Text) → Option Text → NetEvent
  response_received : (request_id : Text) → ℕ → Text → NetEvent
  other_event : NetEvent

-- The first entry of a request gets the status and the type of the response.
unfoldable pub complete : Text → ℕ → Text → List Entry → List Entry
complete id status mime [] = []
complete id status mime (e ∷ rest) =
    let later = complete id status mime rest in
    if text_eq e.request_id id
    then record e { status = some status; mime_type = some mime } ∷ rest
    else e ∷ later

unfoldable pub record_event : NetEvent → List Entry → List Entry
unfolding complete
record_event (request_will_be_sent id url method kind) buf =
    buf
    ++ record {
      request_id = id;
      url = url;
      method = method;
      kind = kind;
      status = none;
      mime_type = none;
    }
      ∷ []
record_event (response_received id status mime) buf = complete id status mime buf
record_event other_event buf = buf

-- `buf.splice(0, buf.length - MAX_ENTRIES)` where the buffer is longer.
unfoldable pub cut : List Entry → List Entry
cut buf = if ltb max_entries (length buf) then drop (length buf - max_entries) buf else buf

-- The listener; `none` is an event with no tab.
unfoldable pub on_event : Option ℕ → NetEvent → Capture → Capture
unfolding record_event cut
on_event none e c = c
on_event (some tab) e c =
    if contains tab c.capturing
    then record c {
      buffers = insert tab (cut (record_event e (or_else (lookup tab c.buffers) []))) c.buffers;
    }
    else c

unfoldable pub start_capture : ℕ → Capture → Capture
start_capture tab c = record { buffers = insert tab [] c.buffers; capturing = add tab c.capturing }

unfoldable pub stop_capture : ℕ → Capture → Capture
stop_capture tab c = record c { capturing = delete tab c.capturing }

-- What `list` answers.
pub record Listing : Type 0 where
  pub count : ℕ
  pub requests : List Entry

-- An empty filter filters nothing.
unfoldable pub list_requests : Text → ℕ → Capture → Listing
list_requests wanted tab c =
    let all = or_else (lookup tab c.buffers) [] in
    let buf =
      if is_empty wanted
      then all
      else filter (λ e. includes (to_lower e.url) (to_lower wanted)) all in
    record { count = length buf; requests = take_last 200 buf }

-- The entry that `detail` adds to the body of a response.
unfoldable pub detail_meta : Text → ℕ → Capture → Option Entry
detail_meta id tab c = find (λ e. text_eq e.request_id id) (or_else (lookup tab c.buffers) [])

-- The body that `detail` shows; `data` in base64 is left out and a long body is cut.
unfoldable pub shown_body : Bool → Text → Text → Text → Text
shown_body base64 omitted ellipsis body =
    if base64
    then omitted
    else if ltb 20000 (length body)
    then take 20000 body ++ ellipsis
    else body
