-- ===== src/Http.antt =====
-- cheshire/httplistener.go: HTTP requests as strest requests, and the writer of their responses. The
-- parts of net/http that it uses are an HttpRequest and an Answer.
pub mod Laws
pub mod Forms
pub mod Tests
use goshire.Base.{
  suc, ◌-◌, ◌+◌, ◌++◌, ◌&&◌, length, leb, ◌||◌, ◌==◌, pos, not, ℕ, take, if◌then◌else◌, Option,
  List, Bool, some, none, false, true, ◌∷◌, [], ℤ, negsuc,
}
use goshire.Text.{Str, codes, str_eq}
use goshire.DynMap.Fields.{Fields, end}
use goshire.DynMap.Url.{Values, unmarshal_url_values}
use goshire.Bin.{JsonCodec}
use goshire.Strest.{Request, Response, new_request}
use goshire.Strest.Json.{marshal_response}
use goshire.Router.{Router, Controller, match}

-- What the listener reads of an http.Request: the path of its URL, its method, Header.Get, its Form
-- after ParseForm, and the bytes of its body that are left after it.
pub record HttpRequest : Type 0 where
  pub path : Str
  pub method : Str
  pub header : Str → Str
  pub form : Values
  pub body : Str

-- strings.HasPrefix and strings.Contains.
unfoldable pub has_prefix : Str → Str → Bool
has_prefix [] s = true
has_prefix (c ∷ p) [] = false
has_prefix (c ∷ p) (d ∷ s) = (c == d) && has_prefix p s

unfoldable pub contains : Str → Str → Bool
contains sub [] = has_prefix sub []
contains sub (c ∷ s) = has_prefix sub (c ∷ s) || contains sub s

-- maxFormSize + 1 of ReadHttpBody.
abbrev pub max_body : ℕ
max_body = 10485761

-- ReadHttpBody. An error of the body is logged by its caller.
unfoldable pub read_http_body : Str → Str
read_http_body body = take max_body body

-- UnmarshalJSON into the parameters; its error is dropped.
abbrev pub merged : Option Fields → Fields → Fields
merged none m = m
merged (some m') m = m'

abbrev or_single : Str → Str
or_single [] = codes "single"
or_single (c ∷ s) = c ∷ s

-- ToStrestRequest.
unfoldable pub to_strest_request : JsonCodec → HttpRequest → Request
to_strest_request json req =
    let params = unmarshal_url_values end req.form in
    record (new_request req.path req.method) {
      txn_id = req.header (codes "Strest-Txn-Id");
      txn_accept = or_single (req.header (codes "Strest-Txn-Accept"));
      params =
          if contains (codes "json") (req.header (codes "Content-Type"))
          then merged (json.unmarshal params (read_http_body req.body)) params
          else params;
    }

-- An http.ResponseWriter: the headers set so far, the status and the headers once they are sent, the
-- body, how many more bytes get through before the peer is gone, and whether it is an http.Flusher.
abbrev pub Headers : Type 0
Headers = List (Str × Str)

pub record Answer : Type 0 where
  pub headers : Headers
  pub sent : Option (ℤ × Headers)
  pub body : Str
  pub room : ℕ
  pub flushes : Bool

-- Header().Set.
unfoldable pub set_header : Str → Str → Headers → Headers
set_header k v [] = (k, v) ∷ []
set_header k v ((j, w) ∷ hs) = if str_eq j k then (j, v) ∷ hs else (j, w) ∷ set_header k v hs

abbrev pub with_header : Str → Str → Answer → Answer
with_header k v a = record a { headers = set_header k v a.headers }

abbrev sent_or : Option (ℤ × Headers) → ℤ × Headers → Option (ℤ × Headers)
sent_or none now = some now
sent_or (some before) now = some before

-- WriteHeader: it counts once.
unfoldable pub write_header : ℤ → Answer → Answer
write_header code a = record a { sent = sent_or a.sent (code, a.headers) }

-- A status that has a body: none of 1xx, 204 and 304 has.
abbrev pub has_body : ℤ → Bool
has_body (pos n) = not ((leb 100 n && leb n 199) || (n == 204) || (n == 304))
has_body (negsuc n) = true

abbrev pub allows_body : Option (ℤ × Headers) → Bool
allows_body none = true
allows_body (some (code, headers)) = has_body code

-- Write: it sends the status 200 where none was sent. False is an error, http.ErrBodyNotAllowed or one
-- of the connection, after which nothing of the bytes was written.
unfoldable pub write_body : Str → Answer → Answer × Bool
write_body bytes a =
    let b = write_header (pos 200) a in
    if (allows_body b.sent || (length bytes == 0)) && leb (length bytes) b.room
    then (record b { body = b.body ++ bytes; room = b.room - length bytes }, true)
    else (b, false)

-- An HttpWriter: its Answer, and whether headerWritten has run.
pub record HttpWriter : Type 0 where
  pub answer : Answer
  pub header_written : Bool

-- The errors of Write.
pub data WriteError : Type 0 where
  body_failed newline_failed wrong_type : WriteError

abbrev json_bytes : Option Str → Str
json_bytes none = []
json_bytes (some b) = b

-- The function of headerWritten.
abbrev header_once : ℤ → HttpWriter → Answer
header_once code w =
    if w.header_written
    then w.answer
    else write_header code (with_header (codes "Content-Type") (codes "application/json") w.answer)

-- Write of an HttpWriter: the count of bytes, the error, and the writer afterwards. An error of
-- MarshalJSON is logged and the newline is written alone.
unfoldable pub http_write : JsonCodec → Response → HttpWriter → ℕ × Option WriteError × HttpWriter
http_write json r w =
    let bytes = json_bytes (marshal_response json r) in
    let (a1, done1) = write_body bytes (header_once r.status_code w) in
    let (a2, done2) = write_body (10 ∷ []) a1 in
    if not done1
    then (0, some body_failed, record { answer = a1; header_written = true })
    else if not done2
    then (length bytes, some newline_failed, record { answer = a2; header_written = true })
    else (
      length bytes + 1,
      (if a2.flushes then none else some wrong_type),
      record { answer = a2; header_written = true },
    )

-- ServeHTTP: a controller that is an HttpHijacker takes the request as it is; any other is handled with
-- the request as ToStrestRequest makes it. `W` is the state of both.
unfoldable pub serve_http :
    {W : Type 0}
    → JsonCodec
    → Router
    → (Controller → Option (HttpRequest → W → W))
    → (Request → Controller → W → W)
    → HttpRequest
    → W
    → W
serve_http json router hijacker handle_request req w =
    let c = match router req.method req.path in
    elim (hijacker c) [
      | some hijack ↦ hijack req w
      | none ↦ handle_request (to_strest_request json req) c w
    ]
