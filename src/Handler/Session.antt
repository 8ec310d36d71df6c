-- ===== src/Handler/Session.antt =====
-- The session filter of cheshire/filters.go. The cache is an interface of the program, whose
-- implementations stand on other packages; `C` is its state. A random session id is a parameter.
pub mod Persistence
pub mod Tests
use goshire.Base.{ℕ, ltb, Bool, true, false, not, List, [], ◌∷◌, Option, none, some, if◌then◌else◌}
use goshire.Text.{Str, codes, str_eq}
use goshire.DynMap.Fields.{Value, bool, str, Fields, end, put, size}
use goshire.DynMap.Getters.{get_string, must_bool}
use goshire.Bin.{JsonCodec}

-- Cache: Get, Set with its expiry in seconds, and Delete.
pub record Cache (C : Type 0) : Type 0 where
  pub get : C → Str → Option Str
  pub set : C → Str → Str → ℕ → C
  pub delete : C → Str → C

-- The http.Cookie under "session_id".
pub record Cookie : Type 0 where
  pub value : Str
  pub max_age : ℕ

-- What `Before` sees of a transaction: its type, whether ToHttpWriter finds an HTTP writer, and the
-- session cookie of the request.
pub record Visit : Type 0 where
  pub type : Str
  pub has_http_writer : Bool
  pub cookie : Option Str

module _ (json : JsonCodec) {C : Type 0} (cache : Cache C) where
  -- UnmarshalJSON into the session; an error is logged.
  abbrev loaded : Option Fields → Fields → Fields
  loaded none session = session
  loaded (some m) session = m

  abbrev resumed : Str → Str → Option Str → Fields → Fields
  resumed id new_id none session = put (codes "session_id") (str new_id) session
  resumed id new_id (some bytes) session =
      put (codes "session_id") (str id) (loaded (json.unmarshal session bytes) session)

  abbrev opened : C → Str → Option Str → Fields → Fields
  opened c new_id none session = put (codes "session_id") (str new_id) session
  opened c new_id (some id) session = resumed id new_id (cache.get c id) session

  -- Before: the session afterwards. It always lets the request pass.
  unfoldable pub before : C → Str → Visit → Fields → Fields
  before c new_id visit session =
      if not (str_eq visit.type (codes "html"))
      then session
      else if not visit.has_http_writer
      then session
      else opened c new_id visit.cookie session

  -- The bytes of MarshalJSON; after an error, which is logged, there are none.
  abbrev bytes_of : Option Str → Str
  bytes_of none = []
  bytes_of (some b) = b

  -- BeforeHtmlWrite: the session, the cache and the cookie that is set. `sprint` is as in DynMap/Cast.
  unfoldable pub before_html_write : (Value → Str) → ℕ → C → Fields → Fields × C × Option Cookie
  before_html_write sprint age c session =
      let (id, found) = get_string sprint session (codes "session_id") in
      let marked = put (codes "_persisted") (bool true) session in
      if not found
      then (session, c, none)
      else if must_bool session (codes "delete_session") false
      then (session, cache.delete c id, some (record { value = id; max_age = 0 }))
      else if ltb 1 (size session)
      then (
        marked,
        cache.set c id (bytes_of (json.marshal marked)) age,
        some (record { value = id; max_age = age }),
      )
      else (session, c, none)
