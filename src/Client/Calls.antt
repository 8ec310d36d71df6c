-- ===== src/Client/Calls.antt =====
-- client/client.go: Connect, Close and the synchronous calls of a JsonClient, and the HttpClient. A pool
-- is what NewPool returns, and `P` its state; the connections of a call are in Client/Api.
pub mod Laws
pub mod Tests
use goshire.Base.{
  ◌++◌, not, ◌⊎◌, if◌then◌else◌, Option, Bool, zero, some, none, false, true, inr, inl, ◌∷◌, [], ℕ,
}
use goshire.Text.{Str, codes, str_eq}
use goshire.Bin.{JsonCodec}
use goshire.DynMap.Fields.{Fields, end, Value}
use goshire.Strest.{Request, Response}
use goshire.Strest.Convert.{new_response_dyn_map}
use goshire.Http.{contains}
use goshire.Client.Api.{max_in_flight_per}

-- A JsonClient, but for its settings. `pool` is none where the pointer is nil.
pub record JsonClient (P : Type 0) : Type 0 where
  pub shutdown : Bool
  pub pool : Option P
  pub max_in_flight_per : ℕ

-- NewJson, and NewBin, which sets another protocol.
abbrev pub new_json : {P : Type 0} → JsonClient P
new_json = record { shutdown = true; pool = none; max_in_flight_per = 0 }

-- How a call ends: it returns, perhaps an error, or it panics.
pub data ConnectError : Type 0 where
  already_connected no_pool : ConnectError

pub data Ends (P : Type 0) : Type 0 where
  returned : Option ConnectError → JsonClient P → Ends P
  divide_by_zero nil_dereference : JsonClient P → Ends P

module _ {P : Type 0} where
  abbrev pub connected : JsonClient P → Option P → Ends P
  connected c none = returned (some no_pool) c
  connected c (some p) = returned none (record c { pool = some p })

  abbrev with_share : JsonClient P → Option P → Option ℕ → Ends P
  with_share c new_pool none = divide_by_zero c
  with_share c new_pool (some per) = connected (record c { max_in_flight_per = per }) new_pool

  -- Connect; `new_pool` is the result of NewPool, none for its error.
  unfoldable pub connect : ℕ → ℕ → Option P → JsonClient P → Ends P
  connect max_in_flight pool_size new_pool c =
      if not c.shutdown
      then returned (some already_connected) c
      else with_share (record c { shutdown = false }) new_pool
          (max_in_flight_per max_in_flight pool_size)

  abbrev closed_pool : (P → P) → JsonClient P → Option P → Ends P
  closed_pool close c none = nil_dereference c
  closed_pool close c (some p) = returned none (record c { pool = some (close p) })

  -- Close; `close` is the Close of the pool.
  unfoldable pub close_client : (P → P) → JsonClient P → Ends P
  close_client close c =
      if c.shutdown
      then returned none c
      else closed_pool close (record c { shutdown = true }) c.pool

-- What the select of doApiCallSync receives first.
pub data Event (E : Type 0) : Type 0 where
  response_came : Response → Event E
  error_came : E → Event E
  time_came : Event E

pub data SyncError (E : Type 0) : Type 0 where
  of_call : E → SyncError E
  of_channel : E → SyncError E
  request_timeout : SyncError E

module _ {E : Type 0} where
  abbrev selected : Event E → Response ⊎ SyncError E
  selected (response_came r) = inl r
  selected (error_came e) = inr (of_channel e)
  selected time_came = inr request_timeout

  -- doApiCallSync; `called` is the error of doApiCall.
  unfoldable pub do_api_call_sync : Option E → Event E → Response ⊎ SyncError E
  do_api_call_sync (some e) event = inr (of_call e)
  do_api_call_sync none event = selected event

  -- ApiCallSync: the request that is sent, and the result.
  unfoldable pub api_call_sync :
      (Request → Option E × Event E) → Request → Request × (Response ⊎ SyncError E)
  api_call_sync send r =
      let single = record r { txn_accept = codes "single" } in
      (single, do_api_call_sync (send single).0 (send single).1)

-- strings.TrimLeft with a set of bytes.
unfoldable pub trim_left_set : Str → Str → Str
trim_left_set cutset [] = []
trim_left_set cutset (c ∷ s) =
    let rest = trim_left_set cutset s in if contains (c ∷ []) cutset then rest else c ∷ s

-- NewHttp: the address.
unfoldable pub new_http : Str → Str
new_http address = trim_left_set (codes "http://") address

-- The http.Request of a call: its method, URL and body; the content type is set where there is a body.
pub record HttpCall : Type 0 where
  pub method : Str
  pub url : Str
  pub body : Option Str

-- The errors of HttpClient.ApiCallSync.
pub data HttpError : Type 0 where
  bad_params bad_request no_answer bad_json : HttpError

pub data HttpResult : Type 0 where
  answered : Response → HttpResult
  refused : HttpError → HttpResult
  nil_request : HttpResult

abbrev joiner : Str → Str
joiner uri = if not (contains (codes "?") uri) then codes "?" else codes "&"

abbrev call_of : Str → Request → Option Str → Option Str → Option HttpCall
call_of address r url json =
    if str_eq r.method (codes "GET")
    then elim url [
      | none ↦ none
      | some pms ↦ some (record {
        method = r.method;
        url = codes "http://" ++ address ++ r.uri ++ joiner r.uri ++ pms;
        body = none;
      })
    ]
    else elim json [
      | none ↦ none
      | some b ↦
          some
            (record { method = r.method; url = codes "http://" ++ address ++ r.uri; body = some b })
    ]

-- The call of HttpClient.ApiCallSync. `marshal_url` is MarshalURL.
unfoldable pub http_call : JsonCodec → (Fields → Option Str) → Str → Request → Option HttpCall
http_call json marshal_url address r =
    call_of address r (marshal_url r.params) (json.marshal r.params)

abbrev answer_of : (Value → Str) → Option Fields → HttpResult
answer_of sprint none = refused bad_json
answer_of sprint (some m) = answered (new_response_dyn_map sprint m)

abbrev body_of : JsonCodec → (Value → Str) → Option Str → HttpResult
body_of json sprint none = refused no_answer
body_of json sprint (some body) = answer_of sprint (json.unmarshal end body)

-- HttpClient.ApiCallSync. `accepts` tells whether http.NewRequest makes a request of the call, and
-- `perform` is the body of the answer, none for an error. For a method other than GET the header is set
-- before the error of http.NewRequest is looked at.
unfoldable pub http_api_call_sync :
    JsonCodec
    → (Value → Str)
    → (Fields → Option Str)
    → (HttpCall → Bool)
    → (HttpCall → Option Str)
    → Str
    → Request
    → HttpResult
http_api_call_sync json sprint marshal_url accepts perform address r =
    elim (http_call json marshal_url address r) [
      | none ↦ refused bad_params
      | some call ↦
          if accepts call
          then body_of json sprint (perform call)
          else if str_eq r.method (codes "GET")
          then refused bad_request
          else nil_request
    ]
