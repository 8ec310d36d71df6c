-- ===== src/JsonStream.antt =====
-- cheshire/jsonlistener.go, cheshire/websocketlistener.go and cheshire/protocols.go: the JSON protocol
-- and the connections that speak it. The json.Decoder of a connection is what it reads: maps, one after
-- the other, and then its end, which is EOF or another error.
pub mod Laws
use goshire.Base.{
  leb, length, if◌then◌else◌, ◌⊎◌, Option, List, Bool, suc, zero, some, none, false, true, inr, inl,
  ◌∷◌, [], ℕ,
}
use goshire.Text.{Str}
use goshire.DynMap.Fields.{Value, Fields}
use goshire.Bin.{JsonCodec}
use goshire.Strest.{Request, Response}
use goshire.Strest.Convert.{new_request_dyn_map, new_response_dyn_map}
use goshire.Strest.Json.{marshal_request, marshal_response}
use goshire.Router.{Router, Controller, match}

pub record Decoder : Type 0 where
  pub maps : List Fields
  pub at_eof : Bool

-- An error of Decode: io.EOF or another.
pub data DecodeError : Type 0 where
  eof other_error : DecodeError

abbrev ending : Bool → DecodeError
ending true = eof
ending false = other_error

-- dec.Decode into a new map: the map and the decoder after it, or the error.
unfoldable pub decode : Decoder → (Fields × Decoder) ⊎ DecodeError
decode d = elim d.maps [ [] ↦ inr (ending d.at_eof) | m ∷ ms ↦ inl (m, record d { maps = ms }) ]

module _ (sprint : Value → Str) where
  -- DecodeRequest and DecodeResponse of a JSONDecoder.
  unfoldable pub decode_json_request : Decoder → (Request × Decoder) ⊎ DecodeError
  decode_json_request d = elim (decode d) [
    | inl (m, d') ↦ inl (new_request_dyn_map sprint m, d')
    | inr e ↦ inr e
  ]

  unfoldable pub decode_json_response : Decoder → (Response × Decoder) ⊎ DecodeError
  decode_json_response d = elim (decode d) [
    | inl (m, d') ↦ inl (new_response_dyn_map sprint m, d')
    | inr e ↦ inr e
  ]

  -- The loop of handleJSONConnection, and of HandleWCConnection: the requests that it hands to
  -- HandleRequest, each with its controller, and the error that ends it; `none` where the rounds are
  -- used up.
  unfoldable pub serve_json :
      Router → ℕ → Decoder → List (Request × Controller) × Option DecodeError
  serve_json router zero d = ([], none)
  serve_json router (suc n) d = elim (decode_json_request d) [
    | inl (r, d') ↦
        let rest = serve_json router n d' in ((r, match router r.method r.uri) ∷ rest.0, rest.1)
    | inr e ↦ ([], some e)
  ]

  -- handleJSONConnection: as many rounds as there are maps and one more.
  unfoldable pub handle_json_connection :
      Router → Decoder → List (Request × Controller) × Option DecodeError
  handle_json_connection router d = serve_json router (suc (length d.maps)) d

  -- HandleWCConnection, of a websocket: the same loop over a decoder of its own.
  unfoldable pub handle_wc_connection :
      Router → Decoder → List (Request × Controller) × Option DecodeError
  handle_wc_connection router d = serve_json router (suc (length d.maps)) d

-- An error of the JSON protocol's writers.
pub data JsonWriteError : Type 0 where
  marshal_error write_error : JsonWriteError

-- What the peer gets and how many bytes are counted, or an error. The writer takes `room` bytes.
abbrev written : ℕ → Option Str → (ℕ × Str) ⊎ JsonWriteError
written room none = inr marshal_error
written room (some b) = if leb (length b) room then inl (length b, b) else inr write_error

-- WriteResponse and WriteRequest of JSONProtocol.
unfoldable pub write_json_response : JsonCodec → ℕ → Response → (ℕ × Str) ⊎ JsonWriteError
write_json_response json room r = written room (marshal_response json r)

unfoldable pub write_json_request : JsonCodec → ℕ → Request → ((ℕ × Str) ⊎ JsonWriteError) × Request
write_json_request json room r = let (b, r') = marshal_request json r in (written room b, r')
