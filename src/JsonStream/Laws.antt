-- ===== src/JsonStream/Laws.antt =====
-- What a JSON connection hands over.
use goshire.JsonStream.{
  handle_wc_connection, ending, Decoder, serve_json, handle_json_connection, decode_json_request,
  decode,
}
use goshire.Base.{◌<◌, ℕ, arith, length, Bool, ◌≡◌, List, suc, zero, some, refl, ◌∷◌, []}
use goshire.DynMap.Fields.{Fields, Value}
use goshire.Text.{Str}
use goshire.Router.{match, Controller, Router}
use goshire.Strest.{Request}
use goshire.Strest.Convert.{new_request_dyn_map}

module _ (sprint : Value → Str) (router : Router) where
  -- The requests of the maps, each with its controller.
  abbrev pub handed_over : List Fields → List (Request × Controller)
  handed_over [] = []
  handed_over (m ∷ ms) =
      let r = new_request_dyn_map sprint m in (r, match router r.method r.uri) ∷ handed_over ms

  serve_maps :
      (ms : List Fields) (eof : Bool) (n : ℕ)
      → length ms < n
      → serve_json sprint router n (record { maps = ms; at_eof = eof })
        ≡ (handed_over ms, some (ending eof))
  unfolding serve_json decode_json_request decode
  serve_maps ms eof zero h = absurd (omega arith)
  serve_maps [] eof (suc n) h = refl
  serve_maps (m ∷ ms) eof (suc n) h = let rest = serve_maps ms eof n (omega arith) in cc rest

  -- Over JSON, on a socket or a websocket, the connection hands over a request for each map that the
  -- peer sends, in the order in which they come, each with the controller that the router has for its
  -- method and uri; then it ends by itself, with EOF where the peer has closed and with an error where
  -- it has sent something else.
  handle_json_connection_lem :
      (d : Decoder)
      → (handle_json_connection sprint router d ≡ (handed_over d.maps, some (ending d.at_eof)))
        × (handle_wc_connection sprint router d ≡ (handed_over d.maps, some (ending d.at_eof)))
  unfolding handle_json_connection handle_wc_connection
  handle_json_connection_lem d =
      let all = serve_maps d.maps d.at_eof (suc (length d.maps)) (omega arith) in (all, all)
