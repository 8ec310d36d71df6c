-- ===== src/Bin/Tests.antt =====
-- The theorems about the binary protocol at a small request and a small response.
use goshire.Base.{
  ◌≢◌, ◌∷◌, ◌≤◌, length, ◌≡◌, ◌++◌, arith, none, some, pos, negsuc, refl, [], if◌then◌else◌, ◌==◌,
}
use goshire.Text.{codes, str_eq}
use goshire.DynMap.Fields.{end, size}
use goshire.Strest.{new_response, Response, Request, new_request}
use goshire.Bin.{JsonCodec, fill, code_table}
use goshire.Bin.Layout
use goshire.Bin.Response.{
  IsSendable, response_bytes, delivered, packet_bytes, decode_response-write_response,
}
use goshire.Router.{Router, new_default_router}
use goshire.Bin.Hello.{hello_bytes}
use goshire.Bin.Stream.{
  Queue, queue_bytes, handed_over, handle_connection, failed, out_of_fuel, connection_serves,
  connection_ends,
}
use goshire.Bin.RoundTrip.{fresh, decode_request-write_request}
use goshire.Bin.Faults.{negative_txn_status}
use goshire.Wire.Bytes.{to_bytes, encode_int}
use goshire.Bin.Decode.{decode_response, decode_request}
use goshire.Bin.Encode.{write_response, write_request}
use goshire.Outcome.{eof, index_out_of_range, panic, ok}

-- A codec that knows the empty object.
abbrev pub empty_codec : JsonCodec
empty_codec = record {
  marshal = λ m. if size m == 0 then some (codes "{}") else none;
  unmarshal = λ m s. if str_eq s (codes "{}") then some m else none;
}

abbrev pub ping : Request
ping = record (new_request (codes "/ping") (codes "GET")) {
  txn_id = codes "7";
  content_encoding = codes "json";
  content = codes "[1]";
}

pub ping-IsSendable : Layout.IsSendable empty_codec ping
unfolding fill code_table str_eq size
ping-IsSendable = record {
  shard = record { partition = negsuc 0; key = []; revision = pos 0 };
  has_shard = refl;
  partition_fits = omega arith;
  key_fits = omega arith;
  revision_fits = omega arith;
  txn_id_fits = omega arith;
  accept = 0;
  accept_known = refl;
  method = 0;
  method_known = refl;
  uri_fits = omega arith;
  body = codes "{}";
  marshalled = refl;
  body_nonempty = λ e. cc;
  body_fits = omega arith;
  params = end;
  parsed = refl;
  content_fits = omega arith;
}

abbrev pong : Response
pong = record new_response {
  txn_id = codes "7";
  txn_status = codes "continue";
  content_encoding = codes "string";
  content = codes "pong";
}

pong-IsSendable : IsSendable empty_codec pong
unfolding fill code_table str_eq size
pong-IsSendable = record {
  txn_id_fits = omega arith;
  status = 1;
  status_known = refl;
  code_fits = omega arith;
  message_fits = omega arith;
  body = codes "{}";
  marshalled = refl;
  body_nonempty = λ e. cc;
  body_fits = omega arith;
  values = end;
  parsed = refl;
  content_fits = omega arith;
}

length_of_ping : length (Layout.request_bytes ping ping-IsSendable) ≤ 100
unfolding to_bytes encode_int ping-IsSendable
length_of_ping = omega arith

length_of_pong : length (response_bytes pong pong-IsSendable) ≤ 100
unfolding to_bytes encode_int pong-IsSendable
length_of_pong = omega arith

decode_request-write_request_example :
    decode_request empty_codec ((write_request empty_codec ping (fresh 100)).1.out ++ codes "next")
    ≡ ok (Layout.delivered ping ping-IsSendable, codes "next")
decode_request-write_request_example =
    decode_request-write_request ping ping-IsSendable 100 (codes "next") length_of_ping

decode_response-write_response_example :
    ((write_response empty_codec pong (fresh 100)).0 ≡ ok (pos 4))
    × (decode_response empty_codec
          ((write_response empty_codec pong (fresh 100)).1.out ++ codes "next")
        ≡ ok (delivered pong pong-IsSendable, codes "next"))
decode_response-write_response_example =
    decode_response-write_response pong pong-IsSendable 100 (codes "next") length_of_pong

negative_txn_status_example :
    decode_response empty_codec (packet_bytes pong pong-IsSendable (negsuc 0) ++ codes "next")
    ≡ panic index_out_of_range
negative_txn_status_example =
    negative_txn_status pong pong-IsSendable 0 (codes "next") (omega arith, omega arith)

-- A codec that writes every map as the empty object.
abbrev forgetful_codec : JsonCodec
forgetful_codec = record { marshal = λ m. some (codes "{}"); unmarshal = λ m s. some m }

abbrev nobody : Router
nobody = new_default_router (record { id = 0; route = [] })

abbrev two_pings : Queue empty_codec
two_pings = (ping, ping-IsSendable) ∷ (ping, ping-IsSendable) ∷ []

connection_serves_example :
    handle_connection empty_codec nobody (hello_bytes (codes "{}") ++ queue_bytes two_pings)
    ≡ (handed_over nobody two_pings, failed eof)
unfolding str_eq
connection_serves_example = connection_serves nobody (codes "{}") end two_pings (omega arith) refl

connection_ends_example :
    (handle_connection empty_codec nobody (codes "not a hello")).1 ≢ out_of_fuel
connection_ends_example = connection_ends empty_codec nobody (codes "not a hello")
