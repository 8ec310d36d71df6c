-- ===== src/Strest/Json.antt =====
-- MarshalJSON of the packets, and their setters, in cheshire/strestpackets.go. The JSON of a map is that
-- of the interface JsonCodec.
use goshire.Base.{
  drop, ◌==◌, ◌++◌, if◌then◌else◌, Option, Bool, some, none, ◌∷◌, [], ℤ, pos, negsuc,
}
use goshire.Text.{str_eq, Str, codes}
use goshire.DynMap.Fields.{int, str, Fields, size}
use goshire.DynMap.Path.{put_if_absent}
use goshire.DynMap.Number.{decimal}
use goshire.Bin.{JsonCodec}
use goshire.Strest.{Request, Response, ShardRequest, content_is_set}
use goshire.Strest.Quote.{json_encode_string}

-- SetContent of a request and of a response.
abbrev pub set_request_content : Str → Str → Request → Request
set_request_content encoding content r = record r { content_encoding = encoding; content = content }

abbrev pub set_response_content : Str → Str → Response → Response
set_response_content encoding content r = record r {
  content_encoding = encoding;
  content = content;
}

-- ContentEncoding and Content of either packet, from its encoding and its content.
abbrev pub content_encoding_of : Str → Str × Bool
content_encoding_of encoding = (encoding, content_is_set encoding)

abbrev pub content_of : Str → Str → Str × Bool
content_of encoding content = (content, content_is_set encoding)

-- SetStatus.
abbrev pub set_status : ℤ → Str → Response → Response
set_status code message r = record r { status_code = code; status_message = message }

-- SetTxnAcceptMulti and SetTxnAcceptSingle.
abbrev pub set_txn_accept_multi : Request → Request
set_txn_accept_multi r = record r { txn_accept = codes "multi" }

abbrev pub set_txn_accept_single : Request → Request
set_txn_accept_single r = record r { txn_accept = codes "single" }

-- SetTxnComplete, TxnComplete, SetTxnContinue and TxnContinue.
abbrev pub set_txn_complete : Response → Response
set_txn_complete r = record r { txn_status = codes "completed" }

abbrev pub txn_complete : Response → Bool
txn_complete r = str_eq r.txn_status (codes "completed")

abbrev pub set_txn_continue : Response → Response
set_txn_continue r = record r { txn_status = codes "continue" }

abbrev pub txn_continue : Response → Bool
txn_continue r = str_eq r.txn_status (codes "continue")

abbrev pub put_partition : ℤ → Fields → Fields
put_partition (pos n) m = (put_if_absent m (codes "_p") (int (pos n))).0
put_partition (negsuc n) m = m

abbrev pub put_key : Str → Fields → Fields
put_key [] m = m
put_key (c ∷ k) m = (put_if_absent m (codes "_k") (str (c ∷ k))).0

-- The parameters after Request.MarshalJSON, which puts the shard request into them.
unfoldable pub with_shard : Option ShardRequest → Fields → Fields
with_shard none m = m
with_shard (some s) m =
    (put_if_absent (put_key s.key (put_partition s.partition m)) (codes "_v") (int s.revision)).0

-- strest.v as %f prints it.
abbrev version_text : Str
version_text = codes "2.000000"

abbrev request_json : Request → Option Str → Option Str → Option Str
request_json r none agent = none
request_json r (some params) none = none
request_json r (some params) (some agent) = some (
    codes "{ \"strest\" : {\"v\" : "
    ++ version_text
    ++ codes ", \"user-agent\":"
    ++ agent
    ++ codes ", \"txn\":{\"id\":\""
    ++ r.txn_id
    ++ codes "\",\"accept\":\""
    ++ r.txn_accept
    ++ codes "\"},\"uri\":\""
    ++ r.uri
    ++ codes "\",\"method\" : \""
    ++ r.method
    ++ codes "\", \"params\" : "
    ++ params
    ++ codes "}}")

-- Request.MarshalJSON: the text, or `none` for an error, and the request afterwards. The txn id, the
-- uri and the method are not quoted.
unfoldable pub marshal_request : JsonCodec → Request → Option Str × Request
marshal_request json r =
    let r' = record r { params = with_shard r.shard r.params } in
    (request_json r' (json.marshal r'.params) (json_encode_string r'.user_agent), r')

abbrev comma : Fields → Str
comma values = if size values == 0 then [] else codes ","

abbrev response_json : Response → Option Str → Option Str → Option Str
response_json r none message = none
response_json r (some values) none = none
response_json r (some values) (some message) = some (
    codes "{ \"status\": {\"code\": "
    ++ decimal r.status_code
    ++ codes ", \"message\" : "
    ++ message
    ++ codes " }, \"strest\" : {\"txn\":{\"id\":\""
    ++ r.txn_id
    ++ codes "\",\"status\":\""
    ++ r.txn_status
    ++ codes "\"},\"v\":"
    ++ version_text
    ++ codes "}"
    ++ comma r.values
    ++ codes " "
    ++ drop 1 values)

-- Response.MarshalJSON. The JSON of its map is not empty, and its first byte is dropped.
unfoldable pub marshal_response : JsonCodec → Response → Option Str
marshal_response json r =
    response_json r (json.marshal r.values) (json_encode_string r.status_message)
