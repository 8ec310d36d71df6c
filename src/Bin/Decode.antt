-- ===== src/Bin/Decode.antt =====
-- BinDecoder and ParseParams of cheshire/protocol_bin.go.
use goshire.Base.{[], zero, ◌∷◌, List, Option, none, some, get_elem?, ℤ, pos, negsuc}
use goshire.Text.{Str, codes}
use goshire.Outcome.{
  index_out_of_range, makeslice, bad_json, txn_status_too_large, param_encoding_too_large,
  content_encoding_too_large, txn_accept_too_large, method_too_large, unsupported_param_encoding,
}
use goshire.DynMap.Fields.{Fields, end}
use goshire.Strest.{ShardRequest, Request, Response, strest_version}
use goshire.Wire.Reader.{
  Decode, pure, fail, crash, ◌>>=◌, ◌>>◌, refuse_if, read_full, read_int, read_byte_array,
  read_byte_array32, read_string,
}
use goshire.Bin.{
  JsonCodec, txn_accepts, txn_statuses, methods, param_encodings, content_encodings, too_large,
}

abbrev pub or_crash : Option Str → Decode Str
or_crash none = crash index_out_of_range
or_crash (some s) = pure s

-- `names[int(code)]`.
unfoldable pub index : List Str → ℤ → Decode Str
index names (pos n) = or_crash (get_elem? names n)
index names (negsuc n) = crash index_out_of_range

-- `make([]byte, length)` and `io.ReadAtLeast` into it: `make` panics where the length is negative.
unfoldable pub read_make : ℤ → Decode Str
read_make (pos n) = read_full n
read_make (negsuc n) = crash makeslice

-- DecodeShardRequest.
unfoldable pub decode_shard_request : Decode ShardRequest
decode_shard_request = do
  partition ← read_int 2
  key ← read_string
  revision ← read_int 8
  pure (record { partition = partition; key = key; revision = revision })

module _ (json : JsonCodec) where
  abbrev pub or_bad_json : Option Fields → Decode Fields
  or_bad_json none = fail bad_json
  or_bad_json (some m) = pure m

  unfoldable pub parse_params : ℤ → Str → Decode Fields
  parse_params encoding [] = pure end
  parse_params (pos zero) (b ∷ bytes) = or_bad_json (json.unmarshal end (b ∷ bytes))
  parse_params encoding (b ∷ bytes) = fail (unsupported_param_encoding encoding)

  -- DecodeHello.
  unfoldable pub decode_hello : Decode Fields
  decode_hello = do
    encoding ← read_int 1
    hello ← read_byte_array
    or_bad_json (json.unmarshal end hello)

  -- DecodeResponse.
  unfoldable pub decode_response : Decode Response
  decode_response = do
    txn_id ← read_string
    txn_status ← read_int 1
    refuse_if (too_large txn_statuses txn_status) (txn_status_too_large txn_status)
    status_code ← read_int 2
    status_message ← read_string
    param_encoding ← read_int 1
    refuse_if (too_large param_encodings param_encoding) (param_encoding_too_large param_encoding)
    params_length ← read_int 4
    params_array ← read_make params_length
    params ← parse_params param_encoding params_array
    content_encoding ← read_int 1
    refuse_if (too_large content_encodings content_encoding)
        (content_encoding_too_large content_encoding)
    content_length ← read_int 4
    content ← read_make content_length
    status_name ← index txn_statuses txn_status
    encoding_name ← index content_encodings content_encoding
    pure (record {
      values = params;
      txn_id = txn_id;
      txn_status = status_name;
      status_code = status_code;
      status_message = status_message;
      content_encoding = encoding_name;
      content = content;
    })

  -- DecodeRequest.
  unfoldable pub decode_request : Decode Request
  decode_request = do
    shard ← decode_shard_request
    txn_id ← read_string
    txn_accept ← read_int 1
    refuse_if (too_large txn_accepts txn_accept) (txn_accept_too_large txn_accept)
    method ← read_int 1
    refuse_if (too_large methods method) (method_too_large method)
    uri ← read_string
    param_encoding ← read_int 1
    refuse_if (too_large param_encodings param_encoding) (param_encoding_too_large param_encoding)
    params_array ← read_byte_array32
    params ← parse_params param_encoding params_array
    content_encoding ← read_int 1
    refuse_if (too_large content_encodings content_encoding)
        (content_encoding_too_large content_encoding)
    content_length ← read_int 4
    content ← read_make content_length
    accept_name ← index txn_accepts txn_accept
    method_name ← index methods method
    encoding_name ← index content_encodings content_encoding
    pure (record {
      version = strest_version;
      user_agent = codes "binary";
      txn_id = txn_id;
      txn_accept = accept_name;
      uri = uri;
      method = method_name;
      params = params;
      content_encoding = encoding_name;
      content = content;
      shard = some shard;
    })
