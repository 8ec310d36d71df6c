-- ===== src/Bin/Encode.antt =====
-- BinProtocol of cheshire/protocol_bin.go. The results of the writers are the content length.
use goshire.Base.{[], Option, none, some, ℤ, pos, length, ltb_ℤ, to_word, of_word, if◌then◌else◌}
use goshire.Text.{Str, codes}
use goshire.Outcome.{Error, bad_json, bad_txn_status, bad_txn_accept, bad_method}
use goshire.DynMap.Fields.{float, str, Fields}
use goshire.DynMap.Path.{put_if_absent}
use goshire.Strest.{ShardRequest, Request, Response, content_is_set}
use goshire.Wire.Bytes.{half}
use goshire.Wire.Writer.{
  Encode, pure, fail, ◌>>=◌, ◌>>◌, ignore, write, write_int, write_byte_array32, write_string,
}
use goshire.Bin.{JsonCodec, binconst}

-- `if !ok { return 0, fmt.Errorf(…) }`.
abbrev pub require {ℓ} : {A : Type ℓ} → Option A → Error → Encode A
require none e = fail e
require (some a) e = pure a

-- int32(len(xs)).
abbrev pub int32_length : Str → ℤ
int32_length xs = of_word (half 4) (to_word (half 4) (pos (length xs)))

-- A read of a map: 0 for a key that is not there.
abbrev or_zero : Option ℤ → ℤ
or_zero (some a) = a
or_zero none = pos 0

-- BINCONST.ContentEncoding["bytes"] and BINCONST.ParamEncoding["json"].
abbrev pub bytes_code : ℤ
bytes_code = or_zero (binconst.content_encoding (codes "bytes"))

abbrev pub json_code : ℤ
json_code = or_zero (binconst.param_encoding (codes "json"))

abbrev or_bytes : Option ℤ → ℤ
or_bytes (some a) = a
or_bytes none = bytes_code

-- The code of a content encoding; one that is not known is logged and sent as "bytes".
abbrev pub content_code : Str → ℤ
content_code encoding = or_bytes (binconst.content_encoding encoding)

-- WriteShardRequest: nothing is written for a nil shard request.
unfoldable pub write_shard_request : Option ShardRequest → Encode (Unit {0})
write_shard_request none = pure tt
write_shard_request (some s) = do
  write_int 2 s.partition
  write_string s.key
  write_int 8 s.revision
  pure tt

-- The content of a packet with a content encoding, and of one without.
unfoldable pub write_bytes_content : Str → Encode (Unit {0})
write_bytes_content content = do
  ignore (write_int 4 (int32_length content))
  if ltb_ℤ (pos 0) (int32_length content) then ignore (write content) else pure tt

module _ (json : JsonCodec) where
  -- WriteHello. The two values are StrestVersion, a float32, and the text "golang".
  unfoldable pub write_hello : Fields → Encode (Unit {0})
  write_hello hello = do
    write_int 1 json_code
    let versioned = (put_if_absent hello (codes "v") (float (pos 2) (codes "2"))).0
    let named = (put_if_absent versioned (codes "useragent") (str (codes "golang"))).0
    b ← require (json.marshal named) bad_json
    write_string b
    pure tt

  -- WriteResponse: the errors of the writes of the content are dropped.
  unfoldable pub write_response : Response → Encode ℤ
  write_response r = do
    write_string r.txn_id
    txn_status ← require (binconst.txn_status r.txn_status) (bad_txn_status r.txn_status)
    write_int 1 txn_status
    write_int 2 r.status_code
    write_string r.status_message
    params ← require (json.marshal r.values) bad_json
    write_int 1 (pos 0)
    write_int 4 (int32_length params)
    write params
    let set = content_is_set r.content_encoding
    let content_encoding = if set then content_code r.content_encoding else bytes_code
    let content = if set then r.content else []
    ignore (write_int 1 content_encoding)
    write_bytes_content content
    pure (int32_length content)

  -- WriteRequest.
  unfoldable pub write_request : Request → Encode ℤ
  write_request r = do
    write_shard_request r.shard
    write_string r.txn_id
    txn_accept ← require (binconst.txn_accept r.txn_accept) (bad_txn_accept r.txn_accept)
    write_int 1 txn_accept
    method ← require (binconst.method r.method) (bad_method r.method)
    write_int 1 method
    write_string r.uri
    params ← require (json.marshal r.params) bad_json
    write_int 1 (pos 0)
    write_byte_array32 params
    if content_is_set r.content_encoding
        then (do
          ignore (write_int 1 (content_code r.content_encoding))
          write_byte_array32 r.content
          pure tt)
        else (do ignore (write_int 1 bytes_code); write_bytes_content r.content)
    pure (int32_length r.content)
