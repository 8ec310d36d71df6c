-- ===== src/Bin/Layout.antt =====
-- The layout of protocol_binary.md, as bytes: what a request and a response look like on the wire,
-- and what of them the other side can know.
use goshire.Base.{
  ℕ, [], ◌++◌, ◌<◌, ◌≡◌, ◌≢◌, Option, none, some, ℤ, pos, length, Fits, if◌then◌else◌,
}
use goshire.Text.{Str, codes}
use goshire.DynMap.Fields.{Fields, end}
use goshire.Strest.{ShardRequest, Request, content_is_set, strest_version}
use goshire.Wire.Bytes.{half, encode_int, prefixed}
use goshire.Bin.{JsonCodec, binconst}
use goshire.Bin.Encode.{content_code, bytes_code}

-- [partition (int16)] [length][shard key] [router table revision (int64)]
abbrev pub shard_bytes : ShardRequest → Str
shard_bytes s = encode_int 2 s.partition ++ (prefixed 2 s.key ++ encode_int 8 s.revision)

-- The code that the content is sent with.
abbrev pub wire_code : Str → ℤ
wire_code encoding = if content_is_set encoding then content_code encoding else bytes_code

-- [content_encoding (int8)] [content_length (int32)][content]
abbrev pub content_bytes : Str → Str → Str
content_bytes encoding content = encode_int 1 (wire_code encoding) ++ prefixed 4 content

abbrev known_or_bytes : Str → Option ℤ → Str
known_or_bytes encoding (some a) = encoding
known_or_bytes encoding none = codes "bytes"

-- The content encoding that arrives: "bytes" where none is set or the one that is set is not known.
abbrev pub sent_encoding : Str → Str
sent_encoding encoding =
    if content_is_set encoding
    then known_or_bytes encoding (binconst.content_encoding encoding)
    else codes "bytes"

-- A request that the binary protocol can carry: it has a shard request, its numbers and lengths
-- fit their fields, its names have codes, and its params go through encoding/json.
pub record IsSendable (json : JsonCodec) (r : Request) : Type 0 where
  pub shard : ShardRequest
  pub has_shard : r.shard ≡ some shard
  pub partition_fits : Fits (half 2) shard.partition
  pub key_fits : length shard.key < half 2
  pub revision_fits : Fits (half 8) shard.revision
  pub txn_id_fits : length r.txn_id < half 2
  pub accept : ℕ
  pub accept_known : binconst.txn_accept r.txn_accept ≡ some (pos accept)
  pub method : ℕ
  pub method_known : binconst.method r.method ≡ some (pos method)
  pub uri_fits : length r.uri < half 2
  pub body : Str
  pub marshalled : json.marshal r.params ≡ some body
  pub body_nonempty : body ≢ []
  pub body_fits : length body < half 4
  pub params : Fields
  pub parsed : json.unmarshal end body ≡ some params
  pub content_fits : length r.content < half 4

module _ {json : JsonCodec} (r : Request) (h : IsSendable json r) where
  -- The request on the wire.
  abbrev pub request_bytes : Str
  request_bytes =
      shard_bytes h.shard
      ++ (prefixed 2 r.txn_id
          ++ (encode_int 1 (pos h.accept)
              ++ (encode_int 1 (pos h.method)
                  ++ (prefixed 2 r.uri
                      ++ (encode_int 1 (pos 0)
                          ++ (prefixed 4 h.body ++ content_bytes r.content_encoding r.content))))))

  -- The request that arrives: the user agent and the version are not sent.
  abbrev pub delivered : Request
  delivered = record {
    version = strest_version;
    user_agent = codes "binary";
    txn_id = r.txn_id;
    txn_accept = r.txn_accept;
    uri = r.uri;
    method = r.method;
    params = h.params;
    content_encoding = sent_encoding r.content_encoding;
    content = r.content;
    shard = some h.shard;
  }
