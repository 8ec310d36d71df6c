-- ===== src/Strest.antt =====
-- cheshire/strestpackets.go: requests and responses, their constructors and setters. A *Request, a
-- *Response and the *DynMap in them are not nil. `version` is a float32 that is always 2.
pub mod Convert
pub mod Quote
pub mod Requests
pub mod Responses
pub mod Json
pub mod Shards
pub mod TxnId
pub mod Tests
use goshire.Base.{suc, ℕ, Bool, ◌==◌, not, Option, some, ℤ, pos, negsuc, length, []}
use goshire.Text.{Str, codes}
use goshire.DynMap.Fields.{Fields, end}

-- StrestVersion.
abbrev pub strest_version : ℕ
strest_version = 2

pub record ShardRequest : Type 0 where
  pub partition : ℤ
  pub key : Str
  pub revision : ℤ

pub record Request : Type 0 where
  pub version : ℕ
  pub user_agent : Str
  pub txn_id : Str
  pub txn_accept : Str
  pub uri : Str
  pub method : Str
  pub params : Fields
  pub content_encoding : Str
  pub content : Str
  pub shard : Option ShardRequest

-- The embedded DynMap is the field `values`.
pub record Response : Type 0 where
  pub values : Fields
  pub txn_id : Str
  pub txn_status : Str
  pub status_code : ℤ
  pub status_message : Str
  pub content_encoding : Str
  pub content : Str

-- NewRequest.
abbrev pub new_request : Str → Str → Request
new_request uri method = record {
  version = strest_version;
  user_agent = [];
  txn_id = [];
  txn_accept = codes "single";
  uri = uri;
  method = method;
  params = end;
  content_encoding = [];
  content = [];
  shard = some (record { partition = negsuc 0; key = []; revision = pos 0 });
}

-- newResponse.
abbrev pub new_response : Response
new_response = record {
  values = end;
  txn_id = [];
  txn_status = codes "completed";
  status_code = pos 200;
  status_message = codes "OK";
  content_encoding = [];
  content = [];
}

-- ContentIsSet of either packet, from its content encoding.
abbrev pub content_is_set : Str → Bool
content_is_set encoding = not (length encoding == 0)
