-- ===== src/Bin.antt =====
-- cheshire/protocol_bin.go: the binary protocol. Its constants stand here, and encoding/json as an
-- interface: the protocol stores what `marshal` returns and hands it to `unmarshal`.
pub mod Decode
pub mod Encode
pub mod Codes
pub mod Layout
pub mod Writes
pub mod Reads
pub mod RoundTrip
pub mod Response
pub mod Faults
pub mod Hello
pub mod Takes
pub mod Stream
pub mod Tests
use goshire.Base.{
  ℕ, suc, ◌+◌, List, [], ◌∷◌, Option, none, some, ℤ, pos, Bool, not, ltb_ℤ, length, if◌then◌else◌,
}
use goshire.Text.{Str, codes, str_eq}
use goshire.DynMap.Fields.{Fields}

-- MarshalJSON and UnmarshalJSON of a DynMap; `none` is an error. `unmarshal` adds to the map that
-- it is given.
pub record JsonCodec : Type 0 where
  pub marshal : Fields → Option Str
  pub unmarshal : Fields → Str → Option Fields

abbrev pub txn_accepts : List Str
txn_accepts = codes "single" ∷ codes "multi" ∷ []

abbrev pub txn_statuses : List Str
txn_statuses = codes "completed" ∷ codes "continue" ∷ []

abbrev pub methods : List Str
methods = codes "GET" ∷ codes "POST" ∷ codes "PUT" ∷ codes "DELETE" ∷ []

abbrev pub param_encodings : List Str
param_encodings = codes "json" ∷ codes "msgpack" ∷ []

abbrev pub content_encodings : List Str
content_encodings = codes "string" ∷ codes "bytes" ∷ codes "json" ∷ codes "msqpack" ∷ []

-- A map[string]int8.
abbrev pub Table : Type 0
Table = Str → Option ℤ

abbrev set_code : Table → Str → ℤ → Table
set_code t s a r = if str_eq s r then some a else t r

-- `for i, s := range names { t[s] = int8(i) }`, from index `i` on.
unfoldable pub fill : ℕ → List Str → Table → Table
fill i [] t = t
fill i (s ∷ names) t = fill (i + 1) names (set_code t s (pos i))

pub record BinConstants : Type 0 where
  pub txn_accept : Table
  pub txn_status : Table
  pub method : Table
  pub param_encoding : Table
  pub content_encoding : Table

-- make(map[string]int8) and its loop.
unfoldable pub code_table : List Str → Table
unfolding fill
code_table names = fill 0 names (λ _. none)

-- BINCONST, by contstantsinit.
abbrev pub binconst : BinConstants
binconst = record {
  txn_accept = code_table txn_accepts;
  txn_status = code_table txn_statuses;
  method = code_table methods;
  param_encoding = code_table param_encodings;
  content_encoding = code_table content_encodings;
}

-- `int(code) >= len(names)`.
abbrev pub too_large : List Str → ℤ → Bool
too_large names a = not (ltb_ℤ a (pos (length names)))
