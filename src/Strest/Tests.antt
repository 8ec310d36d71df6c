-- ===== src/Strest/Tests.antt =====
-- The theorems about packets and maps at small ones.
use goshire.Strest.TxnId.{txn_ids, AreDistinct, txn_ids-AreDistinct}
use goshire.DynMap.Number.{decimal}
use goshire.Base.{◌∙◌, ap, Option, pos, false, refl, arith, ◌≡◌, some, none}
use goshire.Text.{str_eq, Str, codes}
use goshire.DynMap.Fields.{field, int, float, Fields, Value, end, field, int, float}
use goshire.Strest.{ShardRequest, Request, new_request}
use goshire.Strest.Json.{with_shard}
use goshire.Strest.Shards.{IsReadOf, shard_travels, partition_read}
use goshire.DynMap.Fields.{lookup}
use goshire.Strest.Convert.{shard_of}
use goshire.Strest.Quote.{json_encode_string}
use goshire.Strest.Quote.Loop.{IsQuoted, ascii, empty, json_encode_string-IsQuoted}

abbrev sprint : Value → Str
sprint v = codes "?"

abbrev ping : Request
ping = new_request (codes "/ping") (codes "GET")

json_encode_string-IsQuoted_example :
    (r : Str) × (json_encode_string (codes "a\"") ≡ some r) × IsQuoted r (codes "a\"")
json_encode_string-IsQuoted_example =
    json_encode_string-IsQuoted (codes "a\"") (ascii (omega arith) (ascii (omega arith) empty))

abbrev shard : ShardRequest
shard = record { partition = pos 3; key = codes "k"; revision = pos 9 }

-- encoding/json, for maps of texts and integers.
abbrev as_number : Value → Value
as_number (int a) = float a (decimal a)
as_number v = v

unfoldable read_back : Fields → Fields
read_back end = end
read_back (field k v m) = field k (as_number v) (read_back m)

abbrev value_read : Option Value → Option Value
value_read none = none
value_read (some v) = some (as_number v)

lookup-read_back : (k : Str) (m : Fields) → lookup k (read_back m) ≡ value_read (lookup k m)
unfolding read_back lookup
lookup-read_back k end = refl
lookup-read_back k (field j v m) = ground (arith, lookup-read_back k m)

read_back-IsReadOf : (m : Fields) → IsReadOf m (read_back m)
read_back-IsReadOf m = record {
  texts = λ k s plain utf8 e. lookup-read_back k m ∙ ap value_read e;
  numbers = λ k a plain f e. (decimal a, lookup-read_back k m ∙ ap value_read e);
  absent = λ k plain e. lookup-read_back k m ∙ ap value_read e;
}

abbrev received : Fields
received = read_back (with_shard (some shard) end)

shard_travels_example :
    (shard_of sprint none received
      ≡ record { partition = partition_read (pos 3); key = codes "k"; revision = pos 9 })
    × ((j : Str)
        → str_eq (codes "_p") j ≡ false
        → str_eq (codes "_k") j ≡ false
        → str_eq (codes "_v") j ≡ false
        → lookup j (with_shard (some shard) end) ≡ lookup j end)
unfolding lookup
shard_travels_example =
    shard_travels sprint shard end received refl refl refl (ascii (omega arith) empty)
      (omega arith, omega arith) (omega arith, omega arith)
      (read_back-IsReadOf (with_shard (some shard) end))

txn_ids-AreDistinct_example : AreDistinct (txn_ids 12 (pos 0))
txn_ids-AreDistinct_example = txn_ids-AreDistinct 12 (omega arith)
