-- ===== src/Strest/Shards.antt =====
-- The shard request travels in the parameters: Request.MarshalJSON puts it there, and
-- NewRequestDynMap takes it from there, in cheshire/strestpackets.go, through encoding/json.
use goshire.Strest.{ShardRequest}
use goshire.Strest.Json.{put_partition, put_key, with_shard}
use goshire.Strest.Convert.{shard_of}
use goshire.DynMap.Fields.{put, str, int, Value, Fields, lookup, lookup-put}
use goshire.DynMap.Path.{put_if_absent}
use goshire.Strest.Quote.Loop.{IsUtf8}
use goshire.DynMap.Fields.{float}
use goshire.Base.{
  ℕ, All, Fits, ◌<◌, sym, subst, ◌∙◌, arith, Option, false, refl, ◌∷◌, [], ◌≡◌, negsuc, pos, ℤ,
  some, none,
}
use goshire.Text.{str_eq_self, str_eq, split, codes, Str}
use goshire.DynMap.Path.Laws.{get-plain}
use goshire.DynMap.Cast.{to_text, to_int64}
use goshire.DynMap.Getters.{must_string, must_int64}

-- Keys without a dot, and what is put under one that the map does not have.
module _ (key : Str) (plain : split b'.' key ≡ key ∷ []) (m : Fields) where
  absent_put : (v : Value) → lookup key m ≡ none → (put_if_absent m key v).0 ≡ put key v m
  unfolding put_if_absent
  absent_put v e = let g = get-plain key plain m ∙ e in rw (g, put_if_absent) refl

abbrev written_partition : ℤ → Option Value
written_partition (pos n) = some (int (pos n))
written_partition (negsuc n) = none

abbrev written_key : Str → Option Value
written_key [] = none
written_key (c ∷ k) = some (str (c ∷ k))

partition_written :
    (a : ℤ) (m : Fields)
    → lookup (codes "_p") m ≡ none
    → (lookup (codes "_p") (put_partition a m) ≡ written_partition a)
      × ((j : Str) → str_eq (codes "_p") j ≡ false → lookup j (put_partition a m) ≡ lookup j m)
partition_written (pos n) m p =
    let step = absent_put (codes "_p") (unfold split in refl) m (int (pos n)) p in
    rw step (
      ground
          (arith, lookup-put (codes "_p") (codes "_p") (int (pos n)) m, str_eq_self (codes "_p")),
      λ j other. ground (arith, lookup-put (codes "_p") j (int (pos n)) m, other),
    )
partition_written (negsuc n) m p = (p, λ j other. refl)

key_written :
    (k : Str) (m : Fields)
    → lookup (codes "_k") m ≡ none
    → (lookup (codes "_k") (put_key k m) ≡ written_key k)
      × ((j : Str) → str_eq (codes "_k") j ≡ false → lookup j (put_key k m) ≡ lookup j m)
key_written [] m h = (h, λ j other. refl)
key_written (c ∷ k) m h =
    let step = absent_put (codes "_k") (unfold split in refl) m (str (c ∷ k)) h in
    rw step (
      ground
          (arith, lookup-put (codes "_k") (codes "_k") (str (c ∷ k)) m, str_eq_self (codes "_k")),
      λ j other. ground (arith, lookup-put (codes "_k") j (str (c ∷ k)) m, other),
    )

-- A partition below 0 is not written, and read back as -1.
abbrev pub partition_read : ℤ → ℤ
partition_read (pos n) = pos n
partition_read (negsuc n) = negsuc 0

-- What the parameters hold after MarshalJSON.
record Written (s : ShardRequest) (m m' : Fields) : Type 0 where
  partition : lookup (codes "_p") m' ≡ written_partition s.partition
  key : lookup (codes "_k") m' ≡ written_key s.key
  revision : lookup (codes "_v") m' ≡ some (int s.revision)
  others :
      (j : Str)
      → str_eq (codes "_p") j ≡ false
      → str_eq (codes "_k") j ≡ false
      → str_eq (codes "_v") j ≡ false
      → lookup j m' ≡ lookup j m

shard-Written :
    (s : ShardRequest) (m : Fields)
    → lookup (codes "_p") m ≡ none
    → lookup (codes "_k") m ≡ none
    → lookup (codes "_v") m ≡ none
    → Written s m (with_shard (some s) m)
shard-Written s m p k v =
    let a = put_partition s.partition m in
    let (pa, fa) = partition_written s.partition m p in
    let b = put_key s.key a in
    let (kb, fb) = key_written s.key a (fa (codes "_k") (unfold str_eq in refl) ∙ k) in
    let absent =
      fb (codes "_v") (unfold str_eq in refl) ∙ fa (codes "_v") (unfold str_eq in refl) ∙ v in
    let step : with_shard (some s) m ≡ put (codes "_v") (int s.revision) b =
      unfold with_shard in
      absent_put (codes "_v") (unfold split in refl) b (int s.revision) absent in
    let at = λ (j : Str). lookup-put (codes "_v") j (int s.revision) b in
    subst (Written s m) (sym step) (record {
      partition = at (codes "_p") ∙ unfold str_eq in (fb (codes "_p") (unfold str_eq in refl) ∙ pa);
      key = at (codes "_k") ∙ unfold str_eq in kb;
      revision = ground (arith, at (codes "_v"), str_eq_self (codes "_v"));
      others = λ j hp hk hv. ground (arith, at j, hv, fb j hk, fa j hp);
    })

-- A float64 holds every integer below this exactly.
abbrev pub exact : ℕ
exact = 9007199254740992

-- What encoding/json reads into a map of what it wrote of another: under an ASCII key a text in UTF-8
-- is the text, an integer that a float64 holds exactly is a float64 with that value, and what was not
-- there is not there.
pub record IsReadOf (sent received : Fields) : Type 0 where
  pub texts :
      (k s : Str)
      → All (λ b. b < 128) k
      → IsUtf8 s
      → lookup k sent ≡ some (str s)
      → lookup k received ≡ some (str s)
  pub numbers :
      (k : Str) (a : ℤ)
      → All (λ b. b < 128) k
      → Fits exact a
      → lookup k sent ≡ some (int a)
      → (t : Str) × (lookup k received ≡ some (float a t))
  pub absent : (k : Str) → All (λ b. b < 128) k → lookup k sent ≡ none → lookup k received ≡ none

module _ (received : Fields) where
  partition_back :
      (a : ℤ) (sent : Fields)
      → IsReadOf sent received
      → Fits exact a
      → lookup (codes "_p") sent ≡ written_partition a
      → must_int64 received (codes "_p") (negsuc 0) ≡ partition_read a
  unfolding must_int64 to_int64
  partition_back (pos n) sent json f e =
      let (t, read) = json.numbers (codes "_p") (pos n) (omega arith, (omega arith, tt)) f e in
      let got = get-plain (codes "_p") (unfold split in refl) received in ground (arith, got, read)
  partition_back (negsuc n) sent json f e =
      let read = json.absent (codes "_p") (omega arith, (omega arith, tt)) e in
      let got = get-plain (codes "_p") (unfold split in refl) received in ground (arith, got, read)

  key_back :
      (sprint : Value → Str) (k : Str) (sent : Fields)
      → IsReadOf sent received
      → IsUtf8 k
      → lookup (codes "_k") sent ≡ written_key k
      → must_string sprint received (codes "_k") [] ≡ k
  unfolding must_string to_text
  key_back sprint [] sent json u e =
      let read = json.absent (codes "_k") (omega arith, (omega arith, tt)) e in
      let got = get-plain (codes "_k") (unfold split in refl) received in ground (arith, got, read)
  key_back sprint (c ∷ k) sent json u e =
      let read = json.texts (codes "_k") (c ∷ k) (omega arith, (omega arith, tt)) u e in
      let got = get-plain (codes "_k") (unfold split in refl) received in ground (arith, got, read)

  revision_back :
      (a : ℤ) (sent : Fields)
      → IsReadOf sent received
      → Fits exact a
      → lookup (codes "_v") sent ≡ some (int a)
      → must_int64 received (codes "_v") (negsuc 0) ≡ a
  unfolding must_int64 to_int64
  revision_back a sent json f e =
      let (t, read) = json.numbers (codes "_v") a (omega arith, (omega arith, tt)) f e in
      let got = get-plain (codes "_v") (unfold split in refl) received in ground (arith, got, read)

-- For parameters that hold none of "_p", "_k" and "_v", a key in UTF-8, and a partition and a revision
-- below 2 ^ 53 in size, so that a float64 holds them: the shard request that the reader makes of what
-- encoding/json reads of the parameters that the writer sends is the one that was sent, but for a
-- partition below 0, which comes back as -1. Every other parameter is sent as it was.
pub shard_travels :
    (sprint : Value → Str) (s : ShardRequest) (m received : Fields)
    → lookup (codes "_p") m ≡ none
    → lookup (codes "_k") m ≡ none
    → lookup (codes "_v") m ≡ none
    → IsUtf8 s.key
    → Fits exact s.partition
    → Fits exact s.revision
    → IsReadOf (with_shard (some s) m) received
    → (shard_of sprint none received
        ≡ record { partition = partition_read s.partition; key = s.key; revision = s.revision })
      × ((j : Str)
          → str_eq (codes "_p") j ≡ false
          → str_eq (codes "_k") j ≡ false
          → str_eq (codes "_v") j ≡ false
          → lookup j (with_shard (some s) m) ≡ lookup j m)
shard_travels sprint s m received p k v utf8 fp fv json =
    let w = shard-Written s m p k v in
    let sent = with_shard (some s) m in
    (
      cc (
        partition_back received s.partition sent json fp w.partition,
        key_back received sprint s.key sent json utf8 w.key,
        revision_back received s.revision sent json fv w.revision,
      ),
      w.others,
    )
