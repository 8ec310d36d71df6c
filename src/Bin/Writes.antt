-- ===== src/Bin/Writes.antt =====
-- WriteRequest writes the documented layout.
use goshire.Base.{
  true, inr, inl, Bool-cases, arith, ℤ, sym, of_word-to_word, ◌∷◌, subst, ◌≡◌, some, pos, ◌<◌,
  ltb_ℤ, length, if◌then◌else◌, Option, [],
}
use goshire.Text.{Str}
use goshire.Wire.Writer.{
  Writes-write_byte_array32, Writes-write, write_byte_array32, Writes-write_string, Writes-ignore,
  Writes-write_int, Writes, Writes-bind, Writes-pure, Writes-map, pure, ◌>>◌, Encode, ignore, write,
  write_int,
}
use goshire.Bin.Encode.{
  bytes_code, content_code, int32_length, write_shard_request, write_request, write_bytes_content,
  require,
}
use goshire.Bin.{JsonCodec}
use goshire.Outcome.{Error}
use goshire.Strest.{content_is_set, Request, ShardRequest}
use goshire.Wire.Bytes.{prefixed, half}
use goshire.Bin.Layout.{content_bytes, request_bytes, shard_bytes, IsSendable}

pub Writes-require {ℓ} :
    {A : Type ℓ} (o : Option A) (e : Error) (a : A) → o ≡ some a → Writes (require o e) a []
Writes-require o e a h = subst (λ p. Writes (require p e) a []) (sym h) (Writes-pure a)

pub int32_length_fits : (xs : Str) → length xs < half 4 → int32_length xs ≡ pos (length xs)
int32_length_fits xs h = of_word-to_word (half 4) (pos (length xs)) (omega arith)

-- No write at all is the same as a write of no bytes.
pub Writes-if_any :
    (xs : Str)
    → Writes (if ltb_ℤ (pos 0) (pos (length xs)) then ignore (write xs) else pure tt) tt xs
Writes-if_any [] = Writes-pure tt
Writes-if_any (x ∷ xs) =
    subst (λ b. Writes (if b then ignore (write (x ∷ xs)) else pure tt) tt (x ∷ xs)) (sym some_room)
      (Writes-ignore (Writes-write (x ∷ xs)))
  where
    some_room : ltb_ℤ (pos 0) (pos (length (x ∷ xs))) ≡ true
    some_room = ground arith

pub Writes-bytes_content :
    (xs : Str) → length xs < half 4 → Writes (write_bytes_content xs) tt (prefixed 4 xs)
unfolding write_bytes_content
Writes-bytes_content xs h =
    subst (λ n. Writes (section n) tt (prefixed 4 xs)) (sym (int32_length_fits xs h))
      (Writes-bind _ (Writes-ignore (Writes-write_int 4 (pos (length xs)))) (Writes-if_any xs))
  where
    section : ℤ → Encode {0} Unit
    section n = do ignore (write_int 4 n); if ltb_ℤ (pos 0) n then ignore (write xs) else pure tt

Writes-shard : (s : ShardRequest) → Writes (write_shard_request (some s)) tt (shard_bytes s)
unfolding write_shard_request
Writes-shard s = Writes-bind _ (Writes-write_int 2 s.partition) (
    Writes-bind _ (Writes-write_string s.key)
      (Writes-map (λ _. tt) (Writes-write_int 8 s.revision)))

module _ (encoding content : Str) (fits : length content < half 4) where
  Writes-content :
      Writes
        (if content_is_set encoding
          then (do
            ignore (write_int 1 (content_code encoding))
            write_byte_array32 content
            pure tt)
          else (do ignore (write_int 1 bytes_code); write_bytes_content content))
        tt
        (content_bytes encoding content)
  Writes-content = elim (Bool-cases (content_is_set encoding)) [
    | inl set ↦ rw set (
        Writes-bind _ (Writes-ignore (Writes-write_int 1 (content_code encoding)))
          (Writes-map (λ _. tt) (Writes-write_byte_array32 content)))
    | inr unset ↦ rw unset (
        Writes-bind _ (Writes-ignore (Writes-write_int 1 bytes_code))
          (Writes-bytes_content content fits))
  ]

-- A request that can be sent is written as `request_bytes`, and the result is its content length.
pub Writes-write_request :
    {json : JsonCodec} (r : Request) (h : IsSendable json r)
    → Writes (write_request json r) (pos (length r.content)) (request_bytes r h)
unfolding write_request
Writes-write_request {json} r h =
    subst (λ n. Writes (write_request json r) n (request_bytes r h))
      (int32_length_fits r.content h.content_fits)
      (Writes-bind _ shard (
        Writes-bind _ (Writes-write_string r.txn_id) (
          Writes-bind _ (Writes-require _ _ _ h.accept_known) (
            Writes-bind _ (Writes-write_int 1 (pos h.accept)) (
              Writes-bind _ (Writes-require _ _ _ h.method_known) (
                Writes-bind _ (Writes-write_int 1 (pos h.method)) (
                  Writes-bind _ (Writes-write_string r.uri) (
                    Writes-bind _ (Writes-require _ _ _ h.marshalled) (
                      Writes-bind _ (Writes-write_int 1 (pos 0)) (
                        Writes-bind _ (Writes-write_byte_array32 h.body) (
                          Writes-map (λ _. int32_length r.content)
                            (Writes-content r.content_encoding r.content h.content_fits))))))))))))
  where
    shard : Writes (write_shard_request r.shard) tt (shard_bytes h.shard)
    shard =
        subst (λ o. Writes (write_shard_request o) tt (shard_bytes h.shard)) (sym h.has_shard)
          (Writes-shard h.shard)
