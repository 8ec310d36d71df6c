-- ===== src/Bin/Reads.antt =====
-- DecodeRequest reads the documented layout.
use goshire.Base.{
  ◌∷◌, refl, sym, subst, arith, ◌≢◌, some, false, ◌≡◌, Fits, ◌<◌, pos, get_elem?, ℕ, length, List,
  [],
}
use goshire.DynMap.Fields.{end}
use goshire.Text.{Str}
use goshire.Wire.Reader.{
  Reads-last, Reads-read_byte_array32, Reads-refuse_if, read_int, Reads-read_string, Reads-read_int,
  Reads-read_full, Reads, Reads-bind, Reads-pure, Reads-map,
}
use goshire.Bin.Decode.{read_make, parse_params, index, decode_shard_request, decode_request}
use goshire.Bin.{methods, txn_accepts, content_encodings, too_large, Fields, JsonCodec}
use goshire.Bin.Layout.{request_bytes, delivered, shard_bytes, IsSendable, wire_code}
use goshire.Strest.{Request, ShardRequest}
use goshire.Wire.Bytes.{encode_int, half}
use goshire.Bin.Codes.{wire_code_listed, known_listed}

pub Reads-index :
    (names : List Str) (n : ℕ) (s : Str)
    → get_elem? names n ≡ some s
    → Reads (index names (pos n)) s []
unfolding index
Reads-index names n s e = record { at = λ rest. ground (arith, e) }

pub Reads-read_make : (xs : Str) → Reads (read_make (pos (length xs))) xs xs
unfolding read_make
Reads-read_make xs = Reads-read_full xs

pub Reads-parse_params :
    (json : JsonCodec) (body : Str) (m : Fields)
    → body ≢ []
    → json.unmarshal end body ≡ some m
    → Reads (parse_params json (pos 0) body) m []
unfolding parse_params
Reads-parse_params json [] m h e = absurd (h refl)
Reads-parse_params json (b ∷ body) m h e = record { at = λ rest. ground (arith, e) }

Reads-shard :
    (s : ShardRequest)
    → Fits (half 2) s.partition
    → length s.key < half 2
    → Fits (half 8) s.revision
    → Reads decode_shard_request s (shard_bytes s)
unfolding decode_shard_request
Reads-shard s p k r = Reads-bind _ (Reads-read_int 1 s.partition p) (
    Reads-bind _ (Reads-read_string s.key k) (
      Reads-map (λ n. record { partition = s.partition; key = s.key; revision = n })
        (Reads-read_int 7 s.revision r)))

-- A code of the list passes the test against its length.
pub not_too_large : (names : List Str) (n : ℕ) → n < length names → too_large names (pos n) ≡ false
not_too_large names n h = ground arith

pub Reads-wire_code :
    (encoding : Str) (c : ℕ)
    → wire_code encoding ≡ pos c
    → c < 4
    → Reads (read_int 1) (pos c) (encode_int 1 (wire_code encoding))
Reads-wire_code encoding c e l =
    subst (λ a. Reads (read_int 1) (pos c) (encode_int 1 a)) (sym e)
      (Reads-read_int 0 (pos c) (omega arith))

-- A request that was sent as `request_bytes` is read as `delivered`.
pub Reads-decode_request :
    {json : JsonCodec} (r : Request) (h : IsSendable json r)
    → Reads (decode_request json) (delivered r h) (request_bytes r h)
unfolding decode_request
Reads-decode_request {json} r h =
    let (listed_a, low_a) = known_listed txn_accepts r.txn_accept h.accept h.accept_known in
    let (listed_m, low_m) = known_listed methods r.method h.method h.method_known in
    let (c, same_c, listed_c, low_c) = wire_code_listed r.content_encoding in
    Reads-bind _ (Reads-shard h.shard h.partition_fits h.key_fits h.revision_fits) (
      Reads-bind _ (Reads-read_string r.txn_id h.txn_id_fits) (
        Reads-bind _ (Reads-read_int 0 (pos h.accept) (omega arith)) (
          Reads-bind _ (Reads-refuse_if _ _ (not_too_large txn_accepts h.accept low_a)) (
            Reads-bind _ (Reads-read_int 0 (pos h.method) (omega arith)) (
              Reads-bind _ (Reads-refuse_if _ _ (not_too_large methods h.method low_m)) (
                Reads-bind _ (Reads-read_string r.uri h.uri_fits) (
                  Reads-bind _ (Reads-read_int 0 (pos 0) (omega arith)) (
                    Reads-bind _ (Reads-pure tt) (
                      Reads-bind _ (Reads-read_byte_array32 h.body h.body_fits) (
                        Reads-bind _
                          (Reads-parse_params json h.body h.params h.body_nonempty h.parsed)
                          (Reads-bind _ (Reads-wire_code r.content_encoding c same_c low_c) (
                            Reads-bind _
                              (Reads-refuse_if _ _ (not_too_large content_encodings c low_c))
                              (Reads-bind _
                                (Reads-read_int 3 (pos (length r.content)) (omega arith))
                                (Reads-last _ (Reads-read_make r.content) (
                                  Reads-bind _
                                    (Reads-index txn_accepts h.accept r.txn_accept listed_a)
                                    (Reads-bind _ (Reads-index methods h.method r.method listed_m) (
                                      Reads-bind _ (Reads-index content_encodings c _ listed_c)
                                        (Reads-pure _))))))))))))))))))
