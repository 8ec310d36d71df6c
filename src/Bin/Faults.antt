-- ===== src/Bin/Faults.antt =====
-- What DecodeResponse of cheshire/protocol_bin.go does with packets that are not well formed.
use goshire.Base.{
  List, ℕ, [], ◌++◌, ◌<◌, ◌≡◌, ◌∙◌, pos, negsuc, length, Fits, arith, append_assoc, ℤ, refl, false,
}
use goshire.Text.{Str}
use goshire.Outcome.{Outcome, err, panic, Error, Fault, makeslice, index_out_of_range}
use goshire.Wire.Bytes.{half, encode_int, prefixed}
use goshire.Wire.Reader.{
  Decode, ◌>>=◌, Reads, Reads-pure, Reads-refuse_if, Reads-read_int, Reads-read_string, bind-of_ok,
}
use goshire.Bin.{content_encodings, too_large, JsonCodec, txn_statuses}
use goshire.Bin.Decode.{decode_response, index, read_make}
use goshire.Strest.{Response}
use goshire.Bin.Codes.{wire_code_listed}
use goshire.Bin.Response.{IsSendable, packet_bytes, sent_content, sent_content_fits}
use goshire.Bin.Reads.{Reads-read_make, Reads-parse_params, Reads-wire_code, not_too_large}

-- How a decoder ends without a value.
pub data Stop : Type 0 where
  error : Error → Stop
  fault : Fault → Stop

abbrev pub stopped {ℓ} : {A : Type ℓ} → Stop → Outcome A
stopped (error e) = err e
stopped (fault p) = panic p

-- `m` ends so on any stream that begins with the bytes `xs`.
pub record Stops {ℓ} {A : Type ℓ} (m : Decode A) (o : Stop) (xs : Str) : Type ℓ where
  pub at : (rest : Str) → m (xs ++ rest) ≡ stopped o

Stops-here {ℓ κ} :
    {A : Type ℓ} {B : Type κ} {m : Decode A} (f : A → Decode B) (o : Stop) {xs : Str}
    → Stops m o xs
    → Stops (m >>= f) o xs
unfolding ◌>>=◌
Stops-here f (error e) s = record { at = λ rest. rw (s.at rest, ◌>>=◌) }
Stops-here f (fault p) s = record { at = λ rest. rw (s.at rest, ◌>>=◌) }

Stops-bind {ℓ κ} :
    {A : Type ℓ} {B : Type κ} {m : Decode A} (f : A → Decode B) {a : A} {o : Stop} {xs ys : Str}
    → Reads m a xs
    → Stops (f a) o ys
    → Stops (m >>= f) o (xs ++ ys)
Stops-bind {m} f {a} {xs} {ys} r q = record {
  at = λ rest.
      rw append_assoc
        (bind-of_ok m f (xs ++ (ys ++ rest)) (ys ++ rest) a (r.at (ys ++ rest)) ∙ q.at rest);
}

Stops-last {ℓ κ} :
    {A : Type ℓ} {B : Type κ} {m : Decode A} (f : A → Decode B) {a : A} {o : Stop} {xs : Str}
    → Reads m a xs
    → Stops (f a) o []
    → Stops (m >>= f) o xs
Stops-last {m} f {a} {xs} r q = record {
  at = λ rest. bind-of_ok m f (xs ++ rest) rest a (r.at rest) ∙ q.at rest;
}

Stops-read_make : (n : ℕ) → Stops (read_make (negsuc n)) (fault makeslice) []
unfolding read_make
Stops-read_make n = record { at = λ rest. refl }

Stops-index :
    (names : List Str) (n : ℕ) → Stops (index names (negsuc n)) (fault index_out_of_range) []
unfolding index
Stops-index names n = record { at = λ rest. refl }

-- The bytes of a response up to the length of its params.
abbrev pub header_bytes : Str → ℤ → ℤ → Str → ℤ → Str → Str
header_bytes txn_id status code message encoding rest =
    prefixed 2 txn_id
    ++ (encode_int 1 status
        ++ (encode_int 2 code ++ (prefixed 2 message ++ (encode_int 1 encoding ++ rest))))

low_negative : (names : List Str) (n : ℕ) → too_large names (negsuc n) ≡ false
low_negative names n = ground arith

module _ (json : JsonCodec) (txn_id : Str) (id_fits : length txn_id < half 2) where
  -- A response whose length of the params is negative makes the decoder panic in `make`, whatever
  -- follows: the length is not tested.
  negative_params_length :
      (status code : ℤ) (message : Str) (n : ℕ) (rest : Str)
      → Fits (half 1) status
      → too_large txn_statuses status ≡ false
      → Fits (half 2) code
      → length message < half 2
      → Fits (half 4) (negsuc n)
      → decode_response json
          (header_bytes txn_id status code message (pos 0) (encode_int 4 (negsuc n)) ++ rest)
        ≡ panic makeslice
  negative_params_length status code message n rest s low c m fits = stops.at rest
    where
      stops :
          Stops
            (decode_response json)
            (fault makeslice)
            (header_bytes txn_id status code message (pos 0) (encode_int 4 (negsuc n)))
      stops =
          unfold decode_response in
          Stops-bind _ (Reads-read_string txn_id id_fits) (
            Stops-bind _ (Reads-read_int 0 status s) (
              Stops-bind _ (Reads-refuse_if _ _ low) (
                Stops-bind _ (Reads-read_int 1 code c) (
                  Stops-bind _ (Reads-read_string message m) (
                    Stops-bind _ (Reads-read_int 0 (pos 0) (omega arith)) (
                      Stops-bind _ (Reads-pure tt) (
                        Stops-last _ (Reads-read_int 3 (negsuc n) fits)
                          (Stops-here _ _ (Stops-read_make n)))))))))

-- A response that is well formed but for a negative txn status makes the decoder panic: the test
-- against the length of the list passes, and the list is indexed with it once everything is read.
pub negative_txn_status :
    {json : JsonCodec} (r : Response) (h : IsSendable json r) (n : ℕ) (rest : Str)
    → Fits (half 1) (negsuc n)
    → decode_response json (packet_bytes r h (negsuc n) ++ rest) ≡ panic index_out_of_range
negative_txn_status {json} r h n rest f = stops.at rest
  where
    stops : Stops (decode_response json) (fault index_out_of_range) (packet_bytes r h (negsuc n))
    stops =
        unfold decode_response in
        let (c, same_c, listed_c, low_c) = wire_code_listed r.content_encoding in
        Stops-bind _ (Reads-read_string r.txn_id h.txn_id_fits) (
          Stops-bind _ (Reads-read_int 0 (negsuc n) f) (
            Stops-bind _ (Reads-refuse_if _ _ (low_negative txn_statuses n)) (
              Stops-bind _ (Reads-read_int 1 r.status_code h.code_fits) (
                Stops-bind _ (Reads-read_string r.status_message h.message_fits) (
                  Stops-bind _ (Reads-read_int 0 (pos 0) (omega arith)) (
                    Stops-bind _ (Reads-pure tt) (
                      Stops-bind _ (Reads-read_int 3 (pos (length h.body)) (omega arith)) (
                        Stops-bind _ (Reads-read_make h.body) (
                          Stops-bind _
                            (Reads-parse_params json h.body h.values h.body_nonempty h.parsed)
                            (Stops-bind _ (Reads-wire_code r.content_encoding c same_c low_c) (
                              Stops-bind _
                                (Reads-refuse_if _ _ (not_too_large content_encodings c low_c))
                                (Stops-bind _
                                  (Reads-read_int 3 (pos (length (sent_content r)))
                                    (omega (arith, sent_content_fits r h)))
                                  (Stops-last _ (Reads-read_make (sent_content r))
                                    (Stops-here _ _ (Stops-index txn_statuses n)))))))))))))))
