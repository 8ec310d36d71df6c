-- ===== src/Bin/Response.antt =====
-- Responses over the binary protocol, from WriteResponse to DecodeResponse.
use goshire.Base.{
  ℤ, ℕ, [], ◌++◌, ◌<◌, ◌≤◌, ◌≡◌, ◌≢◌, sym, ap, subst, ◌∙◌, some, pos, length, Fits, if◌then◌else◌,
  arith, Bool-cases, inl, inr,
}
use goshire.Text.{Str}
use goshire.Outcome.{ok}
use goshire.DynMap.Fields.{Fields, end}
use goshire.Strest.{Response, content_is_set}
use goshire.Wire.Bytes.{half, encode_int, prefixed}
use goshire.Wire.Reader.{
  Reads, Reads-bind, Reads-pure, Reads-last, Reads-refuse_if, Reads-read_int, Reads-read_string,
}
use goshire.Wire.Writer.{
  write_int, Writes, Writes-bind, Writes-map, Writes-ignore, Writes-write, Writes-write_int,
  Writes-write_string,
}
use goshire.Bin.{JsonCodec, binconst, txn_statuses, content_encodings}
use goshire.Bin.Codes.{known_listed, wire_code_listed}
use goshire.Bin.Encode.{int32_length, write_response}
use goshire.Bin.Decode.{decode_response}
use goshire.Bin.Layout.{wire_code, content_bytes, sent_encoding}
use goshire.Bin.Writes.{Writes-require, Writes-bytes_content, int32_length_fits}
use goshire.Bin.Reads.{
  Reads-index, Reads-read_make, Reads-parse_params, Reads-wire_code, not_too_large,
}
use goshire.Bin.RoundTrip.{fresh}

-- A response that the binary protocol can carry.
pub record IsSendable (json : JsonCodec) (r : Response) : Type 0 where
  pub txn_id_fits : length r.txn_id < half 2
  pub status : ℕ
  pub status_known : binconst.txn_status r.txn_status ≡ some (pos status)
  pub code_fits : Fits (half 2) r.status_code
  pub message_fits : length r.status_message < half 2
  pub body : Str
  pub marshalled : json.marshal r.values ≡ some body
  pub body_nonempty : body ≢ []
  pub body_fits : length body < half 4
  pub values : Fields
  pub parsed : json.unmarshal end body ≡ some values
  pub content_fits : length r.content < half 4

-- The content is sent only with a content encoding.
abbrev pub sent_content : Response → Str
sent_content r = if content_is_set r.content_encoding then r.content else []

module _ {json : JsonCodec} (r : Response) (h : IsSendable json r) where
  -- The layout of protocol_binary.md, with any code for the txn status.
  abbrev pub packet_bytes : ℤ → Str
  packet_bytes status =
      prefixed 2 r.txn_id
      ++ (encode_int 1 status
          ++ (encode_int 2 r.status_code
              ++ (prefixed 2 r.status_message
                  ++ (encode_int 1 (pos 0)
                      ++ (encode_int 4 (pos (length h.body))
                          ++ (h.body ++ content_bytes r.content_encoding (sent_content r)))))))

  -- The response on the wire.
  abbrev pub response_bytes : Str
  response_bytes = packet_bytes (pos h.status)

  -- The response that arrives.
  abbrev pub delivered : Response
  delivered = record {
    values = h.values;
    txn_id = r.txn_id;
    txn_status = r.txn_status;
    status_code = r.status_code;
    status_message = r.status_message;
    content_encoding = sent_encoding r.content_encoding;
    content = sent_content r;
  }

  pub sent_content_fits : length (sent_content r) < half 4
  sent_content_fits = elim (Bool-cases (content_is_set r.content_encoding)) [
    | inl set ↦ rw set h.content_fits
    | inr unset ↦ rw unset (omega arith)
  ]

  Writes-write_response :
      Writes (write_response json r) (pos (length (sent_content r))) response_bytes
  unfolding write_response
  Writes-write_response =
      subst (λ n. Writes (write_response json r) n response_bytes)
        (int32_length_fits (sent_content r) sent_content_fits)
        (Writes-bind _ (Writes-write_string r.txn_id) (
          Writes-bind _ (Writes-require _ _ _ h.status_known) (
            Writes-bind _ (Writes-write_int 1 (pos h.status)) (
              Writes-bind _ (Writes-write_int 2 r.status_code) (
                Writes-bind _ (Writes-write_string r.status_message) (
                  Writes-bind _ (Writes-require _ _ _ h.marshalled) (
                    Writes-bind _ (Writes-write_int 1 (pos 0)) (
                      Writes-bind _ body_length (
                        Writes-bind _ (Writes-write h.body) (
                          Writes-bind _
                            (Writes-ignore (Writes-write_int 1 (wire_code r.content_encoding)))
                            (Writes-map (λ _. int32_length (sent_content r))
                              (Writes-bytes_content (sent_content r) sent_content_fits))))))))))))
    where
      body_length :
          Writes (write_int 4 (int32_length h.body)) tt (encode_int 4 (pos (length h.body)))
      body_length =
          subst (λ n. Writes (write_int 4 n) tt (encode_int 4 (pos (length h.body))))
            (sym (int32_length_fits h.body h.body_fits)) (Writes-write_int 4 (pos (length h.body)))

  Reads-decode_response : Reads (decode_response json) delivered response_bytes
  unfolding decode_response
  Reads-decode_response =
      let (listed_s, low_s) = known_listed txn_statuses r.txn_status h.status h.status_known in
      let (c, same_c, listed_c, low_c) = wire_code_listed r.content_encoding in
      Reads-bind _ (Reads-read_string r.txn_id h.txn_id_fits) (
        Reads-bind _ (Reads-read_int 0 (pos h.status) (omega arith)) (
          Reads-bind _ (Reads-refuse_if _ _ (not_too_large txn_statuses h.status low_s)) (
            Reads-bind _ (Reads-read_int 1 r.status_code h.code_fits) (
              Reads-bind _ (Reads-read_string r.status_message h.message_fits) (
                Reads-bind _ (Reads-read_int 0 (pos 0) (omega arith)) (
                  Reads-bind _ (Reads-pure tt) (
                    Reads-bind _ (Reads-read_int 3 (pos (length h.body)) (omega arith)) (
                      Reads-bind _ (Reads-read_make h.body) (
                        Reads-bind _
                          (Reads-parse_params json h.body h.values h.body_nonempty h.parsed)
                          (Reads-bind _ (Reads-wire_code r.content_encoding c same_c low_c) (
                            Reads-bind _
                              (Reads-refuse_if _ _ (not_too_large content_encodings c low_c))
                              (Reads-bind _
                                (Reads-read_int 3 (pos (length (sent_content r)))
                                  (omega (arith, sent_content_fits)))
                                (Reads-last _ (Reads-read_make (sent_content r)) (
                                  Reads-bind _
                                    (Reads-index txn_statuses h.status r.txn_status listed_s)
                                    (Reads-bind _ (Reads-index content_encodings c _ listed_c)
                                      (Reads-pure _))))))))))))))))

-- A response that the binary protocol can carry: its status code fits an int16; its message and its txn
-- id are shorter than 2 ^ 15 bytes; its txn status has a code; encoding/json writes its values as a text
-- that is not empty and reads them back; and that text and the content are shorter than 2 ^ 31 bytes. What
-- WriteResponse wrote of it to a fresh connection with room for it, DecodeResponse reads back: the same
-- transaction, status and message, the values that encoding/json makes of what it wrote, and the content
-- where an encoding was set; WriteResponse returns the length of that content.
pub decode_response-write_response :
    {json : JsonCodec} (r : Response) (h : IsSendable json r) (room : ℕ) (rest : Str)
    → length (response_bytes r h) ≤ room
    → ((write_response json r (fresh room)).0 ≡ ok (pos (length (sent_content r))))
      × (decode_response json ((write_response json r (fresh room)).1.out ++ rest)
          ≡ ok (delivered r h, rest))
decode_response-write_response {json} r h room rest fits =
    let written = (Writes-write_response r h).at (fresh room) fits in
    (
      ap (λ w. w.0) written,
      ap (λ w. decode_response json (w.1.out ++ rest)) written
          ∙ (Reads-decode_response r h).at rest,
    )
