-- ===== src/Bin/RoundTrip.antt =====
-- Requests over the binary protocol, from WriteRequest to DecodeRequest.
use goshire.Base.{◌++◌, ℕ, ◌≤◌, ◌≡◌, ◌∙◌, ap, pos, length, []}
use goshire.Text.{Str}
use goshire.Outcome.{ok}
use goshire.Strest.{Request}
use goshire.Wire.Writer.{Sink, accept}
use goshire.Bin.{JsonCodec}
use goshire.Bin.Decode.{decode_request}
use goshire.Bin.Encode.{write_request}
use goshire.Bin.Layout.{IsSendable, request_bytes, delivered}
use goshire.Bin.Writes.{Writes-write_request}
use goshire.Bin.Reads.{Reads-decode_request}

-- A connection that has taken nothing yet and takes `room` more bytes.
abbrev pub fresh : ℕ → Sink
fresh room = record { out = []; room = room }

-- WriteRequest puts exactly the documented layout of the request behind what the connection already
-- took, and returns the length of the content, where the request can be sent and there is room.
write_request_layout :
    {json : JsonCodec} (r : Request) (h : IsSendable json r) (k : Sink)
    → length (request_bytes r h) ≤ k.room
    → write_request json r k ≡ (ok (pos (length r.content)), accept (request_bytes r h) k)
write_request_layout r h k room = (Writes-write_request r h).at k room

-- A request that the binary protocol can carry: it has a shard request whose partition fits an int16 and
-- whose revision fits an int64; its uri, its txn id and the shard's key are shorter than 2 ^ 15 bytes;
-- its method and its txn accept have codes; encoding/json writes its params as a text that is not empty
-- and reads them back; and that text and the content are shorter than 2 ^ 31 bytes. What WriteRequest
-- wrote of it to a fresh connection with room for it, DecodeRequest reads back as the request with the
-- server's version and user agent, with the content encoding that was sent, or "bytes" where none or an
-- unknown one was set, and with the params that encoding/json makes of what it wrote; whatever follows on
-- the stream is left for the next.
pub decode_request-write_request :
    {json : JsonCodec} (r : Request) (h : IsSendable json r) (room : ℕ) (rest : Str)
    → length (request_bytes r h) ≤ room
    → decode_request json ((write_request json r (fresh room)).1.out ++ rest)
      ≡ ok (delivered r h, rest)
decode_request-write_request {json} r h room rest fits =
    ap (λ w. decode_request json (w.1.out ++ rest)) (write_request_layout r h (fresh room) fits)
    ∙ (Reads-decode_request r h).at rest
