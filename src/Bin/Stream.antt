-- ===== src/Bin/Stream.antt =====
-- handleConnection of cheshire/binarylistener.go: one connection, from its hello to its end. The bytes
-- that the peer sends are given as a whole; what HandleRequest does with a request runs in a goroutine
-- of its own, so the connection only hands it over.
use goshire.Base.{
  inr, inl, ℕ, zero, suc, ◌<◌, ◌≤◌, ◌≡◌, ◌≢◌, ◌++◌, ap, ◌∙◌, refl, sym, List, [], ◌∷◌, length,
  length-append, arith, some,
}
use goshire.Text.{Str}
use goshire.Outcome.{ok, err, panic, Error, Fault, eof}
use goshire.DynMap.Fields.{Fields, end}
use goshire.Strest.{Request}
use goshire.Router.{Router, Controller, match}
use goshire.Wire.Bytes.{half, encode_int, length-encode_int}
use goshire.Wire.Reader.{read_int, read_full, ◌>>=◌}
use goshire.Bin.{JsonCodec}
use goshire.Bin.Decode.{decode_hello, decode_request, decode_shard_request}
use goshire.Bin.Layout.{IsSendable, request_bytes, delivered, shard_bytes}
use goshire.Bin.Hello.{hello_bytes, Reads-decode_hello}
use goshire.Bin.Reads.{Reads-decode_request}
use goshire.Bin.Takes.{Takes-decode_request, Outcome-cases}

-- How the connection ends: by an error of a decoder, EOF included, or by a panic, which ends the
-- server. `out_of_fuel` is none of these.
pub data End : Type 0 where
  failed : Error → End
  crashed : Fault → End
  out_of_fuel : End

module _ (json : JsonCodec) (router : Router) where
  -- The loop of handleConnection: the requests that it hands over, each with its controller.
  unfoldable pub serve : ℕ → Str → List (Request × Controller) × End
  serve zero s = ([], out_of_fuel)
  serve (suc n) s = elim (decode_request json s) [
    | ok p ↦ let rest = serve n p.1 in ((p.0, match router p.0.method p.0.uri) ∷ rest.0, rest.1)
    | err e ↦ ([], failed e)
    | panic p ↦ ([], crashed p)
  ]

  -- handleConnection. Every request takes a byte or more, so as many rounds as there are bytes and one
  -- more are enough.
  unfoldable pub handle_connection : Str → List (Request × Controller) × End
  handle_connection s = elim (decode_hello json s) [
    | ok p ↦ serve (suc (length p.1)) p.1
    | err e ↦ ([], failed e)
    | panic p ↦ ([], crashed p)
  ]

  -- One round of the loop.
  module _ (n : ℕ) (s : Str) where
    serve-ok :
        (r : Request) (s' : Str)
        → decode_request json s ≡ ok (r, s')
        → serve (suc n) s ≡ ((r, match router r.method r.uri) ∷ (serve n s').0, (serve n s').1)
    unfolding serve
    serve-ok r s' e = rw (e, serve) refl

    serve-err : (e : Error) → decode_request json s ≡ err e → serve (suc n) s ≡ ([], failed e)
    unfolding serve
    serve-err e h = rw (h, serve) refl

    serve-panic : (p : Fault) → decode_request json s ≡ panic p → serve (suc n) s ≡ ([], crashed p)
    unfolding serve
    serve-panic p h = rw (h, serve) refl

  serve_has_fuel : (n : ℕ) (s : Str) → length s < n → (serve n s).1 ≢ out_of_fuel
  serve_has_fuel zero s h = absurd (omega arith)
  serve_has_fuel (suc n) s h = elim (Outcome-cases (decode_request json s)) [
    | inl ((r, s'), e) ↦
        let shorter = (Takes-decode_request json).at s s' r e in
        λ p.
          serve_has_fuel n s' (omega (arith, shorter, h))
            (sym (ap (λ t. t.1) (serve-ok n s r s' e)) ∙ p)
    | inr (inl (e, g)) ↦ λ p. cc (serve-err n s e g, p)
    | inr (inr (f, g)) ↦ λ p. cc (serve-panic n s f g, p)
  ]

  module _ (s : Str) where
    handle-ok :
        (m : Fields) (s' : Str)
        → decode_hello json s ≡ ok (m, s')
        → handle_connection s ≡ serve (suc (length s')) s'
    unfolding handle_connection
    handle-ok m s' e = rw (e, handle_connection) refl

    handle-err : (e : Error) → decode_hello json s ≡ err e → handle_connection s ≡ ([], failed e)
    unfolding handle_connection
    handle-err e h = rw (h, handle_connection) refl

    handle-panic :
        (p : Fault) → decode_hello json s ≡ panic p → handle_connection s ≡ ([], crashed p)
    unfolding handle_connection
    handle-panic p h = rw (h, handle_connection) refl

  -- Whatever the peer sends, the connection ends by itself: with an error of a decoder or a panic, and
  -- never because the rounds that the model allows are used up.
  pub connection_ends : (s : Str) → (handle_connection s).1 ≢ out_of_fuel
  connection_ends s = elim (Outcome-cases (decode_hello json s)) [
    | inl ((m, s'), e) ↦ λ p.
        serve_has_fuel (suc (length s')) s' (omega arith)
          (sym (ap (λ t. t.1) (handle-ok s m s' e)) ∙ p)
    | inr (inl (e, g)) ↦ λ p. cc (handle-err s e g, p)
    | inr (inr (f, g)) ↦ λ p. cc (handle-panic s f g, p)
  ]

-- Requests that can be sent, one after the other.
abbrev pub Queue : JsonCodec → Type 0
Queue json = List ((r : Request) × IsSendable json r)

abbrev pub queue_bytes : {json : JsonCodec} → Queue json → Str
queue_bytes [] = []
queue_bytes ((r, h) ∷ q) = request_bytes r h ++ queue_bytes q

-- What the connection hands over for them.
abbrev pub handed_over : {json : JsonCodec} → Router → Queue json → List (Request × Controller)
handed_over router [] = []
handed_over router ((r, h) ∷ q) =
    (delivered r h, match router r.method r.uri) ∷ handed_over router q

length-queue_bytes : {json : JsonCodec} (q : Queue json) → length q ≤ length (queue_bytes q)
length-queue_bytes [] = omega arith
length-queue_bytes ((r, h) ∷ q) = omega (
  arith,
  length-queue_bytes q,
  length-append (request_bytes r h) (queue_bytes q),
  length-append (shard_bytes h.shard) _,
  length-append (encode_int 2 h.shard.partition) _,
  length-encode_int 2 h.shard.partition,
)

decode_request_end : (json : JsonCodec) → decode_request json [] ≡ err eof
unfolding decode_request decode_shard_request read_int read_full ◌>>=◌
decode_request_end json = refl

serve_queue :
    {json : JsonCodec} (router : Router) (n : ℕ) (q : Queue json)
    → length q < n
    → serve json router n (queue_bytes q) ≡ (handed_over router q, failed eof)
serve_queue router zero q l = absurd (omega arith)
serve_queue {json} router (suc n) [] l = serve-err json router n [] eof (decode_request_end json)
serve_queue {json} router (suc n) ((r, h) ∷ q) l =
    serve-ok json router n _ (delivered r h) (queue_bytes q)
      ((Reads-decode_request r h).at (queue_bytes q))
    ∙ ap (λ t. ((delivered r h, match router r.method r.uri) ∷ t.0, t.1))
        (serve_queue router n q (omega arith))

-- Where the peer sends a hello and then any number of requests that can be sent, and closes, the
-- connection hands every one of them over, in the order in which they were sent, each as it is
-- delivered and with the controller that the router has for its method and uri; then it ends at EOF.
pub connection_serves :
    {json : JsonCodec} (router : Router) (body : Str) (m : Fields) (q : Queue json)
    → length body < half 2
    → json.unmarshal end body ≡ some m
    → handle_connection json router (hello_bytes body ++ queue_bytes q)
      ≡ (handed_over router q, failed eof)
connection_serves {json} router body m q fits e =
    handle-ok json router _ m (queue_bytes q)
      ((Reads-decode_hello json body m fits e).at (queue_bytes q))
    ∙ serve_queue router (suc (length (queue_bytes q))) q (omega (arith, length-queue_bytes q))
