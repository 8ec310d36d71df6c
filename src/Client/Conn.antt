-- ===== src/Client/Conn.antt =====
-- client/connection.go: one connection of the client. Its state is shared by the goroutines that call
-- sendRequest, the listener and the event loop; `Step` has one constructor for each thing that one of
-- them does while the others wait. A waiting call is a request with the txn id that it is sent under
-- and the number of the caller whose channels it holds. The send of a result to a caller's channel
-- does not wait here: a caller that never receives is not modelled.
pub mod Inflight
pub mod Requests
pub mod Answers
pub mod Closing
pub mod Tests
use goshire.Base.{
  ℕ, zero, suc, ◌+◌, ◌-◌, ◌<◌, ◌≡◌, List, [], ◌∷◌, ◌++◌, Bool, true, false, Option, none, some,
  length, if◌then◌else◌, map,
}
use goshire.Text.{Str, codes, str_eq}

-- cheshireRequest.
pub record Call : Type 0 where
  pub txn_id : Str
  pub caller : ℕ

-- What a response that the listener received says of its transaction.
pub record Reply : Type 0 where
  pub txn_id : Str
  pub txn_status : Str

-- What a caller is told: a response on its result channel, or an error, returned or on its error
-- channel.
pub data Event : Type 0 where
  result : ℕ → Reply → Event
  failure : ℕ → Event

pub record Conn : Type 0 where
  pub connected : Bool
  pub max_in_flight : ℕ
  -- The length of inflightChan.
  pub inflight : ℕ
  -- Calls of sendRequest between their send on inflightChan and their send on outgoingChan.
  pub starting : List Call
  -- Calls of sendRequest that have found the connection connected.
  pub sending : List Call
  -- outgoingChan, in order.
  pub outgoing : List Call
  -- requests: each txn id once.
  pub requests : List Call
  -- The deferred cleanup of the event loop has run.
  pub cleaned : Bool
  -- What the callers were told, the latest first.
  pub events : List Event

-- this.requests[id].
unfoldable pub find : Str → List Call → Option Call
find id [] = none
find id (c ∷ cs) = if str_eq c.txn_id id then some c else find id cs

-- delete(this.requests, id).
unfoldable pub forget : Str → List Call → List Call
forget id [] = []
forget id (c ∷ cs) = if str_eq c.txn_id id then cs else c ∷ forget id cs

-- this.requests[id] = request: a request under the same txn id is overwritten.
unfoldable pub remember : Call → List Call → List Call
remember d [] = d ∷ []
remember d (c ∷ cs) = if str_eq c.txn_id d.txn_id then d ∷ cs else c ∷ remember d cs

-- The test of sendRequest after its send on inflightChan: where it fails the place on inflightChan
-- stays taken. `rest` are the other calls that are starting.
unfoldable pub start_request : Conn → Call → List Call → Conn
start_request k c rest =
    if k.connected
    then record k { starting = rest; sending = c ∷ k.sending }
    else record k { starting = rest; events = failure c.caller ∷ k.events }

-- The send on outgoingChan; `rest` are the other calls that are sending.
unfoldable pub enqueue : Conn → Call → List Call → Conn
enqueue k c rest = record k { sending = rest; outgoing = k.outgoing ++ c ∷ [] }

-- The send on inflightChan.
unfoldable pub take_place : Conn → Call → Conn
take_place k c = record k { inflight = k.inflight + 1; starting = c ∷ k.starting }

-- sendRequest where inflightChan stayed full for a second: it closes the connection and fails. The
-- event loop receives from exitChan, if it runs.
unfoldable pub give_up : Conn → ℕ → Conn
give_up k caller = record k { connected = false; events = failure caller ∷ k.events }

abbrev pub is_completed : Reply → Bool
is_completed r = str_eq r.txn_status (codes "completed")

-- The first case of the event loop. `none`: the receive from inflightChan waits for ever.
unfoldable pub on_response : Conn → Reply → Option Conn
on_response k r = elim (find r.txn_id k.requests) [
  | none ↦ some k
  | some c ↦
      let k' : Conn = record k { events = result c.caller r ∷ k.events } in
      if is_completed r
      then (elim k.inflight [
        | zero ↦ none
        | suc n ↦ some (record k' { requests = forget r.txn_id k.requests; inflight = n })
      ])
      else some k'
]

-- The second case of the event loop. The write may fail: the error is logged, and the request stays.
unfoldable pub on_outgoing : Conn → Call → List Call → Conn
on_outgoing k c rest = record k { outgoing = rest; requests = remember c k.requests }

-- `v.errorChan <- err` for each of the calls, in order.
abbrev pub failures : List Call → List Event
failures [] = []
failures (c ∷ cs) = failure c.caller ∷ failures cs

abbrev pub push_all : List Event → List Event → List Event
push_all [] es = es
push_all (e ∷ more) es = push_all more (e ∷ es)

-- cleanup.
unfoldable pub cleanup : Conn → Conn
cleanup k = record k {
  outgoing = [];
  requests = [];
  cleaned = true;
  events = push_all (failures k.requests) (push_all (failures k.outgoing) k.events);
}

-- `xs` with `x` put in somewhere is `ys`.
pub data Insert (x : Call) : List Call → List Call → Type 0 where
  here : {xs : List Call} → Insert x xs (x ∷ xs)
  there : {y : Call} {xs ys : List Call} → Insert x xs ys → Insert x (y ∷ xs) (y ∷ ys)

-- outgoingChan holds 25 requests.
abbrev pub outgoing_cap : ℕ
outgoing_cap = 25

pub data Step (k : Conn) : Conn → Type 0 where
  -- sendRequest
  takes_place : (c : Call) → k.inflight < k.max_in_flight → Step k (take_place k c)
  starts :
      (c : Call) (rest : List Call) → Insert c rest k.starting → Step k (start_request k c rest)
  enqueues :
      (c : Call) (rest : List Call)
      → Insert c rest k.sending
      → length k.outgoing < outgoing_cap
      → Step k (enqueue k c rest)
  -- The channel was full for a second, but may have room again when the event loop receives.
  gives_up : (caller : ℕ) → Step k (give_up k caller)
  -- the event loop
  responds : (r : Reply) (k' : Conn) → k.connected ≡ true → on_response k r ≡ some k' → Step k k'
  writes :
      (c : Call) (rest : List Call)
      → k.connected ≡ true
      → k.outgoing ≡ c ∷ rest
      → Step k (on_outgoing k c rest)
  exits : k.connected ≡ true → Step k (record k { connected = false })
  cleans : k.connected ≡ false → k.cleaned ≡ false → Step k (cleanup k)

pub data Reach (k : Conn) : Conn → Type 0 where
  start : Reach k k
  next : {l m : Conn} → Reach k l → Step l m → Reach k m

-- newCheshireConn after the dial and the hello.
abbrev pub new_conn : ℕ → Conn
new_conn max_in_flight = record {
  connected = true;
  max_in_flight = max_in_flight;
  inflight = 0;
  starting = [];
  sending = [];
  outgoing = [];
  requests = [];
  cleaned = false;
  events = [];
}
