-- ===== src/Client/Conn/Answers.antt =====
-- What the event loop of client/connection.go tells the caller of a response, and what it does to the
-- other requests.
use goshire.Base.{ℕ, if◌then◌else◌, arith, Option-cases, suc, some, none, false, inr, inl, ◌∷◌, ◌≡◌}
use goshire.Text.{Str, str_eq}
use goshire.Client.Conn.{
  Call, Reply, Conn, result, find, start_request, enqueue, take_place, give_up, on_response,
  on_outgoing, cleanup, is_completed, Step, takes_place, starts, enqueues, gives_up, responds,
  writes, exits, cleans, Reach, start, next, new_conn,
}
use goshire.Client.Conn.Requests.{
  IsKeyed, IsKeyed-forget, IsKeyed-remember, find-forget_other, find-forget_self,
}

on_response-IsKeyed :
    (k k' : Conn) (r : Reply) → on_response k r ≡ some k' → IsKeyed k.requests → IsKeyed k'.requests
unfolding on_response
on_response-IsKeyed k k' r e u = elim (Option-cases (find r.txn_id k.requests)) [
  | inl unknown ↦ ground (arith, unknown)
  | inr (c, known) ↦ ground (arith, known, IsKeyed-forget r.txn_id k.requests u)
]

Step-IsKeyed : {k k' : Conn} → Step k k' → IsKeyed k.requests → IsKeyed k'.requests
unfolding start_request enqueue take_place give_up on_outgoing cleanup
Step-IsKeyed (takes_place c room) u = u
Step-IsKeyed (starts c rest i) u = ground (arith, u)
Step-IsKeyed (enqueues c rest i room) u = u
Step-IsKeyed (gives_up caller) u = u
Step-IsKeyed {k} (responds r k' up e) u = on_response-IsKeyed k k' r e u
Step-IsKeyed {k} (writes c rest up e) u = IsKeyed-remember c k.requests u
Step-IsKeyed (exits up) u = u
Step-IsKeyed (cleans down fresh) u = ground arith

pub Reach-IsKeyed : {k k' : Conn} → Reach k k' → IsKeyed k.requests → IsKeyed k'.requests
Reach-IsKeyed start u = u
Reach-IsKeyed (next r s) u = Step-IsKeyed s (Reach-IsKeyed r u)

-- What the handling of a response to a known request leaves.
pub record IsAnswered (k k' : Conn) (c : Call) (r : Reply) : Type 0 where
  pub told : k'.events ≡ result c.caller r ∷ k.events
  pub known : find r.txn_id k'.requests ≡ (if is_completed r then none else some c)
  pub untouched : (id : Str) → str_eq r.txn_id id ≡ false → find id k'.requests ≡ find id k.requests
  pub places : k.inflight ≡ (if is_completed r then suc k'.inflight else k'.inflight)

is_answered :
    (k k' : Conn) (c : Call) (r : Reply)
    → IsKeyed k.requests
    → find r.txn_id k.requests ≡ some c
    → on_response k r ≡ some k'
    → IsAnswered k k' c r
unfolding on_response
is_answered k k' c r u known e = record {
  told = ground (arith, known);
  known = ground (arith, known, find-forget_self r.txn_id k.requests u);
  untouched = λ id other. ground (arith, known, find-forget_other r.txn_id id k.requests other);
  places = ground (arith, known);
}

-- A response to a txn id that a request is remembered under is sent to that request's caller and to
-- no other. If its status is `completed` the request is forgotten and one place on inflightChan is
-- given back, else the request and the places stay. The requests under other txn ids are untouched.
pub response_answers :
    (max : ℕ) {k : Conn} (k' : Conn) (c : Call) (r : Reply)
    → Reach (new_conn max) k
    → find r.txn_id k.requests ≡ some c
    → on_response k r ≡ some k'
    → IsAnswered k k' c r
response_answers max {k} k' c r reach known e =
    is_answered k k' c r (Reach-IsKeyed reach tt) known e
