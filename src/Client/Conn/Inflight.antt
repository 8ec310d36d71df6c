-- ===== src/Client/Conn/Inflight.antt =====
-- The places on inflightChan: every call that is under way holds one, so the event loop never waits
-- when it gives one back.
use goshire.Base.{
  none, ◌∙◌, ℕ, suc, ◌+◌, ◌≤◌, ◌≡◌, refl, List, [], ◌∷◌, some, length, length-append, arith,
  Option-cases, inl, inr, ap,
}
use goshire.Text.{Str}
use goshire.Client.Conn.{
  Call, Reply, Conn, find, forget, remember, start_request, enqueue, take_place, give_up,
  on_response, on_outgoing, cleanup, Insert, here, there, Step, takes_place, starts, enqueues,
  gives_up, responds, writes, exits, cleans, Reach, start, next, new_conn,
}

length-Insert : {x : Call} {xs ys : List Call} → Insert x xs ys → length ys ≡ suc (length xs)
length-Insert here = refl
length-Insert (there i) = ap suc (length-Insert i)

length-forget :
    (id : Str) (cs : List Call) (c : Call)
    → find id cs ≡ some c
    → length cs ≡ suc (length (forget id cs))
unfolding find forget
length-forget id [] c h = cc h
length-forget id (d ∷ cs) c h = ground (arith, length-forget id cs c)

length-remember : (d : Call) (cs : List Call) → length (remember d cs) ≤ suc (length cs)
unfolding remember
length-remember d [] = omega arith
length-remember d (c ∷ cs) = ground (arith, length-remember d cs)

-- Every call under way holds a place, and the places are within the bound.
pub record HasPlaces (k : Conn) : Type 0 where
  pub held :
      length k.starting + length k.sending + length k.outgoing + length k.requests ≤ k.inflight
  pub bounded : k.inflight ≤ k.max_in_flight

on_response-HasPlaces :
    (k k' : Conn) (r : Reply) → on_response k r ≡ some k' → HasPlaces k → HasPlaces k'
unfolding on_response
on_response-HasPlaces k k' r e h = elim (Option-cases (find r.txn_id k.requests)) [
  | inl unknown ↦ ground (arith, unknown)
  | inr (c, known) ↦ ground (arith, known, length-forget r.txn_id k.requests c known)
]

Step-HasPlaces : {k k' : Conn} → Step k k' → HasPlaces k → HasPlaces k'
unfolding start_request enqueue take_place give_up on_outgoing cleanup
Step-HasPlaces (takes_place c room) h = ground arith
Step-HasPlaces (starts c rest i) h = ground (arith, length-Insert i)
Step-HasPlaces {k} (enqueues c rest i room) h =
    ground (arith, length-Insert i, length-append k.outgoing (c ∷ []))
Step-HasPlaces (gives_up caller) h = ground arith
Step-HasPlaces {k} (responds r k' up e) h = on_response-HasPlaces k k' r e h
Step-HasPlaces {k} (writes c rest up e) h =
    ground (arith, length-remember c k.requests, ap length e)
Step-HasPlaces (exits up) h = ground arith
Step-HasPlaces (cleans down fresh) h = ground arith

pub Reach-HasPlaces : {k k' : Conn} → Reach k k' → HasPlaces k → HasPlaces k'
Reach-HasPlaces start h = h
Reach-HasPlaces (next r s) h = Step-HasPlaces s (Reach-HasPlaces r h)

new_conn-HasPlaces : (max : ℕ) → HasPlaces (new_conn max)
new_conn-HasPlaces max = ground arith

max_in_flight-Step : {k k' : Conn} → Step k k' → k'.max_in_flight ≡ k.max_in_flight
unfolding start_request enqueue take_place give_up on_outgoing cleanup on_response
max_in_flight-Step (takes_place c room) = refl
max_in_flight-Step {k} (starts c rest i) = ground arith
max_in_flight-Step (enqueues c rest i room) = refl
max_in_flight-Step (gives_up caller) = refl
max_in_flight-Step {k} (responds r k' up e) = elim (Option-cases (find r.txn_id k.requests)) [
  | inl unknown ↦ ground (arith, unknown)
  | inr (c, known) ↦ ground (arith, known)
]
max_in_flight-Step (writes c rest up e) = refl
max_in_flight-Step (exits up) = refl
max_in_flight-Step (cleans down fresh) = refl

max_in_flight-Reach : {k k' : Conn} → Reach k k' → k'.max_in_flight ≡ k.max_in_flight
max_in_flight-Reach start = refl
max_in_flight-Reach (next r s) = max_in_flight-Step s ∙ max_in_flight-Reach r

on_response_never_waits : (k : Conn) (r : Reply) → HasPlaces k → ¬ (on_response k r ≡ none)
unfolding on_response
on_response_never_waits k r h = elim (Option-cases (find r.txn_id k.requests)) [
  | inl unknown ↦ ground (arith, unknown)
  | inr (c, known) ↦ ground (arith, known, length-forget r.txn_id k.requests c known)
]

on_response_total : (k : Conn) (r : Reply) → HasPlaces k → (k' : Conn) × (on_response k r ≡ some k')
on_response_total k r h = elim (Option-cases (on_response k r)) [
  | inl waits ↦ absurd (on_response_never_waits k r h waits)
  | inr goes_on ↦ goes_on
]

-- At any time in the life of a connection, at most MaxInFlight places are taken, every call under
-- way holds one, and whatever response arrives, the event loop goes on: it never waits for ever on
-- inflightChan.
pub event_loop_goes_on :
    (max : ℕ) {k : Conn} (r : Reply)
    → Reach (new_conn max) k
    → HasPlaces k × (k.max_in_flight ≡ max) × ((k' : Conn) × (on_response k r ≡ some k'))
event_loop_goes_on max {k} r reach =
    let places = Reach-HasPlaces reach (new_conn-HasPlaces max) in
    (places, max_in_flight-Reach reach, on_response_total k r places)
