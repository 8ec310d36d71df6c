-- ===== src/Client/Conn/Closing.antt =====
-- What the callers of a connection of client/connection.go are told when it closes, and what they are
-- not told.
use goshire.Base.{
  ◌∙◌, ◌==◌, ◌<◌, ◌+◌, ◌++◌, if◌then◌else◌, arith, ℕ, List, false, true, refl, ◌∷◌, [], ◌≡◌,
}
use goshire.Text.{str_eq}
use goshire.Client.Conn.{
  Call, Conn, Event, result, failure, failures, push_all, start_request, enqueue, take_place,
  give_up, on_outgoing, cleanup, Insert, Step, takes_place, starts, enqueues, gives_up, responds,
  writes, exits, cleans, Reach, start, next,
}
use goshire.Client.Conn.Requests.{remember-remember}

-- How many of the calls are the caller's.
abbrev pub calls_of : ℕ → List Call → ℕ
calls_of n [] = 0
calls_of n (c ∷ cs) = (if c.caller == n then 1 else 0) + calls_of n cs

-- How many failures the caller was told.
abbrev pub failed : ℕ → List Event → ℕ
failed n [] = 0
failed n (result m r ∷ es) = failed n es
failed n (failure m ∷ es) = (if m == n then 1 else 0) + failed n es

-- How many responses the caller was sent.
abbrev pub answered : ℕ → List Event → ℕ
answered n [] = 0
answered n (result m r ∷ es) = (if m == n then 1 else 0) + answered n es
answered n (failure m ∷ es) = answered n es

failed-push_all :
    (n : ℕ) (cs : List Call) (es : List Event)
    → failed n (push_all (failures cs) es) ≡ calls_of n cs + failed n es
failed-push_all n [] es = omega arith
failed-push_all n (c ∷ cs) es = omega (arith, failed-push_all n cs (failure c.caller ∷ es))

answered-push_all :
    (n : ℕ) (cs : List Call) (es : List Event)
    → answered n (push_all (failures cs) es) ≡ answered n es
answered-push_all n [] es = refl
answered-push_all n (c ∷ cs) es = answered-push_all n cs (failure c.caller ∷ es)

-- The cleanup of a connection tells each caller one failure for each of its calls that is in
-- outgoingChan or in the map of requests, sends nobody a response, and leaves both empty. It gives no
-- place on inflightChan back.
cleanup_tells :
    (k : Conn) (n : ℕ)
    → (failed n (cleanup k).events
        ≡ failed n k.events + calls_of n k.outgoing + calls_of n k.requests)
      × (answered n (cleanup k).events ≡ answered n k.events)
      × ((cleanup k).outgoing ≡ [])
      × ((cleanup k).requests ≡ [])
      × ((cleanup k).inflight ≡ k.inflight)
unfolding cleanup
cleanup_tells k n =
    let inner : List Event = push_all (failures k.outgoing) k.events in
    (
      omega (arith, failed-push_all n k.requests inner, failed-push_all n k.outgoing k.events),
      answered-push_all n k.requests inner ∙ answered-push_all n k.outgoing k.events,
      refl,
      refl,
      refl,
    )

-- Where two requests are sent one after the other under one txn id, the first one is lost: the map of
-- requests is as if only the second had been sent, and nobody is told. Its place on inflightChan
-- stays taken.
reused_txn_id :
    (k : Conn) (c d : Call) (rest rest' : List Call)
    → str_eq c.txn_id d.txn_id ≡ true
    → ((on_outgoing (on_outgoing k c rest) d rest').requests ≡ (on_outgoing k d rest').requests)
      × ((on_outgoing (on_outgoing k c rest) d rest').events ≡ k.events)
      × ((on_outgoing (on_outgoing k c rest) d rest').inflight ≡ k.inflight)
unfolding on_outgoing
reused_txn_id k c d rest rest' same = (remember-remember c d k.requests same, refl, refl)

-- The connection is closed and cleaned up, a call of the caller is in outgoingChan, and the caller
-- was sent `m` responses.
pub record IsStranded (n m : ℕ) (k : Conn) : Type 0 where
  pub down : k.connected ≡ false
  pub ended : k.cleaned ≡ true
  pub stays : 0 < calls_of n k.outgoing
  pub silent : answered n k.events ≡ m

calls_of-append :
    (n : ℕ) (xs ys : List Call) → calls_of n (xs ++ ys) ≡ calls_of n xs + calls_of n ys
calls_of-append n [] ys = omega arith
calls_of-append n (x ∷ xs) ys = omega (arith, calls_of-append n xs ys)

Step-IsStranded : {k k' : Conn} (n m : ℕ) → Step k k' → IsStranded n m k → IsStranded n m k'
unfolding start_request enqueue take_place give_up on_outgoing cleanup
Step-IsStranded n m (takes_place c room) h = ground arith
Step-IsStranded n m (starts c rest i) h = ground arith
Step-IsStranded {k} n m (enqueues c rest i room) h = record {
  down = h.down;
  ended = h.ended;
  stays = omega (arith, h.stays, calls_of-append n k.outgoing (c ∷ []));
  silent = h.silent;
}
Step-IsStranded n m (gives_up caller) h = ground arith
Step-IsStranded n m (responds r k' up e) h = cc (up, h.down)
Step-IsStranded n m (writes c rest up e) h = cc (up, h.down)
Step-IsStranded n m (exits up) h = cc (up, h.down)
Step-IsStranded n m (cleans down fresh) h = cc (fresh, h.ended)

Reach-IsStranded : {k k' : Conn} (n m : ℕ) → IsStranded n m k → Reach k k' → IsStranded n m k'
Reach-IsStranded n m h start = h
Reach-IsStranded n m h (next r s) = Step-IsStranded n m s (Reach-IsStranded n m h r)

-- A call that tested that the connection is connected, and whose send on outgoingChan comes after
-- the cleanup, is stranded: whatever the goroutines do later, its request stays in outgoingChan, and
-- its caller is sent no further response.
pub late_call-IsStranded :
    {k' : Conn} (k : Conn) (c : Call) (rest : List Call)
    → k.connected ≡ false
    → k.cleaned ≡ true
    → Insert c rest k.sending
    → Reach (enqueue k c rest) k'
    → IsStranded c.caller (answered c.caller k.events) k'
late_call-IsStranded k c rest down ended i r =
    Reach-IsStranded c.caller (answered c.caller k.events) stranded r
  where
    stranded : IsStranded c.caller (answered c.caller k.events) (enqueue k c rest)
    stranded =
        unfold enqueue in
        record {
          down = down;
          ended = ended;
          stays = ground (arith, calls_of-append c.caller k.outgoing (c ∷ []));
          silent = refl;
        }
