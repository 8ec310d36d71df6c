-- ===== src/Client/Pool/Leak.antt =====
-- A Return that tested `shutdown` before Close and sends after Close has drained the channel.
use goshire.Base.{ℕ, ◌<◌, ◌≡◌, List, true, false, arith, ◌∷◌, []}
use goshire.Client.Pool.{
  Pool, Sending, sent, start_borrow, receive, time_out, start_return, start_return_broken,
  finish_send, start_close, close_round, Insert, Step, starts_borrow, receives, times_out, returns,
  returns_broken, creates, finish_create, sends, closes, drains, Reach, start, next,
}
use goshire.Client.Pool.Count.{occurs, occurs-append}

-- The pool is closed, its loop of Close has ended, no Borrow waits, and the channel holds the
-- connection.
pub record IsLeaked (c : ℕ) (p : Pool) : Type 0 where
  pub down : p.shutdown ≡ true
  pub ended : p.closing ≡ false
  pub nobody : p.waiting ≡ 0
  pub stays : 0 < occurs c p.clients

Step-IsLeaked : {p q : Pool} (c : ℕ) → Step p q → IsLeaked c p → IsLeaked c q
unfolding start_borrow receive time_out start_return start_return_broken finish_create finish_send
    start_close close_round
Step-IsLeaked c starts_borrow h = ground arith
Step-IsLeaked c receives h = ground arith
Step-IsLeaked c times_out h = ground arith
Step-IsLeaked c (returns d rest i) h = ground arith
Step-IsLeaked c (returns_broken d rest i) h = ground arith
Step-IsLeaked c (creates d rest fresh i) h = ground arith
Step-IsLeaked {p} c (sends s rest i room) h = record {
  down = h.down;
  ended = h.ended;
  nobody = h.nobody;
  stays = omega (arith, h.stays, occurs-append c p.clients (sent s ∷ []));
}
Step-IsLeaked c (closes e) h = cc (e, h.down)
Step-IsLeaked c (drains e) h = cc (e, h.ended)

Reach-IsLeaked : {p q : Pool} (c : ℕ) → IsLeaked c p → Reach p q → IsLeaked c q
Reach-IsLeaked c h start = h
Reach-IsLeaked c h (next r s) = Step-IsLeaked c s (Reach-IsLeaked c h r)

-- A connection whose send comes after the loop of Close has ended, when no Borrow waits any more,
-- stays in the channel of the closed pool for ever: no later step of any goroutine takes it out, so it
-- is never cleaned up.
pub late_send_leaks :
    {q : Pool} (p : Pool) (s : Sending) (rest : List Sending)
    → p.shutdown ≡ true
    → p.closing ≡ false
    → p.waiting ≡ 0
    → Insert s rest p.returning
    → Reach (finish_send p s rest) q
    → IsLeaked (sent s) q
late_send_leaks p s rest down ended nobody i r = Reach-IsLeaked (sent s) leaked r
  where
    leaked : IsLeaked (sent s) (finish_send p s rest)
    leaked =
        unfold finish_send in
        record {
          down = down;
          ended = ended;
          nobody = nobody;
          stays = ground (arith, occurs-append (sent s) p.clients (sent s ∷ []));
        }
