-- ===== src/Client/Pool/Count.antt =====
-- Where every connection is: counts over the lists of a pool.
use goshire.Base.{ℕ, ◌+◌, ◌==◌, ◌≡◌, refl, List, [], ◌∷◌, ◌++◌, arith, if◌then◌else◌}
use goshire.Client.Pool.{
  Pool, Sending, plain, replacement, sent, after_send, start_borrow, receive, time_out,
  start_return, start_return_broken, finish_send, start_close, close_round, Insert, here, there,
  Step, starts_borrow, receives, times_out, returns, returns_broken, creates, finish_create, sends,
  closes, drains, Reach, start, next,
}

abbrev pub occurs : ℕ → List ℕ → ℕ
occurs c [] = 0
occurs c (d ∷ ds) = (if c == d then 1 else 0) + occurs c ds

-- A send under way holds the connection that it sends and the one that it cleans up afterwards.
abbrev pub occurs_sending : ℕ → List Sending → ℕ
occurs_sending c [] = 0
occurs_sending c (s ∷ ss) = occurs c (sent s ∷ after_send s) + occurs_sending c ss

-- Every connection that was created is in the channel, borrowed, being returned, being replaced or
-- cleaned up, and in one of these places only.
abbrev pub IsAccounted : Pool → Type 0
IsAccounted p =
    (c : ℕ)
    → occurs c p.created
      ≡ occurs c p.clients
        + occurs c p.borrowed
        + occurs_sending c p.returning
        + occurs c p.replacing
        + occurs c p.cleaned

pub occurs-append : (c : ℕ) (xs ys : List ℕ) → occurs c (xs ++ ys) ≡ occurs c xs + occurs c ys
occurs-append c [] ys = omega arith
occurs-append c (x ∷ xs) ys = omega (arith, occurs-append c xs ys)

pub occurs-Insert :
    (c : ℕ) {x : ℕ} {xs ys : List ℕ} → Insert x xs ys → occurs c ys ≡ occurs c (x ∷ xs)
occurs-Insert c here = refl
occurs-Insert c (there i) = omega (arith, occurs-Insert c i)

pub occurs_sending-Insert :
    (c : ℕ) {s : Sending} {xs ys : List Sending}
    → Insert s xs ys
    → occurs_sending c ys ≡ occurs_sending c (s ∷ xs)
occurs_sending-Insert c here = refl
occurs_sending-Insert c (there i) = omega (arith, occurs_sending-Insert c i)

Step-IsAccounted : {p q : Pool} → Step p q → IsAccounted p → IsAccounted q
unfolding start_borrow receive time_out start_return start_return_broken finish_create finish_send
    start_close close_round
Step-IsAccounted starts_borrow h c = ground (arith, h c)
Step-IsAccounted receives h c = ground (arith, h c)
Step-IsAccounted times_out h c = ground (arith, h c)
Step-IsAccounted (returns d rest i) h c = ground (arith, h c, occurs-Insert c i)
Step-IsAccounted (returns_broken d rest i) h c = ground (arith, h c, occurs-Insert c i)
Step-IsAccounted (creates d rest fresh i) h c = ground (arith, h c, occurs-Insert c i)
Step-IsAccounted {p} (sends (plain d) rest i room) h c =
    omega (arith, h c, occurs_sending-Insert c i, occurs-append c p.clients (d ∷ []))
Step-IsAccounted {p} (sends (replacement d e) rest i room) h c =
    omega (arith, h c, occurs_sending-Insert c i, occurs-append c p.clients (d ∷ []))
Step-IsAccounted (closes e) h c = h c
Step-IsAccounted (drains e) h c = ground (arith, h c)

-- Whatever the goroutines do, no connection is lost or counted twice: each that was created is in
-- the channel, borrowed, being returned, being replaced or handed to Cleanup, as often as it was
-- created.
pub Reach-IsAccounted : {p q : Pool} → IsAccounted p → Reach p q → IsAccounted q
Reach-IsAccounted h start = h
Reach-IsAccounted h (next r s) = Step-IsAccounted s (Reach-IsAccounted h r)
