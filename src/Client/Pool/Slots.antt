-- ===== src/Client/Pool/Slots.antt =====
-- The slots of the channel: there is always room for what is borrowed or being returned, so no send
-- on the channel ever waits, and no connection is lost sight of.
use goshire.Base.{ap, suc, ◌+◌, ◌≤◌, ◌≡◌, refl, List, [], ◌∷◌, length, length-append, arith}
use goshire.Client.Pool.{
  Pool, Sending, sent, start_borrow, receive, time_out, start_return, start_return_broken,
  finish_send, start_close, close_round, Insert, here, there, Step, starts_borrow, receives,
  times_out, returns, returns_broken, creates, finish_create, sends, closes, drains, Reach, start,
  next,
}

-- What is borrowed, being returned and being replaced fits into the channel beside what is in it.
abbrev pub HasSlots : Pool → Type 0
HasSlots p = length p.clients + length p.borrowed + length p.returning + length p.replacing ≤ p.size

length-Insert : {A : Type 0} {x : A} {xs ys : List A} → Insert x xs ys → length ys ≡ suc (length xs)
length-Insert here = refl
length-Insert (there i) = ap suc (length-Insert i)

Step-HasSlots : {p q : Pool} → Step p q → HasSlots p → HasSlots q
unfolding start_borrow receive time_out start_return start_return_broken finish_create finish_send
    start_close close_round
Step-HasSlots starts_borrow h = ground arith
Step-HasSlots receives h = ground arith
Step-HasSlots times_out h = ground arith
Step-HasSlots (returns c rest i) h = ground (arith, length-Insert i)
Step-HasSlots (returns_broken c rest i) h = ground (arith, length-Insert i)
Step-HasSlots (creates c rest fresh i) h = ground (arith, length-Insert i)
Step-HasSlots {p} (sends s rest i room) h =
    ground (arith, length-Insert i, length-append p.clients (sent s ∷ []))
Step-HasSlots (closes e) h = h
Step-HasSlots (drains e) h = ground arith

pub Reach-HasSlots : {p q : Pool} → Reach p q → HasSlots p → HasSlots q
Reach-HasSlots start h = h
Reach-HasSlots (next r s) h = Step-HasSlots s (Reach-HasSlots r h)

size-Step : {p q : Pool} → Step p q → q.size ≡ p.size
unfolding start_borrow receive time_out start_return start_return_broken finish_create finish_send
    start_close close_round
size-Step starts_borrow = ground arith
size-Step receives = ground arith
size-Step times_out = ground arith
size-Step (returns c rest i) = ground arith
size-Step (returns_broken c rest i) = ground arith
size-Step (creates c rest fresh i) = ground arith
size-Step (sends s rest i room) = refl
size-Step (closes e) = refl
size-Step (drains e) = ground arith

-- From a pool whose slots suffice, whatever the goroutines do: wherever a send on the channel is
-- under way the channel has room for it, so Return and ReturnBroken never wait.
pub send_never_waits :
    {p q : Pool} (s : Sending) (rest : List Sending)
    → HasSlots p
    → Reach p q
    → Insert s rest q.returning
    → Step q (finish_send q s rest)
send_never_waits s rest h r i = sends s rest i (omega (arith, Reach-HasSlots r h, length-Insert i))
