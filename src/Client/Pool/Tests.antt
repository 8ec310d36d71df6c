-- ===== src/Client/Pool/Tests.antt =====
-- The theorems about the pool at small runs.
use goshire.Base.{true, refl, ◌∷◌, [], arith}
use goshire.Client.Pool.{
  replacement, Pool, plain, start_borrow, receive, start_return, finish_send, here, Step,
  starts_borrow, receives, returns, Reach, start, next,
}
use goshire.Client.Pool.Slots.{send_never_waits}
use goshire.Client.Pool.Count.{IsAccounted, Reach-IsAccounted}
use goshire.Client.Pool.Leak.{IsLeaked, late_send_leaks}
use goshire.Client.Pool.Build.{with_clients}

abbrev full : Pool
full = with_clients 2 (10 ∷ 11 ∷ [])

abbrev lent : Pool
lent = record full { clients = 11 ∷ []; borrowed = 10 ∷ [] }

abbrev returning : Pool
returning = record lent { borrowed = []; returning = plain 10 ∷ [] }

to_lent : Reach full lent
unfolding start_borrow receive
to_lent = next (next start starts_borrow) receives

to_returning : Reach full returning
unfolding start_return
to_returning = next to_lent (returns 10 [] here)

full-IsAccounted : IsAccounted full
full-IsAccounted c = ground arith

Reach-IsAccounted_example : IsAccounted returning
Reach-IsAccounted_example = Reach-IsAccounted full-IsAccounted to_returning

send_never_waits_example : Step returning (finish_send returning (plain 10) [])
send_never_waits_example = send_never_waits (plain 10) [] (omega arith) to_returning here

abbrev closed : Pool
closed = record returning { shutdown = true; clients = []; cleaned = 11 ∷ [] }

late_send_leaks_example : IsLeaked 10 (finish_send closed (plain 10) [])
late_send_leaks_example = late_send_leaks closed (plain 10) [] refl refl refl here start

-- A ReturnBroken whose Create ends after the shutdown.
abbrev broken : Pool
broken = record lent { borrowed = []; replacing = 10 ∷ [] }

abbrev made_late : Pool
made_late = record broken {
  shutdown = true;
  closing = true;
  replacing = [];
  returning = replacement 12 10 ∷ [];
  created = 12 ∷ 10 ∷ 11 ∷ [];
}
