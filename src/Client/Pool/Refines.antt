-- ===== src/Client/Pool/Refines.antt =====
-- The steps of client/pool.go are moves of the ledger.
use goshire.Client.Pool.{returns, returns_broken, creates, sends, closes, drains, next, Step, Reach}
use goshire.Base.{true, ◌≡◌}
use goshire.Client.Pool.{
  drains, closes, creates, sends, returns_broken, returns, next, Step, Reach, Pool,
}

-- Only Close, which sets `shutdown`, starts the loop of Close.
abbrev pub IsShutByClose : Pool → Type 0
IsShutByClose p = p.closing ≡ true → p.shutdown ≡ true
