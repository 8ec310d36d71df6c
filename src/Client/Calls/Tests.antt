-- ===== src/Client/Calls/Tests.antt =====
-- The theorems about Connect and Close at a pool that is a number.
use goshire.Base.{arith, ◌≡◌, ◌+◌, some, none, true, refl, ℕ}
use goshire.Client.Calls.{
  JsonClient, new_json, connect, close_client, returned, nil_dereference, already_connected,
  no_pool,
}
use goshire.Client.Calls.Laws.{failed_connect_sticks}

abbrev client : JsonClient ℕ
client = new_json

abbrev close : ℕ → ℕ
close n = n + 100

failed_connect_sticks_example :
    (c' : JsonClient ℕ) × (connect 200 5 none client ≡ returned (some no_pool) c')
    × (connect 200 5 (some 1) c' ≡ returned (some already_connected) c')
    × (close_client close c' ≡ nil_dereference (record c' { shutdown = true }))
failed_connect_sticks_example =
    failed_connect_sticks 200 5 200 5 (some 1) close client (omega arith) refl refl
