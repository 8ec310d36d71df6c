-- ===== src/Client/Api.antt =====
-- client/client.go: the JsonClient over its pool, which NewBin makes too. The n-th call of Borrow is
-- given by what it returns, since other goroutines borrow and return between two calls.
pub mod Attempts
use goshire.Base.{
  ℕ, zero, suc, ◌+◌, ◌*◌, ◌/◌, ◌==◌, ltb, List, [], ◌∷◌, Option, none, some, length, if◌then◌else◌,
}
use goshire.Text.{Str}

-- What `connection` returns. The `err` of Borrow is declared anew inside the loop, so it is never the
-- error that is returned.
pub data Found : Type 0 where
  got : ℕ → Found
  unable : Found

-- The inner loop of `connection`: `n` calls of Borrow are left, and call number `k` is the next. The
-- results are the connection, and the number of the next call.
unfoldable pub try_pool : (ℕ → Option ℕ) → ℕ → ℕ → Option ℕ × ℕ
try_pool borrow zero k = (none, k)
try_pool borrow (suc n) k = elim (borrow k) [
  | some c ↦ (some c, suc k)
  | none ↦ try_pool borrow n (suc k)
]

-- The outer loop, with the number of pauses so far. It pauses after the last round too.
unfoldable pub try_rounds : (ℕ → Option ℕ) → ℕ → ℕ → ℕ → ℕ → Found × ℕ × ℕ
try_rounds borrow pool_size zero k pauses = (unable, k, pauses)
try_rounds borrow pool_size (suc x) k pauses = elim (try_pool borrow pool_size k).0 [
  | some c ↦ (got c, (try_pool borrow pool_size k).1, pauses)
  | none ↦ try_rounds borrow pool_size x (try_pool borrow pool_size k).1 (suc pauses)
]

-- connection: what it returns, the number of calls of Borrow, and the number of pauses.
unfoldable pub connection : (ℕ → Option ℕ) → ℕ → ℕ → Found × ℕ × ℕ
connection borrow retries pool_size = try_rounds borrow pool_size retries 0 0

-- maxInFlightPer of Connect; `none` is the panic of the division by a PoolSize of 0.
unfoldable pub max_in_flight_per : ℕ → ℕ → Option ℕ
max_in_flight_per max_in_flight pool_size =
    if pool_size == 0
    then none
    else let per = max_in_flight / pool_size in some (if ltb per 2 then 2 else per)

-- How a call gives its connection back.
pub data GivenBack : Type 0 where
  returned broken : ℕ → GivenBack

-- doApiCall: the txn id that the request is sent under, and how the connection is given back; `none`
-- where there was no connection. `sent c id` tells whether sendRequest on `c` succeeds.
unfoldable pub do_api_call : (ℕ → Str → Option Str) → Str → Str → Found → Option (Str × GivenBack)
do_api_call sent new_txn_id txn_id unable = none
do_api_call sent new_txn_id txn_id (got c) =
    let id = if length txn_id == 0 then new_txn_id else txn_id in
    elim (sent c id) [ none ↦ some (id, returned c) | some e ↦ some (id, broken c) ]
