-- ===== src/Client/Calls/Laws.antt =====
-- A JsonClient of client/client.go between Connect and Close.
use goshire.Client.Calls.{
  connected, JsonClient, connect, close_client, returned, nil_dereference, already_connected,
  no_pool,
}
use goshire.Client.Api.{max_in_flight_per}
use goshire.Base.{
  ◌/◌, ltb, if◌then◌else◌, arith, ◌≡◌, ◌<◌, Option, ℕ, some, none, false, true, refl,
}

-- The share of a connection, where there are connections.
share : ℕ → ℕ → ℕ
share max_in_flight pool_size =
    if ltb (max_in_flight / pool_size) 2 then 2 else max_in_flight / pool_size

max_in_flight-share :
    (max_in_flight pool_size : ℕ)
    → 0 < pool_size
    → max_in_flight_per max_in_flight pool_size ≡ some (share max_in_flight pool_size)
unfolding max_in_flight_per share
max_in_flight-share max_in_flight pool_size h = ground (arith, h)

module _ {P : Type 0} where
  -- Connect on a closed client with a pool size above 0.
  connect_closed :
      (max_in_flight pool_size : ℕ) (new_pool : Option P) (c : JsonClient P)
      → 0 < pool_size
      → c.shutdown ≡ true
      → connect max_in_flight pool_size new_pool c
        ≡ connected
            (record c { shutdown = false; max_in_flight_per = share max_in_flight pool_size })
            new_pool
  unfolding connect
  connect_closed max_in_flight pool_size new_pool c h shut =
      let s = max_in_flight-share max_in_flight pool_size h in ground (arith, shut, s)

  -- A Connect that cannot make its pool, on a client that never had one, leaves the client stuck: it
  -- returns an error, but every later Connect is refused as "called on connected client", whatever pool
  -- it could make, and Close uses a nil pool.
  pub failed_connect_sticks :
      (max_in_flight pool_size max' size' : ℕ) (new_pool : Option P) (close : P → P)
      (c : JsonClient P)
      → 0 < pool_size
      → c.shutdown ≡ true
      → c.pool ≡ none
      → (c' : JsonClient P) × (connect max_in_flight pool_size none c ≡ returned (some no_pool) c')
        × (connect max' size' new_pool c' ≡ returned (some already_connected) c')
        × (close_client close c' ≡ nil_dereference (record c' { shutdown = true }))
  failed_connect_sticks max_in_flight pool_size max' size' new_pool close c h shut empty = (
    record c { shutdown = false; max_in_flight_per = share max_in_flight pool_size },
    connect_closed max_in_flight pool_size none c h shut,
    unfold connect in refl,
    unfold close_client in ground (arith, empty),
  )

  -- Connect on a closed client, with a pool size above 0 and a pool that is made, and Close after it: the
  -- client is open on that pool, and then closed, with the pool closed once, and can connect again. A
  -- second Close changes nothing.
  close_client-connect :
      (max_in_flight pool_size : ℕ) (p : P) (close : P → P) (c : JsonClient P)
      → 0 < pool_size
      → c.shutdown ≡ true
      → (o s : JsonClient P) × (connect max_in_flight pool_size (some p) c ≡ returned none o)
        × (o.shutdown ≡ false)
        × (o.pool ≡ some p)
        × (close_client close o ≡ returned none s)
        × (s.shutdown ≡ true)
        × (s.pool ≡ some (close p))
        × (close_client close s ≡ returned none s)
  close_client-connect max_in_flight pool_size p close c h shut =
      let per = share max_in_flight pool_size in
      (
        record c { shutdown = false; pool = some p; max_in_flight_per = per },
        record c { shutdown = true; pool = some (close p); max_in_flight_per = per },
        connect_closed max_in_flight pool_size (some p) c h shut,
        refl,
        refl,
        unfold close_client in refl,
        refl,
        refl,
        unfold close_client in refl,
      )
