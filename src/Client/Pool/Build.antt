-- ===== src/Client/Pool/Build.antt =====
-- NewPool of client/pool.go.
use goshire.Base.{
  sym, subst, ℕ, zero, suc, ◌+◌, ◌<◌, ◌≡◌, refl, List, [], ◌∷◌, ◌++◌, false, Option, none, some,
  length, length-append, arith, Option-cases, inl, inr,
}
use goshire.Client.Pool.{Pool}

-- The pool, or the error of the first Create that failed, with what Close cleaned up before.
pub data Built : Type 0 where
  built : Pool → Built
  failed : List ℕ → Built

abbrev pub with_clients : ℕ → List ℕ → Pool
with_clients size clients = record {
  size = size;
  clients = clients;
  shutdown = false;
  closing = false;
  waiting = 0;
  borrowed = [];
  returning = [];
  replacing = [];
  cleaned = [];
  created = clients;
}

-- The loop of NewPool: `i` connections are made and `n` are left; `create i` is what call number
-- `i` of Create returns. Close takes the channel in its order.
unfoldable pub build_loop : (ℕ → Option ℕ) → ℕ → ℕ → ℕ → List ℕ → Built
build_loop create size i zero clients = built (with_clients size clients)
build_loop create size i (suc n) clients = elim (create i) [
  | none ↦ failed clients
  | some c ↦ build_loop create size (suc i) n (clients ++ c ∷ [])
]

-- NewPool.
unfoldable pub new_pool : (ℕ → Option ℕ) → ℕ → Built
new_pool create size = build_loop create size 0 size []

-- The list holds what the calls of Create returned, from call 0 on.
abbrev pub AreMade : (ℕ → Option ℕ) → ℕ → List ℕ → Type 0
AreMade create i [] = Unit
AreMade create i (c ∷ cs) = (create i ≡ some c) × AreMade create (suc i) cs

AreMade-append :
    (create : ℕ → Option ℕ) (i : ℕ) (cs : List ℕ) (c : ℕ)
    → AreMade create i cs
    → create (i + length cs) ≡ some c
    → AreMade create i (cs ++ c ∷ [])
AreMade-append create i [] c h e = (subst (λ n. create n ≡ some c) (omega arith) e, tt)
AreMade-append create i (d ∷ cs) c (h, hs) e =
    (h, AreMade-append create (suc i) cs c hs (subst (λ n. create n ≡ some c) (omega arith) e))

-- What NewPool promises: a full pool of connections that Create made, or the connections made
-- before the call that failed, all cleaned up.
abbrev pub Promised : (ℕ → Option ℕ) → ℕ → Built → Type 0
Promised create size (built p) =
    (length p.clients ≡ size)
    × (p.size ≡ size)
    × (p.shutdown ≡ false)
    × (p.waiting ≡ 0)
    × (p.borrowed ≡ [])
    × (p.returning ≡ [])
    × (p.replacing ≡ [])
    × AreMade create 0 p.clients
Promised create size (failed cs) =
    (length cs < size) × (create (length cs) ≡ none) × AreMade create 0 cs

-- One round of the loop, by what Create returns.
module _ (create : ℕ → Option ℕ) (size i n : ℕ) (cs : List ℕ) where
  build_fails : create i ≡ none → build_loop create size i (suc n) cs ≡ failed cs
  build_fails e = unfold build_loop in ground (arith, e)

  build_goes_on :
      (c : ℕ)
      → create i ≡ some c
      → build_loop create size i (suc n) cs ≡ build_loop create size (suc i) n (cs ++ c ∷ [])
  build_goes_on c e = unfold build_loop in ground (arith, e)

build_loop-Promised :
    (create : ℕ → Option ℕ) (size i n : ℕ) (cs : List ℕ)
    → length cs ≡ i
    → i + n ≡ size
    → AreMade create 0 cs
    → Promised create size (build_loop create size i n cs)
unfolding build_loop
build_loop-Promised create size i zero cs l e h =
    (omega arith, refl, refl, refl, refl, refl, refl, h)
build_loop-Promised create size i (suc n) cs l e h = elim (Option-cases (create i)) [
  | inl e' ↦
      subst (Promised create size) (sym (build_fails create size i n cs e'))
        (omega arith, subst (λ k. create k ≡ none) (sym l) e', h)
  | inr (c, e') ↦ subst (Promised create size) (sym (build_goes_on create size i n cs c e')) (
      build_loop-Promised create size (suc i) n (cs ++ c ∷ [])
        (omega (arith, length-append cs (c ∷ []))) (omega arith)
        (AreMade-append create 0 cs c h (subst (λ k. create k ≡ some c) at_length e')))
]
  where
    at_length : i ≡ 0 + length cs
    at_length = omega arith

-- NewPool returns a pool with `size` connections, those that the calls of Create returned in their
-- order, or fails at the first call that fails and has cleaned up exactly the connections before.
new_pool-Promised : (create : ℕ → Option ℕ) (size : ℕ) → Promised create size (new_pool create size)
unfolding new_pool
new_pool-Promised create size = build_loop-Promised create size 0 size [] refl (omega arith) tt
