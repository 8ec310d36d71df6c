-- ===== src/Client/Pool.antt =====
-- client/pool.go: a pool of connections over a buffered channel. A connection is a number. The calls
-- run in several goroutines, so each is cut into the steps between which another may run; `Step` has
-- one constructor for each. `returning` holds the sends that have passed the test of `shutdown`,
-- `waiting` counts the calls of Borrow that have.
-- Close of the pool is called once, by the guard of JsonClient.Close.
pub mod Build
pub mod Slots
pub mod Count
pub mod Ledger
pub mod Effects
pub mod Refines
pub mod Leak
pub mod Tests
use goshire.Base.{
  ℕ, zero, suc, ◌+◌, ◌<◌, ◌==◌, ◌≡◌, List, [], ◌∷◌, ◌++◌, Bool, true, false, Option, none, some,
  length,
}

-- A send on the channel that is under way: of a connection that was borrowed, or of a fresh one for
-- a broken one, which is cleaned up after the send.
pub data Sending : Type 0 where
  plain : ℕ → Sending
  replacement : ℕ → ℕ → Sending

abbrev pub sent : Sending → ℕ
sent (plain c) = c
sent (replacement fresh broken) = fresh

abbrev pub after_send : Sending → List ℕ
after_send (plain c) = []
after_send (replacement fresh broken) = broken ∷ []

pub record Pool : Type 0 where
  pub size : ℕ
  -- The channel, in the order in which it will be received.
  pub clients : List ℕ
  pub shutdown : Bool
  -- The loop of Close is running.
  pub closing : Bool
  -- Calls of Borrow that have passed the test of `shutdown`.
  pub waiting : ℕ
  pub borrowed : List ℕ
  pub returning : List Sending
  -- The broken connections of the calls of ReturnBroken that are in Create.
  pub replacing : List ℕ
  -- The connections that were handed to Cleanup, and those that Create made.
  pub cleaned : List ℕ
  pub created : List ℕ

-- Borrow, up to its select: the error for a closed pool, or a call that waits.
unfoldable pub start_borrow : Pool → Pool
start_borrow p = elim p.shutdown [ true ↦ p | false ↦ record p { waiting = suc p.waiting } ]

-- A waiting Borrow gets the next connection, if the channel has one.
unfoldable pub receive : Pool → Pool
receive p = elim p.waiting [
  | zero ↦ p
  | suc n ↦ elim p.clients [
    | [] ↦ p
    | c ∷ cs ↦ record p { clients = cs; borrowed = c ∷ p.borrowed; waiting = n }
  ]
]

-- The timeout of a waiting Borrow fires, and it returns an error.
unfoldable pub time_out : Pool → Pool
time_out p = elim p.waiting [ zero ↦ p | suc n ↦ record p { waiting = n } ]

-- Return of the borrowed connection `c`, up to its send; `rest` are the other borrowed ones.
unfoldable pub start_return : Pool → ℕ → List ℕ → Pool
start_return p c rest = elim p.shutdown [
  | true ↦ record p { borrowed = rest; cleaned = c ∷ p.cleaned }
  | false ↦ record p { borrowed = rest; returning = plain c ∷ p.returning }
]

-- ReturnBroken of the borrowed connection `c`, up to its Create.
unfoldable pub start_return_broken : Pool → ℕ → List ℕ → Pool
start_return_broken p c rest = elim p.shutdown [
  | true ↦ record p { borrowed = rest; cleaned = c ∷ p.cleaned }
  | false ↦ record p { borrowed = rest; replacing = c ∷ p.replacing }
]

-- ReturnBroken of `c`, from the result of Create up to its send; `rest` are the other calls in Create.
-- Where Create fails it goes on as Return, which tests `shutdown` again.
unfoldable pub finish_create : Pool → ℕ → List ℕ → Option ℕ → Pool
finish_create p c rest fresh = elim fresh [
  | none ↦ elim p.shutdown [
    | true ↦ record p { replacing = rest; cleaned = c ∷ p.cleaned }
    | false ↦ record p { replacing = rest; returning = plain c ∷ p.returning }
  ]
  | some d ↦ record p {
    replacing = rest;
    returning = replacement d c ∷ p.returning;
    created = d ∷ p.created;
  }
]

-- `this.clients <- conn` and what follows it; `rest` are the other sends.
unfoldable pub finish_send : Pool → Sending → List Sending → Pool
finish_send p s rest = record p {
  clients = p.clients ++ sent s ∷ [];
  returning = rest;
  cleaned = after_send s ++ p.cleaned;
}

-- Close, up to its loop.
unfoldable pub start_close : Pool → Pool
start_close p = record p { shutdown = true; closing = true }

-- One round of the loop of Close.
unfoldable pub close_round : Pool → Pool
close_round p = elim p.clients [
  | [] ↦ record p { closing = false }
  | c ∷ cs ↦ record p { clients = cs; cleaned = c ∷ p.cleaned }
]

-- `xs` with `x` put in somewhere is `ys`.
pub data Insert {A : Type 0} (x : A) : List A → List A → Type 0 where
  here : {xs : List A} → Insert x xs (x ∷ xs)
  there : {y : A} {xs ys : List A} → Insert x xs ys → Insert x (y ∷ xs) (y ∷ ys)

-- What may happen next: any call of any goroutine may do its next step. A send waits for room.
pub data Step (p : Pool) : Pool → Type 0 where
  starts_borrow : Step p (start_borrow p)
  receives : Step p (receive p)
  times_out : Step p (time_out p)
  returns : (c : ℕ) (rest : List ℕ) → Insert c rest p.borrowed → Step p (start_return p c rest)
  returns_broken :
      (c : ℕ) (rest : List ℕ) → Insert c rest p.borrowed → Step p (start_return_broken p c rest)
  creates :
      (c : ℕ) (rest : List ℕ) (fresh : Option ℕ)
      → Insert c rest p.replacing
      → Step p (finish_create p c rest fresh)
  sends :
      (s : Sending) (rest : List Sending)
      → Insert s rest p.returning
      → length p.clients < p.size
      → Step p (finish_send p s rest)
  closes : p.shutdown ≡ false → Step p (start_close p)
  drains : p.closing ≡ true → Step p (close_round p)

pub data Reach (p : Pool) : Pool → Type 0 where
  start : Reach p p
  next : {q r : Pool} → Reach p q → Step q r → Reach p r
