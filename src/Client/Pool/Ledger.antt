-- ===== src/Client/Pool/Ledger.antt =====
-- What client/pool.go promises of its connections, without the order of the channel, the goroutines and
-- the sends under way; and that the pool keeps it.
use mathlib.Core.Quot
use mathlib.Core.Quot.{Quot, Quot-set}
use goshire.Base.{◌++◌, arith, ◌≡◌, List, ◌∷◌, [], Bool, true, false, ℕ}
use goshire.Client.Pool.Count.{occurs}
use goshire.Client.Pool.{after_send, sent, Sending, Pool}

-- Lists of connections up to order.
abbrev pub SameItems : List ℕ → List ℕ → Type 0
SameItems xs ys = (c : ℕ) → occurs c xs ≡ occurs c ys

abbrev pub Bag : Type 0
Bag = Quot SameItems

abbrev pub of_list : List ℕ → Bag
of_list = Quot.mk

pub cons-SameItems : (x : ℕ) (xs ys : List ℕ) → SameItems xs ys → SameItems (x ∷ xs) (x ∷ ys)
cons-SameItems x xs ys h c = omega (arith, h c)

-- One connection more.
unfoldable pub with_one : ℕ → Bag → Bag
with_one x =
    Quot.lift Quot-set (λ xs. of_list (x ∷ xs)) (λ xs ys h. Quot.sound (cons-SameItems x xs ys h))

-- A connection is available, out, or gone: handed to Cleanup.
pub record Ledger : Type 0 where
  pub shut : Bool
  pub available : Bag
  pub out : Bag
  pub gone : Bag

-- What a pool may do with its connections.
pub data Move (l m : Ledger) : Type 0 where
  rests : l ≡ m → Move l m
  -- An available connection is lent.
  lends :
      (c : ℕ)
      → m.shut ≡ l.shut
      → l.available ≡ with_one c m.available
      → m.out ≡ with_one c l.out
      → m.gone ≡ l.gone
      → Move l m
  -- One that is out comes back.
  takes_back :
      (c : ℕ)
      → m.shut ≡ l.shut
      → m.available ≡ with_one c l.available
      → l.out ≡ with_one c m.out
      → m.gone ≡ l.gone
      → Move l m
  -- After the shutdown, one that is out is gone when it comes back.
  retires :
      (c : ℕ)
      → l.shut ≡ true
      → m.shut ≡ true
      → m.available ≡ l.available
      → l.out ≡ with_one c m.out
      → m.gone ≡ with_one c l.gone
      → Move l m
  -- A fresh connection is made, to be made available.
  makes :
      (c : ℕ)
      → m.shut ≡ l.shut
      → m.available ≡ l.available
      → m.out ≡ with_one c l.out
      → m.gone ≡ l.gone
      → Move l m
  -- A fresh connection takes the place of a broken one.
  swaps :
      (fresh broken : ℕ)
      → m.shut ≡ l.shut
      → m.available ≡ with_one fresh l.available
      → l.out ≡ with_one fresh (with_one broken m.out)
      → m.gone ≡ with_one broken l.gone
      → Move l m
  shuts :
      l.shut ≡ false
      → m.shut ≡ true
      → m.available ≡ l.available
      → m.out ≡ l.out
      → m.gone ≡ l.gone
      → Move l m
  -- After the shutdown, one that is available is gone.
  drops :
      (c : ℕ)
      → l.shut ≡ true
      → m.shut ≡ true
      → l.available ≡ with_one c m.available
      → m.out ≡ l.out
      → m.gone ≡ with_one c l.gone
      → Move l m

pub data Moves (l : Ledger) : Ledger → Type 0 where
  none_yet : Moves l l
  one_more : {m n : Ledger} → Moves l m → Move m n → Moves l n

-- The connections that the sends under way hold are out, like those that are being replaced.
abbrev pub held : List Sending → List ℕ
held [] = []
held (s ∷ ss) = sent s ∷ after_send s ++ held ss

abbrev pub away : Pool → List ℕ
away p = p.replacing ++ p.borrowed

abbrev pub ledger : Pool → Ledger
ledger p = record {
  shut = p.shutdown;
  available = of_list p.clients;
  out = of_list (held p.returning ++ away p);
  gone = of_list p.cleaned;
}
