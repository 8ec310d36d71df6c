-- ===== src/GoCache.antt =====
-- cheshire/impl/gocache/cache.go: the cache of sessions over github.com/pmylund/go-cache, which is a
-- parameter. A duration is its seconds; time passes between two calls only, in the state `C`.
pub mod Laws
pub mod Tests
use goshire.Base.{◌⊎◌, Option, Bool, some, none, false, true, inr, inl, ℕ, ℤ, pos}
use goshire.Text.{Str}
use goshire.Handler.Session.{Cache}

-- What the cache holds under a key, an interface{}: a []byte, an int64, a number of another type, as
-- it prints, or a value of a type that is no number.
pub data Item : Type 0 where
  bytes : Str → Item
  number : ℤ → Item
  other_number : Str → Item
  other : Item

-- The operations of *cache.Cache that the adapter calls. `add` and `increment` return an error, here
-- `none`, and then have changed nothing.
pub record Store (C : Type 0) : Type 0 where
  pub get : C → Str → Option Item
  pub set : C → Str → Item → ℕ → C
  pub add : C → Str → Item → ℕ → Option C
  pub increment : C → Str → ℤ → Option C
  pub delete : C → Str → C

-- The errors of Inc.
pub data IncError : Type 0 where
  problem_with_increment problem_with_type : IncError

module _ {C : Type 0} (store : Store C) where
  abbrev bytes_of : Option Item → Option Str
  bytes_of (some (bytes b)) = some b
  bytes_of _ = none

  -- Get; `none` where its second result is false.
  unfoldable pub cache_get : C → Str → Option Str
  cache_get c key = bytes_of (store.get c key)

  -- Set.
  abbrev pub cache_set : C → Str → Str → ℕ → C
  cache_set c key value expire = store.set c key (bytes value) expire

  abbrev added : C → Option C → C × Bool
  added c none = (c, false)
  added c (some c') = (c', true)

  -- SetIfAbsent.
  unfoldable pub set_if_absent : C → Str → Str → ℕ → C × Bool
  set_if_absent c key value expire = added c (store.add c key (bytes value) expire)

  -- Delete.
  abbrev pub cache_delete : C → Str → C
  cache_delete c key = store.delete c key

  -- What Inc reads back.
  abbrev read_back : Option Item → ℤ ⊎ IncError
  read_back none = inr problem_with_increment
  read_back (some (number n)) = inl n
  read_back (some _) = inr problem_with_type

  -- Inc, under its lock: the value or an error, and the cache.
  unfoldable pub inc : C → Str → ℤ → ℕ → (ℤ ⊎ IncError) × C
  inc c key val expire = elim (store.increment c key val) [
    | none ↦ (inl val, store.set c key (number val) expire)
    | some c' ↦ (read_back (store.get c' key), c')
  ]

  -- The adapter as the cache of the session filter.
  abbrev pub session_cache : Cache C
  session_cache = record { get = cache_get; set = cache_set; delete = cache_delete }
