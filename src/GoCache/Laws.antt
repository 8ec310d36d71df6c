-- ===== src/GoCache/Laws.antt =====
-- What the adapter makes of a store that behaves as go-cache documents it.
use goshire.GoCache.{
  other, other_number, IncError, problem_with_type, inc, Store, Item, bytes, number,
}
use goshire.Base.{
  ◌⊎◌, inr, ◌∙◌, ap, arith, Fits, Bool, false, true, refl, inl, ◌+ℤ◌, ◌≡◌, ℤ, ℕ, Option, some, none,
}
use goshire.Text.{Str}
use goshire.DynMap.Number.{cutoff}

abbrev pub is_number : Item → Bool
is_number (number n) = true
is_number (other_number t) = true
is_number _ = false

-- What the adapter relies on. Set makes the value the one that Get returns; Add does so for a key that
-- Get does not find, and is an error for one that it finds; Increment adds to a number, of whatever type,
-- which keeps its type, and is an error for a key that is not found or is no number.
pub record IsStore {C : Type 0} (store : Store C) : Type 0 where
  pub sets : (c : C) (k : Str) (v : Item) (age : ℕ) → store.get (store.set c k v age) k ≡ some v
  pub adds :
      (c : C) (k : Str) (v : Item) (age : ℕ)
      → store.get c k ≡ none
      → (c' : C) × (store.add c k v age ≡ some c') × (store.get c' k ≡ some v)
  pub refuses :
      (c : C) (k : Str) (v w : Item) (age : ℕ) → store.get c k ≡ some w → store.add c k v age ≡ none
  pub increments :
      (c : C) (k : Str) (n val : ℤ)
      → store.get c k ≡ some (number n)
      → Fits cutoff (n +ℤ val)
      → (c' : C) × (store.increment c k val ≡ some c') × (store.get c' k ≡ some (number (n +ℤ val)))
  pub increments_other :
      (c : C) (k t : Str) (val : ℤ)
      → store.get c k ≡ some (other_number t)
      → (c' : C) × (t' : Str) × (store.increment c k val ≡ some c')
        × (store.get c' k ≡ some (other_number t'))
  pub not_found :
      (c : C) (k : Str) (val : ℤ) → store.get c k ≡ none → store.increment c k val ≡ none
  pub no_number :
      (c : C) (k : Str) (v : Item) (val : ℤ)
      → store.get c k ≡ some v
      → is_number v ≡ false
      → store.increment c k val ≡ none

module _ {C : Type 0} (store : Store C) (law : IsStore store) (c : C) (k : Str) (val : ℤ)
    (age : ℕ) where
  inc_sets :
      store.increment c k val ≡ none
      → ((inc store c k val age).0 ≡ inl val)
        × (store.get (inc store c k val age).1 k ≡ some (number val))
  inc_sets e =
      let step : inc store c k val age ≡ (inl val, store.set c k (number val) age) =
        unfold inc in rw (e, inc) refl in
      (ap (λ t. t.0) step, ap (λ t. store.get t.1 k) step ∙ law.sets c k (number val) age)

  inc_grows :
      (c' : C) (n : ℤ)
      → store.increment c k val ≡ some c'
      → store.get c' k ≡ some (number n)
      → ((inc store c k val age).0 ≡ inl n)
        × (store.get (inc store c k val age).1 k ≡ some (number n))
  inc_grows c' n e held =
      let step : inc store c k val age ≡ (inl n, c') = unfold inc in ground (arith, e, held) in
      (ap (λ t. t.0) step, ap (λ t. store.get t.1 k) step ∙ held)

  inc_refuses :
      (c' : C) (t : Str)
      → store.increment c k val ≡ some c'
      → store.get c' k ≡ some (other_number t)
      → ((inc store c k val age).0 ≡ inr problem_with_type)
        × (store.get (inc store c k val age).1 k ≡ some (other_number t))
  inc_refuses c' t e held =
      let step : inc store c k val age ≡ (inr problem_with_type, c') =
        unfold inc in ground (arith, e, held) in
      (ap (λ r. r.0) step, ap (λ r. store.get r.1 k) step ∙ held)

  -- What Inc returns and leaves under the key, by what was there.
  abbrev pub IsCounted : Option Item → (ℤ ⊎ IncError) × C → Type 0
  IsCounted (some (number n)) (r, c') =
      (r ≡ inl (n +ℤ val)) × (store.get c' k ≡ some (number (n +ℤ val)))
  IsCounted (some (other_number t)) (r, c') =
      (r ≡ inr problem_with_type) × (t' : Str) × (store.get c' k ≡ some (other_number t'))
  IsCounted _ (r, c') = (r ≡ inl val) × (store.get c' k ≡ some (number val))

  -- The sum is an int64, where there is an int64.
  abbrev pub HasSum : Option Item → Type 0
  HasSum (some (number n)) = Fits cutoff (n +ℤ val)
  HasSum _ = Unit

  -- Inc over a store that behaves as documented, where the sum is an int64. To an int64 it adds the value,
  -- and it returns the sum, which the cache holds afterwards. Where there was nothing, it returns the
  -- value, which the cache holds; so it does where there was a value that is no number, without an error,
  -- and that value is lost. To a number of another type it adds too, which stays in the cache, and then
  -- it returns the error about the type.
  pub inc_lem :
      (held : Option Item)
      → store.get c k ≡ held
      → HasSum held
      → IsCounted held (inc store c k val age)
  inc_lem none e fits = inc_sets (law.not_found c k val e)
  inc_lem (some (number n)) e fits =
      let (c', grown, there) = law.increments c k n val e fits in
      inc_grows c' (n +ℤ val) grown there
  inc_lem (some (other_number t)) e fits =
      let (c', t', grown, there) = law.increments_other c k t val e in
      let (refused, left) = inc_refuses c' t' grown there in (refused, t', left)
  inc_lem (some (bytes b)) e fits = inc_sets (law.no_number c k (bytes b) val e refl)
  inc_lem (some other) e fits = inc_sets (law.no_number c k other val e refl)
