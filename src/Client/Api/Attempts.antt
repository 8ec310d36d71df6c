-- ===== src/Client/Api/Attempts.antt =====
-- The retries of `connection` and the share of each connection in Connect, in client/client.go.
use native.Mathlib.Nat.{div-lt_iff_lt-mul, div-mul-le_self}
use goshire.Base.{
  ltb→lt, ==_iff, ◌==◌, ltb, ◌∙◌, subst, Bool-cases, ℕ, zero, suc, ◌+◌, ◌*◌, ◌/◌, ◌<◌, ◌≤◌, ◌≡◌,
  ◌⊎◌, inl, inr, Option, none, some, arith, Option-cases, refl,
}
use goshire.Client.Api.{Found, got, unable, try_pool, try_rounds, connection, max_in_flight_per}

-- All calls of Borrow from number `k` up to `n` fail.
abbrev pub AllFail : (ℕ → Option ℕ) → ℕ → ℕ → Type 0
AllFail borrow k n = (i : ℕ) → k ≤ i → i < n → borrow i ≡ none

AllFail-step :
    (borrow : ℕ → Option ℕ) (k n : ℕ)
    → borrow k ≡ none
    → AllFail borrow (suc k) n
    → AllFail borrow k n
AllFail-step borrow k n e a i l h = elim (Bool-cases (k == i)) [
  | inl same ↦ subst (λ j. borrow j ≡ none) ((==_iff k i).0 same) e
  | inr other ↦ a i (ground arith) h
]

AllFail-join :
    (borrow : ℕ → Option ℕ) (k m n : ℕ)
    → AllFail borrow k m
    → AllFail borrow m n
    → AllFail borrow k n
AllFail-join borrow k m n a b i l h = elim (Bool-cases (ltb i m)) [
  | inl low ↦ a i l (ltb→lt i m low)
  | inr high ↦ b i (ground arith) h
]

-- The first call that succeeds is call `i`, of those from `k` up to `n`.
pub record FirstAt (borrow : ℕ → Option ℕ) (k n c i : ℕ) : Type 0 where
  pub succeeds : borrow i ≡ some c
  pub low : k ≤ i
  pub high : i < n
  pub fail_before : AllFail borrow k i

try_pool_lem :
    (borrow : ℕ → Option ℕ) (n k : ℕ)
    → ((c : ℕ) × (i : ℕ) × (try_pool borrow n k ≡ (some c, suc i)) × FirstAt borrow k (k + n) c i)
      ⊎ ((try_pool borrow n k ≡ (none, k + n)) × AllFail borrow k (k + n))
unfolding try_pool
try_pool_lem borrow zero k = inr (ground arith, λ i l h. absurd (omega arith))
try_pool_lem borrow (suc n) k = elim (Option-cases (borrow k)) [
  | inr (c, e) ↦ inl (
    c,
    k,
    ground (arith, e),
    record {
      succeeds = e;
      low = omega arith;
      high = omega arith;
      fail_before = λ i l h. absurd (omega arith);
    },
  )
  | inl e ↦ elim (try_pool_lem borrow n (suc k)) [
    | inl (c, i, f, s) ↦ inl (
      c,
      i,
      ground (arith, e, f),
      record {
        succeeds = s.succeeds;
        low = omega (arith, s.low);
        high = omega (arith, s.high);
        fail_before = AllFail-step borrow k i e s.fail_before;
      },
    )
    | inr (f, a) ↦ inr (
      ground (arith, e, f),
      AllFail-step borrow k (k + suc n) e (subst (AllFail borrow (suc k)) (omega arith) a),
    )
  ]
]

-- One round of the outer loop.
module _ (borrow : ℕ → Option ℕ) (pool_size x k pauses : ℕ) where
  round_finds :
      (c k' : ℕ)
      → try_pool borrow pool_size k ≡ (some c, k')
      → try_rounds borrow pool_size (suc x) k pauses ≡ (got c, k', pauses)
  round_finds c k' e = unfold try_rounds in ground (arith, e)

  round_pauses :
      (k' : ℕ)
      → try_pool borrow pool_size k ≡ (none, k')
      → try_rounds borrow pool_size (suc x) k pauses ≡ try_rounds borrow pool_size x k' (suc pauses)
  round_pauses k' e = unfold try_rounds in ground (arith, e)

same_counts : {m n i j : ℕ} → m ≡ n → i ≡ j → ◌≡◌ {A = Found × ℕ × ℕ} (unable, m, i) (unable, n, j)
same_counts p q = cc (p, q)

try_rounds_lem :
    (borrow : ℕ → Option ℕ) (pool_size x k pauses : ℕ)
    → ((c : ℕ) × (i : ℕ) × (p : ℕ) × (try_rounds borrow pool_size x k pauses ≡ (got c, suc i, p))
        × FirstAt borrow k (k + x * pool_size) c i)
      ⊎ ((try_rounds borrow pool_size x k pauses ≡ (unable, k + x * pool_size, pauses + x))
          × AllFail borrow k (k + x * pool_size))
unfolding try_rounds
try_rounds_lem borrow pool_size zero k pauses = inr (ground arith, λ i l h. absurd (omega arith))
try_rounds_lem borrow pool_size (suc x) k pauses = elim (try_pool_lem borrow pool_size k) [
  | inl (c, i, e, s) ↦ inl (
    c,
    i,
    pauses,
    round_finds borrow pool_size x k pauses c (suc i) e,
    record {
      succeeds = s.succeeds;
      low = s.low;
      high = grind (arith, s.high);
      fail_before = s.fail_before;
    },
  )
  | inr (e, a) ↦ elim (try_rounds_lem borrow pool_size x (k + pool_size) (suc pauses)) [
    | inl (c, i, p, f, s) ↦ inl (
      c,
      i,
      p,
      round_pauses borrow pool_size x k pauses _ e ∙ f,
      record {
        succeeds = s.succeeds;
        low = omega (arith, s.low);
        high = subst (λ n. i < n) (grind arith) s.high;
        fail_before = AllFail-join borrow k (k + pool_size) i a s.fail_before;
      },
    )
    | inr (f, b) ↦ inr (
      round_pauses borrow pool_size x k pauses _ e ∙ f ∙ same_counts (grind arith) (omega arith),
      AllFail-join borrow k (k + pool_size) (k + suc x * pool_size) a
          (subst (AllFail borrow (k + pool_size)) (grind arith) b),
    )
  ]
]

-- `connection` calls Borrow until a call succeeds, at most Retries times PoolSize times, and returns
-- the connection of the first call that does; where all of them fail it has made exactly that many
-- calls, has paused once for each retry, and returns the error.
connection_lem :
    (borrow : ℕ → Option ℕ) (retries pool_size : ℕ)
    → ((c : ℕ) × (i : ℕ) × (p : ℕ) × (connection borrow retries pool_size ≡ (got c, suc i, p))
        × FirstAt borrow 0 (retries * pool_size) c i)
      ⊎ ((connection borrow retries pool_size ≡ (unable, retries * pool_size, retries))
          × AllFail borrow 0 (retries * pool_size))
unfolding connection
connection_lem borrow retries pool_size = elim (try_rounds_lem borrow pool_size retries 0 0) [
  | inl (c, i, p, e, s) ↦ inl (c, i, p, e, subst (λ n. FirstAt borrow 0 n c i) (omega arith) s)
  | inr (e, a) ↦
      inr (e ∙ same_counts (omega arith) (omega arith), subst (AllFail borrow 0) (omega arith) a)
]

-- The share of each connection is at least 2, and together the shares are at most MaxInFlight, but
-- where that gives a connection less than 2; Connect panics for a PoolSize of 0 and for no other.
max_in_flight_per_lem :
    (max_in_flight pool_size : ℕ)
    → ((pool_size ≡ 0) × (max_in_flight_per max_in_flight pool_size ≡ none))
      ⊎ ((per : ℕ) × (max_in_flight_per max_in_flight pool_size ≡ some per)
          × (2 ≤ per)
          × ((per * pool_size ≤ max_in_flight) ⊎ (max_in_flight < 2 * pool_size)))
unfolding max_in_flight_per
max_in_flight_per_lem m zero = inl (refl, refl)
max_in_flight_per_lem m (suc n) = elim (Bool-cases (ltb (m / suc n) 2)) [
  | inl low ↦ inr (
    2,
    ground (arith, low),
    omega arith,
    inr ((div-lt_iff_lt-mul {k = suc n} (omega arith)).0 (ltb→lt (m / suc n) 2 low)),
  )
  | inr high ↦ inr (m / suc n, ground (arith, high), ground arith, inl (div-mul-le_self m (suc n)))
]
