-- ===== src/Strest/TxnId.antt =====
-- NewTxnId of cheshire/strestpackets.go: one counter that every goroutine increments atomically, so
-- the calls are in one order.
use goshire.Base.{
  ℕ, ℤ, pos, suc, zero, ◌+ℤ◌, ◌<◌, ◌+◌, ◌≡◌, ◌≢◌, ◌∙◌, ap, sym, arith, List, [], ◌∷◌, All, some,
}
use goshire.Text.{Str}
use goshire.DynMap.Number.{decimal, parse_int, cutoff}
use goshire.DynMap.Number.RoundTrip.{parse_int-decimal}
use goshire.TimeAmount.Epoch.{int64}
use goshire.TimeAmount.Products.{int64_small}

-- atomic.AddInt64 of 1.
unfoldable pub add_int64 : ℤ → ℤ
add_int64 id = int64 (id +ℤ pos 1)

-- NewTxnId: the id, and the counter afterwards.
unfoldable pub new_txn_id : ℤ → Str × ℤ
new_txn_id strest_id = let id = add_int64 strest_id in (decimal id, id)

-- The ids of a number of calls, in their order.
unfoldable pub txn_ids : ℕ → ℤ → List Str
txn_ids zero strest_id = []
txn_ids (suc n) strest_id = let r = new_txn_id strest_id in let rest = txn_ids n r.1 in r.0 ∷ rest

-- No two are the same.
abbrev pub AreDistinct : List Str → Type 0
AreDistinct [] = Unit
AreDistinct (s ∷ ss) = All (λ t. s ≢ t) ss × AreDistinct ss

add_int64_small : (m : ℕ) → suc m < cutoff → add_int64 (pos m) ≡ pos (suc m)
unfolding add_int64 ◌+ℤ◌
add_int64_small m h =
    let sum : pos m +ℤ pos 1 ≡ pos (suc m) = ground arith in
    ap int64 sum ∙ int64_small (pos (suc m)) (omega arith)

decimals_differ : (m n : ℕ) → m < n → n < cutoff → decimal (pos m) ≢ decimal (pos n)
decimals_differ m n l h e =
    let same : some (pos m) ≡ some (pos n) =
      sym (parse_int-decimal (pos m) (omega arith, omega arith))
      ∙ ap parse_int e
      ∙ parse_int-decimal (pos n) (omega arith, omega arith) in
    ground (arith, same)

txn_ids-suc :
    (n m : ℕ)
    → suc m < cutoff
    → txn_ids (suc n) (pos m) ≡ decimal (pos (suc m)) ∷ txn_ids n (pos (suc m))
unfolding txn_ids new_txn_id
txn_ids-suc n m h = ap (λ id. decimal id ∷ txn_ids n id) (add_int64_small m h)

-- The ids after an earlier one differ from it.
later_ids :
    (j n m : ℕ) → j < suc m → m + n < cutoff → All (λ t. decimal (pos j) ≢ t) (txn_ids n (pos m))
later_ids j zero m l h = unfold txn_ids in tt
later_ids j (suc n) m l h =
    rw (txn_ids-suc n m (omega arith))
      (decimals_differ j (suc m) l (omega arith), later_ids j n (suc m) (omega arith) (omega arith))

ids_differ : (n m : ℕ) → m + n < cutoff → AreDistinct (txn_ids n (pos m))
ids_differ zero m h = unfold txn_ids in tt
ids_differ (suc n) m h =
    rw (txn_ids-suc n m (omega arith))
      (later_ids (suc m) n (suc m) (omega arith) (omega arith), ids_differ n (suc m) (omega arith))

-- The ids of fewer than 2 ^ 63 calls of NewTxnId, from the counter's first value on, are all different.
pub txn_ids-AreDistinct : (n : ℕ) → n < cutoff → AreDistinct (txn_ids n (pos 0))
txn_ids-AreDistinct n h = ids_differ n 0 (omega arith)
