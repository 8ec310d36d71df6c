-- ===== src/TimeAmount/Epoch/Written.antt =====
-- The number that FromTrendrrEpoch of timeamount/timeamount.go writes for ParseDuration.
use goshire.Base.{zero, ◌≤◌, ℕ, ℤ, pos, negsuc, suc, ◌*ℤ◌, ◌*◌, ◌<◌, ◌≡◌, ◌∙◌, ap, arith}
use goshire.DynMap.Number.{cutoff}
use goshire.TimeAmount.{milliseconds, seconds, minutes, hours, Timeframe, days}
use goshire.TimeAmount.Epoch.{amount_in, int64, unit}
use goshire.TimeAmount.{milliseconds, seconds, minutes, hours, days}
use goshire.TimeAmount.Products.{
  neg, size-neg, size, times, times-pos, times-neg, int64_small, size-times, product_small,
  le_product, product_zero,
}
use goshire.TimeAmount.Epoch.{unit, int64}

-- The nanoseconds of a timeframe.
abbrev pub nanoseconds : Timeframe → ℕ
nanoseconds days = 86400000000000
nanoseconds f = unit f

-- How many of the units that are written a timeframe has.
abbrev pub scale : Timeframe → ℕ
scale days = 24
scale f = 1

pub unit-scale : (f : Timeframe) (n : ℕ) → unit f * (scale f * n) ≡ nanoseconds f * n
unit-scale milliseconds n = omega arith
unit-scale seconds n = omega arith
unit-scale minutes n = omega arith
unit-scale hours n = omega arith
unit-scale days n = omega arith

pub scale-le : (f : Timeframe) (n : ℕ) → scale f * n ≤ nanoseconds f * n
scale-le milliseconds n = omega arith
scale-le seconds n = omega arith
scale-le minutes n = omega arith
scale-le hours n = omega arith
scale-le days n = omega arith

-- The product by 24 does not wrap around where the epoch is not 0.
in_hours :
    (n m : ℕ) (e : ℤ)
    → size e ≡ suc m
    → 24 * n * size e < cutoff
    → int64 (int64 (pos n *ℤ pos 24) *ℤ e) ≡ times (24 * n) e
in_hours n m e s h =
    let small : 24 * n < cutoff = omega (arith, ap (λ k. 24 * n * k) s, le_product (24 * n) m) in
    let amount : int64 (pos n *ℤ pos 24) ≡ pos (24 * n) =
      ap int64 (times-pos 24 (pos n)) ∙ int64_small (pos (24 * n)) (omega arith) in
    ap (λ a. int64 (a *ℤ e)) amount ∙ product_small (24 * n) e h

written_days :
    (n : ℕ) (e : ℤ)
    → 24 * n * size e < cutoff
    → int64 (int64 (pos n *ℤ pos 24) *ℤ e) ≡ times (24 * n) e
written_days n (pos zero) h =
    let nothing : pos 0 ≡ pos (24 * n * 0) = ap pos (omega arith) in
    ap int64 (product_zero (int64 (pos n *ℤ pos 24))) ∙ int64_small (pos 0) (omega arith) ∙ nothing
written_days n (pos (suc m)) h = in_hours n m (pos (suc m)) (omega arith) h
written_days n (negsuc m) h = in_hours n m (negsuc m) (omega arith) h

written_plain : (n : ℕ) (e : ℤ) → 1 * n * size e < cutoff → int64 (pos n *ℤ e) ≡ times (1 * n) e
written_plain n e h =
    let one_time : n ≡ 1 * n = omega arith in
    product_small n e (omega (arith, ap (λ j. j * size e) one_time)) ∙ ap (λ j. times j e) one_time

pub written :
    (f : Timeframe) (n : ℕ) (e : ℤ)
    → scale f * n * size e < cutoff
    → int64 (amount_in f (pos n) *ℤ e) ≡ times (scale f * n) e
written milliseconds n e h = written_plain n e h
written seconds n e h = written_plain n e h
written minutes n e h = written_plain n e h
written hours n e h = written_plain n e h
written days n e h = written_days n e h

neg-times : (n : ℕ) (e : ℤ) → neg (pos n) *ℤ e ≡ times n (neg e)
unfolding ◌*ℤ◌
neg-times zero (pos zero) = ground arith
neg-times zero (pos (suc m)) = ground arith
neg-times zero (negsuc m) = ground arith
neg-times (suc k) (pos zero) = ground arith
neg-times (suc k) (pos (suc m)) = ground arith
neg-times (suc k) (negsuc m) = ground arith

neg_product_small :
    (n : ℕ) (e : ℤ) → n * size e < cutoff → int64 (neg (pos n) *ℤ e) ≡ times n (neg e)
neg_product_small n e h =
    ap int64 (neg-times n e)
    ∙ int64_small (times n (neg e))
        (omega (arith, size-times n (neg e), ap (λ j. n * j) (size-neg e)))

neg_in_hours :
    (n m : ℕ) (e : ℤ)
    → size e ≡ suc m
    → 24 * n * size e < cutoff
    → int64 (int64 (neg (pos n) *ℤ pos 24) *ℤ e) ≡ times (24 * n) (neg e)
neg_in_hours n m e s h =
    let small : 24 * n < cutoff = omega (arith, ap (λ k. 24 * n * k) s, le_product (24 * n) m) in
    let amount : int64 (neg (pos n) *ℤ pos 24) ≡ neg (pos (24 * n)) =
      ap int64 (times-pos 24 (neg (pos n)) ∙ times-neg 24 n)
      ∙ int64_small (neg (pos (24 * n))) (omega (arith, size-neg (pos (24 * n)))) in
    ap (λ a. int64 (a *ℤ e)) amount ∙ neg_product_small (24 * n) e h

neg_written_days :
    (n : ℕ) (e : ℤ)
    → 24 * n * size e < cutoff
    → int64 (int64 (neg (pos n) *ℤ pos 24) *ℤ e) ≡ times (24 * n) (neg e)
neg_written_days n (pos zero) h =
    let nothing : pos 0 ≡ pos (24 * n * 0) = ap pos (omega arith) in
    ap int64 (product_zero (int64 (neg (pos n) *ℤ pos 24)))
    ∙ int64_small (pos 0) (omega arith)
    ∙ nothing
neg_written_days n (pos (suc m)) h = neg_in_hours n m (pos (suc m)) (omega arith) h
neg_written_days n (negsuc m) h = neg_in_hours n m (negsuc m) (omega arith) h

neg_written_plain :
    (n : ℕ) (e : ℤ) → 1 * n * size e < cutoff → int64 (neg (pos n) *ℤ e) ≡ times (1 * n) (neg e)
neg_written_plain n e h =
    let one_time : n ≡ 1 * n = omega arith in
    neg_product_small n e (omega (arith, ap (λ j. j * size e) one_time))
    ∙ ap (λ j. times j (neg e)) one_time

pub neg_written :
    (f : Timeframe) (n : ℕ) (e : ℤ)
    → scale f * n * size e < cutoff
    → int64 (amount_in f (neg (pos n)) *ℤ e) ≡ times (scale f * n) (neg e)
neg_written milliseconds n e h = neg_written_plain n e h
neg_written seconds n e h = neg_written_plain n e h
neg_written minutes n e h = neg_written_plain n e h
neg_written hours n e h = neg_written_plain n e h
neg_written days n e h = neg_written_days n e h
