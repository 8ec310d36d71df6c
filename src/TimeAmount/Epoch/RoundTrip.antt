-- ===== src/TimeAmount/Epoch/RoundTrip.antt =====
-- ToTrendrrEpoch after FromTrendrrEpoch, of timeamount/timeamount.go.
use goshire.Base.{
  Option, if◌then◌else◌, none, zero, true, ℕ, ℤ, pos, negsuc, suc, ◌*ℤ◌, ◌*◌, ◌<◌, some, ◌≡◌, ◌∙◌,
  ap, refl, sym, arith,
}
use goshire.DynMap.Number.{cutoff}
use goshire.TimeAmount.{TimeAmount, milliseconds, seconds, minutes, hours, Timeframe, days}
use goshire.TimeAmount.Epoch.{
  to_time, parse_duration, in_int64, or_zero, sub_trendrr_epoch, wrapped, timeframes,
  to_trendrr_epoch, parse_duration, from_trendrr_epoch, amount_in, int64, quotient, unit,
}
use goshire.TimeAmount.Epoch.Written.{
  nanoseconds, scale, unit-scale, scale-le, written, neg_written,
}
use goshire.TimeAmount.Products.{
  neg, size-neg, size-pos, size-negsuc, quotient-neg, size, times, times-pos, times-times,
  int64_small, quotient-times, size-times, in_int64_small, le_multiple,
}
use native.Mathlib.Nat.{mul_assoc}
use goshire.TimeAmount.Epoch.{unit, quotient, int64}

parse_small : (a : ℤ) (u : ℕ) → u * size a < cutoff → parse_duration a u ≡ some (times u a)
unfolding parse_duration
parse_small a u h =
    let fits : in_int64 (times u a) ≡ true =
      in_int64_small (times u a) (omega (arith, size-times u a)) in
    ap (λ d. if in_int64 d then some d else none) (times-pos u a)
    ∙ ap (λ b. if b then some (times u a) else none) fits

sub_small : (a : ℤ) → size a < cutoff → sub_trendrr_epoch a ≡ a
unfolding sub_trendrr_epoch
sub_small (pos n) h = ground arith
sub_small (negsuc n) h = ground arith

-- The floats of a time.Duration are exact where it is a whole number of the timeframe.
abbrev pub IsExact : (Timeframe → ℤ → ℤ) → Type 0
IsExact whole =
    (f : Timeframe) (a : ℤ)
    → in_int64 (a *ℤ pos (nanoseconds f)) ≡ true
    → whole f (a *ℤ pos (nanoseconds f)) ≡ a

module _ (f : Timeframe) (n : ℕ) (e : ℤ) (fits : nanoseconds f * n * size e < cutoff) where
  count_fits : scale f * n * size e < cutoff
  count_fits = omega (
    arith,
    mul_assoc (scale f) n (size e),
    mul_assoc (nanoseconds f) n (size e),
    scale-le f (n * size e),
  )

  -- The duration, from the number that is written.
  duration :
      (a epoch : ℤ)
      → int64 (amount_in f a *ℤ epoch) ≡ times (scale f * n) e
      → (from_trendrr_epoch (record { amount = a; timeframe = f }) epoch).time
        ≡ times (nanoseconds f * n) e
  unfolding from_trendrr_epoch
  duration a epoch wrote =
      let unit_fits : unit f * size (times (scale f * n) e) < cutoff = omega (
        arith,
        ap (λ k. unit f * k) (size-times (scale f * n) e),
        mul_assoc (unit f) (scale f * n) (size e),
        ap (λ k. k * size e) (unit-scale f n),
      ) in
      ap (λ d. or_zero (parse_duration d (unit f))) wrote
      ∙ ap or_zero (parse_small (times (scale f * n) e) (unit f) unit_fits)
      ∙ times-times (unit f) (scale f * n) e
      ∙ ap (λ k. times k e) (unit-scale f n)

  as_product : times (nanoseconds f * n) e ≡ times n e *ℤ pos (nanoseconds f)
  as_product = sym (times-times (nanoseconds f) n e) ∙ sym (times-pos (nanoseconds f) (times n e))

  counted_exactly :
      (whole : Timeframe → ℤ → ℤ)
      → IsExact whole
      → whole f (times (nanoseconds f * n) e) ≡ times n e
  counted_exactly whole exact =
      let fits_int64 : in_int64 (times n e *ℤ pos (nanoseconds f)) ≡ true =
        ap in_int64 (sym as_product)
        ∙ in_int64_small (times (nanoseconds f * n) e)
            (omega (arith, size-times (nanoseconds f * n) e)) in
      ap (whole f) as_product ∙ exact f (times n e) fits_int64

timeframes-times :
    (whole : Timeframe → ℤ → ℤ) (f : Timeframe) (n : ℕ) (e : ℤ)
    → nanoseconds f * n * size e < cutoff
    → IsExact whole
    → timeframes whole f (times (nanoseconds f * n) e) ≡ some (times n e)
unfolding timeframes
timeframes-times whole milliseconds n e h exact =
    ap (λ d. quotient d (pos 1000000)) (sym (times-times 1000000 n e))
    ∙ quotient-times 999999 (times n e)
timeframes-times whole seconds n e h exact = ap some (counted_exactly seconds n e h whole exact)
timeframes-times whole minutes n e h exact = ap some (counted_exactly minutes n e h whole exact)
timeframes-times whole hours n e h exact = ap some (counted_exactly hours n e h whole exact)
timeframes-times whole days n e h exact = ap some (counted_exactly days n e h whole exact)

some_time : (f : Timeframe) (k : ℕ) → 0 < nanoseconds f * suc k
some_time milliseconds k = omega arith
some_time seconds k = omega arith
some_time minutes k = omega arith
some_time hours k = omega arith
some_time days k = omega arith

epoch_small :
    (f : Timeframe) (k : ℕ) (e : ℤ)
    → nanoseconds f * suc k * size e < cutoff
    → wrapped (some e) ≡ some e
epoch_small f k e h =
    ap some (
      int64_small e
        (omega (arith, h, le_multiple (nanoseconds f * suc k) (size e) (some_time f k))))

to_time_of :
    (whole : Timeframe → ℤ → ℤ) (t : TimeAmount) (time e : ℤ)
    → to_trendrr_epoch whole t time ≡ some e
    → to_time whole t time ≡ some (record { time = time; time_amount = t; trendrr_epoch = e })
unfolding to_time
to_time_of whole t time e h = ground (arith, h)

-- From the number that is written, and what the division of the count gives.
module _ (whole : Timeframe → ℤ → ℤ) (f : Timeframe) (k : ℕ) (a e counted : ℤ)
    (exact : IsExact whole) (same_size : size counted ≡ size e)
    (h : nanoseconds f * suc k * size e < cutoff)
    (wrote : int64 (amount_in f a *ℤ e) ≡ times (scale f * suc k) counted)
    (divides : quotient (times (suc k) counted) a ≡ some e) where
  counted_fits : nanoseconds f * suc k * size counted < cutoff
  counted_fits = omega (arith, h, ap (λ n. nanoseconds f * suc k * n) same_size)

  epoch_back :
      let t : TimeAmount = record { amount = a; timeframe = f } in
      to_trendrr_epoch whole t (from_trendrr_epoch t e).time ≡ some e
  unfolding to_trendrr_epoch
  epoch_back =
      let t : TimeAmount = record { amount = a; timeframe = f } in
      let dur = times (nanoseconds f * suc k) counted in
      let count : timeframes whole f (sub_trendrr_epoch (from_trendrr_epoch t e).time)
          ≡ some (times (suc k) counted) =
        ap (λ d. timeframes whole f (sub_trendrr_epoch d))
          (duration f (suc k) counted counted_fits a e wrote)
        ∙ ap (timeframes whole f) (
            sub_small dur (omega (arith, counted_fits, size-times (nanoseconds f * suc k) counted)))
        ∙ timeframes-times whole f (suc k) counted counted_fits exact in
      ap (λ (o : Option ℤ). elim o [ none ↦ none | some n ↦ wrapped (quotient n a) ]) count
      ∙ ap wrapped divides
      ∙ epoch_small f k e h

epoch_returns :
    (whole : Timeframe → ℤ → ℤ) (f : Timeframe) (a e : ℤ)
    → IsExact whole
    → 0 < size a
    → nanoseconds f * size a * size e < cutoff
    → let t : TimeAmount = record { amount = a; timeframe = f } in
      to_trendrr_epoch whole t (from_trendrr_epoch t e).time ≡ some e
epoch_returns whole f (pos zero) e exact some_amount h = absurd (omega arith)
epoch_returns whole f (pos (suc k)) e exact some_amount h =
    let fits : nanoseconds f * suc k * size e < cutoff =
      omega (arith, h, ap (λ n. nanoseconds f * n * size e) (size-pos (suc k))) in
    epoch_back whole f k (pos (suc k)) e e exact refl fits
      (written f (suc k) e (count_fits f (suc k) e fits)) (quotient-times k e)
epoch_returns whole f (negsuc k) e exact some_amount h =
    let fits : nanoseconds f * suc k * size e < cutoff =
      omega (arith, h, ap (λ n. nanoseconds f * n * size e) (size-negsuc k)) in
    epoch_back whole f k (negsuc k) e (neg e) exact (size-neg e) fits
      (neg_written f (suc k) e (count_fits f (suc k) e fits)) (quotient-neg k e)

-- For a time amount that is not 0, positive or negative, and in each timeframe, ToTrendrrEpoch gives
-- back the epoch that FromTrendrrEpoch has turned into a time, before or after TrendrrEpoch, and ToTime
-- the same Time, where the time is less than 2 ^ 63 nanoseconds away from TrendrrEpoch, and where
-- Duration.Seconds, Minutes, Hours and Hours / 24 are exact for a whole number of seconds, minutes,
-- hours and days.
pub to_time-from_trendrr_epoch :
    (whole : Timeframe → ℤ → ℤ) (t : TimeAmount) (e : ℤ)
    → IsExact whole
    → 0 < size t.amount
    → nanoseconds t.timeframe * size t.amount * size e < cutoff
    → (to_trendrr_epoch whole t (from_trendrr_epoch t e).time ≡ some e)
      × (to_time whole t (from_trendrr_epoch t e).time ≡ some (from_trendrr_epoch t e))
to_time-from_trendrr_epoch whole t e exact some_amount h =
    let same = epoch_returns whole t.timeframe t.amount e exact some_amount h in
    (
      same,
      to_time_of whole t (from_trendrr_epoch t e).time e same ∙ unfold from_trendrr_epoch in refl,
    )
