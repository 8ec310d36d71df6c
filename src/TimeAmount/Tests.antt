-- ===== src/TimeAmount/Tests.antt =====
-- The theorems about time amounts at 15 minutes and at -2 days.
use goshire.TimeAmount.{
  milliseconds, seconds, hours, days, Timeframe, TimeAmount, seconds, hours, days, milliseconds,
}
use goshire.TimeAmount.Products.{quotient-times, times-pos}
use goshire.TimeAmount.Epoch.{or_zero, quotient, to_trendrr_epoch, to_time, from_trendrr_epoch}
use goshire.TimeAmount.Epoch.Written.{nanoseconds}
use goshire.TimeAmount.Epoch.RoundTrip.{IsExact, to_time-from_trendrr_epoch}
use goshire.Base.{ℕ, suc, ◌*ℤ◌, suc, ℤ, ◌∙◌, ap, negsuc}
use goshire.Base.{arith, ◌≡◌, some, pos}
use goshire.TimeAmount.{minutes, to_string, parse}
use goshire.TimeAmount.Parse.{parse-to_string}

parse-to_string_example :
    parse (to_string (record { amount = pos 15; timeframe = minutes }))
    ≡ some (record { amount = pos 15; timeframe = minutes })
parse-to_string_example = parse-to_string 15 minutes (omega arith)

-- The duration in whole timeframes.
abbrev whole : Timeframe → ℤ → ℤ
whole f d = or_zero (quotient d (pos (nanoseconds f)))

or_zero-quotient : (n : ℕ) (a : ℤ) → or_zero (quotient (a *ℤ pos (suc n)) (pos (suc n))) ≡ a
or_zero-quotient n a =
    ap or_zero (ap (λ d. quotient d (pos (suc n))) (times-pos (suc n) a) ∙ quotient-times n a)

whole-IsExact : IsExact whole
whole-IsExact milliseconds a h = or_zero-quotient 999999 a
whole-IsExact seconds a h = or_zero-quotient 999999999 a
whole-IsExact minutes a h = or_zero-quotient 59999999999 a
whole-IsExact hours a h = or_zero-quotient 3599999999999 a
whole-IsExact days a h = or_zero-quotient 86399999999999 a

-- A negative amount of days, and an epoch before TrendrrEpoch.
abbrev back : TimeAmount
back = record { amount = negsuc 1; timeframe = days }

to_time-from_trendrr_epoch_example :
    (to_trendrr_epoch whole back (from_trendrr_epoch back (negsuc 2)).time ≡ some (negsuc 2))
    × (to_time whole back (from_trendrr_epoch back (negsuc 2)).time
        ≡ some (from_trendrr_epoch back (negsuc 2)))
to_time-from_trendrr_epoch_example =
    to_time-from_trendrr_epoch whole back (negsuc 2) whole-IsExact (omega arith) (omega arith)
