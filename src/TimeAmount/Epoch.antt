-- ===== src/TimeAmount/Epoch.antt =====
-- ToTrendrrEpoch, ToTime, FromTrendrrEpoch and ToDuration of timeamount/timeamount.go. A time is the
-- nanoseconds since TrendrrEpoch, and a time.Duration is nanoseconds in an int64. `whole` is what
-- int64 makes of the floats of Duration.Seconds, Minutes, Hours and Hours / 24.
pub mod Written
pub mod RoundTrip
use goshire.Base.{
  ℕ, ℤ, pos, negsuc, suc, zero, ◌*ℤ◌, ◌/◌, sub_ℕ, pos_part, neg_part, ltb, leb, of_word, to_word,
  Bool, ◌&&◌, if◌then◌else◌, Option, none, some,
}
use goshire.DynMap.Number.{cutoff}
use goshire.TimeAmount.{TimeAmount, Timeframe, milliseconds, seconds, minutes, hours, days}

-- The wrap-around of an int64.
abbrev pub int64 : ℤ → ℤ
int64 a = of_word cutoff (to_word cutoff a)

-- The number is an int64.
abbrev pub in_int64 : ℤ → Bool
in_int64 a = ltb (pos_part a) cutoff && leb (neg_part a) cutoff

-- Division of Go, towards 0; `none` is its panic.
unfoldable pub quotient : ℤ → ℤ → Option ℤ
quotient a (pos zero) = none
quotient a (pos (suc n)) = some (sub_ℕ (pos_part a / suc n) (neg_part a / suc n))
quotient a (negsuc n) = some (sub_ℕ (neg_part a / suc n) (pos_part a / suc n))

-- The unit of the duration that is written, in nanoseconds.
abbrev pub unit : Timeframe → ℕ
unit milliseconds = 1000000
unit seconds = 1000000000
unit minutes = 60000000000
unit hours = 3600000000000
unit days = 3600000000000

-- The amount in that unit.
abbrev pub amount_in : Timeframe → ℤ → ℤ
amount_in days a = int64 (a *ℤ pos 24)
amount_in _ a = a

abbrev pub in_unit : TimeAmount → ℤ
in_unit t = amount_in t.timeframe t.amount

-- time.ParseDuration of an integer and a unit; `none` is its error.
unfoldable pub parse_duration : ℤ → ℕ → Option ℤ
parse_duration a u = let d = a *ℤ pos u in if in_int64 d then some d else none

-- ToDuration.
unfoldable pub to_duration : TimeAmount → Option ℤ
to_duration t = parse_duration (in_unit t) (unit t.timeframe)

-- Time. The time is in nanoseconds since TrendrrEpoch.
pub record Time : Type 0 where
  pub time : ℤ
  pub time_amount : TimeAmount
  pub trendrr_epoch : ℤ

-- The duration, 0 where ParseDuration has failed: the error is only logged.
abbrev pub or_zero : Option ℤ → ℤ
or_zero none = pos 0
or_zero (some d) = d

-- FromTrendrrEpoch.
unfoldable pub from_trendrr_epoch : TimeAmount → ℤ → Time
from_trendrr_epoch t epoch = record {
  time = or_zero (parse_duration (int64 (in_unit t *ℤ epoch)) (unit t.timeframe));
  time_amount = t;
  trendrr_epoch = epoch;
}

-- Sub of TrendrrEpoch, which stops at the ends of an int64.
unfoldable pub sub_trendrr_epoch : ℤ → ℤ
sub_trendrr_epoch (pos n) = if ltb n cutoff then pos n else pos 9223372036854775807
sub_trendrr_epoch (negsuc n) = if ltb n cutoff then negsuc n else negsuc 9223372036854775807

abbrev pub wrapped : Option ℤ → Option ℤ
wrapped none = none
wrapped (some a) = some (int64 a)

module _ (whole : Timeframe → ℤ → ℤ) where
  -- The count of timeframes in the duration.
  unfoldable pub timeframes : Timeframe → ℤ → Option ℤ
  timeframes milliseconds dur = quotient dur (pos 1000000)
  timeframes f dur = some (whole f dur)

  -- ToTrendrrEpoch; `none` is the panic of a division by 0.
  unfoldable pub to_trendrr_epoch : TimeAmount → ℤ → Option ℤ
  to_trendrr_epoch t time = elim (timeframes t.timeframe (sub_trendrr_epoch time)) [
    | none ↦ none
    | some n ↦ wrapped (quotient n t.amount)
  ]

  -- ToTime.
  unfoldable pub to_time : TimeAmount → ℤ → Option Time
  to_time t time = elim (to_trendrr_epoch t time) [
    | none ↦ none
    | some e ↦ some (record { time = time; time_amount = t; trendrr_epoch = e })
  ]

  -- NewTime.
  unfoldable pub new_time : TimeAmount → ℤ → Option Time
  new_time t time = to_time t time
