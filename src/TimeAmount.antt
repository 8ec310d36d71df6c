-- ===== src/TimeAmount.antt =====
-- timeamount/timeamount.go: an amount of time, read and printed. The texts are ASCII. Epoch has the
-- epochs and the durations.
pub mod Parse
pub mod Epoch
pub mod Products
pub mod Tests
use goshire.Base.{
  ℕ, leb, ltb, ◌+◌, ◌==◌, Bool, true, false, ◌&&◌, ◌||◌, List, [], ◌∷◌, ◌++◌, Option, none, some, ℤ,
  pos, if◌then◌else◌,
}
use goshire.Text.{Str, codes, to_lower}
use goshire.DynMap.Number.{digits_from, cutoff, decimal}

-- Timeframe, of the five constants.
pub data Timeframe : Type 0 where
  milliseconds seconds minutes hours days : Timeframe

pub record TimeAmount : Type 0 where
  pub amount : ℤ
  pub timeframe : Timeframe

-- The text of the constant.
abbrev pub timeframe_text : Timeframe → Str
timeframe_text milliseconds = codes "milli"
timeframe_text seconds = codes "s"
timeframe_text minutes = codes "min"
timeframe_text hours = codes "hr"
timeframe_text days = codes "d"

-- String.
unfoldable pub to_string : TimeAmount → Str
to_string t = decimal t.amount ++ timeframe_text t.timeframe

abbrev pub is_digit : ℕ → Bool
is_digit c = leb b'0' c && leb c b'9'

abbrev pub is_letter : ℕ → Bool
is_letter c = (leb b'a' c && leb c b'z') || (leb b'A' c && leb c b'Z')

-- The longest beginning of bytes of the class.
unfoldable pub take_class : (ℕ → Bool) → Str → Str
take_class p [] = []
take_class p (c ∷ s) = let rest = take_class p s in if p c then c ∷ rest else []

-- FindString of the regular expression of one or more bytes of the class.
unfoldable pub find_class : (ℕ → Bool) → Str → Str
find_class p [] = []
find_class p (c ∷ s) = let rest = find_class p s in if p c then take_class p (c ∷ s) else rest

-- strings.HasPrefix.
unfoldable pub has_prefix : Str → Str → Bool
has_prefix s [] = true
has_prefix [] (c ∷ t) = false
has_prefix (b ∷ s) (c ∷ t) = (b == c) && has_prefix s t

-- The chain of tests of Parse.
unfoldable pub timeframe_of : Str → Option Timeframe
timeframe_of s =
    if has_prefix s (codes "mil")
    then some milliseconds
    else if has_prefix s (codes "s")
    then some seconds
    else if has_prefix s (codes "min")
    then some minutes
    else if has_prefix s (codes "h")
    then some hours
    else if has_prefix s (codes "d")
    then some days
    else none

abbrev int_of : Option ℕ → Option ℤ
int_of none = none
int_of (some n) = if ltb n cutoff then some (pos n) else none

-- strconv.Atoi of a run of digits, which is empty where there is none.
unfoldable pub atoi : Str → Option ℤ
atoi [] = none
atoi (c ∷ s) = int_of (digits_from 10 0 (c ∷ s))

abbrev time_amount : ℤ → Option Timeframe → Option TimeAmount
time_amount a none = none
time_amount a (some f) = some (record { amount = a; timeframe = f })

-- Parse; `none` is an error.
unfoldable pub parse : Str → Option TimeAmount
parse s = elim (atoi (find_class is_digit s)) [
  | none ↦ none
  | some a ↦ time_amount a (timeframe_of (to_lower (find_class is_letter s)))
]
