-- ===== src/TimeAmount/Parse.antt =====
-- Parse of timeamount/timeamount.go reads what String prints.
use goshire.Base.{
  ◌%◌, ◌+◌, ◌/◌, length-append, ◌∙◌, ltb, ap, Bool-cases, pos, length, ◌<◌, ℤ, suc, inr, inl, arith,
  ◌++◌, ℕ, All, some, false, refl, ◌∷◌, [], ◌≡◌,
}
use goshire.Text.{Str, to_lower}
use goshire.DynMap.Number.{digits_from, decimal_from, decimal, cutoff}
use goshire.DynMap.Number.RoundTrip.{IsDigit, decimal_from-digits, digits_from-decimal_from}
use goshire.TimeAmount.{
  Timeframe, milliseconds, seconds, minutes, hours, days, timeframe_text, to_string, is_digit,
  is_letter, take_class, find_class, has_prefix, timeframe_of, atoi, parse,
}

-- A text that does not begin with a digit.
abbrev StartsWord : Str → Type 0
StartsWord [] = Unit
StartsWord (c ∷ s) = is_digit c ≡ false

take_digits : (s t : Str) → All IsDigit s → StartsWord t → take_class is_digit (s ++ t) ≡ s
unfolding take_class
take_digits [] [] d w = refl
take_digits [] (c ∷ t) d w = ground (arith, w)
take_digits (c ∷ s) t ((l, u), ds) w = ground (arith, take_digits s t ds w)

find_digits :
    (c : ℕ) (s t : Str)
    → All IsDigit (c ∷ s)
    → StartsWord t
    → find_class is_digit ((c ∷ s) ++ t) ≡ c ∷ s
find_digits c s t ((l, u), ds) w =
    unfold find_class in ground (arith, take_digits (c ∷ s) t ((l, u), ds) w)

skip_digits : (s t : Str) → All IsDigit s → find_class is_letter (s ++ t) ≡ find_class is_letter t
unfolding find_class
skip_digits [] t d = refl
skip_digits (c ∷ s) t ((l, u), ds) = ground (arith, skip_digits s t ds)

word_of_timeframe :
    (f : Timeframe)
    → StartsWord (timeframe_text f)
      × (timeframe_of (to_lower (find_class is_letter (timeframe_text f))) ≡ some f)
unfolding timeframe_of to_lower find_class take_class has_prefix
word_of_timeframe milliseconds = (refl, refl)
word_of_timeframe seconds = (refl, refl)
word_of_timeframe minutes = (refl, refl)
word_of_timeframe hours = (refl, refl)
word_of_timeframe days = (refl, refl)

decimal_nonempty : (n : ℕ) → 0 < length (decimal_from (suc n) n)
unfolding decimal_from
decimal_nonempty n = elim (Bool-cases (ltb n 10)) [
  | inl small ↦ rw small (omega arith)
  | inr large ↦
      rw large (omega (arith, length-append (decimal_from n (n / 10)) ((48 + n % 10) ∷ [])))
]

find_number :
    (d t : Str) → 0 < length d → All IsDigit d → StartsWord t → find_class is_digit (d ++ t) ≡ d
find_number [] t p d w = absurd (omega arith)
find_number (c ∷ s) t p d w = find_digits c s t d w

atoi_of :
    (d : Str) (n : ℕ)
    → 0 < length d
    → digits_from 10 0 d ≡ some n
    → n < cutoff
    → atoi d ≡ some (pos n)
unfolding atoi
atoi_of [] n p e l = absurd (omega arith)
atoi_of (c ∷ s) n p e l = ground (arith, e)

parse_of :
    (t : Str) (a : ℤ) (f : Timeframe)
    → atoi (find_class is_digit t) ≡ some a
    → timeframe_of (to_lower (find_class is_letter t)) ≡ some f
    → parse t ≡ some (record { amount = a; timeframe = f })
unfolding parse
parse_of t a f e g = ground (arith, e, g)

-- Parse reads what String prints of a time amount that is not negative and fits an int, in each of the
-- five timeframes.
pub parse-to_string :
    (n : ℕ) (f : Timeframe)
    → n < cutoff
    → parse (to_string (record { amount = pos n; timeframe = f }))
      ≡ some (record { amount = pos n; timeframe = f })
unfolding to_string decimal
parse-to_string n f l =
    let d = decimal_from (suc n) n in
    let (word, named) = word_of_timeframe f in
    parse_of (d ++ timeframe_text f) (pos n) f
      (ap atoi (find_number d (timeframe_text f) (decimal_nonempty n) (decimal_from-digits n) word)
        ∙ atoi_of d n (decimal_nonempty n) (digits_from-decimal_from (suc n) n (omega arith)) l)
      (ap (λ t. timeframe_of (to_lower t))
          (skip_digits d (timeframe_text f) (decimal_from-digits n))
        ∙ named)
