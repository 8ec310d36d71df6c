-- ===== src/DynMap/Number/RoundTrip.antt =====
-- strconv.ParseInt reads what fmt.Sprint prints of an integer.
use goshire.Base.{
  negsuc, pos, sym, Fits, ◌-◌, ℤ, ap, ◌∙◌, ◌%◌, ◌/◌, ltb→lt, ◌*◌, ltb, All-append, ◌+◌, Bool-cases,
  ◌++◌, arith, ◌<◌, All, ◌⊎◌, ◌≤◌, ℕ, suc, zero, some, false, true, refl, inr, inl, ◌∷◌, [], ◌≡◌,
}
use goshire.Text.{Str}
use goshire.DynMap.Number.{
  digits_from, Seen, nothing, digit, underscores_ok, parse_uint, cutoff, signed_of, parse_int,
  decimal_from, decimal,
}

abbrev pub IsDigit : ℕ → Type 0
IsDigit c = (48 ≤ c) × (c ≤ 57)

digits_from-digit :
    (acc c : ℕ) (s : Str)
    → IsDigit c
    → digits_from 10 acc (c ∷ s) ≡ digits_from 10 (acc * 10 + (c - 48)) s
unfolding digits_from
digits_from-digit acc c s (l, u) = ground arith

digits_from-append :
    (acc v d : ℕ) (s : Str)
    → d < 10
    → All IsDigit s
    → digits_from 10 acc s ≡ some v
    → digits_from 10 acc (s ++ (48 + d) ∷ []) ≡ some (v * 10 + d)
digits_from-append acc v d [] l ds h =
    digits_from-digit acc (48 + d) [] (omega arith, omega arith)
    ∙ unfold digits_from in ground (arith, h)
digits_from-append acc v d (c ∷ s) l (dc, ds) h =
    digits_from-digit acc c (s ++ (48 + d) ∷ []) dc
    ∙ digits_from-append (acc * 10 + (c - 48)) v d s l ds (sym (digits_from-digit acc c s dc) ∙ h)

-- One digit or more, and the first is not 0.
abbrev IsNumber : Str → Type 0
IsNumber [] = ⊥
IsNumber (c ∷ s) = (49 ≤ c) × All IsDigit (c ∷ s)

IsNumber-append : (s : Str) (d : ℕ) → d < 10 → IsNumber s → IsNumber (s ++ (48 + d) ∷ [])
IsNumber-append [] d l h = absurd h
IsNumber-append (c ∷ s) d l (low, ds) =
    (low, All-append IsDigit (c ∷ s) ((48 + d) ∷ []) ds ((omega arith, omega arith), tt))

IsNumber-digits : (s : Str) → IsNumber s → All IsDigit s
IsNumber-digits [] h = tt
IsNumber-digits (c ∷ s) h = h.1

decimal_from-IsNumber : (fuel n : ℕ) → n < fuel → 0 < n → IsNumber (decimal_from fuel n)
unfolding decimal_from
decimal_from-IsNumber zero n l p = absurd (omega arith)
decimal_from-IsNumber (suc fuel) n l p = elim (Bool-cases (ltb n 10)) [
  | inl small ↦ rw small (omega arith, ((omega arith, ground arith), tt))
  | inr large ↦ rw large (
      IsNumber-append (decimal_from fuel (n / 10)) (n % 10) (omega arith)
        (decimal_from-IsNumber fuel (n / 10) (ground arith) (ground arith)))
]

pub digits_from-decimal_from :
    (fuel n : ℕ) → n < fuel → digits_from 10 0 (decimal_from fuel n) ≡ some n
unfolding decimal_from
digits_from-decimal_from zero n l = absurd (omega arith)
digits_from-decimal_from (suc fuel) n l = elim (Bool-cases (ltb n 10)) [
  | inl small ↦ rw small (
      digits_from-append 0 0 n [] (ltb→lt n 10 small) tt (unfold digits_from in refl)
      ∙ ap some (omega arith))
  | inr large ↦ rw large (
      digits_from-append 0 (n / 10) (n % 10) (decimal_from fuel (n / 10)) (omega arith)
        (IsNumber-digits _ (decimal_from-IsNumber fuel (n / 10) (ground arith) (ground arith)))
        (digits_from-decimal_from fuel (n / 10) (ground arith))
      ∙ ap some (omega arith))
]

underscores_ok-digits :
    (s : Str) (seen : Seen)
    → (seen ≡ digit) ⊎ (seen ≡ nothing)
    → All IsDigit s
    → underscores_ok false seen s ≡ true
unfolding underscores_ok
underscores_ok-digits [] seen h d = ground (arith, h)
underscores_ok-digits (c ∷ s) seen h ((l, u), ds) =
    ground (arith, underscores_ok-digits s digit (inl refl) ds)

-- A number that does not begin with 0 is read in base ten.
parse_uint-IsNumber :
    (s : Str) (n : ℕ) → IsNumber s → digits_from 10 0 s ≡ some n → parse_uint s ≡ some n
unfolding parse_uint
parse_uint-IsNumber [] n h e = absurd h
parse_uint-IsNumber (a ∷ []) n (l, ds) e =
    ground (arith, underscores_ok-digits (a ∷ []) nothing (inr refl) ds)
parse_uint-IsNumber (a ∷ b ∷ []) n (l, ds) e =
    ground (arith, underscores_ok-digits (a ∷ b ∷ []) nothing (inr refl) ds)
parse_uint-IsNumber (a ∷ b ∷ c ∷ s) n (l, ds) e =
    ground (arith, underscores_ok-digits (a ∷ b ∷ c ∷ s) nothing (inr refl) ds)

parse_uint-decimal_from : (n : ℕ) → parse_uint (decimal_from (suc n) n) ≡ some n
parse_uint-decimal_from zero = unfold decimal_from parse_uint in refl
parse_uint-decimal_from (suc n) =
    parse_uint-IsNumber _ (suc n)
      (decimal_from-IsNumber (suc (suc n)) (suc n) (omega arith) (omega arith))
      (digits_from-decimal_from (suc (suc n)) (suc n) (omega arith))

-- A number is read as such after no sign.
parse_int-unsigned :
    (s : Str) (n : ℕ) → IsNumber s → parse_uint s ≡ some n → parse_int s ≡ signed_of false (some n)
unfolding parse_int
parse_int-unsigned [] n h e = absurd h
parse_int-unsigned (c ∷ s) n (l, ds) e = ground (arith, e)

-- The text that is printed of an int64 is read back as that int64.
pub parse_int-decimal : (a : ℤ) → Fits cutoff a → parse_int (decimal a) ≡ some a
unfolding decimal
parse_int-decimal (pos zero) f = unfold parse_int decimal_from parse_uint in refl
parse_int-decimal (pos (suc n)) f =
    parse_int-unsigned _ (suc n)
      (decimal_from-IsNumber (suc (suc n)) (suc n) (omega arith) (omega arith))
      (parse_uint-decimal_from (suc n))
    ∙ ground arith
parse_int-decimal (negsuc n) f =
    unfold parse_int in ap (signed_of true) (parse_uint-decimal_from (suc n)) ∙ ground arith

digits-solid : (s : Str) → All IsDigit s → All (λ c. 32 < c) s
digits-solid [] h = tt
digits-solid (c ∷ s) ((l, u), ds) = (omega arith, digits-solid s ds)

-- What is printed of a natural number is digits.
pub decimal_from-digits : (n : ℕ) → All IsDigit (decimal_from (suc n) n)
decimal_from-digits zero = unfold decimal_from in ((omega arith, omega arith), tt)
decimal_from-digits (suc n) =
    IsNumber-digits _ (decimal_from-IsNumber (suc (suc n)) (suc n) (omega arith) (omega arith))

-- Nothing that is printed of an integer is a space.
pub decimal-solid : (a : ℤ) → All (λ c. 32 < c) (decimal a)
unfolding decimal
decimal-solid (pos n) = digits-solid _ (decimal_from-digits n)
decimal-solid (negsuc n) = (omega arith, digits-solid _ (decimal_from-digits (suc n)))
