-- ===== src/DynMap/Number.antt =====
-- strconv.ParseInt with base 0 and 64 bits, as ToInt64 of dynmap/typecast.go calls it, and the decimal
-- digits that fmt.Sprint prints of an integer. A text is ASCII where its letters are folded.
pub mod RoundTrip
use goshire.Base.{
  ◌%◌, ◌++◌, ◌/◌, ℕ, zero, suc, ◌+◌, ◌-◌, ◌*◌, ◌==◌, ltb, leb, Bool, true, false, ◌&&◌, ◌||◌, [],
  ◌∷◌, Option, none, some, ℤ, pos, negsuc, if◌then◌else◌,
}
use goshire.Text.{Str}

-- c | ('x' - 'X').
abbrev pub lower : ℕ → ℕ
lower c = if leb b'A' c && leb c b'Z' then c + 32 else c

-- The value of a digit in a base up to 36; `none` is a syntax error.
abbrev pub digit_value : ℕ → Option ℕ
digit_value c =
    if leb b'0' c && leb c b'9'
    then some (c - b'0')
    else if leb b'a' (lower c) && leb (lower c) b'z'
    then some (lower c - b'a' + 10)
    else none

abbrev pub add_digit : ℕ → ℕ → Option ℕ → Option ℕ
add_digit base acc none = none
add_digit base acc (some d) = if ltb d base then some (acc * base + d) else none

-- The loop of ParseUint: underscores are passed over, and checked afterwards.
unfoldable pub digits_from : ℕ → ℕ → Str → Option ℕ
digits_from base acc [] = some acc
digits_from base acc (c ∷ s) =
    if c == b'_' then digits_from base acc s else elim (add_digit base acc (digit_value c)) [
      | none ↦ none
      | some acc' ↦ digits_from base acc' s
    ]

-- The last thing that underscoreOK saw.
pub data Seen : Type 0 where
  nothing digit underscore other : Seen

abbrev is_digit : Bool → ℕ → Bool
is_digit hex c = (leb b'0' c && leb c b'9') || (hex && (leb b'a' (lower c) && leb (lower c) b'f'))

abbrev not_underscore : Seen → Bool
not_underscore underscore = false
not_underscore _ = true

abbrev after_digit : Seen → Bool
after_digit digit = true
after_digit _ = false

-- The loop of underscoreOK: an underscore stands only between digits, or after the prefix.
unfoldable pub underscores_ok : Bool → Seen → Str → Bool
underscores_ok hex seen [] = not_underscore seen
underscores_ok hex seen (c ∷ s) =
    if is_digit hex c
    then underscores_ok hex digit s
    else if c == b'_'
    then after_digit seen && underscores_ok hex underscore s
    else not_underscore seen && underscores_ok hex other s

-- ParseUint after its prefix.
abbrev pub checked : Bool → Seen → ℕ → Str → Option ℕ
checked hex seen base s = if underscores_ok hex seen s then digits_from base 0 s else none

-- The prefix of ParseUint with base 0. A prefix that nothing follows is the octal form.
unfoldable pub parse_uint : Str → Option ℕ
parse_uint [] = none
parse_uint (a ∷ []) = if a == b'0' then some 0 else checked false nothing 10 (a ∷ [])
parse_uint (a ∷ b ∷ []) =
    if a == b'0' then checked false digit 8 (b ∷ []) else checked false nothing 10 (a ∷ b ∷ [])
parse_uint (a ∷ b ∷ c ∷ s) =
    if a == b'0'
    then (if lower b == b'b'
        then checked false digit 2 (c ∷ s)
        else if lower b == b'o'
        then checked false digit 8 (c ∷ s)
        else if lower b == b'x'
        then checked true digit 16 (c ∷ s)
        else checked false digit 8 (b ∷ c ∷ s))
    else checked false nothing 10 (a ∷ b ∷ c ∷ s)

-- 2^63.
abbrev pub cutoff : ℕ
cutoff = 9223372036854775808

abbrev pub signed_of : Bool → Option ℕ → Option ℤ
signed_of neg none = none
signed_of true (some zero) = some (pos 0)
signed_of true (some (suc n)) = if ltb n cutoff then some (negsuc n) else none
signed_of false (some n) = if ltb n cutoff then some (pos n) else none

-- ParseInt; `none` is an error, of syntax or of range.
unfoldable pub parse_int : Str → Option ℤ
parse_int [] = none
parse_int (c ∷ s) =
    if c == b'+'
    then signed_of false (parse_uint s)
    else if c == b'-'
    then signed_of true (parse_uint s)
    else signed_of false (parse_uint (c ∷ s))

-- The decimal digits of a number, highest first; `n` digits are more than a number below `n` has.
unfoldable pub decimal_from : ℕ → ℕ → Str
decimal_from zero n = []
decimal_from (suc fuel) n =
    let high = decimal_from fuel (n / 10) in
    if ltb n 10 then (48 + n) ∷ [] else high ++ (48 + n % 10) ∷ []

-- What fmt.Sprint prints of an integer.
unfoldable pub decimal : ℤ → Str
decimal (pos n) = decimal_from (suc n) n
decimal (negsuc n) = b'-' ∷ decimal_from (suc (suc n)) (suc n)
