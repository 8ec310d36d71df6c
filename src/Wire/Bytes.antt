-- ===== src/Wire/Bytes.antt =====
-- encoding/binary with BigEndian, at one, two, four and eight bytes.
use goshire.Base.{
  ℕ, zero, suc, ◌+◌, ◌*◌, ◌/◌, ◌%◌, ◌<◌, ◌≡◌, refl, ap, ◌∙◌, [], ◌∷◌, ◌++◌, arith, length,
  length-append, ℤ, pos, Fits, to_word, of_word, of_word-to_word, to_word-lt, All, All-append,
}
use goshire.Text.{Str}

-- 256 ^ n.
abbrev pub patterns : ℕ → ℕ
patterns zero = 1
patterns (suc n) = 256 * patterns n

-- Half of 256 ^ n, for a width of at least one byte.
abbrev pub half : ℕ → ℕ
half zero = 0
half (suc n) = 128 * patterns n

abbrev pub IsByte : ℕ → Type 0
IsByte b = b < 256

-- The `n` bytes of a number, highest first.
unfoldable pub to_bytes : ℕ → ℕ → Str
to_bytes zero u = []
to_bytes (suc n) u = to_bytes n (u / 256) ++ (u % 256) ∷ []

-- `acc` is what the bytes so far stand for.
of_bytes_from : ℕ → Str → ℕ
of_bytes_from acc [] = acc
of_bytes_from acc (b ∷ s) = of_bytes_from (acc * 256 + b) s

pub of_bytes : Str → ℕ
unfolding of_bytes_from
of_bytes s = of_bytes_from 0 s

-- A signed integer of `n` bytes, written and read.
unfoldable pub encode_int : ℕ → ℤ → Str
encode_int n a = to_bytes n (to_word (half n) a)

unfoldable pub decode_int : ℕ → Str → ℤ
decode_int n s = of_word (half n) (of_bytes s)

-- The bytes of a length of `n` bytes and what it counts.
abbrev pub prefixed : ℕ → Str → Str
prefixed n xs = encode_int n (pos (length xs)) ++ xs

pub length-to_bytes : (n u : ℕ) → length (to_bytes n u) ≡ n
unfolding to_bytes
length-to_bytes zero u = refl
length-to_bytes (suc n) u =
    length-append (to_bytes n (u / 256)) _ ∙ omega (arith, length-to_bytes n (u / 256))

pub to_bytes-IsByte : (n u : ℕ) → All IsByte (to_bytes n u)
unfolding to_bytes
to_bytes-IsByte zero u = tt
to_bytes-IsByte (suc n) u =
    All-append IsByte (to_bytes n (u / 256)) _ (to_bytes-IsByte n (u / 256)) (omega arith)

of_bytes_from-append :
    (acc : ℕ) (s : Str) (b : ℕ) → of_bytes_from acc (s ++ b ∷ []) ≡ of_bytes_from acc s * 256 + b
unfolding of_bytes_from
of_bytes_from-append acc [] b = refl
of_bytes_from-append acc (c ∷ s) b = of_bytes_from-append (acc * 256 + c) s b

pub of_bytes-to_bytes : (n u : ℕ) → u < patterns n → of_bytes (to_bytes n u) ≡ u
unfolding of_bytes to_bytes
of_bytes-to_bytes zero u h = omega arith
of_bytes-to_bytes (suc n) u h =
    of_bytes_from-append 0 (to_bytes n (u / 256)) (u % 256)
    ∙ omega (arith, of_bytes-to_bytes n (u / 256) (omega arith))

double_half : (n : ℕ) → half (suc n) + half (suc n) ≡ patterns (suc n)
double_half n = omega arith

-- A signed integer of one byte or more comes back from its bytes.
pub decode_int-encode_int :
    (n : ℕ) (a : ℤ) → Fits (half (suc n)) a → decode_int (suc n) (encode_int (suc n) a) ≡ a
unfolding decode_int encode_int
decode_int-encode_int n a f =
    ap (of_word (half (suc n))) (
      of_bytes-to_bytes (suc n) (to_word (half (suc n)) a)
        (omega (arith, to_word-lt (half (suc n)) a (half_pos n), double_half n)))
    ∙ of_word-to_word (half (suc n)) a f
  where
    patterns_pos : (n : ℕ) → 0 < patterns n
    patterns_pos zero = omega arith
    patterns_pos (suc n) = omega (arith, patterns_pos n)

    half_pos : (n : ℕ) → 0 < half (suc n)
    half_pos n = omega (arith, patterns_pos n)

pub length-encode_int : (n : ℕ) (a : ℤ) → length (encode_int n a) ≡ n
unfolding encode_int
length-encode_int n a = length-to_bytes n _
