-- ===== src/Strest/Quote.antt =====
-- JSONEncodeString of cheshire/strestpackets.go: the text is given as its bytes, and is to be UTF-8.
pub mod Grammar
pub mod Loop
use goshire.Base.{
  ℕ, zero, suc, ◌+◌, ◌/◌, ◌%◌, ◌==◌, ltb, leb, Bool, true, false, ◌&&◌, ◌||◌, not, [], ◌∷◌, ◌++◌,
  Option, none, some, if◌then◌else◌,
}
use goshire.Text.{Str}

-- The first bytes of the text, `n` of them, are there and continue a rune.
unfoldable pub continues : ℕ → Str → Bool
continues zero s = true
continues (suc n) [] = false
continues (suc n) (b ∷ s) = (leb 128 b && leb b 191) && continues n s

-- The second byte of a rune is within bounds, and `n` more continue it.
abbrev pub second_within : ℕ → ℕ → ℕ → Str → Option ℕ
second_within low high n [] = none
second_within low high n (b ∷ s) =
    if (leb low b && leb b high) && continues n s then some (suc n) else none

-- utf8.DecodeRuneInString at a first byte that is not ASCII: how many bytes of the rune follow it, and
-- `none` for RuneError of size 1.
unfoldable pub rune_rest : ℕ → Str → Option ℕ
rune_rest b s =
    if ltb b 194
    then none
    else if leb b 223
    then second_within 128 191 0 s
    else if b == 224
    then second_within 160 191 1 s
    else if b == 237
    then second_within 128 159 1 s
    else if leb b 239
    then second_within 128 191 1 s
    else if b == 240
    then second_within 144 191 2 s
    else if leb b 243
    then second_within 128 191 2 s
    else if b == 244
    then second_within 128 143 2 s
    else none

-- The test of an ASCII byte that is copied as it stands.
abbrev pub is_plain : ℕ → Bool
is_plain b =
    leb 32 b && (not (b == b'\\') && (not (b == b'"') && (not (b == b'<') && not (b == b'>'))))

-- hex[d].
abbrev pub hex_digit : ℕ → ℕ
hex_digit d = if ltb d 10 then 48 + d else 87 + d

-- The switch over the other bytes.
abbrev pub escaped : ℕ → Str
escaped b =
    if (b == b'\\') || (b == b'"')
    then b'\\' ∷ b ∷ []
    else if b == 10
    then b'\\' ∷ b'n' ∷ []
    else if b == 13
    then b'\\' ∷ b'r' ∷ []
    else b'\\' ∷ b'u' ∷ b'0' ∷ b'0' ∷ hex_digit (b / 16) ∷ hex_digit (b % 16) ∷ []

-- The loop: `out` is the buffer, `pending` is s[start:i], and `skip` counts the bytes that are left of
-- the rune at hand. `none` is the error for a text that is not UTF-8.
unfoldable pub quote_loop : Str → Str → ℕ → Str → Option Str
quote_loop out pending skip [] = some ((out ++ pending) ++ b'"' ∷ [])
quote_loop out pending (suc skip) (b ∷ s) = quote_loop out (pending ++ b ∷ []) skip s
quote_loop out pending zero (b ∷ s) =
    if ltb b 128
    then (if is_plain b
        then quote_loop out (pending ++ b ∷ []) 0 s
        else quote_loop ((out ++ pending) ++ escaped b) [] 0 s)
    else elim (rune_rest b s) [
      | none ↦ none
      | some skip ↦ quote_loop out (pending ++ b ∷ []) skip s
    ]

-- JSONEncodeString.
unfoldable pub json_encode_string : Str → Option Str
json_encode_string s = quote_loop (b'"' ∷ []) [] 0 s
