-- ===== src/Text.antt =====
-- Go strings: sequences of bytes.
use Prim.Native.Char.{code}
use Prim.Native.String.{String}
use goshire.Base.{
  ◌-◌, ◌+◌, leb, inr, Bool-cases, inl, ◌<◌, length, ◌⊎◌, if◌then◌else◌, ℕ, ◌≡◌, refl, ◌↔◌, Bool,
  true, false, ◌&&◌, List, [], ◌∷◌, arith, ◌==◌,
}

abbrev pub Str : Type 0
Str = List ℕ

-- A text literal of the source, all ASCII.
abbrev pub codes : String → Str
codes String.[] = []
codes (String.◌∷◌ c s) = code c ∷ codes s

-- Go's == on strings.
unfoldable pub str_eq : Str → Str → Bool
str_eq [] [] = true
str_eq [] (b ∷ t) = false
str_eq (a ∷ s) [] = false
str_eq (a ∷ s) (b ∷ t) = (a == b) && str_eq s t

pub str_eq_sound : (s t : Str) → str_eq s t ≡ true → s ≡ t
unfolding str_eq
str_eq_sound [] [] h = refl
str_eq_sound [] (b ∷ t) h = ground arith
str_eq_sound (a ∷ s) [] h = ground arith
str_eq_sound (a ∷ s) (b ∷ t) h = ground (arith, str_eq_sound s t)

pub str_eq_self : (s : Str) → str_eq s s ≡ true
unfolding str_eq
str_eq_self [] = refl
str_eq_self (a ∷ s) = ground (arith, str_eq_self s)

pub str_eq_iff : (s t : Str) → (str_eq s t ≡ true) ↔ (s ≡ t)
str_eq_iff s t = (str_eq_sound s t, λ e. ground (arith, str_eq_self s))

-- One more byte in front of the first piece.
abbrev pub extend : ℕ → List Str → List Str
extend c [] = (c ∷ []) ∷ []
extend c (p ∷ ps) = (c ∷ p) ∷ ps

-- `strings.Split` at one byte: the pieces between its occurrences, at least one.
unfoldable pub split : ℕ → Str → List Str
split b [] = [] ∷ []
split b (c ∷ s) = let rest = split b s in if c == b then [] ∷ rest else extend c rest

-- The piece before the first occurrence.
unfoldable pub first_piece : ℕ → Str → Str
first_piece b [] = []
first_piece b (c ∷ s) = let rest = first_piece b s in if c == b then [] else c ∷ rest

-- Every text has a first piece, it is the whole text where nothing follows, and it is shorter
-- than the text where something does.
pub split_cases :
    (b : ℕ) (s : Str)
    → (split b s ≡ s ∷ [])
      ⊎ ((q : Str) × (qs : List Str) × (split b s ≡ first_piece b s ∷ q ∷ qs)
          × (length (first_piece b s) < length s))
unfolding split first_piece
split_cases b [] = inl refl
split_cases b (c ∷ s) = elim (split_cases b s) [
  | inl e ↦ elim (Bool-cases (c == b)) [
    | inl hit ↦ inr (s, [], ground (arith, e), ground arith)
    | inr miss ↦ inl (ground (arith, e))
  ]
  | inr (q, qs, e, h) ↦ elim (Bool-cases (c == b)) [
    | inl hit ↦ inr (first_piece b s, q ∷ qs, ground (arith, e), ground arith)
    | inr miss ↦ inr (q, qs, ground (arith, e), ground arith)
  ]
]

pub split-first_piece : (b : ℕ) (s : Str) → split b (first_piece b s) ≡ first_piece b s ∷ []
unfolding split first_piece
split-first_piece b [] = refl
split-first_piece b (c ∷ s) = ground (arith, split-first_piece b s)

pub first_piece_of_plain : (b : ℕ) (s : Str) → split b s ≡ s ∷ [] → s ≡ first_piece b s
unfolding split first_piece
first_piece_of_plain b [] e = refl
first_piece_of_plain b (c ∷ s) e = elim (split_cases b s) [
  | inl f ↦ ground (arith, first_piece_of_plain b s f)
  | inr (q, qs, f, h) ↦ ground (arith, f)
]

-- `strings.ToUpper` and `strings.ToLower`, on ASCII.
unfoldable pub to_upper : Str → Str
to_upper [] = []
to_upper (c ∷ s) = (if leb b'a' c && leb c b'z' then c - 32 else c) ∷ to_upper s

unfoldable pub to_lower : Str → Str
to_lower [] = []
to_lower (c ∷ s) = (if leb b'A' c && leb c b'Z' then c + 32 else c) ∷ to_lower s
