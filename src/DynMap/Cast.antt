-- ===== src/DynMap/Cast.antt =====
-- The conversions of dynmap/typecast.go from a value to a bool, an int64 or a text.
use goshire.Base.{
  ◌∙◌, ap, ℕ, leb, ◌==◌, Bool, true, false, ◌&&◌, ◌||◌, List, [], ◌∷◌, Option, none, some, ℤ,
  if◌then◌else◌, ◌≡◌, refl, All, ◌<◌, arith,
}
use goshire.Text.{Str, codes, str_eq, to_lower}
use goshire.DynMap.Fields.{Value, nil, bool, int, float, str, other}
use goshire.DynMap.Number.{parse_int, decimal}

-- unicode.IsSpace, on ASCII.
abbrev pub is_space : ℕ → Bool
is_space c = (leb 9 c && leb c 13) || c == b' '

abbrev cons_trimmed : ℕ → Str → Str
cons_trimmed c [] = if is_space c then [] else c ∷ []
cons_trimmed c (d ∷ s) = c ∷ d ∷ s

-- strings.TrimSpace, on ASCII.
unfoldable pub trim_right : Str → Str
trim_right [] = []
trim_right (c ∷ s) = cons_trimmed c (trim_right s)

unfoldable pub trim_left : Str → Str
trim_left [] = []
trim_left (c ∷ s) = let rest = trim_left s in if is_space c then rest else c ∷ s

abbrev pub trim_space : Str → Str
trim_space s = trim_right (trim_left s)

abbrev pub one_of : List Str → Str → Bool
one_of [] s = false
one_of (t ∷ ts) s = str_eq s t || one_of ts s

abbrev trues : List Str
trues = codes "true" ∷ codes "t" ∷ codes "yes" ∷ codes "y" ∷ codes "on" ∷ []

abbrev falses : List Str
falses = codes "false" ∷ codes "f" ∷ codes "no" ∷ codes "n" ∷ codes "off" ∷ []

-- ToBool; `none` is an error.
unfoldable pub to_bool : Value → Option Bool
to_bool (bool b) = some b
to_bool (str s) =
    if one_of trues (to_lower s)
    then some true
    else if one_of falses (to_lower s)
    then some false
    else none
to_bool _ = none

-- ToInt64, and ToInt on a machine of 64 bits; `none` is an error.
unfoldable pub to_int64 : Value → Option ℤ
to_int64 (str s) = parse_int (trim_space s)
to_int64 (int a) = some a
to_int64 (float a t) = some a
to_int64 _ = none

-- ToString, fmt.Sprint. `sprint` prints a map, a slice or a *DynMap: what it prints of a pointer
-- inside one is an address.
unfoldable pub to_text : (Value → Str) → Value → Str
to_text sprint nil = codes "<nil>"
to_text sprint (bool true) = codes "true"
to_text sprint (bool false) = codes "false"
to_text sprint (int a) = decimal a
to_text sprint (float a t) = t
to_text sprint (str s) = s
to_text sprint (other t) = t
to_text sprint v = sprint v

-- A text without spaces is not trimmed.
trim_right-solid : (s : Str) → All (λ c. 32 < c) s → trim_right s ≡ s
unfolding trim_right
trim_right-solid [] h = refl
trim_right-solid (c ∷ []) (h, hs) = ground arith
trim_right-solid (c ∷ d ∷ s) (h, hs) = ground (arith, trim_right-solid (d ∷ s) hs)

trim_left-solid : (s : Str) → All (λ c. 32 < c) s → trim_left s ≡ s
unfolding trim_left
trim_left-solid [] h = refl
trim_left-solid (c ∷ s) (h, hs) = ground arith

pub trim_space-solid : (s : Str) → All (λ c. 32 < c) s → trim_space s ≡ s
trim_space-solid s h = ap trim_right (trim_left-solid s h) ∙ trim_right-solid s h
