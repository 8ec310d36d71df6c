-- ===== src/Bin/Codes.antt =====
-- The names of protocol_bin.go and their codes: the tables of BINCONST invert the lists.
use goshire.Base.{
  refl, Option-cases, ℕ, suc, zero, ◌+◌, ◌<◌, ◌≡◌, ◌⊎◌, inl, inr, List, [], ◌∷◌, none, some, ℤ, pos,
  get_elem?, length, arith, Bool-cases,
}
use goshire.Bin.{content_encodings, binconst}
use goshire.Bin.Encode.{bytes_code}
use goshire.Bin.Layout.{wire_code, sent_encoding}
use goshire.Strest.{content_is_set}
use goshire.Text.{str_eq, Str, str_eq_iff}
use goshire.Bin.{Table, set_code, fill, code_table}

get_elem?-lt : (xs : List Str) (n : ℕ) (s : Str) → get_elem? xs n ≡ some s → n < length xs
get_elem?-lt [] n s h = cc
get_elem?-lt (x ∷ xs) zero s h = omega arith
get_elem?-lt (x ∷ xs) (suc n) s h = omega (arith, get_elem?-lt xs n s h)

fill_sound :
    (i : ℕ) (names : List Str) (t : Table) (s : Str) (a : ℤ)
    → fill i names t s ≡ some a
    → (t s ≡ some a) ⊎ ((n : ℕ) × (a ≡ pos (i + n)) × (get_elem? names n ≡ some s))
unfolding fill
fill_sound i [] t s a h = inl h
fill_sound i (r ∷ names) t s a h = elim (fill_sound (i + 1) names (set_code t r (pos i)) s a h) [
  | inr (n, e, g) ↦ inr (suc n, ground (arith, e), g)
  | inl e ↦ elim (Bool-cases (str_eq r s)) [
    | inl same ↦ inr (0, ground (arith, e, same), ground (arith, str_eq_iff r s))
    | inr other ↦ inl (ground (arith, e, other))
  ]
]

-- A name's code is an index into the list, and the list holds the name there.
pub code_table_sound :
    (names : List Str) (s : Str) (a : ℤ)
    → code_table names s ≡ some a
    → (n : ℕ) × (a ≡ pos n) × (get_elem? names n ≡ some s) × (n < length names)
unfolding code_table
code_table_sound names s a h = elim (fill_sound 0 names (λ _. none) s a h) [
  | inl e ↦ cc e
  | inr (n, e, g) ↦ (n, ground (arith, e), g, get_elem?-lt names n s g)
]

-- The same, for a code that is known.
pub known_listed :
    (names : List Str) (s : Str) (n : ℕ)
    → code_table names s ≡ some (pos n)
    → (get_elem? names n ≡ some s) × (n < length names)
known_listed names s n h =
    let (m, e, g, l) = code_table_sound names s (pos n) h in ground (arith, e, g, l)

bytes_code_one : bytes_code ≡ pos 1
unfolding code_table str_eq
bytes_code_one = refl

-- The encoding that arrives has the code that was sent.
pub wire_code_listed :
    (encoding : Str)
    → (n : ℕ) × (wire_code encoding ≡ pos n)
      × (get_elem? content_encodings n ≡ some (sent_encoding encoding))
      × (n < 4)
wire_code_listed encoding = elim (Bool-cases (content_is_set encoding)) [
  | inl set ↦ elim (Option-cases (binconst.content_encoding encoding)) [
    | inl unknown ↦
        (1, ground (arith, set, unknown, bytes_code_one), ground (arith, set, unknown), omega arith)
    | inr (a, known) ↦
        let (n, e, g, l) = code_table_sound content_encodings encoding a known in
        (n, ground (arith, set, known, e), ground (arith, set, known, g), l)
  ]
  | inr unset ↦ (1, ground (arith, unset, bytes_code_one), ground (arith, unset), omega arith)
]
