-- ===== src/Router/Laws.antt =====
-- The loop of `match`: it chooses the longest pattern that matches.
use goshire.Base.{
  ◌≢◌, ℕ, ◌<◌, ◌≤◌, ◌≡◌, refl, ◌⊎◌, inl, inr, true, false, [], ◌∷◌, none, some, All, length, arith,
  ltb, Bool-cases,
}
use goshire.Text.{Str}
use goshire.Router.{Controller, MuxEntry, Mux, path_match, match_loop}

-- The map holds the entry.
abbrev pub In : Str → MuxEntry → Mux → Type 0
In k v [] = ⊥
In k v ((j, e) ∷ m) = ((j ≡ k) × (e ≡ v)) ⊎ In k v m

-- No pattern of the map that matches the path is longer than `n`.
abbrev pub IsBounded : Str → ℕ → Mux → Type 0
IsBounded path n = All (λ e. path_match e.0 path ≡ true → length e.0 ≤ n)

-- No pattern of the map matches the path.
abbrev pub IsUnmatched : Str → Mux → Type 0
IsUnmatched path = All (λ e. path_match e.0 path ≡ false)

-- The controller stands in the map under a pattern that matches, and none that matches is longer.
pub record IsLongest (path : Str) (m : Mux) (c : Controller) : Type 0 where
  pub pattern : Str
  pub entry : MuxEntry
  pub listed : In pattern entry m
  pub matches : path_match pattern path ≡ true
  pub chosen : entry.h ≡ c
  pub bounded : IsBounded path (length pattern) m

IsLongest-skip :
    {path : Str} {m : Mux} {c : Controller} (k : Str) (v : MuxEntry)
    → (h : IsLongest path m c) → (path_match k path ≡ true → length k ≤ length h.pattern)
    → IsLongest path ((k, v) ∷ m) c
IsLongest-skip k v h fits = record {
  pattern = h.pattern;
  entry = h.entry;
  listed = inr h.listed;
  matches = h.matches;
  chosen = h.chosen;
  bounded = (fits, h.bounded);
}

-- With a controller chosen so far under a pattern of length `n`: it stays where no pattern that
-- matches is longer, and otherwise the longest takes its place.
loop_some :
    (path : Str) (m : Mux) (c d : Controller) (n : ℕ)
    → match_loop path m (some c) n ≡ some d
    → ((c ≡ d) × IsBounded path n m) ⊎ ((h : IsLongest path m d) × (n < length h.pattern))
unfolding match_loop IsLongest-skip
loop_some path [] c d n e = inl (ground arith, tt)
loop_some path ((k, v) ∷ m) c d n e = elim (Bool-cases (path_match k path)) [
  | inl hit ↦ elim (Bool-cases (ltb n (length k))) [
    | inl longer ↦ elim (loop_some path m v.h d (length k) (ground (arith, hit, longer))) [
      | inl (same, bounded) ↦ inr (
        record {
          pattern = k;
          entry = v;
          listed = inl (refl, refl);
          matches = hit;
          chosen = same;
          bounded = (λ _. omega arith, bounded);
        },
        ground arith,
      )
      | inr (h, l) ↦ inr (IsLongest-skip k v h (λ _. omega arith), ground arith)
    ]
    | inr shorter ↦ elim (loop_some path m c d n (ground (arith, hit, shorter))) [
      | inl (same, bounded) ↦ inl (same, ((λ _. ground arith), bounded))
      | inr (h, l) ↦ inr (IsLongest-skip k v h (λ _. ground arith), l)
    ]
  ]
  | inr miss ↦ elim (loop_some path m c d n (ground (arith, miss))) [
    | inl (same, bounded) ↦ inl (same, ((λ p. cc (p, miss)), bounded))
    | inr (h, l) ↦ inr (IsLongest-skip k v h (λ p. cc (p, miss)), l)
  ]
]

loop_some-ne-none :
    (path : Str) (m : Mux) (c : Controller) (n : ℕ) → match_loop path m (some c) n ≢ none
unfolding match_loop
loop_some-ne-none path [] c n e = cc
loop_some-ne-none path ((k, v) ∷ m) c n e =
    ground (arith, loop_some-ne-none path m c n, loop_some-ne-none path m v.h (length k))

-- The controller that the loop of `match` ends with, if it ends with one, stands in the map under a
-- pattern that matches the path, and no pattern of the map that matches the path is longer.
pub match_loop_longest :
    (path : Str) (m : Mux) (d : Controller) → match_loop path m none 0 ≡ some d → IsLongest path m d
unfolding match_loop
match_loop_longest path [] d e = cc
match_loop_longest path ((k, v) ∷ m) d e = elim (Bool-cases (path_match k path)) [
  | inl hit ↦ elim (loop_some path m v.h d (length k) (ground (arith, hit))) [
    | inl (same, bounded) ↦ record {
      pattern = k;
      entry = v;
      listed = inl (refl, refl);
      matches = hit;
      chosen = same;
      bounded = (λ _. omega arith, bounded);
    }
    | inr (h, l) ↦ IsLongest-skip k v h (λ _. omega arith)
  ]
  | inr miss ↦
      IsLongest-skip k v (match_loop_longest path m d (ground (arith, miss))) (λ p. cc (p, miss))
]

pub match_loop-IsUnmatched :
    (path : Str) (m : Mux) → match_loop path m none 0 ≡ none → IsUnmatched path m
unfolding match_loop
match_loop-IsUnmatched path [] e = tt
match_loop-IsUnmatched path ((k, v) ∷ m) e = elim (Bool-cases (path_match k path)) [
  | inl hit ↦ absurd (loop_some-ne-none path m v.h (length k) (ground (arith, hit)))
  | inr miss ↦ (miss, match_loop-IsUnmatched path m (ground (arith, miss)))
]
