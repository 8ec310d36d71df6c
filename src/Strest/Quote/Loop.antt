-- ===== src/Strest/Quote/Loop.antt =====
-- The loop of JSONEncodeString in cheshire/strestpackets.go.
use goshire.Base.{
  drop, Option-cases, ◌&&◌, ltb→lt, ap, ◌∙◌, ltb, leb, sym, append_assoc, append-nil, Bool-cases,
  ◌⊎◌, ◌≤◌, ◌<◌, subst, arith, ◌++◌, ℕ, suc, zero, some, true, refl, inr, inl, ◌∷◌, [], ◌≡◌,
}
use goshire.Text.{Str}
use goshire.Strest.Quote.{
  continues, second_within, rune_rest, is_plain, escaped, quote_loop, json_encode_string,
}
use goshire.Strest.Quote.Grammar.{Body, finished, Body-append, Body-escaped, Body-copied}

second_within-continues :
    (low high n k : ℕ) (s : Str)
    → 128 ≤ low
    → high ≤ 191
    → second_within low high n s ≡ some k
    → continues k s ≡ true
unfolding continues
second_within-continues low high n k [] l u e = cc e
second_within-continues low high n k (b ∷ s) l u e =
    elim (Bool-cases ((leb low b && leb b high) && continues n s)) [
      | inl good ↦
          let same : suc n ≡ k = ground (arith, e, good) in
          subst (λ j. continues j (b ∷ s) ≡ true) same (ground (arith, good))
      | inr bad ↦ ground (arith, bad)
    ]

rune_rest-continues :
    (b k : ℕ) (s : Str) → rune_rest b s ≡ some k → (128 ≤ b) × (continues k s ≡ true)
unfolding rune_rest
rune_rest-continues b k s e = elim (Bool-cases (ltb b 194)) [
  | inl low ↦ ground (arith, low)
  | inr high ↦ (
    ground (arith, high),
    ground (
      arith,
      high,
      e,
      second_within-continues 128 191 0 k s (omega arith) (omega arith),
      second_within-continues 160 191 1 k s (omega arith) (omega arith),
      second_within-continues 128 159 1 k s (omega arith) (omega arith),
      second_within-continues 128 191 1 k s (omega arith) (omega arith),
      second_within-continues 144 191 2 k s (omega arith) (omega arith),
      second_within-continues 128 191 2 k s (omega arith) (omega arith),
      second_within-continues 128 143 2 k s (omega arith) (omega arith),
    ),
  )
]

-- What was written so far, from the opening quote on, stands for the text `t`.
record Holds (out pending t : Str) : Type 0 where
  pub body : Str
  pub written : out ++ pending ≡ b'"' ∷ body
  pub stands_for : Body body t

copies :
    (out pending t : Str) (b : ℕ)
    → (is_plain b ≡ true) ⊎ (128 ≤ b)
    → Holds out pending t
    → Holds out (pending ++ b ∷ []) (t ++ b ∷ [])
copies out pending t b h w = record {
  body = w.body ++ b ∷ [];
  written = sym (append_assoc out pending (b ∷ [])) ∙ ap (λ x. x ++ b ∷ []) w.written;
  stands_for = Body-append w.stands_for (Body-copied b h);
}

escapes :
    (out pending t : Str) (b : ℕ)
    → b < 128
    → Holds out pending t
    → Holds ((out ++ pending) ++ escaped b) [] (t ++ b ∷ [])
escapes out pending t b u w = record {
  body = w.body ++ escaped b;
  written = append-nil ((out ++ pending) ++ escaped b) ∙ ap (λ x. x ++ escaped b) w.written;
  stands_for = Body-append w.stands_for (Body-escaped b u);
}

-- The result is a JSON string that stands for the text.
abbrev pub IsQuoted : Str → Str → Type 0
IsQuoted r t = (body : Str) × (r ≡ b'"' ∷ (body ++ b'"' ∷ [])) × Body body t

further : (r t : Str) (b : ℕ) (s : Str) → IsQuoted r ((t ++ b ∷ []) ++ s) → IsQuoted r (t ++ b ∷ s)
further r t b s h = subst (IsQuoted r) (append_assoc t (b ∷ []) s) h

quote_loop_lem :
    (out pending t : Str) (skip : ℕ) (s r : Str)
    → Holds out pending t
    → continues skip s ≡ true
    → quote_loop out pending skip s ≡ some r
    → IsQuoted r (t ++ s)
unfolding quote_loop continues
quote_loop_lem out pending t skip [] r w c e =
    (w.body, ground (arith, e, w.written), subst (Body w.body) (sym (append-nil t)) w.stands_for)
quote_loop_lem out pending t (suc skip) (b ∷ s) r w c e = further r t b s (
    quote_loop_lem out (pending ++ b ∷ []) (t ++ b ∷ []) skip s r
      (copies out pending t b (inr (ground (arith, c))) w) (ground (arith, c)) e)
quote_loop_lem out pending t zero (b ∷ s) r w c e = elim (Bool-cases (ltb b 128)) [
  | inl ascii ↦ elim (Bool-cases (is_plain b)) [
    | inl plain ↦ further r t b s (
        quote_loop_lem out (pending ++ b ∷ []) (t ++ b ∷ []) 0 s r
          (copies out pending t b (inl plain) w) refl (ground (arith, e, ascii, plain)))
    | inr special ↦ further r t b s (
        quote_loop_lem ((out ++ pending) ++ escaped b) [] (t ++ b ∷ []) 0 s r
          (escapes out pending t b (ltb→lt b 128 ascii) w) refl (ground (arith, e, ascii, special)))
  ]
  | inr wide ↦ elim (Option-cases (rune_rest b s)) [
    | inl bad ↦ ground (arith, e, wide, bad)
    | inr (skip, good) ↦
        let (high, more) = rune_rest-continues b skip s good in
        further r t b s (
          quote_loop_lem out (pending ++ b ∷ []) (t ++ b ∷ []) skip s r
            (copies out pending t b (inr high) w) more (ground (arith, e, wide, good)))
  ]
]

-- A sequence of runes, as DecodeRuneInString finds them.
pub data IsUtf8 : Str → Type 0 where
  empty : IsUtf8 []
  ascii : {b : ℕ} {s : Str} → b < 128 → IsUtf8 s → IsUtf8 (b ∷ s)
  rune : {b k : ℕ} {s : Str} → 128 ≤ b → rune_rest b s ≡ some k → IsUtf8 (drop k s) → IsUtf8 (b ∷ s)

quote_loop_total :
    (out pending : Str) (skip : ℕ) (s : Str)
    → IsUtf8 (drop skip s)
    → (r : Str) × (quote_loop out pending skip s ≡ some r)
unfolding quote_loop
quote_loop_total out pending skip [] u = (_, refl)
quote_loop_total out pending (suc skip) (b ∷ s) u =
    quote_loop_total out (pending ++ b ∷ []) skip s u
quote_loop_total out pending zero (b ∷ s) (ascii l u) = elim (Bool-cases (is_plain b)) [
  | inl plain ↦
      let (r, e) = quote_loop_total out (pending ++ b ∷ []) 0 s u in
      (r, ground (arith, e, l, plain))
  | inr special ↦
      let (r, e) = quote_loop_total ((out ++ pending) ++ escaped b) [] 0 s u in
      (r, ground (arith, e, l, special))
]
quote_loop_total out pending zero (b ∷ s) (rune {k} l f u) =
    let (r, e) = quote_loop_total out (pending ++ b ∷ []) k s u in (r, ground (arith, e, l, f))

-- For a text that is UTF-8, JSONEncodeString returns without an error a JSON string that stands for
-- exactly that text: between the quotes every quote, backslash and control byte is escaped.
pub json_encode_string-IsQuoted :
    (s : Str) → IsUtf8 s → (r : Str) × (json_encode_string s ≡ some r) × IsQuoted r s
unfolding json_encode_string continues
json_encode_string-IsQuoted s u =
    let (r, e) = quote_loop_total (b'"' ∷ []) [] 0 s u in
    (
      r,
      e,
      quote_loop_lem (b'"' ∷ []) [] [] 0 s r
          (record { body = []; written = refl; stands_for = finished }) refl e,
    )
