-- ===== src/Strest/Quote/Grammar.antt =====
-- What JSONEncodeString of cheshire/strestpackets.go writes is a JSON string that stands for the text.
use goshire.Base.{
  ◌%◌, ◌/◌, ==_iff, sym, subst, ◌||◌, ◌+◌, ◌==◌, ◌*◌, ◌≢◌, arith, Bool-cases, ◌⊎◌, ◌≤◌, ◌<◌, ◌++◌,
  ℕ, true, inr, inl, ◌∷◌, [], ◌≡◌,
}
use goshire.Text.{Str}
use goshire.Strest.Quote.{is_plain, hex_digit, escaped}

-- The inside of a JSON string, with the escapes of RFC 8259 that are used here, and the bytes that it
-- stands for.
pub data Body : Str → Str → Type 0 where
  finished : Body [] []
  plain : (b : ℕ) {s t : Str} → 32 ≤ b → b ≢ b'"' → b ≢ b'\\' → Body s t → Body (b ∷ s) (b ∷ t)
  quoted : (b : ℕ) {s t : Str} → (b ≡ b'"') ⊎ (b ≡ b'\\') → Body s t → Body (b'\\' ∷ b ∷ s) (b ∷ t)
  newline : {s t : Str} → Body s t → Body (b'\\' ∷ b'n' ∷ s) (10 ∷ t)
  return : {s t : Str} → Body s t → Body (b'\\' ∷ b'r' ∷ s) (13 ∷ t)
  unicode :
      (h l : ℕ) {s t : Str}
      → h < 16
      → l < 16
      → Body s t
      → Body (b'\\' ∷ b'u' ∷ b'0' ∷ b'0' ∷ hex_digit h ∷ hex_digit l ∷ s) ((h * 16 + l) ∷ t)

pub Body-append : {s t s' t' : Str} → Body s t → Body s' t' → Body (s ++ s') (t ++ t')
Body-append finished q = q
Body-append (plain b l n m p) q = plain b l n m (Body-append p q)
Body-append (quoted b e p) q = quoted b e (Body-append p q)
Body-append (newline p) q = newline (Body-append p q)
Body-append (return p) q = return (Body-append p q)
Body-append (unicode h l x y p) q = unicode h l x y (Body-append p q)

-- One byte that is not copied.
pub Body-escaped : (b : ℕ) → b < 128 → Body (escaped b) (b ∷ [])
Body-escaped b u = elim (Bool-cases ((b == b'\\') || (b == b'"'))) [
  | inl mark ↦ rw mark (quoted b (ground arith) finished)
  | inr unmarked ↦ elim (Bool-cases (b == 10)) [
    | inl n ↦
        rw (unmarked, n)
          (subst (λ c. Body (b'\\' ∷ b'n' ∷ []) (c ∷ [])) (sym ((==_iff b 10).0 n))
            (newline finished))
    | inr not_n ↦ elim (Bool-cases (b == 13)) [
      | inl r ↦
          rw (unmarked, not_n, r)
            (subst (λ c. Body (b'\\' ∷ b'r' ∷ []) (c ∷ [])) (sym ((==_iff b 13).0 r))
              (return finished))
      | inr not_r ↦
          rw (unmarked, not_n, not_r)
            (subst
              (λ c.
                Body (b'\\' ∷ b'u' ∷ b'0' ∷ b'0' ∷ hex_digit (b / 16) ∷ hex_digit (b % 16) ∷ [])
                  (c ∷ []))
              (omega arith) (unicode (b / 16) (b % 16) (omega arith) (omega arith) finished))
    ]
  ]
]

-- One byte that is copied.
pub Body-copied : (b : ℕ) → (is_plain b ≡ true) ⊎ (128 ≤ b) → Body (b ∷ []) (b ∷ [])
Body-copied b (inl h) = plain b (ground arith) (ground arith) (ground arith) finished
Body-copied b (inr h) = plain b (omega arith) (omega arith) (omega arith) finished
