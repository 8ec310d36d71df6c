-- ===== src/TimeAmount/Products.antt =====
-- Products and quotients of the integers that timeamount/timeamount.go computes with.
use goshire.Base.{
  zero, ◌≤◌, true, ℕ, ℤ, pos, negsuc, suc, ◌*ℤ◌, ◌*◌, ◌<◌, ◌+◌, sub_ℕ, pos_part, neg_part, some,
  ◌≡◌, ◌∙◌, ap, refl, sym, arith, of_word-to_word,
}
use goshire.DynMap.Number.{cutoff}
use goshire.TimeAmount.Epoch.{in_int64, int64, quotient}
use native.Mathlib.Nat.{mul-div_right, mul_comm, mul_assoc}
use goshire.TimeAmount.Epoch.{quotient, int64}

-- How far from 0 the integer is.
abbrev pub size : ℤ → ℕ
size a = pos_part a + neg_part a

-- The integer times a natural number.
abbrev pub times : ℕ → ℤ → ℤ
times n (pos k) = pos (n * k)
times n (negsuc k) = sub_ℕ 0 (n * suc k)

pub parts-times :
    (n : ℕ) (a : ℤ)
    → (pos_part (times n a) ≡ n * pos_part a) × (neg_part (times n a) ≡ n * neg_part a)
parts-times n (pos k) = (refl, ground arith)
parts-times n (negsuc k) = ground arith

pub pos-times : (n : ℕ) (a : ℤ) → pos n *ℤ a ≡ times n a
unfolding ◌*ℤ◌
pos-times n (pos k) = ground arith
pos-times n (negsuc k) = ground arith

pub times-pos : (n : ℕ) (a : ℤ) → a *ℤ pos n ≡ times n a
unfolding ◌*ℤ◌
times-pos n (pos k) = ground (arith, mul_comm n k)
times-pos n (negsuc k) = ground (arith, mul_comm n (suc k))

pub of_parts : (a b : ℤ) → pos_part a ≡ pos_part b → neg_part a ≡ neg_part b → a ≡ b
of_parts (pos m) (pos n) p q = ap pos p
of_parts (negsuc m) (negsuc n) p q = ground (arith, q)
of_parts (pos m) (negsuc n) p q = ground (arith, p, q)
of_parts (negsuc m) (pos n) p q = ground (arith, p, q)

pub times-times : (m n : ℕ) (a : ℤ) → times m (times n a) ≡ times (m * n) a
times-times m n a =
    let (p, q) = parts-times n a in
    let (p', q') = parts-times m (times n a) in
    let (p'', q'') = parts-times (m * n) a in
    of_parts _ _ (p' ∙ ap (λ k. m * k) p ∙ sym (mul_assoc m n (pos_part a)) ∙ sym p'')
      (q' ∙ ap (λ k. m * k) q ∙ sym (mul_assoc m n (neg_part a)) ∙ sym q'')

pub int64_small : (a : ℤ) → size a < cutoff → int64 a ≡ a
int64_small a h = of_word-to_word cutoff a (omega arith, omega arith)

pub quotient-times : (n : ℕ) (a : ℤ) → quotient (times (suc n) a) (pos (suc n)) ≡ some a
unfolding quotient
quotient-times n (pos k) = ground (arith, mul-div_right k {m = suc n} (omega arith))
quotient-times n (negsuc k) =
    let (p, q) = parts-times (suc n) (negsuc k) in
    ground (arith, p, q, mul-div_right (suc k) {m = suc n} (omega arith))

pub size-times : (n : ℕ) (a : ℤ) → size (times n a) ≡ n * size a
size-times n (pos k) = ground arith
size-times n (negsuc k) = ground arith

pub product_small : (n : ℕ) (e : ℤ) → n * size e < cutoff → int64 (pos n *ℤ e) ≡ times n e
product_small n e h =
    ap int64 (pos-times n e) ∙ int64_small (times n e) (omega (arith, size-times n e))

pub le_product : (n m : ℕ) → n ≤ n * suc m
le_product n m = grind arith

pub product_zero : (a : ℤ) → a *ℤ pos 0 ≡ pos 0
unfolding ◌*ℤ◌
product_zero (pos k) = ground arith
product_zero (negsuc k) = ground arith

pub in_int64_small : (a : ℤ) → size a < cutoff → in_int64 a ≡ true
in_int64_small (pos n) h = ground arith
in_int64_small (negsuc n) h = ground arith

pub le_multiple : (p s : ℕ) → 0 < p → s ≤ p * s
le_multiple zero s h = absurd (omega arith)
le_multiple (suc p) s h = grind arith

abbrev pub neg : ℤ → ℤ
neg (pos zero) = pos 0
neg (pos (suc n)) = negsuc n
neg (negsuc n) = pos (suc n)

pub size-neg : (a : ℤ) → size (neg a) ≡ size a
size-neg (pos zero) = refl
size-neg (pos (suc n)) = omega arith
size-neg (negsuc n) = omega arith

pub size-pos : (n : ℕ) → n ≡ size (pos n)
size-pos n = omega arith

pub quotient-neg : (n : ℕ) (a : ℤ) → quotient (times (suc n) (neg a)) (negsuc n) ≡ some a
unfolding quotient
quotient-neg n (pos zero) = ground (arith, mul-div_right 0 {m = suc n} (omega arith))
quotient-neg n (pos (suc k)) =
    let (p, q) = parts-times (suc n) (negsuc k) in
    ground (arith, p, q, mul-div_right (suc k) {m = suc n} (omega arith))
quotient-neg n (negsuc k) = ground (arith, mul-div_right (suc k) {m = suc n} (omega arith))

pub size-negsuc : (n : ℕ) → suc n ≡ size (negsuc n)
size-negsuc n = omega arith

pub times-neg : (m n : ℕ) → times m (neg (pos n)) ≡ neg (pos (m * n))
times-neg m zero = ground arith
times-neg m (suc n) = negated (m * suc n)
  where
    negated : (j : ℕ) → sub_ℕ 0 j ≡ neg (pos j)
    negated zero = ground arith
    negated (suc j) = ground arith
