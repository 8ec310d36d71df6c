-- ===== src/Bin/Takes.antt =====
-- How much of the stream DecodeRequest of cheshire/protocol_bin.go takes.
use goshire.Base.{
  get_elem?, negsuc, pos, ℤ, Option, List, some, none, drop, ℕ, suc, ◌+◌, ◌≤◌, ◌≡◌, ◌⊎◌, inl, inr,
  sym, ◌∙◌, refl, [], ◌∷◌, true, false, length, arith, Bool, zero,
}
use goshire.Text.{Str}
use goshire.Outcome.{Outcome, ok, err, panic, Error, Fault}
use goshire.Wire.Reader.{
  read_byte_array, read_string, read_sized, read_int, read_byte_array32, Decode, pure, ◌>>=◌,
  refuse_if, read_full, bind-of_ok,
}
use goshire.Bin.{Fields, JsonCodec}
use goshire.Bin.Decode.{
  or_crash, or_bad_json, read_make, parse_params, index, decode_shard_request, decode_request,
}

pub Outcome-cases {ℓ} :
    {A : Type ℓ} (o : Outcome A)
    → ((a : A) × (o ≡ ok a)) ⊎ (((e : Error) × (o ≡ err e)) ⊎ ((p : Fault) × (o ≡ panic p)))
Outcome-cases (ok a) = inl (a, refl)
Outcome-cases (err e) = inr (inl (e, refl))
Outcome-cases (panic p) = inr (inr (p, refl))

-- Where `m` returns a value it has taken at least `n` bytes.
pub record Takes {ℓ} {A : Type ℓ} (m : Decode A) (n : ℕ) : Type ℓ where
  pub at : (s s' : Str) (a : A) → m s ≡ ok (a, s') → length s' + n ≤ length s

bind-err {ℓ κ} :
    {A : Type ℓ} {B : Type κ} (m : Decode A) (f : A → Decode B) (s : Str) (e : Error)
    → m s ≡ err e
    → (m >>= f) s ≡ err e
unfolding ◌>>=◌
bind-err m f s e h = rw (h, ◌>>=◌) refl

bind-panic {ℓ κ} :
    {A : Type ℓ} {B : Type κ} (m : Decode A) (f : A → Decode B) (s : Str) (p : Fault)
    → m s ≡ panic p
    → (m >>= f) s ≡ panic p
unfolding ◌>>=◌
bind-panic m f s p h = rw (h, ◌>>=◌) refl

Takes-bind {ℓ κ} :
    {A : Type ℓ} {B : Type κ} {m : Decode A} (f : A → Decode B) {n : ℕ}
    → Takes m n
    → ((a : A) → Takes (f a) 0)
    → Takes (m >>= f) n
Takes-bind {m} f {n} t q = record {
  at = λ s s' b h. elim (Outcome-cases (m s)) [
    | inl (p, e) ↦
        let first = t.at s p.1 p.0 e in
        let second = (q p.0).at p.1 s' b (sym (bind-of_ok m f s p.1 p.0 e) ∙ h) in
        omega (arith, first, second)
    | inr (inl (e, g)) ↦ cc (bind-err m f s e g, h)
    | inr (inr (p, g)) ↦ cc (bind-panic m f s p g, h)
  ];
}

Takes-pure {ℓ} : {A : Type ℓ} (a : A) → Takes (pure a) 0
Takes-pure a = record { at = λ s s' b h. ground arith }

Takes-refuse_if : (b : Bool) (e : Error) → Takes (refuse_if b e) 0
Takes-refuse_if true e = record { at = λ s s' b h. cc h }
Takes-refuse_if false e = Takes-pure tt

length-drop : (n : ℕ) (s : Str) → n ≤ length s → length (drop n s) + n ≤ length s
length-drop zero s h = omega arith
length-drop (suc n) [] h = omega arith
length-drop (suc n) (b ∷ s) h = omega (arith, length-drop n s)

Takes-read_full : (n : ℕ) → Takes (read_full n) n
unfolding read_full
Takes-read_full n = record { at = λ s s' a h. ground (arith, length-drop n s) }

weaken {ℓ} : {A : Type ℓ} {m : Decode A} {n : ℕ} → Takes m n → Takes m 0
weaken t = record { at = λ s s' a h. omega (arith, t.at s s' a h) }

Takes-read_int : (n : ℕ) → Takes (read_int n) n
unfolding read_int
Takes-read_int n = Takes-bind _ (Takes-read_full n) (λ s. Takes-pure _)

Takes-read_sized : (n : ℤ) → Takes (read_sized n) 0
unfolding read_sized
Takes-read_sized (pos n) = weaken (Takes-read_full n)
Takes-read_sized (negsuc n) = record { at = λ s s' a h. cc h }

Takes-read_string : Takes read_string 0
unfolding read_string read_byte_array
Takes-read_string =
    Takes-bind _
      (Takes-bind _ (weaken (Takes-read_int 2))
        (λ n. Takes-bind _ (Takes-refuse_if _ _) (λ _. Takes-read_sized n)))
      (λ b. Takes-pure b)

Takes-read_byte_array32 : Takes read_byte_array32 0
unfolding read_byte_array32
Takes-read_byte_array32 =
    Takes-bind _ (weaken (Takes-read_int 4))
      (λ n. Takes-bind _ (Takes-refuse_if _ _) (λ _. Takes-read_sized n))

Takes-index : (names : List Str) (a : ℤ) → Takes (index names a) 0
unfolding index
Takes-index names (pos n) = found (get_elem? names n)
  where
    found : (o : Option Str) → Takes (or_crash o) 0
    found none = record { at = λ s s' a h. cc h }
    found (some t) = Takes-pure t
Takes-index names (negsuc n) = record { at = λ s s' a h. cc h }

Takes-read_make : (a : ℤ) → Takes (read_make a) 0
unfolding read_make
Takes-read_make (pos n) = weaken (Takes-read_full n)
Takes-read_make (negsuc n) = record { at = λ s s' a h. cc h }

Takes-or_bad_json : (json : JsonCodec) (o : Option Fields) → Takes (or_bad_json json o) 0
Takes-or_bad_json json none = record { at = λ s s' a h. cc h }
Takes-or_bad_json json (some m) = Takes-pure m

Takes-parse_params : (json : JsonCodec) (a : ℤ) (b : Str) → Takes (parse_params json a b) 0
unfolding parse_params
Takes-parse_params json a [] = Takes-pure _
Takes-parse_params json (pos zero) (b ∷ bytes) = Takes-or_bad_json json _
Takes-parse_params json (pos (suc n)) (b ∷ bytes) = record { at = λ s s' a h. cc h }
Takes-parse_params json (negsuc n) (b ∷ bytes) = record { at = λ s s' a h. cc h }

Takes-decode_shard_request : Takes decode_shard_request 2
unfolding decode_shard_request
Takes-decode_shard_request = Takes-bind _ (Takes-read_int 2) (λ partition.
    Takes-bind _ Takes-read_string
      (λ key. Takes-bind _ (weaken (Takes-read_int 8)) (λ revision. Takes-pure _)))

-- A request that is decoded has taken at least two bytes off the stream.
pub Takes-decode_request : (json : JsonCodec) → Takes (decode_request json) 2
unfolding decode_request
Takes-decode_request json = Takes-bind _ Takes-decode_shard_request (λ shard.
    Takes-bind _ Takes-read_string (λ txn_id. Takes-bind _ (weaken (Takes-read_int 1)) (λ accept.
      Takes-bind _ (Takes-refuse_if _ _) (λ _. Takes-bind _ (weaken (Takes-read_int 1)) (λ method.
        Takes-bind _ (Takes-refuse_if _ _) (λ _. Takes-bind _ Takes-read_string (λ uri.
          Takes-bind _ (weaken (Takes-read_int 1)) (λ encoding.
            Takes-bind _ (Takes-refuse_if _ _) (λ _. Takes-bind _ Takes-read_byte_array32 (λ array.
              Takes-bind _ (Takes-parse_params json _ _) (λ params.
                Takes-bind _ (weaken (Takes-read_int 1)) (λ content_encoding.
                  Takes-bind _ (Takes-refuse_if _ _) (λ _.
                    Takes-bind _ (weaken (Takes-read_int 4)) (λ content_length.
                      Takes-bind _ (Takes-read_make content_length) (λ content.
                        Takes-bind _ (Takes-index _ _) (λ accept_name.
                          Takes-bind _ (Takes-index _ _) (λ method_name.
                            Takes-bind _ (Takes-index _ _)
                              (λ encoding_name. Takes-pure _))))))))))))))))))
