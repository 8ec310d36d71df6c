-- ===== src/Wire/Reader.antt =====
-- Reading from an `io.Reader`: `binary.Read`, `io.ReadAtLeast` and the length prefixed readers of
-- cheshire/protocol_bin.go. The reader is the bytes that are still to come, and then EOF. After an
-- error the source reads no more from a stream, so an error does not carry what is left.
use goshire.Base.{
  suc, Fits, ℕ, ◌≡◌, refl, subst, ◌∙◌, ◌<◌, ℤ, pos, negsuc, [], ◌∷◌, ◌++◌, append_assoc, leb,
  length, take, drop, true, false, Bool, if◌then◌else◌, arith, take-append_self, drop-append_self,
  length-append, ltb_ℤ,
}
use goshire.Text.{Str}
use goshire.Outcome.{Outcome, ok, err, panic, Error, eof, unexpected_eof, negative_length, Fault}
use goshire.Wire.Bytes.{
  length-encode_int, decode_int-encode_int, encode_int, half, prefixed, decode_int,
}

abbrev pub Decode {ℓ} : Type ℓ → Type ℓ
Decode A = Str → Outcome (A × Str)

abbrev pub pure {ℓ} : {A : Type ℓ} → A → Decode A
pure a s = ok (a, s)

abbrev pub fail {ℓ} : {A : Type ℓ} → Error → Decode A
fail e s = err e

abbrev pub crash {ℓ} : {A : Type ℓ} → Fault → Decode A
crash f s = panic f

infixl 5 ◌>>=◌ ◌>>◌
unfoldable pub ◌>>=◌ {ℓ κ} : {A : Type ℓ} {B : Type κ} → Decode A → (A → Decode B) → Decode B
◌>>=◌ m f s = elim (m s) [ ok (a, s') ↦ f a s' | err e ↦ err e | panic p ↦ panic p ]

abbrev pub ◌>>◌ {ℓ} : {B : Type ℓ} → Decode (Unit {0}) → Decode B → Decode B
m >> k = m >>= λ _. k

-- An early return of an error.
abbrev pub refuse_if : Bool → Error → Decode (Unit {0})
refuse_if true e = fail e
refuse_if false e = pure tt

-- `io.ReadFull`, and `io.ReadAtLeast` with the length of the buffer: nothing is read for length 0.
unfoldable pub read_full : ℕ → Decode Str
read_full n s =
    if leb n (length s)
    then ok (take n s, drop n s)
    else elim s [ [] ↦ err eof | b ∷ r ↦ err unexpected_eof ]

-- `binary.Read` with BigEndian into a signed integer of `n` bytes.
unfoldable pub read_int : ℕ → Decode ℤ
read_int n = read_full n >>= λ s. pure (decode_int n s)

-- `make([]byte, length)` and `io.ReadAtLeast` into it, for a length that is not negative.
unfoldable pub read_sized : ℤ → Decode Str
read_sized (pos n) = read_full n
read_sized (negsuc n) = fail negative_length

-- ReadByteArray: the length is an int16.
unfoldable pub read_byte_array : Decode Str
read_byte_array = do n ← read_int 2; refuse_if (ltb_ℤ n (pos 0)) negative_length; read_sized n

-- ReadByteArray32: the length is an int32.
unfoldable pub read_byte_array32 : Decode Str
read_byte_array32 = do n ← read_int 4; refuse_if (ltb_ℤ n (pos 0)) negative_length; read_sized n

-- ReadString.
unfoldable pub read_string : Decode Str
read_string = do b ← read_byte_array; pure b

-- `m` takes exactly the bytes `xs` off any stream that begins with them, and returns `a`.
pub record Reads {ℓ} {A : Type ℓ} (m : Decode A) (a : A) (xs : Str) : Type ℓ where
  pub at : (rest : Str) → m (xs ++ rest) ≡ ok (a, rest)

pub Reads-pure {ℓ} : {A : Type ℓ} (a : A) → Reads (pure a) a []
Reads-pure a = record { at = λ rest. refl }

pub Reads-refuse_if : (b : Bool) (e : Error) → b ≡ false → Reads (refuse_if b e) tt []
Reads-refuse_if true e h = cc
Reads-refuse_if false e h = Reads-pure tt

pub bind-of_ok {ℓ κ} :
    {A : Type ℓ} {B : Type κ} (m : Decode A) (f : A → Decode B) (s s' : Str) (a : A)
    → m s ≡ ok (a, s')
    → (m >>= f) s ≡ f a s'
unfolding ◌>>=◌
bind-of_ok m f s s' a e = rw (e, ◌>>=◌)

pub Reads-bind {ℓ κ} :
    {A : Type ℓ} {B : Type κ} {m : Decode A} (f : A → Decode B) {a : A} {b : B} {xs ys : Str}
    → Reads m a xs
    → Reads (f a) b ys
    → Reads (m >>= f) b (xs ++ ys)
Reads-bind {m} f {a} {xs} {ys} r q = record {
  at = λ rest.
      rw append_assoc
        (bind-of_ok m f (xs ++ (ys ++ rest)) (ys ++ rest) a (r.at (ys ++ rest)) ∙ q.at rest);
}

-- Where the rest of the block reads nothing.
pub Reads-last {ℓ κ} :
    {A : Type ℓ} {B : Type κ} {m : Decode A} (f : A → Decode B) {a : A} {b : B} {xs : Str}
    → Reads m a xs
    → Reads (f a) b []
    → Reads (m >>= f) b xs
Reads-last {m} f {a} {xs} r q = record {
  at = λ rest. bind-of_ok m f (xs ++ rest) rest a (r.at rest) ∙ q.at rest;
}

-- The last step of a block, where the rest of it only computes.
pub Reads-map {ℓ κ} :
    {A : Type ℓ} {B : Type κ} {m : Decode A} (g : A → B) {a : A} {xs : Str}
    → Reads m a xs
    → Reads (m >>= λ x. pure (g x)) (g a) xs
Reads-map {m} g {a} {xs} r = record {
  at = λ rest. bind-of_ok m (λ x. pure (g x)) (xs ++ rest) rest a (r.at rest);
}

pub Reads-read_full : (xs : Str) → Reads (read_full (length xs)) xs xs
unfolding read_full
Reads-read_full xs = record {
  at = λ rest.
      ground (arith, length-append xs rest, take-append_self xs rest, drop-append_self xs rest);
}

Reads-read_full_of : (n : ℕ) (xs : Str) → length xs ≡ n → Reads (read_full n) xs xs
Reads-read_full_of n xs e = subst (λ k. Reads (read_full k) xs xs) e (Reads-read_full xs)

pub Reads-read_int :
    (n : ℕ) (a : ℤ) → Fits (half (suc n)) a → Reads (read_int (suc n)) a (encode_int (suc n) a)
unfolding read_int
Reads-read_int n a f =
    subst (λ b. Reads (read_int (suc n)) b (encode_int (suc n) a)) (decode_int-encode_int n a f)
      (Reads-map (decode_int (suc n))
        (Reads-read_full_of (suc n) (encode_int (suc n) a) (length-encode_int (suc n) a)))

pub Reads-read_byte_array :
    (xs : Str) → length xs < half 2 → Reads read_byte_array xs (prefixed 2 xs)
unfolding read_byte_array read_sized
Reads-read_byte_array xs h =
    Reads-bind _ (Reads-read_int 1 (pos (length xs)) (omega arith))
      (Reads-bind _ (Reads-refuse_if _ _ (ground arith)) (Reads-read_full xs))

pub Reads-read_byte_array32 :
    (xs : Str) → length xs < half 4 → Reads read_byte_array32 xs (prefixed 4 xs)
unfolding read_byte_array32 read_sized
Reads-read_byte_array32 xs h =
    Reads-bind _ (Reads-read_int 3 (pos (length xs)) (omega arith))
      (Reads-bind _ (Reads-refuse_if _ _ (ground arith)) (Reads-read_full xs))

pub Reads-read_string : (xs : Str) → length xs < half 2 → Reads read_string xs (prefixed 2 xs)
unfolding read_string
Reads-read_string xs h = Reads-map (λ b. b) (Reads-read_byte_array xs h)
