-- ===== src/Wire/Writer.antt =====
-- Writing to an `io.Writer`: `binary.Write` and the length prefixed writers of
-- cheshire/protocol_bin.go. The writer takes `room` more bytes, and then each write fails.
use goshire.Base.{
  ℕ, ◌+◌, ◌-◌, ◌≤◌, ◌≡◌, ap, ◌∙◌, ℤ, pos, [], ◌++◌, append_assoc, append-nil, leb, length, take,
  if◌then◌else◌, arith, length-append,
}
use goshire.Text.{Str}
use goshire.Outcome.{Outcome, ok, err, panic, Error, write_failed}
use goshire.Wire.Bytes.{prefixed, encode_int}

pub record Sink : Type 0 where
  pub out : Str
  pub room : ℕ

-- What was written before an error stays written.
abbrev pub Encode {ℓ} : Type ℓ → Type ℓ
Encode A = Sink → Outcome A × Sink

abbrev pub pure {ℓ} : {A : Type ℓ} → A → Encode A
pure a k = (ok a, k)

abbrev pub fail {ℓ} : {A : Type ℓ} → Error → Encode A
fail e k = (err e, k)

abbrev continue {ℓ κ} :
    {A : Type ℓ} {B : Type κ} → (A → Encode B) → Outcome A → Sink → Outcome B × Sink
continue f (ok a) k = f a k
continue f (err e) k = (err e, k)
continue f (panic p) k = (panic p, k)

infixl 5 ◌>>=◌ ◌>>◌
unfoldable pub ◌>>=◌ {ℓ κ} : {A : Type ℓ} {B : Type κ} → Encode A → (A → Encode B) → Encode B
◌>>=◌ m f k = continue f (m k).0 (m k).1

abbrev pub ◌>>◌ {ℓ κ} : {A : Type ℓ} {B : Type κ} → Encode A → Encode B → Encode B
m >> n = m >>= λ _. n

-- A call whose result and error the source drops.
unfoldable pub ignore {ℓ} : {A : Type ℓ} → Encode A → Encode (Unit {0})
ignore m k = (ok tt, (m k).1)

-- `writer.Write`: a short write takes what fits and returns an error.
unfoldable pub write : Str → Encode ℕ
write xs k =
    if leb (length xs) k.room
    then (ok (length xs), record { out = k.out ++ xs; room = k.room - length xs })
    else (err write_failed, record { out = k.out ++ take k.room xs; room = 0 })

-- `binary.Write` with BigEndian of a signed integer of `n` bytes. A value that does not fit is
-- converted first, as by `int16(…)` in the source.
unfoldable pub write_int : ℕ → ℤ → Encode (Unit {0})
write_int n a = write (encode_int n a) >> pure tt

-- WriteByteArray: the length is converted to an int16.
unfoldable pub write_byte_array : Str → Encode ℕ
write_byte_array xs = do write_int 2 (pos (length xs)); l ← write xs; pure (l + 2)

-- WriteByteArray32: the length is converted to an int32.
unfoldable pub write_byte_array32 : Str → Encode ℕ
write_byte_array32 xs = do write_int 4 (pos (length xs)); l ← write xs; pure (l + 4)

-- WriteString.
unfoldable pub write_string : Str → Encode ℕ
write_string s = do l ← write_byte_array s; pure l

abbrev pub accept : Str → Sink → Sink
accept xs k = record { out = k.out ++ xs; room = k.room - length xs }

-- Where there is room for them, `m` writes exactly the bytes `xs` and returns `a`.
pub record Writes {ℓ} {A : Type ℓ} (m : Encode A) (a : A) (xs : Str) : Type ℓ where
  pub at : (k : Sink) → length xs ≤ k.room → m k ≡ (ok a, accept xs k)

pub accept-append : (xs ys : Str) (k : Sink) → accept ys (accept xs k) ≡ accept (xs ++ ys) k
accept-append xs ys k = ground (arith, append_assoc k.out xs ys, length-append xs ys)

pub Writes-pure {ℓ} : {A : Type ℓ} (a : A) → Writes (pure a) a []
Writes-pure a = record { at = λ k h. ground (arith, append-nil k.out) }

bind-of_ok {ℓ κ} :
    {A : Type ℓ} {B : Type κ} (m : Encode A) (f : A → Encode B) (k k' : Sink) (a : A)
    → m k ≡ (ok a, k')
    → (m >>= f) k ≡ f a k'
unfolding ◌>>=◌
bind-of_ok m f k k' a e = rw e

pub Writes-bind {ℓ κ} :
    {A : Type ℓ} {B : Type κ} {m : Encode A} (f : A → Encode B) {a : A} {b : B} {xs ys : Str}
    → Writes m a xs
    → Writes (f a) b ys
    → Writes (m >>= f) b (xs ++ ys)
Writes-bind {m} f {a} {b} {xs} {ys} w v = record {
  at = λ k h.
      bind-of_ok m f k (accept xs k) a (w.at k (omega (arith, length-append xs ys)))
      ∙ v.at (accept xs k) (omega (arith, length-append xs ys))
      ∙ ap (λ k'. (ok b, k')) (accept-append xs ys k);
}

pub Writes-write : (xs : Str) → Writes (write xs) (length xs) xs
unfolding write
Writes-write xs = record { at = λ k h. ground arith }

pub Writes-ignore {ℓ} :
    {A : Type ℓ} {m : Encode A} {a : A} {xs : Str} → Writes m a xs → Writes (ignore m) tt xs
unfolding ignore
Writes-ignore w = record { at = λ k h. rw (w.at k h) }

pub Writes-map {ℓ κ} :
    {A : Type ℓ} {B : Type κ} {m : Encode A} (g : A → B) {a : A} {xs : Str}
    → Writes m a xs
    → Writes (m >>= λ x. pure (g x)) (g a) xs
Writes-map {m} g {a} {xs} w = record {
  at = λ k h. bind-of_ok m (λ x. pure (g x)) k (accept xs k) a (w.at k h);
}

pub Writes-write_int : (n : ℕ) (a : ℤ) → Writes (write_int n a) tt (encode_int n a)
unfolding write_int
Writes-write_int n a = Writes-map (λ _. tt) (Writes-write (encode_int n a))

pub Writes-write_byte_array :
    (xs : Str) → Writes (write_byte_array xs) (length xs + 2) (prefixed 2 xs)
unfolding write_byte_array
Writes-write_byte_array xs =
    Writes-bind _ (Writes-write_int 2 (pos (length xs))) (Writes-map (λ l. l + 2) (Writes-write xs))

pub Writes-write_byte_array32 :
    (xs : Str) → Writes (write_byte_array32 xs) (length xs + 4) (prefixed 4 xs)
unfolding write_byte_array32
Writes-write_byte_array32 xs =
    Writes-bind _ (Writes-write_int 4 (pos (length xs))) (Writes-map (λ l. l + 4) (Writes-write xs))

pub Writes-write_string : (s : Str) → Writes (write_string s) (length s + 2) (prefixed 2 s)
unfolding write_string
Writes-write_string s = Writes-map (λ l. l) (Writes-write_byte_array s)
