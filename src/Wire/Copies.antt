-- ===== src/Wire/Copies.antt =====
-- What the copies of cheshire/protocol_bin.go do, against ReadByteArray and WriteByteArray.
use goshire.Base.{
  ◌+◌, negsuc, ℕ, ℤ, pos, suc, ◌<◌, ◌≤◌, ◌++◌, ◌≡◌, ◌∙◌, ap, arith, length, length-append, Fits,
  append_assoc, take-append_self, drop-append_self,
}
use goshire.Text.{Str}
use goshire.Outcome.{negative_length, err, Outcome, ok}
use goshire.Wire.Bytes.{length-encode_int, half, encode_int, prefixed}
use goshire.Wire.Limits.{refused_length}
use goshire.Wire.Reader.{
  Reads-read_byte_array32, Reads-read_byte_array, read_byte_array, read_byte_array32, bind-of_ok,
  ◌>>=◌, Reads-read_int, read_int,
}
use goshire.Wire.Writer.{
  Writes-write_byte_array32, Writes-write_byte_array, write_byte_array32, write_byte_array, Sink,
  accept, accept-append, Writes-write_int, Writes-write,
}
use goshire.Wire.Copy.{copy_byte_array32, copy_byte_array, copy_n, copy_rest, copy_array}

-- CopyN of bytes that are there, where there is room for them.
copy_n-there :
    (xs rest : Str) (k : Sink)
    → length xs ≤ k.room
    → copy_n (pos (length xs)) (xs ++ rest) k ≡ (ok rest, accept xs k)
unfolding copy_n
copy_n-there xs rest k h =
    rw (take-append_self xs rest, (Writes-write xs).at k h, drop-append_self xs rest)
      (ground (arith, length-append xs rest))

-- A copy where the length is there and there is room for it.
copy_array-length :
    (width : ℕ) (n : ℤ) (s : Str) (k : Sink)
    → Fits (half (suc width)) n
    → length (encode_int (suc width) n) ≤ k.room
    → copy_array (suc width) (read_int (suc width) (encode_int (suc width) n ++ s)) k
      ≡ copy_n n s (accept (encode_int (suc width) n) k)
copy_array-length width n s k f h =
    ap (λ r. copy_array (suc width) r k) ((Reads-read_int width n f).at s)
    ∙ ap (λ (w : Outcome (Unit {0}) × Sink). copy_rest n s w.0 w.1)
        ((Writes-write_int (suc width) n).at k h)

copy_array-prefixed :
    (width : ℕ) (xs rest : Str) (k : Sink)
    → length xs < half (suc width)
    → length (prefixed (suc width) xs) ≤ k.room
    → copy_array (suc width) (read_int (suc width) (prefixed (suc width) xs ++ rest)) k
      ≡ (ok rest, accept (prefixed (suc width) xs) k)
copy_array-prefixed width xs rest k l room =
    let n = pos (length xs) in
    let size = length-append (encode_int (suc width) n) xs in
    ap (λ t. copy_array (suc width) (read_int (suc width) t) k)
      (append_assoc (encode_int (suc width) n) xs rest)
    ∙ copy_array-length width n (xs ++ rest) k (omega arith) (omega (arith, size))
    ∙ copy_n-there xs rest (accept (encode_int (suc width) n) k) (omega (arith, size))
    ∙ ap (λ k'. (ok rest, k')) (accept-append (encode_int (suc width) n) xs k)

room_for :
    (width : ℕ) (xs : Str) (k : Sink)
    → length xs + width ≤ k.room
    → length (prefixed width xs) ≤ k.room
room_for width xs k h = omega (
  arith,
  length-append (encode_int width (pos (length xs))) xs,
  length-encode_int width (pos (length xs)),
)

refused_length32 :
    (n : ℕ) (rest : Str)
    → Fits (half 4) (negsuc n)
    → read_byte_array32 (encode_int 4 (negsuc n) ++ rest) ≡ err negative_length
unfolding read_byte_array32
refused_length32 n rest f =
    bind-of_ok (read_int 4) _ (encode_int 4 (negsuc n) ++ rest) rest (negsuc n)
      ((Reads-read_int 3 (negsuc n) f).at rest)
    ∙ unfold ◌>>=◌ in ground arith

-- A copy of an array, by `copy`, against its reader and its writer.
abbrev pub IsCopied :
    (Str → Sink → Outcome Str × Sink)
    → (Str → Outcome (Str × Str))
    → (Str → Sink → Outcome ℕ × Sink)
    → ℕ
    → Str
    → Str
    → Sink
    → Type 0
IsCopied copy read write width xs rest k =
    (copy (prefixed width xs ++ rest) k ≡ (ok rest, accept (prefixed width xs) k))
    × (read (prefixed width xs ++ rest) ≡ ok (xs, rest))
    × (write xs k ≡ (ok (length xs + width), accept (prefixed width xs) k))

-- A copy where the length is negative, against the reader.
abbrev pub IsCopiedEmpty :
    (Str → Sink → Outcome Str × Sink) → (Str → Outcome (Str × Str)) → ℕ → ℕ → Str → Sink → Type 0
IsCopiedEmpty copy read width n rest k =
    let size = encode_int width (negsuc n) in
    (copy (size ++ rest) k ≡ (ok rest, accept size k)) × (read (size ++ rest) ≡ err negative_length)

-- CopyByteArray and CopyByteArray32, where the writer has room. An array with its length in front, which
-- the reader gives as it is, is copied to exactly the bytes that the writer of arrays writes for it, and
-- nothing after it is read. A negative length, which the reader refuses, is copied alone and without an
-- error.
pub copy_byte_array_lem :
    (xs ys rest : Str) (m n : ℕ) (k : Sink)
    → length xs < half 2
    → length ys < half 4
    → m < half 2
    → n < half 4
    → length xs + length ys + 4 ≤ k.room
    → IsCopied copy_byte_array read_byte_array write_byte_array 2 xs rest k
      × IsCopied copy_byte_array32 read_byte_array32 write_byte_array32 4 ys rest k
      × IsCopiedEmpty copy_byte_array read_byte_array 2 m rest k
      × IsCopiedEmpty copy_byte_array32 read_byte_array32 4 n rest k
unfolding copy_byte_array copy_byte_array32 copy_n
copy_byte_array_lem xs ys rest m n k fx fy fm fn room =
    let room_x : length (prefixed 2 xs) ≤ k.room = room_for 2 xs k (omega arith) in
    let room_y : length (prefixed 4 ys) ≤ k.room = room_for 4 ys k (omega arith) in
    (
      (
        copy_array-prefixed 1 xs rest k fx room_x,
        (Reads-read_byte_array xs fx).at rest,
        (Writes-write_byte_array xs).at k room_x,
      ),
      (
        copy_array-prefixed 3 ys rest k fy room_y,
        (Reads-read_byte_array32 ys fy).at rest,
        (Writes-write_byte_array32 ys).at k room_y,
      ),
      (
        copy_array-length 1 (negsuc m) rest k (omega arith)
            (omega (arith, length-encode_int 2 (negsuc m))),
        refused_length m rest (omega arith),
      ),
      (
        copy_array-length 3 (negsuc n) rest k (omega arith)
            (omega (arith, length-encode_int 4 (negsuc n))),
        refused_length32 n rest (omega arith),
      ),
    )
