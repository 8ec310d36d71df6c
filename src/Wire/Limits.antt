-- ===== src/Wire/Limits.antt =====
-- Texts that are too long for the length field of WriteByteArray and WriteString in
-- cheshire/protocol_bin.go.
use goshire.Base.{
  append_assoc, length-append, Fits, to_word, ◌-◌, ℕ, ◌++◌, ◌+◌, ◌<◌, ◌≤◌, ◌≡◌, ap, subst, sym, ◌∙◌,
  pos, negsuc, length, arith,
}
use goshire.Text.{Str}
use goshire.Outcome.{ok, err, negative_length}
use goshire.Wire.Bytes.{length-encode_int, half, patterns, encode_int, prefixed, to_bytes}
use goshire.Wire.Reader.{Reads-read_int, bind-of_ok, read_string, read_byte_array, read_int, ◌>>=◌}
use goshire.Wire.Writer.{Sink, write_string, accept, Writes-write_string}

-- A length that needs the sixteenth bit has the bytes of a negative number.
same_bytes :
    (n : ℕ)
    → half 2 ≤ n
    → n < patterns 2
    → encode_int 2 (pos n) ≡ encode_int 2 (negsuc (patterns 2 - 1 - n))
same_bytes n l u = unfold encode_int to_word in ap (to_bytes 2) (omega arith)

pub refused_length :
    (n : ℕ) (rest : Str)
    → Fits (half 2) (negsuc n)
    → read_byte_array (encode_int 2 (negsuc n) ++ rest) ≡ err negative_length
unfolding read_byte_array
refused_length n rest f =
    bind-of_ok (read_int 2) _ (encode_int 2 (negsuc n) ++ rest) rest (negsuc n)
      ((Reads-read_int 1 (negsuc n) f).at rest)
    ∙ unfold ◌>>=◌ in ground arith

refused_string :
    (t : Str) → read_byte_array t ≡ err negative_length → read_string t ≡ err negative_length
unfolding read_string ◌>>=◌
refused_string t h = rw (h, ◌>>=◌)

-- A text of 32,768 bytes or more, up to 65,535, is written by WriteString without an error, and what
-- it wrote is refused by ReadString with a negative length.
pub long_string_unreadable :
    (s rest : Str) (k : Sink)
    → half 2 ≤ length s
    → length s < patterns 2
    → length s + 2 ≤ k.room
    → (write_string s k ≡ (ok (length s + 2), accept (prefixed 2 s) k))
      × (read_string (prefixed 2 s ++ rest) ≡ err negative_length)
long_string_unreadable s rest k l u room = (
  (Writes-write_string s).at k (
      omega (
        arith,
        length-append (encode_int 2 (pos (length s))) s,
        length-encode_int 2 (pos (length s)),
      )),
  refused_string (prefixed 2 s ++ rest) (
      subst (λ b. read_byte_array ((b ++ s) ++ rest) ≡ err negative_length)
        (sym (same_bytes (length s) l u))
        (rw append_assoc (refused_length (patterns 2 - 1 - length s) (s ++ rest) (omega arith)))),
)
