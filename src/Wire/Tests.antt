-- ===== src/Wire/Tests.antt =====
-- The theorems about long texts at a text of 32,768 bytes, and about copies at two short arrays.
use goshire.Wire.Reader.{read_byte_array, read_byte_array32}
use goshire.Wire.Writer.{write_byte_array, write_byte_array32}
use goshire.Wire.Copy.{copy_byte_array, copy_byte_array32}
use goshire.Wire.Copies.{IsCopied, IsCopiedEmpty, copy_byte_array_lem}
use goshire.Base.{ℕ, zero, suc, ◌+◌, ◌≡◌, ◌++◌, [], ◌∷◌, length, refl, arith, ap}
use goshire.Text.{Str, codes}
use goshire.Outcome.{ok, err, negative_length}
use goshire.Wire.Bytes.{prefixed}
use goshire.Wire.Reader.{read_string}
use goshire.Wire.Writer.{Sink, accept, write_string}
use goshire.Wire.Limits.{long_string_unreadable}

unfoldable zeros : ℕ → Str
zeros zero = []
zeros (suc n) = 0 ∷ zeros n

length-zeros : (n : ℕ) → length (zeros n) ≡ n
unfolding zeros
length-zeros zero = refl
length-zeros (suc n) = ap suc (length-zeros n)

abbrev sink : Sink
sink = record { out = []; room = 40000 }

long_string_unreadable_example :
    (write_string (zeros 32768) sink
      ≡ (ok (length (zeros 32768) + 2), accept (prefixed 2 (zeros 32768)) sink))
    × (read_string (prefixed 2 (zeros 32768) ++ codes "next") ≡ err negative_length)
long_string_unreadable_example =
    long_string_unreadable (zeros 32768) (codes "next") sink (omega (arith, length-zeros 32768))
      (omega (arith, length-zeros 32768)) (omega (arith, length-zeros 32768))

copy_byte_array_lem_example :
    IsCopied copy_byte_array read_byte_array write_byte_array 2 (codes "ab") (codes "next") sink
    × IsCopied copy_byte_array32 read_byte_array32 write_byte_array32 4
        (codes "abc")
        (codes "next")
        sink
    × IsCopiedEmpty copy_byte_array read_byte_array 2 0 (codes "next") sink
    × IsCopiedEmpty copy_byte_array32 read_byte_array32 4 7 (codes "next") sink
copy_byte_array_lem_example =
    copy_byte_array_lem (codes "ab") (codes "abc") (codes "next") 0 7 sink (omega arith)
      (omega arith) (omega arith) (omega arith) (omega arith)
