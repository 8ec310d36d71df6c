-- ===== src/Wire/Copy.antt =====
-- CopyByteArray, CopyByteArray32 and CopyN of cheshire/protocol_bin.go: from a reader to a writer,
-- without the array in memory. The result has what is left to read.
use goshire.Base.{ℕ, ℤ, pos, negsuc, leb, length, take, drop, if◌then◌else◌}
use goshire.Text.{Str}
use goshire.Outcome.{Outcome, ok, err, panic, eof}
use goshire.Wire.Reader.{read_int}
use goshire.Wire.Writer.{Sink, write, write_int}

-- Where io.CopyN has written all that it has read: EOF if that was less than it was to copy.
abbrev pub copied : ℕ → Str → Outcome ℕ → Outcome Str
copied n s (ok l) = if leb n (length s) then ok (drop n s) else err eof
copied n s (err e) = err e
copied n s (panic p) = panic p

-- CopyN, io.CopyN: for a number that is not positive it copies nothing and returns no error.
unfoldable pub copy_n : ℤ → Str → Sink → Outcome Str × Sink
copy_n (negsuc n) s k = (ok s, k)
copy_n (pos n) s k = let w = write (take n s) k in (copied n s w.0, w.1)

-- What follows `binary.Write` of the length.
abbrev pub copy_rest : ℤ → Str → Outcome (Unit {0}) → Sink → Outcome Str × Sink
copy_rest n s (ok u) k = copy_n n s k
copy_rest n s (err e) k = (err e, k)
copy_rest n s (panic p) k = (panic p, k)

-- What follows `binary.Read` of the length, of `width` bytes.
abbrev pub copy_array : ℕ → Outcome (ℤ × Str) → Sink → Outcome Str × Sink
copy_array width (ok (n, s)) k = let w = write_int width n k in copy_rest n s w.0 w.1
copy_array width (err e) k = (err e, k)
copy_array width (panic p) k = (panic p, k)

-- CopyByteArray.
unfoldable pub copy_byte_array : Str → Sink → Outcome Str × Sink
copy_byte_array src k = copy_array 2 (read_int 2 src) k

-- CopyByteArray32.
unfoldable pub copy_byte_array32 : Str → Sink → Outcome Str × Sink
copy_byte_array32 src k = copy_array 4 (read_int 4 src) k
