-- ===== src/Bin/Hello.antt =====
-- The hello of the binary protocol in cheshire/protocol_bin.go, from WriteHello to DecodeHello.
use goshire.Base.{ℕ, ◌++◌, ◌<◌, ◌≤◌, ◌≡◌, ap, ◌∙◌, some, pos, length, arith}
use goshire.Text.{str_eq, Str, codes}
use goshire.Outcome.{ok}
use goshire.DynMap.Fields.{Fields, end, float, str}
use goshire.DynMap.Path.{put_if_absent}
use goshire.Wire.Bytes.{half, encode_int, prefixed}
use goshire.Wire.Reader.{Reads, Reads-bind, Reads-last, Reads-read_int, Reads-read_byte_array}
use goshire.Wire.Writer.{Writes, Writes-bind, Writes-map, Writes-write_int, Writes-write_string}
use goshire.Bin.{str_eq, JsonCodec, code_table}
use goshire.Bin.Decode.{decode_hello}
use goshire.Bin.Encode.{write_hello, json_code}
use goshire.Bin.Writes.{Writes-require}
use goshire.Bin.RoundTrip.{fresh}

-- The hello with the version and the user agent, where it has none of its own.
abbrev pub signed : Fields → Fields
signed hello =
    let versioned = (put_if_absent hello (codes "v") (float (pos 2) (codes "2"))).0 in
    (put_if_absent versioned (codes "useragent") (str (codes "golang"))).0

-- [param_encoding (int8)] [length][params]
abbrev pub hello_bytes : Str → Str
hello_bytes body = encode_int 1 json_code ++ prefixed 2 body

pub Reads-decode_hello :
    (json : JsonCodec) (body : Str) (m : Fields)
    → length body < half 2
    → json.unmarshal end body ≡ some m
    → Reads (decode_hello json) m (hello_bytes body)
unfolding decode_hello code_table str_eq
Reads-decode_hello json body m fits e =
    Reads-bind _ (Reads-read_int 0 json_code (omega arith))
      (Reads-last _ (Reads-read_byte_array body fits) (record { at = λ rest. ground (arith, e) }))

Writes-write_hello :
    (json : JsonCodec) (hello : Fields) (body : Str)
    → json.marshal (signed hello) ≡ some body
    → Writes (write_hello json hello) tt (hello_bytes body)
unfolding write_hello
Writes-write_hello json hello body e =
    Writes-bind _ (Writes-write_int 1 json_code)
      (Writes-bind _ (Writes-require _ _ _ e) (Writes-map (λ _. tt) (Writes-write_string body)))

-- What WriteHello wrote to a fresh connection, DecodeHello reads back as the map that encoding/json
-- makes of what it wrote: the hello with a version and a user agent where it had none.
decode_hello-write_hello :
    (json : JsonCodec) (hello : Fields) (body : Str) (m : Fields) (room : ℕ) (rest : Str)
    → json.marshal (signed hello) ≡ some body
    → json.unmarshal end body ≡ some m
    → length body < half 2
    → length (hello_bytes body) ≤ room
    → decode_hello json ((write_hello json hello (fresh room)).1.out ++ rest) ≡ ok (m, rest)
decode_hello-write_hello json hello body m room rest e f fits space =
    ap (λ w. decode_hello json (w.1.out ++ rest))
      ((Writes-write_hello json hello body e).at (fresh room) space)
    ∙ (Reads-decode_hello json body m fits f).at rest
