-- ===== src/DynMap/Toml/Laws.antt =====
-- Tables and texts of the TOML reader, and what it makes of an array.
use goshire.DynMap.Toml.{
  put_val, after_array, array_lines, key_value, TomlError, str, Toml, parse_next, parse_line,
  trim_left_byte, trim_right_byte, cut_equals, to_val, starts_with,
}
use goshire.DynMap.Cast.{trim_space, trim_space-solid}
use goshire.Base.{
  if◌then◌else◌, false, true, ◌∙◌, ap, List, All-append, none, ◌⊎◌, ◌++◌, arith, ◌≢◌, ◌≡◌, ◌<◌, All,
  ℕ, some, refl, inr, inl, ◌∷◌, [],
}
use goshire.Text.{Str}
use goshire.DynMap.Path.{put_with_dot}
use goshire.DynMap.Fields.{Value}

-- A small letter or a dot, as in the names of tables and keys.
abbrev pub IsBare : ℕ → Type 0
IsBare c = (c ≡ b'.') ⊎ ((96 < c) × (c < 123))

-- A byte that may stand between quotes.
abbrev pub IsQuotable : ℕ → Type 0
IsQuotable c = (32 < c) × (c ≢ b'"')

trim_left-other : (b c : ℕ) (s : Str) → c ≢ b → trim_left_byte b (c ∷ s) ≡ c ∷ s
unfolding trim_left_byte
trim_left-other b c s h = ground (arith, h)

trim_right-append : (b : ℕ) (s : Str) → All (λ c. c ≢ b) s → trim_right_byte b (s ++ b ∷ []) ≡ s
unfolding trim_right_byte
trim_right-append b [] h = ground arith
trim_right-append b (c ∷ []) (h, hs) = ground (arith, h)
trim_right-append b (c ∷ d ∷ s) (h, hs) = ground (arith, trim_right-append b (d ∷ s) hs)

cut_equals-append : (k v : Str) → All (λ c. c ≢ b'=') k → cut_equals (k ++ b'=' ∷ v) ≡ some (k, v)
unfolding cut_equals
cut_equals-append [] v h = refl
cut_equals-append (c ∷ k) v (h, hs) = ground (arith, h, cut_equals-append k v hs)

All-map : {P Q : ℕ → Type 0} (f : (c : ℕ) → P c → Q c) (s : Str) → All P s → All Q s
All-map f [] h = tt
All-map f (c ∷ s) (h, hs) = (f c h, All-map f s hs)

solid_bare : (c : ℕ) → IsBare c → 32 < c
solid_bare c (inl e) = omega (arith, e)
solid_bare c (inr h) = omega (arith, h)

ne_bracket : (c : ℕ) → IsBare c → c ≢ b'['
ne_bracket c (inl e) p = absurd (omega (arith, e, p))
ne_bracket c (inr h) p = absurd (omega (arith, h, p))

ne_closing : (c : ℕ) → IsBare c → c ≢ b']'
ne_closing c (inl e) p = absurd (omega (arith, e, p))
ne_closing c (inr h) p = absurd (omega (arith, h, p))

ne_equals : (c : ℕ) → IsBare c → c ≢ b'='
ne_equals c (inl e) p = absurd (omega (arith, e, p))
ne_equals c (inr h) p = absurd (omega (arith, h, p))

ne_hash : (c : ℕ) → IsBare c → c ≢ b'#'
ne_hash c (inl e) p = absurd (omega (arith, e, p))
ne_hash c (inr h) p = absurd (omega (arith, h, p))

quoted_text :
    (text : Str)
    → All IsQuotable text
    → trim_right_byte b'"' (trim_left_byte b'"' (b'"' ∷ text ++ b'"' ∷ [])) ≡ text
quoted_text [] h = unfold trim_left_byte trim_right_byte in refl
quoted_text (c ∷ s) (h, hs) =
    let open' : trim_left_byte b'"' (b'"' ∷ (c ∷ s) ++ b'"' ∷ []) ≡ (c ∷ s) ++ b'"' ∷ [] =
      unfold trim_left_byte in trim_left-other b'"' c (s ++ b'"' ∷ []) h.1 in
    ap (trim_right_byte b'"') open'
    ∙ trim_right-append b'"' (c ∷ s) (h.1, All-map (λ d p. p.1) s hs)

abbrev pub table_line : Str → Str
table_line name = b'[' ∷ name ++ b']' ∷ []

abbrev pub quoted : Str → Str
quoted text = b'"' ∷ text ++ b'"' ∷ []

abbrev pub value_line : Str → Str → Str
value_line key value = key ++ b'=' ∷ value

quoted_solid : (text : Str) → All IsQuotable text → All (λ c. 32 < c) (quoted text)
quoted_solid text h = (
  omega arith,
  All-append (λ c. 32 < c) text (b'"' ∷ []) (All-map (λ c p. p.0) text h) (omega arith, tt),
)

to_val-quoted : (text : Str) → All IsQuotable text → to_val (quoted text) ≡ some (str text)
unfolding to_val
to_val-quoted text h =
    let trimmed = trim_space-solid (quoted text) (quoted_solid text h) in
    let inside = quoted_text text h in ground (arith, trimmed, inside)

module _ (t : Toml) (rest : List Str) where
  -- The next line, where it has no spaces.
  next_line :
      (line : Str)
      → All (λ c. 32 < c) line
      → t.r ≡ line ∷ rest
      → parse_next t ≡ parse_line (record t { r = rest }) line
  unfolding parse_next
  next_line line solid e = let trimmed = trim_space-solid line solid in ground (arith, e, trimmed)

parse_line-table :
    (t : Toml) (c : ℕ) (name : Str)
    → All IsBare (c ∷ name)
    → parse_line t (table_line (c ∷ name)) ≡ (record t { key = (c ∷ name) ++ b'.' ∷ [] }, none)
unfolding parse_line
parse_line-table t c name h =
    let begin : trim_left_byte b'[' (table_line (c ∷ name)) ≡ (c ∷ name) ++ b']' ∷ [] =
      unfold trim_left_byte in trim_left-other b'[' c (name ++ b']' ∷ []) (ne_bracket c h.0) in
    let done = trim_right-append b']' (c ∷ name) (All-map ne_closing (c ∷ name) h) in
    let both = ap (trim_right_byte b']') begin ∙ done in ground (arith, both)

array_ends :
    (o : (List Str) ⊎ TomlError)
    → ((lines : List Str) × (o ≡ inl lines)) ⊎ ((e : TomlError) × (o ≡ inr e))
array_ends (inl lines) = inl (lines, refl)
array_ends (inr e) = inr (e, refl)

parse_line-key :
    (t : Toml) (c : ℕ) (line : Str)
    → c ≢ b'#'
    → c ≢ b'['
    → parse_line t (c ∷ line) ≡ key_value t (c ∷ line) (cut_equals (c ∷ line))
unfolding parse_line
parse_line-key t c line hash bracket = ground (arith, hash, bracket)

key_value-plain :
    (t : Toml) (line k v k' v' : Str) (val : Value)
    → trim_space k ≡ k'
    → trim_space v ≡ v'
    → starts_with b'[' v' ≡ false
    → to_val v' ≡ some val
    → key_value t line (some (k, v))
      ≡ (record t { output = (put_with_dot t.output (t.key ++ k') val).0 }, none)
key_value-plain t line k v k' v' val ke ve plain value =
    let tested : starts_with b'[' (trim_space v) ≡ false = ap (starts_with b'[') ve ∙ plain in
    let kept : to_val (trim_space v) ≡ some val = ap to_val ve ∙ value in
    ap
      (λ b.
        if b
        then after_array t (array_lines line t.r)
        else put_val t line (trim_space k) (trim_space v) (to_val (trim_space v)))
      tested
    ∙ ap (put_val t line (trim_space k) (trim_space v)) kept
    ∙ ap (λ j. (record t { output = (put_with_dot t.output (t.key ++ j) val).0 }, none)) ke

parse_line-quoted :
    (t : Toml) (c : ℕ) (key text : Str)
    → All IsBare (c ∷ key)
    → All IsQuotable text
    → parse_line t (value_line (c ∷ key) (quoted text))
      ≡ (record t { output = (put_with_dot t.output (t.key ++ c ∷ key) (str text)).0 }, none)
parse_line-quoted t c key text h q =
    let cut = cut_equals-append (c ∷ key) (quoted text) (All-map ne_equals (c ∷ key) h) in
    let k = trim_space-solid (c ∷ key) (All-map solid_bare (c ∷ key) h) in
    let v = trim_space-solid (quoted text) (quoted_solid text q) in
    let line = value_line (c ∷ key) (quoted text) in
    parse_line-key t c (key ++ b'=' ∷ quoted text) (ne_hash c h.0) (ne_bracket c h.0)
    ∙ ap (key_value t line) cut
    ∙ key_value-plain t line (c ∷ key) (quoted text) (c ∷ key) (quoted text) (str text) k v refl
        (to_val-quoted text q)

bare_solid : (name : Str) → All IsBare name → All (λ c. 32 < c) name
bare_solid name h = All-map solid_bare name h

-- A table and a text in it, on two lines of their own: after both, the reader stands behind them, and the
-- text without its quotes has been put under the name of the table, a dot and the key. Names are of
-- small letters and dots, and the text has neither spaces nor quotes in it.
parse_next_table :
    (t : Toml) (rest : List Str) (c d : ℕ) (name key text : Str)
    → All IsBare (c ∷ name)
    → All IsBare (d ∷ key)
    → All IsQuotable text
    → t.r ≡ table_line (c ∷ name) ∷ value_line (d ∷ key) (quoted text) ∷ rest
    → parse_next (parse_next t).0 ≡ (
      record {
        r = rest;
        key = (c ∷ name) ++ b'.' ∷ [];
        output = (put_with_dot t.output (((c ∷ name) ++ b'.' ∷ []) ++ d ∷ key) (str text)).0;
      },
      none,
    )
parse_next_table t rest c d name key text hn hk ht e =
    let named : Toml = record t {
      r = value_line (d ∷ key) (quoted text) ∷ rest;
      key = (c ∷ name) ++ b'.' ∷ [];
    } in
    let closing : All (λ x. 32 < x) (b']' ∷ []) = (omega arith, tt) in
    let first =
      next_line t (value_line (d ∷ key) (quoted text) ∷ rest) (table_line (c ∷ name))
        (
          omega arith,
          All-append (λ x. 32 < x) (c ∷ name) (b']' ∷ []) (bare_solid (c ∷ name) hn) closing,
        )
        e
      ∙ parse_line-table (record t { r = value_line (d ∷ key) (quoted text) ∷ rest }) c name hn in
    let second =
      next_line named rest (value_line (d ∷ key) (quoted text))
        (All-append (λ x. 32 < x) (d ∷ key) (b'=' ∷ quoted text) (bare_solid (d ∷ key) hk)
          (omega arith, quoted_solid text ht))
        refl
      ∙ parse_line-quoted (record named { r = rest }) d key text hk ht in
    ap (λ n. parse_next n.0) first ∙ second

-- An array is read and dropped: a line whose value begins with a bracket leaves the output and the table
-- as they are, whatever the array holds, and whether or not it ends.
parse_line-array :
    (t : Toml) (c : ℕ) (key items : Str)
    → All IsBare (c ∷ key)
    → starts_with b'[' (trim_space items) ≡ true
    → ((parse_line t (value_line (c ∷ key) items)).0.output ≡ t.output)
      × ((parse_line t (value_line (c ∷ key) items)).0.key ≡ t.key)
parse_line-array t c key items h array =
    let cut = cut_equals-append (c ∷ key) items (All-map ne_equals (c ∷ key) h) in
    let line = value_line (c ∷ key) items in
    let step =
      parse_line-key t c (key ++ b'=' ∷ items) (ne_hash c h.0) (ne_bracket c h.0)
      ∙ ap (key_value t line) cut in
    elim (array_ends (array_lines line t.r)) [
      | inl (lines, e) ↦ (ground (arith, step, array, e), ground (arith, step, array, e))
      | inr (error, e) ↦ (ground (arith, step, array, e), ground (arith, step, array, e))
    ]
