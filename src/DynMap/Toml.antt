-- ===== src/DynMap/Toml.antt =====
-- dynmap/toml.go: the line by line reader of TOML. Its reader gives the lines to come; a line that is
-- read past the last is io.EOF. A text is ASCII where its letters are folded.
pub mod Laws
use goshire.Base.{
  ◌+◌, ◌&&◌, ◌⊎◌, ◌||◌, ◌==◌, ◌++◌, length, leb, if◌then◌else◌, Option, List, Bool, suc, zero, some,
  none, false, true, inr, inl, ◌∷◌, [], ℕ,
}
use goshire.Text.{to_lower, Str, codes, str_eq}
use goshire.DynMap.Fields.{end, Value, str, bool, list, Fields, Items, no_items}
use goshire.DynMap.Path.{put_with_dot, append_item}
use goshire.DynMap.Cast.{trim_space}

-- ParseTOML reads nothing of its text.
abbrev pub parse_toml : Str → Fields
parse_toml s = end

-- toml: the reader, the table at hand with its dot, and the output. Its counters are never used.
pub record Toml : Type 0 where
  pub r : List Str
  pub key : Str
  pub output : Fields

-- The errors of parseNext.
pub data TomlError : Type 0 where
  eof : TomlError
  no_equals_sign : Str → TomlError
  unable_to_parse : Str → Str → TomlError

-- strings.TrimLeft, TrimRight and Trim with one byte.
unfoldable pub trim_left_byte : ℕ → Str → Str
trim_left_byte b [] = []
trim_left_byte b (c ∷ s) = let rest = trim_left_byte b s in if c == b then rest else c ∷ s

abbrev cons_unless : ℕ → ℕ → Str → Str
cons_unless b c [] = if c == b then [] else c ∷ []
cons_unless b c (d ∷ s) = c ∷ d ∷ s

unfoldable pub trim_right_byte : ℕ → Str → Str
trim_right_byte b [] = []
trim_right_byte b (c ∷ s) = cons_unless b c (trim_right_byte b s)

-- strings.HasPrefix of one byte, and strings.Count of one.
abbrev pub starts_with : ℕ → Str → Bool
starts_with b [] = false
starts_with b (c ∷ s) = c == b

unfoldable pub count_byte : ℕ → Str → ℕ
count_byte b [] = 0
count_byte b (c ∷ s) = (if c == b then 1 else 0) + count_byte b s

-- strings.SplitN at the first equals sign.
abbrev cut_after : ℕ → Option (Str × Str) → Option (Str × Str)
cut_after c none = none
cut_after c (some (k, v)) = some (c ∷ k, v)

unfoldable pub cut_equals : Str → Option (Str × Str)
cut_equals [] = none
cut_equals (c ∷ s) =
    let rest = cut_after c (cut_equals s) in if c == b'=' then some ([], s) else rest

-- Some byte of the text is a digit, a dot or a dash: what the first expression of toVal matches.
abbrev pub in_number : ℕ → Bool
in_number c = (leb b'0' c && leb c b'9') || ((c == b'.') || (c == b'-'))

unfoldable pub has_number : Str → Bool
has_number [] = false
has_number (c ∷ s) = in_number c || has_number s

-- What the second expression matches.
unfoldable pub has_date : Str → Bool
has_date [] = false
has_date (c ∷ s) = (in_number c || ((c == b'Z') || (c == b':'))) || has_date s

-- toVal: a text without its quotes, a bool, or the text itself where it has a digit or the like.
unfoldable pub to_val : Str → Option Value
to_val text =
    let s = trim_space text in
    if starts_with b'"' s
    then some (str (trim_right_byte b'"' (trim_left_byte b'"' s)))
    else if str_eq (to_lower s) (codes "true")
    then some (bool true)
    else if str_eq (to_lower s) (codes "false")
    then some (bool false)
    else if has_number s
    then some (str s)
    else if has_date s
    then some (str s)
    else none

-- The loop over the lines of an array: the lines that are left, or the error.
unfoldable pub array_lines : Str → List Str → (List Str) ⊎ TomlError
array_lines text [] = if count_byte b'[' text == count_byte b']' text then inl [] else inr eof
array_lines text (ln ∷ lines) =
    let rest = array_lines (text ++ b' ' ∷ ln) lines in
    if count_byte b'[' text == count_byte b']' text then inl (ln ∷ lines) else rest

-- How parseNext ends, with the reader and the output after it.
abbrev pub Next : Type 0
Next = Toml × Option TomlError

abbrev pub after_array : Toml → (List Str) ⊎ TomlError → Next
after_array t (inl lines) = (record t { r = lines }, none)
after_array t (inr e) = (record t { r = [] }, some e)

abbrev pub put_val : Toml → Str → Str → Str → Option Value → Next
put_val t line key value none = (t, some (unable_to_parse line value))
put_val t line key value (some v) =
    (record t { output = (put_with_dot t.output (t.key ++ key) v).0 }, none)

-- A line with a key and a value. An array is read to its end and dropped.
abbrev pub key_value : Toml → Str → Option (Str × Str) → Next
key_value t line none = (t, some (no_equals_sign line))
key_value t line (some (k, v)) =
    let array = after_array t (array_lines line t.r) in
    let plain = put_val t line (trim_space k) (trim_space v) (to_val (trim_space v)) in
    if starts_with b'[' (trim_space v) then array else plain

-- The line of parseNext, without the spaces around it.
unfoldable pub parse_line : Toml → Str → Next
parse_line t line =
    if length line == 0
    then (t, none)
    else if starts_with b'#' line
    then (t, none)
    else if starts_with b'[' line
    then (record t { key = trim_right_byte b']' (trim_left_byte b'[' line) ++ b'.' ∷ [] }, none)
    else key_value t line (cut_equals line)

-- parseNext.
unfoldable pub parse_next : Toml → Next
parse_next t = elim t.r [
  | [] ↦ (t, some eof)
  | ln ∷ lines ↦ parse_line (record t { r = lines }) (trim_space ln)
]

-- toSlice, from the byte after the opening bracket on: the items, whether the slice ended, and the
-- text after it. Only the arrays inside it are items. `fuel` is above the length of the text.
abbrev nested :
    Items × Bool × Str → Str → (Str → Items → Items × Bool × Str) → Items → Items × Bool × Str
nested (v, false, rest) s next items = (items, false, s)
nested (v, true, rest) s next items = next rest (append_item items (list v))

unfoldable pub slice_from : ℕ → Str → Items → Items × Bool × Str
slice_from zero s items = (items, false, s)
slice_from (suc fuel) [] items = (items, false, [])
slice_from (suc fuel) (c ∷ s) items =
    let inner = nested (slice_from fuel s no_items) (c ∷ s) (slice_from fuel) items in
    let next = slice_from fuel s items in
    if c == b'[' then inner else if c == b']' then (items, true, s) else next
