-- ===== src/DynMap/Url.antt =====
-- UnmarshalURLValues and urlEncode of dynmap/dynmap.go: a map as url.Values, with the keys of the maps
-- inside it in brackets. A url.Values is the list of its keys with their texts, in the order of `range`.
pub mod Leaves
pub mod Keys
pub mod Singles
pub mod Tree
pub mod RoundTrip
use goshire.Base.{◌==◌, ℤ, ◌++◌, if◌then◌else◌, List, ◌∷◌, []}
use goshire.Text.{Str, str_eq}
use goshire.DynMap.Fields.{
  map, dynmap, int, Value, str, strs, list, ints, maps, Fields, end, field, Items, no_items, item,
  Rows, no_rows, row,
}
use goshire.DynMap.Path.{put_with_dot}
use goshire.DynMap.Cast.{to_text}

abbrev pub Values : Type 0
Values = List (Str × List Str)

-- vals.Add.
unfoldable pub add_value : Str → Str → Values → Values
add_value k t [] = (k, t ∷ []) ∷ []
add_value k t ((j, ts) ∷ vals) =
    if str_eq j k then (j, ts ++ t ∷ []) ∷ vals else (j, ts) ∷ add_value k t vals

-- The two calls of strings.Replace on a key.
unfoldable pub decode_key : Str → Str
decode_key [] = []
decode_key (c ∷ s) =
    if c == b'[' then b'.' ∷ decode_key s else if c == b']' then decode_key s else c ∷ decode_key s

-- The value of a key: a text, or the []string.
abbrev pub value_of_texts : List Str → Value
value_of_texts [] = strs []
value_of_texts (t ∷ []) = str t
value_of_texts (t ∷ u ∷ ts) = strs (t ∷ u ∷ ts)

-- UnmarshalURLValues. The error of PutWithDot is dropped.
unfoldable pub unmarshal_url_values : Fields → Values → Fields
unmarshal_url_values m [] = m
unmarshal_url_values m ((k, ts) ∷ vals) =
    unmarshal_url_values (put_with_dot m (decode_key k) (value_of_texts ts)).0 vals

-- key[k].
abbrev pub bracketed : Str → Str → Str
bracketed key k = key ++ b'[' ∷ k ++ b']' ∷ []

-- A []string and an []int, element by element.
unfoldable pub add_texts : Str → List Str → Values → Values
add_texts key [] vals = vals
add_texts key (t ∷ ts) vals = add_texts key ts (add_value key t vals)

module _ (sprint : Value → Str) where
  unfoldable pub add_ints : Str → List ℤ → Values → Values
  add_ints key [] vals = vals
  add_ints key (a ∷ rest) vals = add_ints key rest (add_value key (to_text sprint (int a)) vals)

  -- urlEncode. After the elements of a slice it goes on and adds the printed slice as well. Its
  -- errors are dropped by its own calls.
  unfoldable mutual
    pub url_encode : Str → Value → Values → Values
    url_encode key (map m) vals = url_encode_fields key m vals
    url_encode key (dynmap m) vals = url_encode_fields key m vals
    url_encode key (list vs) vals =
        add_value key (to_text sprint (list vs)) (url_encode_items key vs vals)
    url_encode key (strs ts) vals = add_value key (to_text sprint (strs ts)) (add_texts key ts vals)
    url_encode key (ints ns) vals = add_value key (to_text sprint (ints ns)) (add_ints key ns vals)
    url_encode key (maps rs) vals =
        add_value key (to_text sprint (maps rs)) (url_encode_rows key rs vals)
    url_encode key v vals = add_value key (to_text sprint v) vals

    pub url_encode_fields : Str → Fields → Values → Values
    url_encode_fields key end vals = vals
    url_encode_fields key (field k v m) vals =
        url_encode_fields key m (url_encode (bracketed key k) v vals)

    pub url_encode_items : Str → Items → Values → Values
    url_encode_items key no_items vals = vals
    url_encode_items key (item v vs) vals = url_encode_items key vs (url_encode key v vals)

    pub url_encode_rows : Str → Rows → Values → Values
    url_encode_rows key no_rows vals = vals
    url_encode_rows key (row m rs) vals = url_encode_rows key rs (url_encode_fields key m vals)

  -- MarshalURL, up to the Encode of the url.Values.
  unfoldable pub marshal_url_values : Fields → Values → Values
  marshal_url_values end vals = vals
  marshal_url_values (field k v m) vals = marshal_url_values m (url_encode k v vals)
