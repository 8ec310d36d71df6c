-- ===== src/DynMap/Getters.antt =====
-- The typed getters of dynmap/dynmap.go. A pair is the value and whether it was found; a getter whose
-- value is nil where nothing was found returns an Option. `sprint` is as in Cast.
pub mod RoundTrip
use goshire.Base.{suc, Bool, true, false, List, [], ◌∷◌, Option, none, some, ℤ, negsuc}
use goshire.Text.{Str}
use goshire.DynMap.Fields.{
  Value, nil, list, strs, ints, maps, Items, no_items, item, Rows, no_rows, row, Fields, to_map,
}
use goshire.DynMap.Path.{get}
use goshire.DynMap.Cast.{to_bool, to_int64, to_text}

-- The value at the key, converted.
abbrev pub converted {ℓ} : {A : Type ℓ} → (Value → Option A) → Option Value → Option A
converted f none = none
converted f (some v) = f v

abbrev pub or_default {ℓ} : {A : Type ℓ} → A → Option A → A
or_default d none = d
or_default d (some a) = a

abbrev found_or {ℓ} : {A : Type ℓ} → A → Option A → A × Bool
found_or d none = (d, false)
found_or d (some a) = (a, true)

-- GetInt64 and GetInt, on a machine of 64 bits.
unfoldable pub get_int64 : Fields → Str → ℤ × Bool
get_int64 m key = found_or (negsuc 0) (converted to_int64 (get m key))

-- MustInt64 and MustInt.
unfoldable pub must_int64 : Fields → Str → ℤ → ℤ
must_int64 m key def = or_default def (converted to_int64 (get m key))

-- GetBool.
unfoldable pub get_bool : Fields → Str → Bool × Bool
get_bool m key = found_or false (converted to_bool (get m key))

-- MustBool.
unfoldable pub must_bool : Fields → Str → Bool → Bool
must_bool m key def = or_default def (converted to_bool (get m key))

module _ (sprint : Value → Str) where
  abbrev text_found : Option Value → Str × Bool
  text_found none = (to_text sprint nil, false)
  text_found (some v) = (to_text sprint v, true)

  -- GetString.
  unfoldable pub get_string : Fields → Str → Str × Bool
  get_string m key = text_found (get m key)

  abbrev text_or : Str → Option Value → Str
  text_or def none = def
  text_or def (some v) = to_text sprint v

  -- MustString.
  unfoldable pub must_string : Fields → Str → Str → Str
  must_string m key def = text_or def (get m key)

  abbrev texts : Items → List Str
  texts no_items = []
  texts (item v vs) = to_text sprint v ∷ texts vs

  abbrev string_slice : Value → Option (List Str)
  string_slice (strs ss) = some ss
  string_slice (list vs) = some (texts vs)
  string_slice _ = none

  -- GetStringSlice.
  unfoldable pub get_string_slice : Fields → Str → Option (List Str)
  get_string_slice m key = converted string_slice (get m key)

-- GetDynMap.
unfoldable pub get_dyn_map : Fields → Str → Option Fields
get_dyn_map m key = converted to_map (get m key)

-- MustDynMap.
unfoldable pub must_dyn_map : Fields → Str → Fields → Fields
must_dyn_map m key def = or_default def (converted to_map (get m key))

abbrev add_row : Option Fields → Option Rows → Option Rows
add_row none rs = none
add_row (some m) none = none
add_row (some m) (some rs) = some (row m rs)

-- The loop of GetDynMapSlice: every item is a map, or nothing is returned.
unfoldable pub rows_of : Items → Option Rows
rows_of no_items = some no_rows
rows_of (item v vs) = add_row (to_map v) (rows_of vs)

abbrev dyn_map_slice : Value → Option Rows
dyn_map_slice (maps rs) = some rs
dyn_map_slice (list vs) = rows_of vs
dyn_map_slice _ = none

-- GetDynMapSlice.
unfoldable pub get_dyn_map_slice : Fields → Str → Option Rows
get_dyn_map_slice m key = converted dyn_map_slice (get m key)

abbrev add_int : Option ℤ → Option (List ℤ) → Option (List ℤ)
add_int none rest = none
add_int (some a) none = none
add_int (some a) (some rest) = some (a ∷ rest)

-- The loop of GetIntSlice.
unfoldable pub ints_of : Items → Option (List ℤ)
ints_of no_items = some []
ints_of (item v vs) = add_int (to_int64 v) (ints_of vs)

abbrev int_slice : Value → Option (List ℤ)
int_slice (ints rest) = some rest
int_slice (list vs) = ints_of vs
int_slice _ = none

-- GetIntSlice.
unfoldable pub get_int_slice : Fields → Str → Option (List ℤ)
get_int_slice m key = converted int_slice (get m key)
