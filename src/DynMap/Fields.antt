-- ===== src/DynMap/Fields.antt =====
-- The values that a DynMap holds, Go's map operations on them, and the direct operations of
-- dynmap/dynmap.go, with ToDynMap and ToMap of dynmap/typecast.go.
use goshire.Base.{
  ℕ, suc, ◌≡◌, refl, Bool, true, false, List, Option, none, some, ℤ, arith, if◌then◌else◌,
}
use goshire.Text.{Str, str_eq, str_eq_iff}

mutual
  -- An `interface{}`. A float is the integer that int64(…) makes of it, with its printed form.
  -- `map` is a map[string]interface{}, `dynmap` a *DynMap, `list` an []interface{}, `strs` a
  -- []string, `ints` an []int, `maps` a []*DynMap, and `other` any other value, by its printed form.
  pub data Value : Type 0 where
    nil : Value
    bool : Bool → Value
    int : ℤ → Value
    float : ℤ → Str → Value
    str : Str → Value
    map : Fields → Value
    dynmap : Fields → Value
    list : Items → Value
    strs : List Str → Value
    ints : List ℤ → Value
    maps : Rows → Value
    other : Str → Value

  pub data Items : Type 0 where
    no_items : Items
    item : Value → Items → Items

  pub data Rows : Type 0 where
    no_rows : Rows
    row : Fields → Rows → Rows

  pub data Fields : Type 0 where
    end : Fields
    field : Str → Value → Fields → Fields

-- mp[key], with its second result.
unfoldable pub lookup : Str → Fields → Option Value
lookup k end = none
lookup k (field j v m) = if str_eq j k then some v else lookup k m

-- mp[key] = value, and `Put`.
unfoldable pub put : Str → Value → Fields → Fields
put k v end = field k v end
put k v (field j w m) = if str_eq j k then field j v m else field j w (put k v m)

-- delete(mp, key).
unfoldable pub delete : Str → Fields → Fields
delete k end = end
delete k (field j v m) = let rest = delete k m in if str_eq j k then rest else field j v rest

-- len(mp).
unfoldable pub size : Fields → ℕ
size end = 0
size (field k v m) = suc (size m)

-- ToMap and ToDynMap: the map that the value is or holds.
abbrev pub to_map : Value → Option Fields
to_map (map m) = some m
to_map (dynmap m) = some m
to_map _ = none

-- DynMapConvertable.
abbrev pub dyn_map_convertable : Value → Bool
dyn_map_convertable (map m) = true
dyn_map_convertable (dynmap m) = true
dyn_map_convertable _ = false

-- The value after a write to the map that it holds.
abbrev pub with_map : Value → Fields → Value
with_map (dynmap m) m' = dynmap m'
with_map _ m' = map m'

-- Remove: it does not honour the dot operator.
unfoldable pub remove : Str → Fields → Option Value × Fields
remove k m = elim (lookup k m) [ some v ↦ (some v, delete k m) | none ↦ (none, m) ]

pub lookup-put :
    (k j : Str) (v : Value) (m : Fields)
    → lookup j (put k v m) ≡ (if str_eq k j then some v else lookup j m)
unfolding lookup put
lookup-put k j v end = refl
lookup-put k j v (field i w m) =
    ground (arith, str_eq_iff k j, str_eq_iff i k, str_eq_iff i j, lookup-put k j v m)

pub lookup-delete :
    (k j : Str) (m : Fields) → lookup j (delete k m) ≡ (if str_eq k j then none else lookup j m)
unfolding lookup delete
lookup-delete k j end = ground arith
lookup-delete k j (field i w m) =
    ground (arith, str_eq_iff k j, str_eq_iff i k, str_eq_iff i j, lookup-delete k j m)

pub put-lookup_self : (k : Str) (v : Value) (m : Fields) → lookup k m ≡ some v → put k v m ≡ m
unfolding lookup put
put-lookup_self k v end h = cc
put-lookup_self k v (field i w m) h = ground (arith, put-lookup_self k v m)

pub with_map-to_map : (w : Value) (m : Fields) → to_map w ≡ some m → with_map w m ≡ w
with_map-to_map (map m') m h = ground arith
with_map-to_map (dynmap m') m h = ground arith
with_map-to_map _ m h = cc

pub to_map-with_map : (w : Value) (m : Fields) → to_map (with_map w m) ≡ some m
to_map-with_map (dynmap m') m = refl
to_map-with_map _ m = refl
