-- ===== src/DynMap/Path.antt =====
-- The operations of dynmap/dynmap.go that honour the dot operator, and those built on them.
pub mod Walk
pub mod Laws
use goshire.Base.{List, [], ◌∷◌, ◌++◌, Option, none, some, Bool, true, false}
use goshire.Text.{Str, split}
use goshire.DynMap.Fields.{
  Value, Fields, end, field, map, list, lookup, put, to_map, with_map, Items, no_items, item,
}

-- The loop of `Get` over the parts of the key.
unfoldable pub walk : List Str → Fields → Option Value
walk [] m = none
walk (k ∷ []) m = lookup k m
walk (k ∷ j ∷ ks) m = elim (lookup k m) [
  | none ↦ none
  | some v ↦ elim (to_map v) [ none ↦ none | some sub ↦ walk (j ∷ ks) sub ]
]

-- Get: the literal key first, then the path.
unfoldable pub get : Fields → Str → Option Value
get m key = elim (lookup key m) [
  | some v ↦ some v
  | none ↦ elim (split b'.' key) [
    | [] ↦ none
    | p ∷ ps ↦ elim ps [ [] ↦ none | q ∷ qs ↦ walk (p ∷ q ∷ qs) m ]
  ]
]

-- Exists.
unfoldable pub exists : Fields → Str → Bool
exists m key = elim (get m key) [ some v ↦ true | none ↦ false ]

-- The loop of `PutWithDot` over the parts of the key and the last write. False is the error
-- "value at key was not a map"; what was written before it stays written.
unfoldable pub put_path : List Str → Value → Fields → Fields × Bool
put_path [] v m = (m, true)
put_path (k ∷ []) v m = (put k v m, true)
put_path (k ∷ j ∷ ks) v m = elim (lookup k m) [
  | none ↦ let (sub, done) = put_path (j ∷ ks) v end in (put k (map sub) m, done)
  | some w ↦ elim (to_map w) [
    | none ↦ (m, false)
    | some sub ↦ let (sub', done) = put_path (j ∷ ks) v sub in (put k (with_map w sub') m, done)
  ]
]

-- PutWithDot.
unfoldable pub put_with_dot : Fields → Str → Value → Fields × Bool
put_with_dot m key v = elim (split b'.' key) [
  | [] ↦ (m, true)
  | p ∷ ps ↦ elim ps [ [] ↦ (put key v m, true) | q ∷ qs ↦ put_path (p ∷ q ∷ qs) v m ]
]

-- PutIfAbsent: looks with the dot operator, and puts without it. The results are the map, the
-- value returned and whether it was put.
unfoldable pub put_if_absent : Fields → Str → Value → Fields × Value × Bool
put_if_absent m key v = elim (get m key) [ some w ↦ (m, w, false) | none ↦ (put key v m, v, true) ]

-- PutIfAbsentWithDot drops the error of `PutWithDot`.
unfoldable pub put_if_absent_with_dot : Fields → Str → Value → Fields × Value × Bool
put_if_absent_with_dot m key v = elim (get m key) [
  | some w ↦ (m, w, false)
  | none ↦ ((put_with_dot m key v).0, v, true)
]

-- append(v, mp).
unfoldable pub append_item : Items → Value → Items
append_item no_items x = item x no_items
append_item (item y ys) x = item y (append_item ys x)

-- The type switch of `AddToSlice`.
abbrev add_to_list : Fields → Str → Value → Option Value → Fields
add_to_list m key x (some (list ys)) = put key (list (append_item ys x)) m
add_to_list m key x _ = m

-- AddToSlice: it always returns nil.
unfoldable pub add_to_slice : Fields → Str → Value → Fields
add_to_slice m key x =
    let m' = (put_if_absent m key (list no_items)).0 in add_to_list m' key x (get m' key)

-- The loop of `PutAll` over the entries of the other map.
unfoldable pub put_entries : Fields → Fields → Fields
put_entries m end = m
put_entries m (field k v rest) = put_entries (put k v m) rest

-- PutAll.
unfoldable pub put_all : Fields → Value → Fields × Bool
put_all m mp = elim (to_map mp) [ none ↦ (m, false) | some entries ↦ (put_entries m entries, true) ]
