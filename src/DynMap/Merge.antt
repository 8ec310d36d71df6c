-- ===== src/DynMap/Merge.antt =====
-- PutAll of dynmap/dynmap.go, over maps in which each key stands once.
use goshire.DynMap.Fields.{to_map, Value, Fields, end, field, lookup, put, lookup-put}
use goshire.DynMap.Path.{put_all, get, put_entries}
use goshire.Base.{true, ◌∷◌, arith, ◌∙◌, Bool-cases, ◌≡◌, Option, some, none, refl, inr, inl}
use goshire.Text.{first_piece, split_cases, str_eq_iff, str_eq, Str}
use goshire.DynMap.Path.Walk.{walk_frame}

-- Each key stands once, as in a Go map.
abbrev pub IsKeyed : Fields → Type 0
IsKeyed end = Unit
IsKeyed (field k v m) = (lookup k m ≡ none) × IsKeyed m

pub put-IsKeyed : (k : Str) (v : Value) (m : Fields) → IsKeyed m → IsKeyed (put k v m)
unfolding put
put-IsKeyed k v end h = (unfold lookup in refl, tt)
put-IsKeyed k v (field j w m) (fresh, u) = elim (Bool-cases (str_eq j k)) [
  | inl same ↦ rw same (fresh, u)
  | inr other ↦ rw other (
    lookup-put k j v m ∙ ground (arith, fresh, other, str_eq_iff k j, str_eq_iff j k),
    put-IsKeyed k v m u,
  )
]

-- The entry of the first map, and that of the second where it has none.
abbrev pub either_entry : Option Value → Option Value → Option Value
either_entry none o = o
either_entry (some v) o = some v

pub lookup-put_entries :
    (j : Str) (a m : Fields)
    → IsKeyed m
    → lookup j (put_entries a m) ≡ either_entry (lookup j m) (lookup j a)
unfolding put_entries lookup
lookup-put_entries j a end u = refl
lookup-put_entries j a (field k v m) (fresh, u) = elim (Bool-cases (str_eq k j)) [
  | inl same ↦
      lookup-put_entries j (put k v a) m u
      ∙ ground (arith, same, fresh, lookup-put k j v a, str_eq_iff k j)
  | inr other ↦ lookup-put_entries j (put k v a) m u ∙ ground (arith, other, lookup-put k j v a)
]

put_entries-IsKeyed : (a m : Fields) → IsKeyed a → IsKeyed (put_entries a m)
unfolding put_entries
put_entries-IsKeyed a end u = u
put_entries-IsKeyed a (field k v m) u = put_entries-IsKeyed (put k v a) m (put-IsKeyed k v a u)

-- PutAll of a map, or of a *DynMap, succeeds: afterwards each key has the value that it has in the
-- map given, and where that has none, the value it had before; each key still stands once.
pub put_all_lem :
    (m entries : Fields) (mp : Value)
    → to_map mp ≡ some entries
    → IsKeyed entries
    → IsKeyed m
    → ((put_all m mp).1 ≡ true)
      × ((j : Str) → lookup j (put_all m mp).0 ≡ either_entry (lookup j entries) (lookup j m))
      × IsKeyed (put_all m mp).0
unfolding put_all
put_all_lem m entries mp e u v =
    rw (e, put_all) (refl, λ j. lookup-put_entries j m entries u, put_entries-IsKeyed m entries v)

-- Get reads a map through its entries only.
pub get_same :
    (m m' : Fields) (key : Str) → ((j : Str) → lookup j m ≡ lookup j m') → get m key ≡ get m' key
unfolding get
get_same m m' key h = elim (split_cases b'.' key) [
  | inl plain ↦ ground (arith, h key, plain)
  | inr (q, qs, parts, l) ↦
      let first = first_piece b'.' key in
      ground (arith, h key, parts, walk_frame first (q ∷ qs) m' m (h first))
]
