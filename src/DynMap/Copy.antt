-- ===== src/DynMap/Copy.antt =====
-- Clone and ToMap of dynmap/dynmap.go: a copy of the map and of every map inside it. A Go map has
-- no order and each key once, so the copy is built entry by entry in the order of the original.
use goshire.Base.{
  sym, ap, ◌∙◌, Option-cases, arith, Option, List, some, none, inr, inl, ◌∷◌, [], ◌≡◌, refl,
}
use goshire.DynMap.Fields.{Value, Fields, end, field, map, dynmap, lookup, to_map}
use goshire.DynMap.Path.{walk, get}
use goshire.Text.{first_piece, split_cases, Str}

-- Every submap, of either kind, becomes a *DynMap.
unfoldable mutual
  pub clone : Fields → Fields
  clone end = end
  clone (field k v m) = field k (clone_value v) (clone m)

  pub clone_value : Value → Value
  clone_value (map m) = dynmap (clone m)
  clone_value (dynmap m) = dynmap (clone m)
  clone_value v = v

-- Every submap, of either kind, becomes a plain Go map.
unfoldable mutual
  pub to_go_map : Fields → Fields
  to_go_map end = end
  to_go_map (field k v m) = field k (to_go_value v) (to_go_map m)

  pub to_go_value : Value → Value
  to_go_value (map m) = map (to_go_map m)
  to_go_value (dynmap m) = map (to_go_map m)
  to_go_value v = v

mutual
  unfolding clone to_go_map

  to_go_map-clone : (m : Fields) → to_go_map (clone m) ≡ to_go_map m
  to_go_map-clone end = refl
  to_go_map-clone (field k v m) = cc (to_go_value-clone v, to_go_map-clone m)

  to_go_value-clone : (v : Value) → to_go_value (clone_value v) ≡ to_go_value v
  to_go_value-clone (map m) = cc (to_go_map-clone m)
  to_go_value-clone (dynmap m) = cc (to_go_map-clone m)
  to_go_value-clone _ = refl

mutual
  unfolding clone

  clone_twice : (m : Fields) → clone (clone m) ≡ clone m
  clone_twice end = refl
  clone_twice (field k v m) = cc (clone_value_twice v, clone_twice m)

  clone_value_twice : (v : Value) → clone_value (clone_value v) ≡ clone_value v
  clone_value_twice (map m) = cc (clone_twice m)
  clone_value_twice (dynmap m) = cc (clone_twice m)
  clone_value_twice _ = refl

abbrev pub clone_found : Option Value → Option Value
clone_found none = none
clone_found (some v) = some (clone_value v)

lookup-clone : (k : Str) (m : Fields) → lookup k (clone m) ≡ clone_found (lookup k m)
unfolding clone lookup
lookup-clone k end = refl
lookup-clone k (field j v m) = ground (arith, lookup-clone k m)

-- One step of `walk`.
abbrev into : List Str → Option Value → Option Value
into ks none = none
into ks (some v) = elim (to_map v) [ none ↦ none | some sub ↦ walk ks sub ]

walk-step :
    (k j : Str) (ks : List Str) (m : Fields) → walk (k ∷ j ∷ ks) m ≡ into (j ∷ ks) (lookup k m)
walk-step k j ks m =
    unfold walk in
    elim (Option-cases (lookup k m)) [ inl e ↦ ground (arith, e) | inr (v, e) ↦ ground (arith, e) ]

into-clone :
    (ks : List Str) (o : Option Value)
    → ((m : Fields) → walk ks (clone m) ≡ clone_found (walk ks m))
    → into ks (clone_found o) ≡ clone_found (into ks o)
unfolding clone
into-clone ks none h = refl
into-clone ks (some (map m)) h = h m
into-clone ks (some (dynmap m)) h = h m
into-clone ks (some _) h = refl

walk-clone : (ks : List Str) (m : Fields) → walk ks (clone m) ≡ clone_found (walk ks m)
unfolding walk
walk-clone [] m = refl
walk-clone (k ∷ []) m = lookup-clone k m
walk-clone (k ∷ j ∷ ks) m =
    walk-step k j ks (clone m)
    ∙ ap (into (j ∷ ks)) (lookup-clone k m)
    ∙ into-clone (j ∷ ks) (lookup k m) (walk-clone (j ∷ ks))
    ∙ sym (ap clone_found (walk-step k j ks m))

get-clone : (m : Fields) (key : Str) → get (clone m) key ≡ clone_found (get m key)
unfolding get
get-clone m key = elim (Option-cases (lookup key m)) [
  | inr (v, e) ↦ ground (arith, e, lookup-clone key m)
  | inl e ↦ elim (split_cases b'.' key) [
    | inl plain ↦ ground (arith, e, lookup-clone key m, plain)
    | inr (q, qs, parts, l) ↦
        ground (arith, e, lookup-clone key m, parts, walk-clone (first_piece b'.' key ∷ q ∷ qs) m)
  ]
]

-- A clone holds what the original holds: under every key, dotted or not, `Get` finds in it the clone
-- of what it finds in the original; turned into plain Go maps the two are the same at every depth;
-- and a clone of the clone is the clone.
pub clone_holds :
    (m : Fields)
    → ((key : Str) → get (clone m) key ≡ clone_found (get m key))
      × (to_go_map (clone m) ≡ to_go_map m)
      × (clone (clone m) ≡ clone m)
clone_holds m = (get-clone m, to_go_map-clone m, clone_twice m)
