-- ===== src/DynMap/Slices.antt =====
-- AddToSlice of dynmap/dynmap.go, under a key without a dot.
use goshire.DynMap.Path.{add_to_slice, put_if_absent, append_item}
use goshire.DynMap.Path.Laws.{get-plain}
use goshire.DynMap.Fields.{put, no_items, Value, lookup, Items, Fields, list, lookup-put}
use goshire.Base.{◌∙◌, arith, ◌⊎◌, ◌≡◌, some, none, false, inr, inl, ◌∷◌, []}
use goshire.Text.{str_eq_self, str_eq, split, Str}

-- The key has no value yet, or is a slice of these items.
abbrev pub IsSlice : Fields → Str → Items → Type 0
IsSlice m key ys = ((lookup key m ≡ none) × (ys ≡ no_items)) ⊎ (lookup key m ≡ some (list ys))

module _ (key : Str) (plain : split b'.' key ≡ key ∷ []) where
  slice_there :
      (m : Fields) (x : Value) (ys : Items)
      → lookup key m ≡ some (list ys)
      → add_to_slice m key x ≡ put key (list (append_item ys x)) m
  unfolding add_to_slice put_if_absent
  slice_there m x ys e = let g = get-plain key plain m ∙ e in ground (arith, g)

  slice_made :
      (m : Fields) (x : Value)
      → lookup key m ≡ none
      → add_to_slice m key x ≡ put key (list (append_item no_items x)) (put key (list no_items) m)
  unfolding add_to_slice put_if_absent
  slice_made m x e =
      let g = get-plain key plain m ∙ e in
      let made : lookup key (put key (list no_items) m) ≡ some (list no_items) =
        ground (arith, lookup-put key key (list no_items) m, str_eq_self key) in
      let h = get-plain key plain (put key (list no_items) m) ∙ made in ground (arith, g, h)

  -- Under a key without a dot that has no value or a slice, AddToSlice makes the value the slice with
  -- the item at its end, and leaves every other key as it is.
  pub add_to_slice_lem :
      (m : Fields) (x : Value) (ys : Items)
      → IsSlice m key ys
      → (lookup key (add_to_slice m key x) ≡ some (list (append_item ys x)))
        × ((j : Str) → str_eq key j ≡ false → lookup j (add_to_slice m key x) ≡ lookup j m)
  add_to_slice_lem m x ys (inl (e, none_yet)) =
      let step = slice_made m x e in
      let m' = put key (list no_items) m in
      let at = λ (j : Str). lookup-put key j (list (append_item no_items x)) m' in
      rw (step, none_yet)
        (
          ground (arith, at key, str_eq_self key),
          λ j other. ground (arith, at j, lookup-put key j (list no_items) m, other),
        )
  add_to_slice_lem m x ys (inr e) =
      let step = slice_there m x ys e in
      let at = λ (j : Str). lookup-put key j (list (append_item ys x)) m in
      rw step (ground (arith, at key, str_eq_self key), λ j other. ground (arith, at j, other))
