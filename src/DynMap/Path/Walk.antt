-- ===== src/DynMap/Path/Walk.antt =====
-- The loops of `Get` and `PutWithDot` of dynmap/dynmap.go over the parts of a key: what a path is put
-- to is what it leads to.
use goshire.Base.{
  ◌≢◌, ◌∙◌, inr, inl, Option-cases, List, [], ◌∷◌, none, some, true, false, ◌≡◌, refl, arith,
}
use goshire.Text.{str_eq_iff, str_eq_self, Str}
use goshire.DynMap.Fields.{
  put-lookup_self, with_map-to_map, to_map-with_map, lookup-put, Value, Fields, end, map, lookup,
  put, to_map, with_map,
}
use goshire.DynMap.Path.{walk, put_path}

-- One step of `put_path` on each of its branches.
module _ (k j : Str) (ks : List Str) (v : Value) (m : Fields) where
  pub put_path-fresh :
      lookup k m ≡ none
      → put_path (k ∷ j ∷ ks) v m
        ≡ (put k (map (put_path (j ∷ ks) v end).0) m, (put_path (j ∷ ks) v end).1)
  unfolding put_path
  put_path-fresh e = rw (e, put_path)

  put_path-blocked :
      (w : Value) → lookup k m ≡ some w → to_map w ≡ none → put_path (k ∷ j ∷ ks) v m ≡ (m, false)
  unfolding put_path
  put_path-blocked w e f = ground (arith, e, f)

  pub put_path-nested :
      (w : Value) (sub : Fields)
      → lookup k m ≡ some w
      → to_map w ≡ some sub
      → put_path (k ∷ j ∷ ks) v m
        ≡ (put k (with_map w (put_path (j ∷ ks) v sub).0) m, (put_path (j ∷ ks) v sub).1)
  unfolding put_path
  put_path-nested w sub e f = ground (arith, e, f)

pub put_path-end : (ks : List Str) (v : Value) → (put_path ks v end).1 ≡ true
unfolding put_path lookup
put_path-end [] v = refl
put_path-end (k ∷ []) v = refl
put_path-end (k ∷ j ∷ ks) v = put_path-end (j ∷ ks) v

pub put_path_error :
    (ks : List Str) (v : Value) (m : Fields) → (put_path ks v m).1 ≡ false → (put_path ks v m).0 ≡ m
put_path_error [] v m h = unfold put_path in refl
put_path_error (k ∷ []) v m h = unfold put_path in cc h
put_path_error (k ∷ j ∷ ks) v m h = elim (Option-cases (lookup k m)) [
  | inl e ↦ cc (put_path-fresh k j ks v m e, put_path-end (j ∷ ks) v, h)
  | inr (w, e) ↦ elim (Option-cases (to_map w)) [
    | inl f ↦ rw (put_path-blocked k j ks v m w e f)
    | inr (sub, f) ↦
        let step = put_path-nested k j ks v m w sub e f in
        let ih = put_path_error (j ∷ ks) v sub (cc (step, h)) in
        rw (step, ih, with_map-to_map w sub f) (put-lookup_self k w m e)
  ]
]

walk-nested :
    (k j : Str) (ks : List Str) (m : Fields) (w : Value) (sub : Fields)
    → lookup k m ≡ some w
    → to_map w ≡ some sub
    → walk (k ∷ j ∷ ks) m ≡ walk (j ∷ ks) sub
unfolding walk
walk-nested k j ks m w sub e f = ground (arith, e, f)

walk-put :
    (k j : Str) (ks : List Str) (m : Fields) (w : Value) (sub : Fields)
    → to_map w ≡ some sub
    → walk (k ∷ j ∷ ks) (put k w m) ≡ walk (j ∷ ks) sub
walk-put k j ks m w sub f =
    walk-nested k j ks (put k w m) w sub (ground (arith, lookup-put k k w m, str_eq_self k)) f

pub walk-put_path :
    (k : Str) (ks : List Str) (v : Value) (m : Fields)
    → (put_path (k ∷ ks) v m).1 ≡ true
    → walk (k ∷ ks) (put_path (k ∷ ks) v m).0 ≡ some v
unfolding put_path
walk-put_path k [] v m h = unfold walk in ground (arith, lookup-put k k v m, str_eq_self k)
walk-put_path k (j ∷ ks) v m h = elim (Option-cases (lookup k m)) [
  | inl e ↦ rw (put_path-fresh k j ks v m e) (
      walk-put k j ks m _ (put_path (j ∷ ks) v end).0 refl
      ∙ walk-put_path j ks v end (put_path-end (j ∷ ks) v))
  | inr (w, e) ↦ elim (Option-cases (to_map w)) [
    | inl f ↦ cc (put_path-blocked k j ks v m w e f, h)
    | inr (sub, f) ↦
        let step = put_path-nested k j ks v m w sub e f in
        rw step (
          walk-put k j ks m _ (put_path (j ∷ ks) v sub).0 (to_map-with_map w _)
          ∙ walk-put_path j ks v sub (cc (step, h)))
  ]
]

-- A write to a path leaves every other top-level key alone.
pub lookup-put_path :
    (k : Str) (ks : List Str) (v : Value) (m : Fields) (j : Str)
    → j ≢ k
    → lookup j (put_path (k ∷ ks) v m).0 ≡ lookup j m
unfolding put_path
lookup-put_path k [] v m j h = ground (arith, lookup-put k j v m, str_eq_iff k j)
lookup-put_path k (i ∷ ks) v m j h = elim (Option-cases (lookup k m)) [
  | inl e ↦
      rw (put_path-fresh k i ks v m e)
        (ground (arith, lookup-put k j (map (put_path (i ∷ ks) v end).0) m, str_eq_iff k j))
  | inr (w, e) ↦ elim (Option-cases (to_map w)) [
    | inl f ↦ rw (put_path-blocked k i ks v m w e f)
    | inr (sub, f) ↦
        rw (put_path-nested k i ks v m w sub e f) (
          ground (arith, lookup-put k j (with_map w (put_path (i ∷ ks) v sub).0) m, str_eq_iff k j))
  ]
]

-- Walking a path reads only the entry of its first key.
pub walk_frame :
    (k : Str) (ks : List Str) (m m' : Fields)
    → lookup k m' ≡ lookup k m
    → walk (k ∷ ks) m' ≡ walk (k ∷ ks) m
unfolding walk
walk_frame k [] m m' e = e
walk_frame k (j ∷ ks) m m' e = ground (arith, e)
