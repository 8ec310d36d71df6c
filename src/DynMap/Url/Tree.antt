-- ===== src/DynMap/Url/Tree.antt =====
-- A form is what its leaves put together, and its leaves are at different paths.
use goshire.DynMap.Url.Leaves.{Leaf, push, leaves, leaves_at, IsForm, IsFormValue}
use goshire.DynMap.Url.Singles.{put_leaves}
use goshire.DynMap.Path.{put_path}
use goshire.DynMap.Path.Walk.{put_path-fresh, put_path-nested}
use goshire.DynMap.Fields.{Value, str, map, Fields, end, field, lookup, put, lookup-put}
use goshire.Base.{
  ◌≢◌, length, ◌∙◌, ◌<◌, ◌++◌, arith, ap, Bool-cases, ◌≡◌, List, some, none, true, refl, inr, inl,
  ◌∷◌, [],
}
use goshire.Text.{str_eq_self, str_eq_iff, str_eq, Str}

put_leaves-append :
    (xs ys : List Leaf) (m : Fields) → put_leaves m (xs ++ ys) ≡ put_leaves (put_leaves m xs) ys
put_leaves-append [] ys m = refl
put_leaves-append ((k, p, s) ∷ xs) ys m = put_leaves-append xs ys _

put_twice : (k : Str) (v w : Value) (m : Fields) → put k v (put k w m) ≡ put k v m
unfolding put
put_twice k v w end = ground (arith, str_eq_self k)
put_twice k v w (field j u m) = ground (arith, put_twice k v w m)

-- Leaves pushed under a key that holds a map are put into that map.
pushed_into :
    (k : Str) (sub : Fields) (ls : List Leaf) (m : Fields)
    → put_leaves (put k (map sub) m) (push k ls) ≡ put k (map (put_leaves sub ls)) m
pushed_into k sub [] m = refl
pushed_into k sub ((j, p, s) ∷ ls) m =
    let held : lookup k (put k (map sub) m) ≡ some (map sub) =
      lookup-put k k (map sub) m ∙ ground (arith, str_eq_self k) in
    let sub' = (put_path (j ∷ p) (str s) sub).0 in
    let one =
      ap (λ t. t.0) (put_path-nested k j p (str s) (put k (map sub) m) (map sub) sub held refl) in
    ap (λ t. put_leaves t (push k ls)) (one ∙ put_twice k (map sub') (map sub) m)
    ∙ pushed_into k sub' ls m

-- Leaves pushed under a new key make the map that they put together.
pushed_new :
    (k : Str) (ls : List Leaf) (m : Fields)
    → 0 < length ls
    → lookup k m ≡ none
    → put_leaves m (push k ls) ≡ put k (map (put_leaves end ls)) m
pushed_new k [] m h fresh = absurd (omega (arith, h))
pushed_new k ((j, p, s) ∷ ls) m h fresh =
    ap (λ t. put_leaves t.0 (push k ls)) (put_path-fresh k j p (str s) m fresh)
    ∙ pushed_into k (put_path (j ∷ p) (str s) end).0 ls m

abbrev append_fields : Fields → Fields → Fields
append_fields end m = m
append_fields (field k v a) m = field k v (append_fields a m)

-- None of the keys of the second map is in the first.
abbrev AreAbsent : Fields → Fields → Type 0
AreAbsent a end = Unit
AreAbsent a (field k v m) = (lookup k a ≡ none) × AreAbsent a m

put-absent :
    (k : Str) (v : Value) (a : Fields)
    → lookup k a ≡ none
    → put k v a ≡ append_fields a (field k v end)
unfolding put lookup
put-absent k v end h = refl
put-absent k v (field j w a) h = ground (arith, h, put-absent k v a)

append_fields_assoc :
    (a b c : Fields) → append_fields (append_fields a b) c ≡ append_fields a (append_fields b c)
append_fields_assoc end b c = refl
append_fields_assoc (field k v a) b c = ap (field k v) (append_fields_assoc a b c)

taken : (j k : Str) (w : Value) (m : Fields) → str_eq j k ≡ true → lookup k (field j w m) ≢ none
unfolding lookup
taken j k w m same e = ground (arith, same, e)

put-AreAbsent :
    (k : Str) (v : Value) (a m : Fields)
    → lookup k m ≡ none
    → AreAbsent a m
    → AreAbsent (put k v a) m
unfolding lookup
put-AreAbsent k v a end fresh h = tt
put-AreAbsent k v a (field j w m) fresh (h, hs) = elim (Bool-cases (str_eq j k)) [
  | inl same ↦ absurd (taken j k w m same fresh)
  | inr other ↦ (
    lookup-put k j v a ∙ ground (arith, h, other, str_eq_iff k j, str_eq_iff j k),
    put-AreAbsent k v a m (ground (arith, fresh, other)) hs,
  )
]

append_end : (a : Fields) → a ≡ append_fields a end
append_end end = refl
append_end (field k v a) = ap (field k v) (append_end a)

pub AreAbsent-end : (m : Fields) → AreAbsent end m
unfolding lookup
AreAbsent-end end = tt
AreAbsent-end (field k v m) = (refl, AreAbsent-end m)

put_text_leaf : (a : Fields) (k s : Str) → put_leaves a ((k, [], s) ∷ []) ≡ put k (str s) a
unfolding put_path
put_text_leaf a k s = refl

mutual
  pub put_all_leaves :
      (a m : Fields) → IsForm m → AreAbsent a m → put_leaves a (leaves m) ≡ append_fields a m
  put_all_leaves a end h absent = append_end a
  put_all_leaves a (field k v m) (plain, fresh, hv, h) (new, absent) =
      put_leaves-append (leaves_at k v) (leaves m) a
      ∙ ap (λ t. put_leaves t (leaves m)) (put_value_leaves a k v new hv)
      ∙ put_all_leaves (put k v a) m h (put-AreAbsent k v a m fresh absent)
      ∙ ap (λ t. append_fields t m) (put-absent k v a new)
      ∙ append_fields_assoc a (field k v end) m

  put_value_leaves :
      (a : Fields) (k : Str) (v : Value)
      → lookup k a ≡ none
      → IsFormValue v
      → put_leaves a (leaves_at k v) ≡ put k v a
  put_value_leaves a k (str s) new h = put_text_leaf a k s
  put_value_leaves a k (map m) new (some', h) =
      pushed_new k (leaves m) a some' new
      ∙ ap (λ t. put k (map t) a) (put_all_leaves end m h (AreAbsent-end m))
  put_value_leaves a k _ new h = absurd h
