-- ===== src/DynMap/Url/RoundTrip.antt =====
-- A form that is encoded by urlEncode and decoded by UnmarshalURLValues, in dynmap/dynmap.go.
use goshire.DynMap.Url.{unmarshal_url_values, marshal_url_values}
use goshire.DynMap.Url.Leaves.{
  Leaf, push, leaves, leaves_at, IsPlain, IsForm, IsFormValue, marshal_tops,
}
use goshire.DynMap.Url.Singles.{
  HasPlainKeys, AreApart, AreDistinct, IsNew, tops_singles, unmarshal_singles,
}
use goshire.DynMap.Url.Tree.{put_all_leaves, AreAbsent-end}
use goshire.DynMap.Fields.{Value, str, map, Fields, end, field, lookup}
use goshire.Base.{
  arith, ◌∙◌, ap, Bool-cases, ◌≢◌, ◌≡◌, ◌++◌, All-append, List, All, none, inr, inl, ◌∷◌, [],
}
use goshire.Text.{str_eq_iff, str_eq, Str}

-- The path of the leaf begins with another key.
abbrev StartsOther : Str → Leaf → Type 0
StartsOther k (j, p, s) = k ≢ j

other_apart :
    (k : Str) (p : List Str) (s : Str) (ls : List Leaf)
    → All (StartsOther k) ls
    → All (AreApart (k, p, s)) ls
other_apart k p s [] h = tt
other_apart k p s ((j, q, t) ∷ ls) (h, hs) = (λ e. h (cc e), other_apart k p s ls hs)

push-HasPlainKeys :
    (k : Str) (ls : List Leaf) → IsPlain k → All HasPlainKeys ls → All HasPlainKeys (push k ls)
push-HasPlainKeys k [] hk h = tt
push-HasPlainKeys k ((j, p, s) ∷ ls) hk ((hj, hp), h) =
    ((hk, (hj, hp)), push-HasPlainKeys k ls hk h)

mutual
  leaves-HasPlainKeys : (m : Fields) → IsForm m → All HasPlainKeys (leaves m)
  leaves-HasPlainKeys end h = tt
  leaves-HasPlainKeys (field k v m) (plain, fresh, hv, h) =
      All-append HasPlainKeys (leaves_at k v) (leaves m) (leaves_at-HasPlainKeys k v plain hv)
        (leaves-HasPlainKeys m h)

  leaves_at-HasPlainKeys :
      (k : Str) (v : Value) → IsPlain k → IsFormValue v → All HasPlainKeys (leaves_at k v)
  leaves_at-HasPlainKeys k (str s) plain h = ((plain, tt), tt)
  leaves_at-HasPlainKeys k (map m) plain (some', h) =
      push-HasPlainKeys k (leaves m) plain (leaves-HasPlainKeys m h)
  leaves_at-HasPlainKeys k _ plain h = absurd h

push-StartsOther : (k j : Str) (ls : List Leaf) → k ≢ j → All (StartsOther k) (push j ls)
push-StartsOther k j [] h = tt
push-StartsOther k j ((i, p, s) ∷ ls) h = (h, push-StartsOther k j ls h)

at-StartsOther :
    (k j : Str) (v : Value) → k ≢ j → IsFormValue v → All (StartsOther k) (leaves_at j v)
at-StartsOther k j (str s) h hv = (h, tt)
at-StartsOther k j (map m) h hv = push-StartsOther k j (leaves m) h
at-StartsOther k j _ h hv = absurd hv

other_key :
    (k j : Str) (v : Value) (m : Fields)
    → lookup k (field j v m) ≡ none
    → (k ≢ j) × (lookup k m ≡ none)
unfolding lookup
other_key k j v m e = elim (Bool-cases (str_eq j k)) [
  | inl same ↦ (λ p. ground (arith, e, same), ground (arith, e, same))
  | inr other ↦ (λ p. ground (arith, p, other, str_eq_iff j k), ground (arith, e, other))
]

absent-StartsOther :
    (k : Str) (m : Fields) → lookup k m ≡ none → IsForm m → All (StartsOther k) (leaves m)
absent-StartsOther k end e h = tt
absent-StartsOther k (field j v m) e (plain, fresh, hv, h) =
    let (ne, rest) = other_key k j v m e in
    All-append (StartsOther k) (leaves_at j v) (leaves m) (at-StartsOther k j v ne hv)
      (absent-StartsOther k m rest h)

distinct-append :
    (xs ys : List Leaf)
    → AreDistinct xs
    → AreDistinct ys
    → All (λ l. All (AreApart l) ys) xs
    → AreDistinct (xs ++ ys)
distinct-append [] ys dx dy h = dy
distinct-append (x ∷ xs) ys (apart, dx) dy (h, hs) =
    (All-append (AreApart x) xs ys apart h, distinct-append xs ys dx dy hs)

push-apart :
    (k j : Str) (p : List Str) (s : Str) (ls : List Leaf)
    → All (AreApart (j, p, s)) ls
    → All (AreApart (k, j ∷ p, s)) (push k ls)
push-apart k j p s [] h = tt
push-apart k j p s ((i, q, t) ∷ ls) (h, hs) = (λ e. h (cc e), push-apart k j p s ls hs)

push-AreDistinct : (k : Str) (ls : List Leaf) → AreDistinct ls → AreDistinct (push k ls)
push-AreDistinct k [] d = tt
push-AreDistinct k ((j, p, s) ∷ ls) (apart, d) =
    (push-apart k j p s ls apart, push-AreDistinct k ls d)

push_apart-All :
    (k : Str) (xs ys : List Leaf)
    → All (StartsOther k) ys
    → All (λ l. All (AreApart l) ys) (push k xs)
push_apart-All k [] ys h = tt
push_apart-All k ((j, p, s) ∷ xs) ys h = (other_apart k (j ∷ p) s ys h, push_apart-All k xs ys h)

at_apart-All :
    (k : Str) (v : Value) (ys : List Leaf)
    → IsFormValue v
    → All (StartsOther k) ys
    → All (λ l. All (AreApart l) ys) (leaves_at k v)
at_apart-All k (str s) ys hv h = (other_apart k [] s ys h, tt)
at_apart-All k (map m) ys hv h = push_apart-All k (leaves m) ys h
at_apart-All k _ ys hv h = absurd hv

mutual
  leaves-AreDistinct : (m : Fields) → IsForm m → AreDistinct (leaves m)
  leaves-AreDistinct end h = tt
  leaves-AreDistinct (field k v m) (plain, fresh, hv, h) =
      distinct-append (leaves_at k v) (leaves m) (at-AreDistinct k v hv) (leaves-AreDistinct m h)
        (at_apart-All k v (leaves m) hv (absent-StartsOther k m fresh h))

  at-AreDistinct : (k : Str) (v : Value) → IsFormValue v → AreDistinct (leaves_at k v)
  at-AreDistinct k (str s) h = (tt, tt)
  at-AreDistinct k (map m) (some', h) = push-AreDistinct k (leaves m) (leaves-AreDistinct m h)
  at-AreDistinct k _ h = absurd h

none-IsNew : (ls : List Leaf) → All (IsNew []) ls
none-IsNew [] = tt
none-IsNew (l ∷ ls) = (tt, none-IsNew ls)

-- A form goes through a query string and back: for a map of texts and of maps of such values, none of
-- them empty, each key once and without dots and brackets in it, the url.Values that urlEncode makes, one
-- text for each leaf under its key in brackets, are decoded by UnmarshalURLValues to the same map.
pub unmarshal-marshal_url_values :
    (sprint : Value → Str) (m : Fields)
    → IsForm m
    → unmarshal_url_values end (marshal_url_values sprint m []) ≡ m
unmarshal-marshal_url_values sprint m h =
    ap (unmarshal_url_values end) (
      marshal_tops sprint m [] h
      ∙ tops_singles (leaves m) [] (leaves-HasPlainKeys m h) (leaves-AreDistinct m h)
          (none-IsNew (leaves m)))
    ∙ unmarshal_singles (leaves m) end (leaves-HasPlainKeys m h)
    ∙ put_all_leaves end m h (AreAbsent-end m)
