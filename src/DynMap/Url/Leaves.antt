-- ===== src/DynMap/Url/Leaves.antt =====
-- A map of texts and of maps of texts as its leaves, and urlEncode of dynmap/dynmap.go on them.
use goshire.DynMap.Url.{
  Values, add_value, bracketed, url_encode, url_encode_fields, marshal_url_values,
}
use goshire.DynMap.Fields.{Value, str, map, Fields, end, field, lookup}
use goshire.Base.{◌≢◌, sym, length, ap, ◌∙◌, ◌<◌, ◌++◌, All, ◌≡◌, List, none, refl, ◌∷◌, []}
use goshire.Text.{Str}
use goshire.DynMap.Cast.{to_text}

-- The first key of a path, the keys after it, and the text at its end.
abbrev pub Leaf : Type 0
Leaf = Str × List Str × Str

-- The same leaves one map further down.
abbrev pub push : Str → List Leaf → List Leaf
push k [] = []
push k ((j, p, s) ∷ ls) = (k, j ∷ p, s) ∷ push k ls

abbrev mutual
  pub leaves : Fields → List Leaf
  leaves end = []
  leaves (field k v m) = leaves_at k v ++ leaves m

  pub leaves_at : Str → Value → List Leaf
  leaves_at k (str s) = (k, [], s) ∷ []
  leaves_at k (map m) = push k (leaves m)
  leaves_at k _ = []

-- A key without the bytes that separate keys.
abbrev pub IsPlain : Str → Type 0
IsPlain k = All (λ c. (c ≢ b'.') × (c ≢ b'[') × (c ≢ b']')) k

-- What a form can carry: texts, and maps of such values that are not empty, under plain keys, each once.
abbrev mutual
  pub IsForm : Fields → Type 0
  IsForm end = Unit
  IsForm (field k v m) = IsPlain k × (lookup k m ≡ none) × IsFormValue v × IsForm m

  pub IsFormValue : Value → Type 0
  IsFormValue (str s) = Unit
  IsFormValue (map m) = (0 < length (leaves m)) × IsForm m
  IsFormValue _ = ⊥

-- key[k1][k2]…
abbrev pub rails : Str → List Str → Str
rails key [] = key
rails key (k ∷ ks) = rails (bracketed key k) ks

-- vals.Add of each leaf, below a key and at the top.
abbrev pub add_leaves : Str → List Leaf → Values → Values
add_leaves key [] vals = vals
add_leaves key ((j, p, s) ∷ ls) vals =
    add_leaves key ls (add_value (rails (bracketed key j) p) s vals)

abbrev pub add_tops : List Leaf → Values → Values
add_tops [] vals = vals
add_tops ((k, p, s) ∷ ls) vals = add_tops ls (add_value (rails k p) s vals)

add_leaves-append :
    (key : Str) (xs ys : List Leaf) (vals : Values)
    → add_leaves key (xs ++ ys) vals ≡ add_leaves key ys (add_leaves key xs vals)
add_leaves-append key [] ys vals = refl
add_leaves-append key ((j, p, s) ∷ xs) ys vals = add_leaves-append key xs ys _

add_tops-append :
    (xs ys : List Leaf) (vals : Values) → add_tops (xs ++ ys) vals ≡ add_tops ys (add_tops xs vals)
add_tops-append [] ys vals = refl
add_tops-append ((j, p, s) ∷ xs) ys vals = add_tops-append xs ys _

add_leaves-push :
    (key k : Str) (ls : List Leaf) (vals : Values)
    → add_leaves key (push k ls) vals ≡ add_leaves (bracketed key k) ls vals
add_leaves-push key k [] vals = refl
add_leaves-push key k ((j, p, s) ∷ ls) vals = add_leaves-push key k ls _

add_tops-push :
    (k : Str) (ls : List Leaf) (vals : Values) → add_tops (push k ls) vals ≡ add_leaves k ls vals
add_tops-push k [] vals = refl
add_tops-push k ((j, p, s) ∷ ls) vals = add_tops-push k ls _

module _ (sprint : Value → Str) where
  mutual
    unfolding url_encode to_text

    encode_fields :
        (key : Str) (m : Fields) (vals : Values)
        → IsForm m
        → url_encode_fields sprint key m vals ≡ add_leaves key (leaves m) vals
    encode_fields key end vals h = refl
    encode_fields key (field k v m) vals (plain, fresh, hv, h) =
        encode_fields key m _ h
        ∙ ap (add_leaves key (leaves m)) (encode_value key k v vals hv)
        ∙ sym (add_leaves-append key (leaves_at k v) (leaves m) vals)

    encode_value :
        (key k : Str) (v : Value) (vals : Values)
        → IsFormValue v
        → url_encode sprint (bracketed key k) v vals ≡ add_leaves key (leaves_at k v) vals
    encode_value key k (str s) vals h = refl
    encode_value key k (map m) vals (some', h) =
        encode_fields (bracketed key k) m vals h ∙ sym (add_leaves-push key k (leaves m) vals)
    encode_value key k _ vals h = absurd h

  encode_top :
      (k : Str) (v : Value) (vals : Values)
      → IsFormValue v
      → url_encode sprint k v vals ≡ add_tops (leaves_at k v) vals
  unfolding url_encode to_text
  encode_top k (str s) vals h = refl
  encode_top k (map m) vals (some', h) =
      encode_fields k m vals h ∙ sym (add_tops-push k (leaves m) vals)
  encode_top k _ vals h = absurd h

  pub marshal_tops :
      (m : Fields) (vals : Values)
      → IsForm m
      → marshal_url_values sprint m vals ≡ add_tops (leaves m) vals
  unfolding marshal_url_values
  marshal_tops end vals h = refl
  marshal_tops (field k v m) vals (plain, fresh, hv, h) =
      marshal_tops m _ h
      ∙ ap (add_tops (leaves m)) (encode_top k v vals hv)
      ∙ sym (add_tops-append (leaves_at k v) (leaves m) vals)
