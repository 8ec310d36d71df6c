-- ===== src/DynMap/Url/Singles.antt =====
-- Leaves as values, and values as writes, in urlEncode and UnmarshalURLValues of dynmap/dynmap.go.
use goshire.DynMap.Url.{Values, add_value, decode_key, unmarshal_url_values}
use goshire.DynMap.Url.Leaves.{Leaf, IsPlain, rails, add_tops}
use goshire.DynMap.Url.Keys.{split-decode_key, rails_injective, decode_key-plain}
use goshire.DynMap.Path.{put_path, put_with_dot}
use goshire.DynMap.Fields.{Value, str, Fields}
use goshire.Base.{
  append_assoc, ◌∙◌, append-nil, sym, arith, ap, ◌≡◌, All-append, ◌≢◌, ◌++◌, List, All, refl, ◌∷◌,
  [],
}
use goshire.Text.{str_eq_iff, Str}

-- The keys of a leaf are plain.
abbrev pub HasPlainKeys : Leaf → Type 0
HasPlainKeys (k, p, s) = IsPlain k × All IsPlain p

-- Two leaves at different paths.
abbrev pub AreApart : Leaf → Leaf → Type 0
AreApart (k, p, s) (j, q, t) = (k ∷ p) ≢ (j ∷ q)

abbrev pub AreDistinct : List Leaf → Type 0
AreDistinct [] = Unit
AreDistinct (l ∷ ls) = All (AreApart l) ls × AreDistinct ls

-- No value has the key of the leaf.
abbrev pub IsNew : Values → Leaf → Type 0
IsNew vals (k, p, s) = All (λ e. e.0 ≢ rails k p) vals

-- Each leaf as a value of its own.
abbrev pub singles : List Leaf → Values
singles [] = []
singles ((k, p, s) ∷ ls) = (rails k p, s ∷ []) ∷ singles ls

add_value-new :
    (k t : Str) (vals : Values)
    → All (λ e. e.0 ≢ k) vals
    → add_value k t vals ≡ vals ++ (k, t ∷ []) ∷ []
unfolding add_value
add_value-new k t [] h = refl
add_value-new k t ((j, ts) ∷ vals) (h, hs) =
    ground (arith, h, str_eq_iff j k, add_value-new k t vals hs)

-- A leaf stays new when a leaf apart from it is added.
IsNew-stays :
    (l m : Leaf) (vals : Values)
    → HasPlainKeys l
    → HasPlainKeys m
    → AreApart l m
    → IsNew vals m
    → IsNew (vals ++ singles (l ∷ [])) m
IsNew-stays (k, p, s) (j, q, t) vals (hk, hp) (hj, hq) apart new =
    All-append (λ e. e.0 ≢ rails j q) vals ((rails k p, s ∷ []) ∷ []) new
      (λ e. apart (rails_injective k j p q hk hj hp hq e), tt)

All-IsNew :
    (l : Leaf) (ls : List Leaf) (vals : Values)
    → HasPlainKeys l
    → All HasPlainKeys ls
    → All (AreApart l) ls
    → All (IsNew vals) ls
    → All (IsNew (vals ++ singles (l ∷ []))) ls
All-IsNew l [] vals hl hs as' new = tt
All-IsNew l (m ∷ ls) vals hl (hm, hs) (a, apart) (n, new) =
    (IsNew-stays l m vals hl hm a n, All-IsNew l ls vals hl hs apart new)

pub tops_singles :
    (ls : List Leaf) (vals : Values)
    → All HasPlainKeys ls
    → AreDistinct ls
    → All (IsNew vals) ls
    → add_tops ls vals ≡ vals ++ singles ls
tops_singles [] vals hs d new = sym (append-nil vals)
tops_singles ((k, p, s) ∷ ls) vals (h, hs) (apart, d) (n, new) =
    let l : Leaf = (k, p, s) in
    ap (add_tops ls) (add_value-new (rails k p) s vals n)
    ∙ tops_singles ls (vals ++ singles (l ∷ [])) hs d (All-IsNew l ls vals h hs apart new)
    ∙ append_assoc vals (singles (l ∷ [])) (singles ls)

-- PutWithDot of each leaf.
abbrev pub put_leaves : Fields → List Leaf → Fields
put_leaves m [] = m
put_leaves m ((k, p, s) ∷ ls) = put_leaves (put_path (k ∷ p) (str s) m).0 ls

put_rails :
    (m : Fields) (k : Str) (p : List Str) (v : Value)
    → IsPlain k
    → All IsPlain p
    → (put_with_dot m (decode_key (rails k p)) v).0 ≡ (put_path (k ∷ p) v m).0
unfolding put_with_dot put_path
put_rails m k [] v hk hp =
    let parts = split-decode_key k [] hk tt in
    let same = decode_key-plain k hk in ground (arith, parts, same)
put_rails m k (j ∷ p) v hk hp =
    let parts = split-decode_key k (j ∷ p) hk hp in ground (arith, parts)

pub unmarshal_singles :
    (ls : List Leaf) (m : Fields)
    → All HasPlainKeys ls
    → unmarshal_url_values m (singles ls) ≡ put_leaves m ls
unfolding unmarshal_url_values
unmarshal_singles [] m h = refl
unmarshal_singles ((k, p, s) ∷ ls) m ((hk, hp), h) =
    ap (λ t. unmarshal_url_values t (singles ls)) (put_rails m k p (str s) hk hp)
    ∙ unmarshal_singles ls _ h
