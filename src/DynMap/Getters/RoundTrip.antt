-- ===== src/DynMap/Getters/RoundTrip.antt =====
-- What is put under a key is got under it as a number, whether it was put as a number or as a text.
use goshire.Base.{refl, ◌≡◌, true, none, some, ℤ, Fits, ◌∙◌, ap, ◌⊎◌, inl, inr, arith}
use goshire.Text.{Str}
use goshire.DynMap.Fields.{Value, Fields, int, str, lookup}
use goshire.DynMap.Path.{get, put_with_dot}
use goshire.DynMap.Path.Laws.{get-put_with_dot}
use goshire.DynMap.Number.{decimal, parse_int, cutoff}
use goshire.DynMap.Number.RoundTrip.{parse_int-decimal, decimal-solid}
use goshire.DynMap.Cast.{to_int64, trim_space-solid}
use goshire.DynMap.Getters.{converted, get_int64, must_int64}

pub to_int64-decimal : (a : ℤ) → Fits cutoff a → to_int64 (str (decimal a)) ≡ some a
unfolding to_int64
to_int64-decimal a f =
    ap parse_int (trim_space-solid (decimal a) (decimal-solid a)) ∙ parse_int-decimal a f

-- A map that holds no entry under the key as it stands.
get-put_fresh :
    (m : Fields) (key : Str) (v : Value)
    → (put_with_dot m key v).1 ≡ true
    → lookup key m ≡ none
    → get (put_with_dot m key v).0 key ≡ some v
get-put_fresh m key v done fresh = get-put_with_dot m key v done ∙ ground (arith, fresh)

to_int64-form :
    (v : Value) (a : ℤ) → (v ≡ int a) ⊎ (v ≡ str (decimal a)) → Fits cutoff a → to_int64 v ≡ some a
to_int64-form v a (inl e) f = ap to_int64 e ∙ unfold to_int64 in refl
to_int64-form v a (inr e) f = ap to_int64 e ∙ to_int64-decimal a f

-- An int64 that PutWithDot stores without an error, as an integer or as its decimal text, under a key
-- that the map does not hold as it stands, is what GetInt64 and MustInt64 return under that key.
get_int64-put_with_dot :
    (m : Fields) (key : Str) (a def : ℤ) (v : Value)
    → (v ≡ int a) ⊎ (v ≡ str (decimal a))
    → Fits cutoff a
    → (put_with_dot m key v).1 ≡ true
    → lookup key m ≡ none
    → (get_int64 (put_with_dot m key v).0 key ≡ (a, true))
      × (must_int64 (put_with_dot m key v).0 key def ≡ a)
unfolding get_int64 must_int64
get_int64-put_with_dot m key a def v form f done fresh =
    let value : converted to_int64 (get (put_with_dot m key v).0 key) ≡ some a =
      ap (converted to_int64) (get-put_fresh m key v done fresh) ∙ to_int64-form v a form f in
    (ground (arith, value), ground (arith, value))
