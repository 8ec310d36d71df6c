-- ===== src/DynMap/Path/Laws.antt =====
-- What is put under a dotted key is got under it, and nothing else changes.
use goshire.Base.{
  sym, if◌then◌else◌, Option, Bool, ap, ◌<◌, ◌≢◌, ◌∙◌, length, inr, inl, Option-cases, List, [],
  ◌∷◌, none, some, true, false, ◌≡◌, arith,
}
use goshire.Text.{
  split-first_piece, split_cases, first_piece_of_plain, str_eq_iff, first_piece, str_eq_self, Str,
}
use goshire.DynMap.Fields.{lookup-put, Value, Fields, lookup, put}
use goshire.DynMap.Path.{split, put_with_dot, get, walk, put_path}
use goshire.DynMap.Path.Walk.{put_path_error, walk-put_path, lookup-put_path, walk_frame}

first_ne : (key : Str) → length (first_piece b'.' key) < length key → key ≢ first_piece b'.' key
first_ne key h e = absurd (omega (arith, ap length e))

-- The literal key first, then the path: `get` and `put_with_dot` by the pieces of the key.
module _ (key q : Str) (qs : List Str) (e : split b'.' key ≡ first_piece b'.' key ∷ q ∷ qs) where
  get-dotted :
      (m : Fields) → lookup key m ≡ none → get m key ≡ walk (first_piece b'.' key ∷ q ∷ qs) m
  get-dotted m h = unfold get in ground (arith, e, h)

  put_with_dot-dotted :
      (m : Fields) (v : Value) → put_with_dot m key v ≡ put_path (first_piece b'.' key ∷ q ∷ qs) v m
  put_with_dot-dotted m v = unfold put_with_dot in ground (arith, e)

module _ (key : Str) (e : split b'.' key ≡ key ∷ []) where
  pub get-plain : (m : Fields) → get m key ≡ lookup key m
  get-plain m = unfold get in ground (arith, e)

  put_with_dot-plain : (m : Fields) (v : Value) → put_with_dot m key v ≡ (put key v m, true)
  put_with_dot-plain m v = unfold put_with_dot in ground (arith, e)

get-literal : (m : Fields) (key : Str) (w : Value) → lookup key m ≡ some w → get m key ≡ some w
get-literal m key w h = unfold get in ground (arith, h)

-- The key has more than one part.
abbrev pub is_dotted : Str → Bool
is_dotted key = elim (split b'.' key) [
  | [] ↦ false
  | p ∷ ps ↦ elim ps [ [] ↦ false | q ∷ qs ↦ true ]
]

abbrev pub or_else : Option Value → Value → Value
or_else none v = v
or_else (some w) v = w

pub get-put_with_dot_plain :
    (m : Fields) (key : Str) (v : Value)
    → split b'.' key ≡ key ∷ []
    → get (put_with_dot m key v).0 key ≡ some v
get-put_with_dot_plain m key v e =
    rw (put_with_dot-plain key e m v, get-plain key e)
      (ground (arith, lookup-put key key v m, str_eq_self key))

get-put_with_dot_dotted :
    (m : Fields) (key : Str) (v : Value) (q : Str) (qs : List Str)
    → split b'.' key ≡ first_piece b'.' key ∷ q ∷ qs
    → length (first_piece b'.' key) < length key
    → (put_with_dot m key v).1 ≡ true
    → get (put_with_dot m key v).0 key ≡ some (or_else (lookup key m) v)
get-put_with_dot_dotted m key v q qs e l h =
    let path = put_with_dot-dotted key q qs e m v in
    let same = lookup-put_path (first_piece b'.' key) (q ∷ qs) v m key (first_ne key l) in
    elim (Option-cases (lookup key m)) [
      | inl fresh ↦
          rw (path, fresh)
            (get-dotted key q qs e _ (same ∙ fresh)
              ∙ walk-put_path (first_piece b'.' key) (q ∷ qs) v m (cc (path, h)))
      | inr (w, found) ↦ rw (path, found) (get-literal _ key w (same ∙ found))
    ]

-- What `PutWithDot` stores without an error is what `Get` returns under the same key, but for a
-- key with a dot that the map already holds as it stands: `Get` goes on returning that entry.
pub get-put_with_dot :
    (m : Fields) (key : Str) (v : Value)
    → (put_with_dot m key v).1 ≡ true
    → get (put_with_dot m key v).0 key
      ≡ some (if is_dotted key then or_else (lookup key m) v else v)
get-put_with_dot m key v h = elim (split_cases b'.' key) [
  | inl e ↦ get-put_with_dot_plain m key v e ∙ ground (arith, e)
  | inr (q, qs, e, l) ↦ get-put_with_dot_dotted m key v q qs e l h ∙ ground (arith, e)
]

-- A `PutWithDot` that returns an error has changed nothing, the maps inside included.
pub put_with_dot_error :
    (m : Fields) (key : Str) (v : Value)
    → (put_with_dot m key v).1 ≡ false
    → (put_with_dot m key v).0 ≡ m
put_with_dot_error m key v h = elim (split_cases b'.' key) [
  | inl e ↦ cc (put_with_dot-plain key e m v, h)
  | inr (q, qs, e, l) ↦
      let path = put_with_dot-dotted key q qs e m v in rw path (put_path_error _ v m (cc (path, h)))
]

-- The first part of the key that is written.
lookup-put_with_dot :
    (m : Fields) (key j : Str) (v : Value)
    → j ≢ first_piece b'.' key
    → lookup j (put_with_dot m key v).0 ≡ lookup j m
lookup-put_with_dot m key j v h = elim (split_cases b'.' key) [
  | inl e ↦
      rw (put_with_dot-plain key e m v)
        (ground (arith, lookup-put key j v m, str_eq_iff key j, alone e))
  | inr (q, qs, e, l) ↦
      rw (put_with_dot-dotted key q qs e m v)
        (lookup-put_path (first_piece b'.' key) (q ∷ qs) v m j h)
]
  where
    alone : split b'.' key ≡ key ∷ [] → j ≢ key
    alone e p = h (p ∙ first_piece_of_plain b'.' key e)

-- `PutWithDot` under one key leaves what `Get` returns under another, if their first parts differ.
pub get-put_with_dot_frame :
    (m : Fields) (key j : Str) (v : Value)
    → first_piece b'.' j ≢ first_piece b'.' key
    → get (put_with_dot m key v).0 j ≡ get m j
get-put_with_dot_frame m key j v h = elim (split_cases b'.' j) [
  | inl e ↦ get-plain j e _ ∙ same ∙ sym (get-plain j e m)
  | inr (q, qs, e, l) ↦ elim (Option-cases (lookup j m)) [
    | inl fresh ↦
        get-dotted j q qs e _ (same ∙ fresh)
        ∙ walk_frame (first_piece b'.' j) (q ∷ qs) m _
            (lookup-put_with_dot m key (first_piece b'.' j) v h)
        ∙ sym (get-dotted j q qs e m fresh)
    | inr (w, found) ↦ get-literal _ j w (same ∙ found) ∙ sym (get-literal m j w found)
  ]
]
  where
    whole : first_piece b'.' key ≡ first_piece b'.' (first_piece b'.' key)
    whole = first_piece_of_plain b'.' (first_piece b'.' key) (split-first_piece b'.' key)

    same : lookup j (put_with_dot m key v).0 ≡ lookup j m
    same = lookup-put_with_dot m key j v (λ p. h (ap (first_piece b'.') p ∙ sym whole))
