-- ===== src/DynMap/Url/Keys.antt =====
-- The keys of a form: what UnmarshalURLValues of dynmap/dynmap.go makes of a key in brackets.
use goshire.DynMap.Url.{decode_key, bracketed}
use goshire.DynMap.Url.Leaves.{IsPlain, rails}
use goshire.Base.{
  append_assoc, append-nil, ◌∙◌, sym, arith, ap, ◌≡◌, ◌++◌, All, List, refl, ◌∷◌, [],
}
use goshire.Text.{split, Str}

-- .k1.k2…
abbrev dots : List Str → Str
dots [] = []
dots (k ∷ ks) = b'.' ∷ k ++ dots ks

decode_key-append : (s t : Str) → decode_key (s ++ t) ≡ decode_key s ++ decode_key t
unfolding decode_key
decode_key-append [] t = refl
decode_key-append (c ∷ s) t = ground (arith, decode_key-append s t)

pub decode_key-plain : (k : Str) → IsPlain k → decode_key k ≡ k
unfolding decode_key
decode_key-plain [] h = refl
decode_key-plain (c ∷ k) ((dot, open', close), h) =
    ground (arith, dot, open', close, decode_key-plain k h)

bracketed_key :
    (key k : Str) → IsPlain k → decode_key (bracketed key k) ≡ decode_key key ++ b'.' ∷ k
bracketed_key key k h =
    decode_key-append (key ++ b'[' ∷ k) (b']' ∷ [])
    ∙ unfold decode_key in
      append-nil (decode_key (key ++ b'[' ∷ k))
      ∙ decode_key-append key (b'[' ∷ k)
      ∙ unfold decode_key in ap (λ t. decode_key key ++ b'.' ∷ t) (decode_key-plain k h)

decode_key-rails :
    (key : Str) (p : List Str) → All IsPlain p → decode_key (rails key p) ≡ decode_key key ++ dots p
decode_key-rails key [] h = sym (append-nil (decode_key key))
decode_key-rails key (k ∷ p) (h, hs) =
    decode_key-rails (bracketed key k) p hs
    ∙ ap (λ t. t ++ dots p) (bracketed_key key k h)
    ∙ append_assoc (decode_key key) (b'.' ∷ k) (dots p)

split-plain : (k : Str) → IsPlain k → split b'.' k ≡ k ∷ []
unfolding split
split-plain [] h = refl
split-plain (c ∷ k) ((dot, open', close), h) = ground (arith, dot, split-plain k h)

split-dot : (k rest : Str) → IsPlain k → split b'.' (k ++ b'.' ∷ rest) ≡ k ∷ split b'.' rest
unfolding split
split-dot [] rest h = refl
split-dot (c ∷ k) rest ((dot, open', close), h) = ground (arith, dot, split-dot k rest h)

split-dots : (k : Str) (p : List Str) → IsPlain k → All IsPlain p → split b'.' (k ++ dots p) ≡ k ∷ p
split-dots k [] h hs = ap (split b'.') (append-nil k) ∙ split-plain k h
split-dots k (j ∷ p) h (g, hs) = split-dot k (j ++ dots p) h ∙ ap (λ t. k ∷ t) (split-dots j p g hs)

-- The parts of the decoded key are the keys of the path.
pub split-decode_key :
    (k : Str) (p : List Str)
    → IsPlain k
    → All IsPlain p
    → split b'.' (decode_key (rails k p)) ≡ k ∷ p
split-decode_key k p h hs =
    ap (split b'.') (decode_key-rails k p hs ∙ ap (λ t. t ++ dots p) (decode_key-plain k h))
    ∙ split-dots k p h hs

-- So two paths with the same key are the same path.
pub rails_injective :
    (k j : Str) (p q : List Str)
    → IsPlain k
    → IsPlain j
    → All IsPlain p
    → All IsPlain q
    → rails k p ≡ rails j q
    → (k ∷ p) ≡ (j ∷ q)
rails_injective k j p q hk hj hp hq e =
    sym (split-decode_key k p hk hp)
    ∙ ap (λ t. split b'.' (decode_key t)) e
    ∙ split-decode_key j q hj hq
