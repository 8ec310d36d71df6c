-- ===== src/Router/Order.antt =====
-- `match` on maps in which each pattern stands once, as it does in a Go map: the order of `range`
-- does not matter, and a route that is the path itself wins.
use goshire.Base.{
  subst, take-append_self, false≢true, append-nil, ℕ, ◌≤◌, ◌≡◌, sym, ◌∙◌, ap, inl, inr, true, false,
  [], ◌∷◌, none, some, length, take, arith, Bool-cases, Option-cases,
}
use goshire.Text.{Str, str_eq, str_eq_iff}
use goshire.Router.{Controller, MuxEntry, Mux, path_match, match_loop, lookup_entry}
use goshire.Router.Laws.{
  In, IsBounded, IsUnmatched, IsLongest, match_loop_longest, match_loop-IsUnmatched,
}

-- Each pattern stands once.
abbrev pub IsKeyed : Mux → Type 0
IsKeyed [] = Unit
IsKeyed ((k, v) ∷ m) = (lookup_entry k m ≡ none) × IsKeyed m

pub lookup-of_In :
    (k : Str) (v : MuxEntry) (m : Mux) → IsKeyed m → In k v m → lookup_entry k m ≡ some v
unfolding lookup_entry
lookup-of_In k v [] u i = absurd i
lookup-of_In k v ((j, e) ∷ m) u (inl (p, q)) = ground (arith, str_eq_iff j k)
lookup-of_In k v ((j, e) ∷ m) (fresh, u) (inr i) =
    ground (arith, str_eq_iff j k, lookup-of_In k v m u i, fresh)

pub In-of_lookup : (k : Str) (v : MuxEntry) (m : Mux) → lookup_entry k m ≡ some v → In k v m
unfolding lookup_entry
In-of_lookup k v [] h = cc h
In-of_lookup k v ((j, e) ∷ m) h = elim (Bool-cases (str_eq j k)) [
  | inl same ↦ inl ((str_eq_iff j k).0 same, ground (arith, same))
  | inr other ↦ inr (In-of_lookup k v m (ground (arith, other)))
]

pub bounded_at :
    (path k : Str) (v : MuxEntry) (n : ℕ) (m : Mux)
    → IsBounded path n m
    → In k v m
    → path_match k path ≡ true
    → length k ≤ n
bounded_at path k v n [] b i h = absurd i
bounded_at path k v n ((j, e) ∷ m) (b, bs) (inl (p, q)) h =
    subst (λ t. length t ≤ n) p (b (ap (λ t. path_match t path) p ∙ h))
bounded_at path k v n ((j, e) ∷ m) (b, bs) (inr i) h = bounded_at path k v n m bs i h

pub unmatched_at :
    (path k : Str) (v : MuxEntry) (m : Mux)
    → IsUnmatched path m
    → In k v m
    → path_match k path ≡ false
unmatched_at path k v [] u i = absurd i
unmatched_at path k v ((j, e) ∷ m) (u, us) (inl (p, q)) = ap (λ t. path_match t path) (sym p) ∙ u
unmatched_at path k v ((j, e) ∷ m) (u, us) (inr i) = unmatched_at path k v m us i

pub take_all : (s : Str) → take (length s) s ≡ s
take_all s = ap (take (length s)) (sym (append-nil s)) ∙ take-append_self s []

-- A pattern that matches is a prefix of the path.
pub match_prefix : (k path : Str) → path_match k path ≡ true → take (length k) path ≡ k
unfolding path_match
match_prefix k path h =
    ground (arith, str_eq_iff k path, str_eq_iff (take (length k) path) k, take_all path)

-- So two patterns that match and have one length are one pattern.
pub match_unique :
    (j k path : Str)
    → path_match j path ≡ true
    → path_match k path ≡ true
    → length j ≡ length k
    → j ≡ k
match_unique j k path p q e =
    sym (match_prefix j path p) ∙ ap (λ n. take n path) e ∙ match_prefix k path q

-- The longest of each of two maps with the same entries is the same controller.
longest_unique :
    (path : Str) (m m' : Mux) (c c' : Controller)
    → IsKeyed m
    → IsKeyed m'
    → ((k : Str) → lookup_entry k m ≡ lookup_entry k m')
    → IsLongest path m c
    → IsLongest path m' c'
    → c ≡ c'
longest_unique path m m' c c' u u' same h h' =
    let here = lookup-of_In h.pattern h.entry m u h.listed in
    let there = lookup-of_In h'.pattern h'.entry m' u' h'.listed in
    let down =
      bounded_at path h.pattern h.entry (length h'.pattern) m' h'.bounded
        (In-of_lookup h.pattern h.entry m' (sym (same h.pattern) ∙ here)) h.matches in
    let up =
      bounded_at path h'.pattern h'.entry (length h.pattern) m h.bounded
        (In-of_lookup h'.pattern h'.entry m (same h'.pattern ∙ there)) h'.matches in
    let one = match_unique h.pattern h'.pattern path h.matches h'.matches (omega arith) in
    let entries = sym here ∙ same h.pattern ∙ ap (λ k. lookup_entry k m') one ∙ there in
    let same_entry : h.entry ≡ h'.entry = cc entries in
    sym h.chosen ∙ ap (λ (e : MuxEntry). e.h) same_entry ∙ h'.chosen

-- The longest of one map makes the other match too.
not_unmatched :
    (path : Str) (m m' : Mux) (c : Controller)
    → IsKeyed m
    → ((k : Str) → lookup_entry k m ≡ lookup_entry k m')
    → IsLongest path m c
    → IsUnmatched path m'
    → ⊥
not_unmatched path m m' c u same h none' =
    let listed =
      In-of_lookup h.pattern h.entry m'
        (sym (same h.pattern) ∙ lookup-of_In h.pattern h.entry m u h.listed) in
    false≢true (sym (unmatched_at path h.pattern h.entry m' none' listed) ∙ h.matches)

-- The loop of `match` gives the same result on two maps with the same entries, whatever the order
-- in which `range` meets them.
pub match_loop_order :
    (path : Str) (m m' : Mux)
    → IsKeyed m
    → IsKeyed m'
    → ((k : Str) → lookup_entry k m ≡ lookup_entry k m')
    → match_loop path m none 0 ≡ match_loop path m' none 0
match_loop_order path m m' u u' same = elim (Option-cases (match_loop path m none 0)) [
  | inl e ↦ elim (Option-cases (match_loop path m' none 0)) [
    | inl e' ↦ e ∙ sym e'
    | inr (c', e') ↦ absurd (
        not_unmatched path m' m c' u' (λ k. sym (same k)) (match_loop_longest path m' c' e')
          (match_loop-IsUnmatched path m e))
  ]
  | inr (c, e) ↦ elim (Option-cases (match_loop path m' none 0)) [
    | inl e' ↦ absurd (
        not_unmatched path m m' c u same (match_loop_longest path m c e)
          (match_loop-IsUnmatched path m' e'))
    | inr (c', e') ↦
        e
        ∙ ap some (
            longest_unique path m m' c c' u u' same (match_loop_longest path m c e)
              (match_loop_longest path m' c' e'))
        ∙ sym e'
  ]
]
