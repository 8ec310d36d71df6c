-- ===== src/Router/Found.antt =====
-- Registered controllers are found, and a second registration panics.
use goshire.Base.{
  length-take, if◌then◌else◌, false≢true, none, ◌≤◌, ◌∙◌, ap, Option-cases, All, take, refl, inr,
  arith, true, sym, inl, subst, some, length, ◌<◌, List, ◌≡◌, [], ◌∷◌,
}
use goshire.Router.{
  multiple_registrations, match_loop, RegisterPanic, put_entry, path_match, Str, Controller,
  MuxEntry, Mux, Router, Method, mux_of, method_of, match, match_route, reg, register, registered,
  panicked, lookup_entry,
}
use goshire.Router.Laws.{In, IsLongest, match_loop_longest, match_loop-IsUnmatched}
use goshire.Router.Order.{
  match_prefix, take_all, IsKeyed, unmatched_at, bounded_at, In-of_lookup, lookup-of_In,
  match_unique,
}
use goshire.Router.Register.{
  mux-with_mux, put_entry-All, reg_panicked, put_entry-IsKeyed, with_mux_all, entry_of,
  Registered-cases, IsEntry, IsWellFormed, IsValid, Reg, Reg-of_reg, router_of, lookup-put_entry,
}
use goshire.Text.{str_eq_iff, str_eq_self}

with_entry-IsWellFormed :
    (m : Mux) (c : Controller)
    → 0 < length c.route
    → IsWellFormed m
    → IsWellFormed (put_entry c.route (entry_of c) m)
with_entry-IsWellFormed m c n (u, es) =
    (put_entry-IsKeyed c.route _ m u, put_entry-All c.route _ m (refl, refl, refl, n) es)

Reg-IsValid :
    {r r' : Router} {method : Str} {c : Controller} → Reg r method c r' → IsValid r → IsValid r'
Reg-IsValid {r} {c} g v w =
    subst (λ t. IsWellFormed (mux_of t w)) (sym g.result)
      (with_mux_all IsWellFormed r g.which w _ (v w)
        (with_entry-IsWellFormed (mux_of r g.which) c g.nonempty (v g.which)))

reg-IsValid :
    (r : Router) (method : Str) (c : Controller) → IsValid r → IsValid (router_of (reg r method c))
reg-IsValid r method c v = elim (Registered-cases (reg r method c)) [
  | inl (r', e) ↦ rw e (Reg-IsValid (Reg-of_reg r r' method c e) v)
  | inr (p, r', e) ↦ rw e (subst IsValid (reg_panicked r r' method c p e) v)
]

module _ (r r' : Router) (m : Str) (methods : List Str) (c : Controller) where
  pub register_goes_on :
      reg r m c ≡ registered r' → register r (m ∷ methods) c ≡ register r' methods c
  register_goes_on e = unfold register in ground (arith, e)

  pub register_stops :
      (p : RegisterPanic) → reg r m c ≡ panicked p r' → register r (m ∷ methods) c ≡ panicked p r'
  register_stops p e = unfold register in ground (arith, e)

-- Registering controllers, whether it panics on the way or not, keeps the routes well formed: in
-- every method's map each pattern stands once, is not empty and belongs to a controller with that
-- route.
pub register-IsValid :
    (r : Router) (methods : List Str) (c : Controller)
    → IsValid r
    → IsValid (router_of (register r methods c))
register-IsValid r [] c v = unfold register in v
register-IsValid r (m ∷ methods) c v = elim (Registered-cases (reg r m c)) [
  | inl (r', e) ↦
      subst (λ g. IsValid (router_of g)) (sym (register_goes_on r r' m methods c e))
        (register-IsValid r' methods c (Reg-IsValid (Reg-of_reg r r' m c e) v))
  | inr (p, r', e) ↦
      subst (λ g. IsValid (router_of g)) (sym (register_stops r r' m methods c p e))
        (subst IsValid (reg_panicked r r' m c p e) v)
]

path_match_self : (path : Str) → 0 < length path → path_match path path ≡ true
unfolding path_match
path_match_self path h =
    ground (arith, str_eq_self path, take_all path, str_eq_iff (take (length path) path) path)

IsEntry-at : (k : Str) (e : MuxEntry) (m : Mux) → All IsEntry m → In k e m → IsEntry (k, e)
IsEntry-at k e [] h i = absurd i
IsEntry-at k e ((j, d) ∷ m) (h, hs) (inl (p, q)) =
    subst (λ t. IsEntry (t, e)) p (subst (λ d'. IsEntry (j, d')) q h)
IsEntry-at k e ((j, d) ∷ m) (h, hs) (inr i) = IsEntry-at k e m hs i

match_length : (k path : Str) → path_match k path ≡ true → length k ≤ length path
match_length k path h =
    omega (arith, ap length (match_prefix k path h), length-take (length k) path)

-- In a well formed map the longest pattern for a path that is a pattern is the path.
longest_exact :
    (path : Str) (m : Mux) (e : MuxEntry) (c : Controller)
    → IsKeyed m
    → lookup_entry path m ≡ some e
    → 0 < length path
    → IsLongest path m c
    → c ≡ e.h
longest_exact path m e c u listed n h =
    let self = path_match_self path n in
    let up =
      bounded_at path path e (length h.pattern) m h.bounded (In-of_lookup path e m listed) self in
    let down = match_length h.pattern path h.matches in
    let one = match_unique h.pattern path path h.matches self (omega arith) in
    let same =
      sym (lookup-of_In h.pattern h.entry m u h.listed) ∙ ap (λ k. lookup_entry k m) one ∙ listed in
    let entry : h.entry ≡ e = cc same in sym h.chosen ∙ ap (λ (d : MuxEntry). d.h) entry

module _ (r : Router) (method path : Str) (w : Method) (known : method_of method ≡ some w) where
  match-some :
      (c : Controller) → match_loop path (mux_of r w) none 0 ≡ some c → match r method path ≡ c
  match-some c e = unfold match match_route in ground (arith, known, e)

-- A route that is the path itself wins over every other: `Match` returns the controller registered
-- under it for the method.
pub match_exact :
    (r : Router) (method path : Str) (w : Method) (e : MuxEntry)
    → IsValid r
    → method_of method ≡ some w
    → lookup_entry path (mux_of r w) ≡ some e
    → match r method path ≡ e.h
match_exact r method path w e v known listed =
    let (u, es) = v w in
    let here = In-of_lookup path e (mux_of r w) listed in
    let (explicit, pattern, route, n) = IsEntry-at path e (mux_of r w) es here in
    elim (Option-cases (match_loop path (mux_of r w) none 0)) [
      | inl none' ↦ absurd (
          false≢true (
            sym (unmatched_at path path e (mux_of r w) (match_loop-IsUnmatched path _ none') here)
            ∙ path_match_self path n))
      | inr (c, some') ↦
          match-some r method path w known c some'
          ∙ longest_exact path (mux_of r w) e c u listed n (match_loop_longest path _ c some')
    ]

-- What `reg` stored is there afterwards.
pub lookup-Reg :
    {r r' : Router} {method : Str} {c : Controller}
    → (g : Reg r method c r') → lookup_entry c.route (mux_of r' g.which) ≡ some (entry_of c)
lookup-Reg {r} {c} g =
    ap (λ t. lookup_entry c.route (mux_of t g.which)) g.result
    ∙ ap (lookup_entry c.route) (mux-with_mux r g.which _)
    ∙ lookup-put_entry c.route c.route (entry_of c) (mux_of r g.which)
    ∙ ap (λ b. if b then some (entry_of c) else lookup_entry c.route (mux_of r g.which))
        (str_eq_self c.route)

-- A controller that was registered for a method is the one that `Match` returns for its own route.
match-reg :
    (r r' : Router) (method : Str) (c : Controller)
    → IsValid r
    → reg r method c ≡ registered r'
    → match r' method c.route ≡ c
match-reg r r' method c v e =
    let g = Reg-of_reg r r' method c e in
    match_exact r' method c.route g.which (entry_of c) (Reg-IsValid g v) g.named (lookup-Reg g)

-- Registering a second controller under a route and a method that have one panics with "multiple
-- registrations", and the routes stay as they are.
reg_twice :
    (r r' : Router) (method : Str) (c d : Controller)
    → reg r method c ≡ registered r'
    → d.route ≡ c.route
    → reg r' method d ≡ panicked (multiple_registrations d.route) r'
reg_twice r r' method c d e same =
    let g = Reg-of_reg r r' method c e in
    let held = ap (λ k. lookup_entry k (mux_of r' g.which)) same ∙ lookup-Reg g in
    let nonempty = subst (λ k. 0 < length k) (sym same) g.nonempty in
    unfold reg in ground (arith, g.named, held)
