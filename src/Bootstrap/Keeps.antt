-- ===== src/Bootstrap/Keeps.antt =====
-- What is registered stays registered: Register of cheshire/router.go never replaces an entry.
use goshire.Router.Register.{Reg-of_reg, entry_of, lookup-put_entry, Registered-cases}
use goshire.Base.{
  arith, false≢true, ◌∙◌, ap, sym, Bool-cases, subst, ◌≡◌, List, some, false, true, refl, inr, inl,
  ◌∷◌, [],
}
use goshire.Router.{
  get, post, put, delete, put_entry, with_mux, registered, lookup_entry, register, reg, mux_of,
  method_of, is_explicit, MuxEntry, Method, Controller, Router, Mux,
}
use goshire.Text.{str_eq_sound, str_eq, Str}
use goshire.Handler.Dispatch.{names_method}
use goshire.Router.Found.{register_stops, register_goes_on, lookup-Reg}

-- Every explicit entry of the first map is in the second.
abbrev pub Keeps : Mux → Mux → Type 0
Keeps m m' =
    (k : Str) (e : MuxEntry)
    → e.explicit ≡ true
    → lookup_entry k m ≡ some e
    → lookup_entry k m' ≡ some e

abbrev pub KeepsRoutes : Router → Router → Type 0
KeepsRoutes r r' = (v : Method) → Keeps (mux_of r v) (mux_of r' v)

pub Keeps-self : (m : Mux) → Keeps m m
Keeps-self m k e x l = l

-- A write to one method's map that keeps its entries keeps those of every method.
with_mux-Keeps :
    (r : Router) (w v : Method) (m : Mux)
    → Keeps (mux_of r w) m
    → Keeps (mux_of r v) (mux_of (with_mux r w m) v)
with_mux-Keeps r get get m h = h
with_mux-Keeps r get post m h = Keeps-self _
with_mux-Keeps r get put m h = Keeps-self _
with_mux-Keeps r get delete m h = Keeps-self _
with_mux-Keeps r post get m h = Keeps-self _
with_mux-Keeps r post post m h = h
with_mux-Keeps r post put m h = Keeps-self _
with_mux-Keeps r post delete m h = Keeps-self _
with_mux-Keeps r put get m h = Keeps-self _
with_mux-Keeps r put post m h = Keeps-self _
with_mux-Keeps r put put m h = h
with_mux-Keeps r put delete m h = Keeps-self _
with_mux-Keeps r delete get m h = Keeps-self _
with_mux-Keeps r delete post m h = Keeps-self _
with_mux-Keeps r delete put m h = Keeps-self _
with_mux-Keeps r delete delete m h = h

put_fresh-Keeps :
    (route : Str) (d : MuxEntry) (m : Mux)
    → is_explicit (lookup_entry route m) ≡ false
    → Keeps m (put_entry route d m)
put_fresh-Keeps route d m fresh k e explicit l = elim (Bool-cases (str_eq route k)) [
  | inl same ↦
      let here = ap (λ j. lookup_entry j m) (str_eq_sound route k same) ∙ l in
      absurd (false≢true (sym fresh ∙ ap is_explicit here ∙ explicit))
  | inr other ↦ lookup-put_entry route k d m ∙ ground (arith, other, l)
]

reg_keeps :
    (r r' : Router) (method : Str) (c : Controller)
    → reg r method c ≡ registered r'
    → KeepsRoutes r r'
reg_keeps r r' method c e v =
    let g = Reg-of_reg r r' method c e in
    subst (λ t. Keeps (mux_of r v) (mux_of t v)) (sym g.result)
      (with_mux-Keeps r g.which v _
        (put_fresh-Keeps c.route (entry_of c) (mux_of r g.which) g.fresh))

pub keeps_trans : (r r1 r2 : Router) → KeepsRoutes r r1 → KeepsRoutes r1 r2 → KeepsRoutes r r2
keeps_trans r r1 r2 h g v k e x l = g v k e x (h v k e x l)

-- The controller is in the map of the method, under its own route.
abbrev pub IsListed : Router → Str → Controller → Type 0
IsListed r method c =
    (w : Method) × (method_of method ≡ some w)
    × (lookup_entry c.route (mux_of r w) ≡ some (entry_of c))

pub listed_stays :
    (r r' : Router) (method : Str) (c : Controller)
    → KeepsRoutes r r'
    → IsListed r method c
    → IsListed r' method c
listed_stays r r' method c h (w, known, l) = (w, known, h w c.route (entry_of c) refl l)

-- What a Register that does not panic has done.
pub record Kept (r : Router) (methods : List Str) (c : Controller) (r' : Router) : Type 0 where
  pub keeps : KeepsRoutes r r'
  pub listed : (m : Str) → names_method methods m ≡ true → IsListed r' m c

reg_lists :
    (r r' : Router) (method : Str) (c : Controller)
    → reg r method c ≡ registered r'
    → IsListed r' method c
reg_lists r r' method c e = let g = Reg-of_reg r r' method c e in (g.which, g.named, lookup-Reg g)

pub register_keeps :
    (r r' : Router) (methods : List Str) (c : Controller)
    → register r methods c ≡ registered r'
    → Kept r methods c r'
register_keeps r r' [] c e =
    unfold register in
    let same : r ≡ r' = cc e in
    record {
      keeps = subst (KeepsRoutes r) same (λ v. Keeps-self (mux_of r v));
      listed = λ m h. cc h;
    }
register_keeps r r' (m ∷ methods) c e = elim (Registered-cases (reg r m c)) [
  | inl (r1, f) ↦
      let rest = register_keeps r1 r' methods c (sym (register_goes_on r r1 m methods c f) ∙ e) in
      record {
        keeps = keeps_trans r r1 r' (reg_keeps r r1 m c f) rest.keeps;
        listed = λ j h. elim (Bool-cases (str_eq m j)) [
          | inl same ↦
              subst (λ t. IsListed r' t c) (str_eq_sound m j same)
                (listed_stays r1 r' m c rest.keeps (reg_lists r r1 m c f))
          | inr other ↦ rest.listed j (ground (arith, other, h))
        ];
      }
  | inr (p, r1, f) ↦ cc (register_stops r r1 m methods c p f, e)
]
