-- ===== src/Router/Register.antt =====
-- Register: the routes stay well formed, what is registered is found, and nothing is registered
-- twice.
use goshire.Base.{
  ◌⊎◌, if◌then◌else◌, sym, arith, subst, inr, false, length, inl, ◌<◌, some, Option-cases,
  Bool-cases, true, refl, All, ◌≡◌, [], ◌∷◌,
}
use goshire.Router.{
  new_default_router, RegisterPanic, str_eq, Str, Controller, MuxEntry, Mux, Router, Method, get,
  post, put, delete, mux_of, with_mux, method_of, reg, Registered, registered, panicked,
  lookup_entry, put_entry, is_explicit,
}
use goshire.Router.Order.{IsKeyed}
use goshire.Text.{str_eq_iff}

-- An entry as `reg` makes it.
abbrev pub IsEntry : Str × MuxEntry → Type 0
IsEntry (k, e) = (e.explicit ≡ true) × (e.pattern ≡ k) × (e.h.route ≡ k) × (0 < length k)

abbrev pub IsWellFormed : Mux → Type 0
IsWellFormed m = IsKeyed m × All IsEntry m

-- In every method's map each pattern stands once, is not empty, and belongs to a controller with
-- that route.
abbrev pub IsValid : Router → Type 0
IsValid r = (w : Method) → IsWellFormed (mux_of r w)

pub lookup-put_entry :
    (k j : Str) (e : MuxEntry) (m : Mux)
    → lookup_entry j (put_entry k e m) ≡ (if str_eq k j then some e else lookup_entry j m)
unfolding lookup_entry put_entry
lookup-put_entry k j e [] = refl
lookup-put_entry k j e ((i, d) ∷ m) =
    ground (arith, str_eq_iff k j, str_eq_iff i k, str_eq_iff i j, lookup-put_entry k j e m)

pub put_entry-IsKeyed : (k : Str) (e : MuxEntry) (m : Mux) → IsKeyed m → IsKeyed (put_entry k e m)
unfolding put_entry
put_entry-IsKeyed k e [] u = (unfold lookup_entry in refl, tt)
put_entry-IsKeyed k e ((j, d) ∷ m) (fresh, u) = elim (Bool-cases (str_eq j k)) [
  | inl same ↦ rw same (fresh, u)
  | inr other ↦ rw other (
    ground (arith, fresh, other, lookup-put_entry k j e m, str_eq_iff k j, str_eq_iff j k),
    put_entry-IsKeyed k e m u,
  )
]

pub put_entry-All :
    (k : Str) (e : MuxEntry) (m : Mux)
    → IsEntry (k, e)
    → All IsEntry m
    → All IsEntry (put_entry k e m)
unfolding put_entry
put_entry-All k e [] h hs = (h, tt)
put_entry-All k e ((j, d) ∷ m) h (g, gs) = elim (Bool-cases (str_eq j k)) [
  | inl same ↦ rw same (subst (λ t. IsEntry (t, e)) (sym ((str_eq_iff j k).0 same)) h, gs)
  | inr other ↦ rw other (g, put_entry-All k e m h gs)
]

abbrev pub router_of : Registered → Router
router_of (registered r) = r
router_of (panicked p r) = r

-- The map of a method after a write to the map of another, or the same.
pub with_mux_all :
    (P : Mux → Type 0) (r : Router) (w v : Method) (m : Mux)
    → P (mux_of r v)
    → P m
    → P (mux_of (with_mux r w m) v)
with_mux_all P r get get m h k = k
with_mux_all P r get post m h k = h
with_mux_all P r get put m h k = h
with_mux_all P r get delete m h k = h
with_mux_all P r post get m h k = h
with_mux_all P r post post m h k = k
with_mux_all P r post put m h k = h
with_mux_all P r post delete m h k = h
with_mux_all P r put get m h k = h
with_mux_all P r put post m h k = h
with_mux_all P r put put m h k = k
with_mux_all P r put delete m h k = h
with_mux_all P r delete get m h k = h
with_mux_all P r delete post m h k = h
with_mux_all P r delete put m h k = h
with_mux_all P r delete delete m h k = k

pub mux-with_mux : (r : Router) (w : Method) (m : Mux) → mux_of (with_mux r w m) w ≡ m
mux-with_mux r get m = refl
mux-with_mux r post m = refl
mux-with_mux r put m = refl
mux-with_mux r delete m = refl

-- The entry that `reg` adds.
abbrev pub entry_of : Controller → MuxEntry
entry_of c = record { explicit = true; h = c; pattern = c.route }

-- What a `reg` that does not panic has met, and what it gives.
pub record Reg (r : Router) (method : Str) (c : Controller) (r' : Router) : Type 0 where
  pub which : Method
  pub named : method_of method ≡ some which
  pub nonempty : 0 < length c.route
  pub fresh : is_explicit (lookup_entry c.route (mux_of r which)) ≡ false
  pub result : r' ≡ with_mux r which (put_entry c.route (entry_of c) (mux_of r which))

pub Reg-of_reg :
    (r r' : Router) (method : Str) (c : Controller)
    → reg r method c ≡ registered r'
    → Reg r method c r'
unfolding reg
Reg-of_reg r r' method c e = elim (Option-cases (method_of method)) [
  | inl unknown ↦ cc (e, unknown)
  | inr (w, known) ↦ record {
    which = w;
    named = known;
    nonempty = ground (arith, e, known);
    fresh = ground (arith, e, known);
    result = ground (arith, e, known);
  }
]

pub Registered-cases :
    (g : Registered)
    → ((r : Router) × (g ≡ registered r))
      ⊎ ((p : RegisterPanic) × (r : Router) × (g ≡ panicked p r))
Registered-cases (registered r) = inl (r, refl)
Registered-cases (panicked p r) = inr (p, r, refl)

-- A `reg` that panics has changed nothing.
pub reg_panicked :
    (r r' : Router) (method : Str) (c : Controller) (p : RegisterPanic)
    → reg r method c ≡ panicked p r'
    → r ≡ r'
unfolding reg
reg_panicked r r' method c p e = ground arith

-- A new router has no routes.
pub new_default_router-IsValid : (c : Controller) → IsValid (new_default_router c)
new_default_router-IsValid c get = (tt, tt)
new_default_router-IsValid c post = (tt, tt)
new_default_router-IsValid c put = (tt, tt)
new_default_router-IsValid c delete = (tt, tt)
