-- ===== src/Router.antt =====
-- cheshire/router.go: the routes of each method, and the choice of a controller for a request.
-- A controller is the number by which the program knows it (`ControllerId`), with the route of its
-- Config(). A map of routes is the list of its entries in the order in which `range` meets them, which
-- Go leaves open.
pub mod Laws
pub mod Order
pub mod Register
pub mod Found
pub mod Tests
use goshire.Base.{
  ℕ, zero, suc, ◌-◌, ◌==◌, Bool, true, false, ◌&&◌, ◌||◌, not, List, [], ◌∷◌, Option, none, some,
  ltb, leb, length, take, get_elem?, map, if◌then◌else◌,
}
use goshire.Text.{Str, codes, str_eq, to_upper}

pub record Controller : Type 0 where
  pub id : ℕ
  pub route : Str

pub record MuxEntry : Type 0 where
  pub explicit : Bool
  pub h : Controller
  pub pattern : Str

-- A map[string]muxEntry.
abbrev pub Mux : Type 0
Mux = List (Str × MuxEntry)

pub record Router : Type 0 where
  pub gets : Mux
  pub posts : Mux
  pub deletes : Mux
  pub puts : Mux
  pub not_found_handler : Controller

-- NewDefaultRouter, with the default not found handler.
abbrev pub new_default_router : Controller → Router
new_default_router not_found = record {
  gets = [];
  posts = [];
  deletes = [];
  puts = [];
  not_found_handler = not_found;
}

-- pattern[n-1] != '/', the test of the last byte.
unfoldable pub ends_with_slash : Str → Bool
ends_with_slash [] = false
ends_with_slash (c ∷ []) = c == b'/'
ends_with_slash (c ∷ d ∷ s) = ends_with_slash (d ∷ s)

-- pathMatch.
unfoldable pub path_match : Str → Str → Bool
path_match pattern path =
    if length pattern == 0
    then false
    else if not (ends_with_slash pattern)
    then str_eq pattern path
    else leb (length pattern) (length path) && str_eq (take (length pattern) path) pattern

-- The loop of `match`: `h` and `n` are the controller chosen so far and the length of its pattern.
unfoldable pub match_loop : Str → Mux → Option Controller → ℕ → Option Controller
match_loop path [] h n = h
match_loop path ((k, v) ∷ m) h n =
    let skipped = match_loop path m h n in
    let taken = match_loop path m (some v.h) (length k) in
    if not (path_match k path)
    then skipped
    else elim h [ none ↦ taken | some c ↦ if ltb n (length k) then taken else skipped ]

-- The methods that have a map of routes.
pub data Method : Type 0 where
  get post put delete : Method

-- The switch of getMethodMap.
unfoldable pub method_of : Str → Option Method
method_of method =
    let m = to_upper method in
    if str_eq m (codes "GET")
    then some get
    else if str_eq m (codes "POST")
    then some post
    else if str_eq m (codes "PUT")
    then some put
    else if str_eq m (codes "DELETE")
    then some delete
    else none

abbrev pub mux_of : Router → Method → Mux
mux_of r get = r.gets
mux_of r post = r.posts
mux_of r put = r.puts
mux_of r delete = r.deletes

abbrev pub with_mux : Router → Method → Mux → Router
with_mux r get m = record r { gets = m }
with_mux r post m = record r { posts = m }
with_mux r put m = record r { puts = m }
with_mux r delete m = record r { deletes = m }

-- The private `match`.
unfoldable pub match_route : Router → Str → Str → Option Controller
match_route r method path = elim (method_of method) [
  | none ↦ none
  | some w ↦ match_loop path (mux_of r w) none 0
]

abbrev or_controller : Option Controller → Controller → Controller
or_controller none d = d
or_controller (some c) d = c

-- Match.
unfoldable pub match : Router → Str → Str → Controller
match r method path = or_controller (match_route r method path) r.not_found_handler

-- m[pattern], m[pattern] = entry.
unfoldable pub lookup_entry : Str → Mux → Option MuxEntry
lookup_entry k [] = none
lookup_entry k ((j, e) ∷ m) = if str_eq j k then some e else lookup_entry k m

unfoldable pub put_entry : Str → MuxEntry → Mux → Mux
put_entry k e [] = (k, e) ∷ []
put_entry k e ((j, d) ∷ m) = if str_eq j k then (j, e) ∷ m else (j, d) ∷ put_entry k e m

-- m[pattern].explicit: false, the zero value, where there is no entry.
abbrev pub is_explicit : Option MuxEntry → Bool
is_explicit none = false
is_explicit (some e) = e.explicit

-- The panics of `reg`. Its test for a nil handler comes after handler.Config(), so a nil handler
-- never reaches it; a `Controller` here is not nil, and neither is its Config().
pub data RegisterPanic : Type 0 where
  not_a_valid_method invalid_pattern multiple_registrations : Str → RegisterPanic

pub data Registered : Type 0 where
  registered : Router → Registered
  panicked : RegisterPanic → Router → Registered

-- reg.
unfoldable pub reg : Router → Str → Controller → Registered
reg r method c = elim (method_of method) [
  | none ↦ panicked (not_a_valid_method method) r
  | some w ↦
      if length c.route == 0
      then panicked (invalid_pattern c.route) r
      else if is_explicit (lookup_entry c.route (mux_of r w))
      then panicked (multiple_registrations c.route) r
      else registered (
          with_mux r w
            (put_entry c.route (record { explicit = true; h = c; pattern = c.route }) (mux_of r w)))
]

-- Register: the loop over the methods. The routes before the one that panics stay registered.
unfoldable pub register : Router → List Str → Controller → Registered
register r [] c = registered r
register r (m ∷ methods) c = elim (reg r m c) [
  | registered r' ↦ register r' methods c
  | panicked p r' ↦ panicked p r'
]
