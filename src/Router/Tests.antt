-- ===== src/Router/Tests.antt =====
-- The theorems about the router at a few routes.
use goshire.Base.{ℕ, arith, ◌≡◌, none, refl, [], ◌∷◌}
use goshire.Text.{str_eq_iff, Str, codes, str_eq}
use goshire.Router.{
  Controller, Mux, new_default_router, ends_with_slash, path_match, match_loop, lookup_entry,
  register,
}
use goshire.Router.Laws.{IsLongest, match_loop_longest}
use goshire.Router.Order.{match_loop_order}
use goshire.Router.Register.{new_default_router-IsValid, IsValid, router_of, entry_of}
use goshire.Router.Found.{register-IsValid}

abbrev controller : ℕ → Str → Controller
controller n route = record { id = n; route = route }

abbrev not_found : Controller
not_found = controller 0 []

abbrev files : Controller
files = controller 1 (codes "/f/")

abbrev page : Controller
page = controller 2 (codes "/f/x")

abbrev routes : Mux
routes = (codes "/f/", entry_of files) ∷ (codes "/f/x", entry_of page) ∷ []

abbrev routes_reversed : Mux
routes_reversed = (codes "/f/x", entry_of page) ∷ (codes "/f/", entry_of files) ∷ []

match_loop_longest_example : IsLongest (codes "/f/x") routes page
unfolding match_loop path_match ends_with_slash str_eq
match_loop_longest_example = match_loop_longest (codes "/f/x") routes page refl

same_entries : (k : Str) → lookup_entry k routes ≡ lookup_entry k routes_reversed
unfolding lookup_entry
same_entries k = ground (arith, str_eq_iff (codes "/f/") k, str_eq_iff (codes "/f/x") k)

match_loop_order_example :
    match_loop (codes "/f/x") routes none 0 ≡ match_loop (codes "/f/x") routes_reversed none 0
unfolding lookup_entry str_eq
match_loop_order_example =
    match_loop_order (codes "/f/x") routes routes_reversed (refl, (refl, tt)) (refl, (refl, tt))
      same_entries

register-IsValid_example :
    IsValid
      (router_of (register (new_default_router not_found) (codes "GET" ∷ codes "POST" ∷ []) files))
register-IsValid_example =
    register-IsValid (new_default_router not_found) (codes "GET" ∷ codes "POST" ∷ []) files
      (new_default_router-IsValid not_found)
