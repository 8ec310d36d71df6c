-- ===== src/Bootstrap/Api.antt =====
-- RegisterApi of cheshire/bootstrap.go, Match of cheshire/router.go and the DefaultController of
-- cheshire/controllers.go together: which handler a request reaches.
use goshire.Base.{◌∙◌, arith, if◌then◌else◌, ◌++◌, ◌≡◌, ℕ, All, List, some, none, refl, ◌∷◌, []}
use goshire.Bootstrap.{
  registered, run_init_methods, codes, str_eq, ControllerWrapper, new_controller, Fields, Value,
  Str, Router, register_api, wrapper,
}
use goshire.Bootstrap.Controllers.{IsFound, run_init_methods_lem}
use goshire.Handler.{choose_handler}
use goshire.Router.{match_route, method_of, match}
use goshire.Router.Register.{IsValid}
use goshire.Handler.Dispatch.{choose-new_controller}
use goshire.Text.{to_upper, str_eq_self}

to_upper_twice : (s : Str) → to_upper (to_upper s) ≡ to_upper s
unfolding to_upper
to_upper_twice [] = refl
to_upper_twice (c ∷ s) = ground (arith, to_upper_twice s)

-- The method of a request is told by its upper case.
match_upper :
    (r : Router) (q method path : Str)
    → to_upper q ≡ to_upper method
    → match r q path ≡ match r (to_upper method) path
match_upper r q method path e =
    let one : method_of q ≡ method_of (to_upper method) =
      unfold method_of in cc (e, to_upper_twice method) in
    unfold match match_route in ground (arith, one)

pub All_middle :
    {A : Type 0} (P : A → Type 0) (xs ys : List A) (x : A) → All P ((xs ++ x ∷ []) ++ ys) → P x
All_middle P [] ys x (h, hs) = h
All_middle P (y ∷ xs) ys x (h, hs) = All_middle P xs ys x hs

-- The handler of a controller that was made for one method.
choose_one :
    {H : Type 0} (method q : Str) (h : H)
    → choose_handler (new_controller (method ∷ []) h) q
      ≡ (if str_eq method q then some h else if str_eq method (codes "ALL") then some h else none)
choose_one method q h = choose-new_controller (method ∷ []) q h ∙ ground arith

-- RegisterApi, the Init methods, the router and the controller together. After the Init methods, a
-- request for the route of a RegisterApi whose method is that of the call, up to case, is routed to the
-- controller that the call made, whatever was registered before and after it. Its handler is called
-- where the method of the request is in upper case; in any other spelling the controller finds no
-- handler, and the request is never answered.
pub register_api_lem :
    {H F : Type 0} (sprint : Value → Str) (ids : ℕ × ℕ × ℕ) (conf : Fields) (r r' : Router)
    (before after : List (ControllerWrapper H F)) (id : ℕ) (route method q : Str) (h : H)
    (filters : List F)
    → IsValid r
    → run_init_methods sprint ids conf r (register_api before id route method h filters ++ after)
      ≡ registered r'
    → to_upper q ≡ to_upper method
    → (match r' q route ≡ record { id = id; route = route })
      × (choose_handler (wrapper id route method h filters).handlers q ≡ (
          if str_eq (to_upper method) q
          then some h
          else if str_eq (to_upper method) (codes "ALL")
          then some h
          else none))
unfolding register_api
register_api_lem sprint ids conf r r' before after id route method q h filters v e same =
    let all = (run_init_methods_lem sprint ids conf r r' _ v e).0 in
    let one : IsFound r' (to_upper method ∷ []) (record { id = id; route = route }) =
      All_middle (λ w. IsFound r' w.methods w.c) before after (wrapper id route method h filters)
        all in
    (
      match_upper r' q method route same
          ∙ one (to_upper method) (ground (arith, str_eq_self (to_upper method))),
      choose_one (to_upper method) q h,
    )
