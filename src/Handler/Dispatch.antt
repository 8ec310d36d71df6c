-- ===== src/Handler/Dispatch.antt =====
-- The handler that a DefaultController of cheshire/controllers.go chooses.
use goshire.Base.{some, none, Bool, false, List, [], ◌∷◌, ◌≡◌, refl, ◌||◌, if◌then◌else◌, arith}
use goshire.Text.{Str, codes, str_eq, str_eq_iff}
use goshire.Handler.{
  Handlers, handler_of, set_handler, set_handlers, new_controller, choose_handler,
}

-- The list names the method.
abbrev pub names_method : List Str → Str → Bool
names_method [] method = false
names_method (m ∷ ms) method = str_eq m method || names_method ms method

module _ {H : Type 0} where
  handler-set :
      (m method : Str) (h : H) (hs : Handlers H)
      → handler_of method (set_handler m h hs)
        ≡ (if str_eq m method then some h else handler_of method hs)
  unfolding handler_of set_handler
  handler-set m method h [] = refl
  handler-set m method h ((j, g) ∷ hs) =
      ground
        (arith, handler-set m method h hs, str_eq_iff m method, str_eq_iff j m, str_eq_iff j method)

  set_handlers_lem :
      (ms : List Str) (method : Str) (h : H) (hs : Handlers H)
      → handler_of method (set_handlers ms h hs)
        ≡ (if names_method ms method then some h else handler_of method hs)
  unfolding set_handlers
  set_handlers_lem [] method h hs = refl
  set_handlers_lem (m ∷ ms) method h hs =
      ground (arith, set_handlers_lem ms method h (set_handler m h hs), handler-set m method h hs)

  -- A controller that NewController made for some methods calls its handler for a request whose method
  -- is one of them, and for every request if "ALL" is one of them; any other request gets no answer.
  pub choose-new_controller :
      (ms : List Str) (method : Str) (h : H)
      → choose_handler (new_controller ms h) method
        ≡ (if names_method ms method || names_method ms (codes "ALL") then some h else none)
  unfolding new_controller choose_handler handler_of
  choose-new_controller ms method h =
      ground (arith, set_handlers_lem ms method h [], set_handlers_lem ms (codes "ALL") h [])
