-- ===== src/Bootstrap.antt =====
-- cheshire/bootstrap.go: the queue of controllers and what the Init methods register. `H` is what a
-- handler function is known by, `F` a filter; the `registerQueue` and the routes are passed through.
pub mod Keeps
pub mod Controllers
pub mod Api
pub mod Serving
pub mod Start
pub mod Tests
use goshire.Base.{◌++◌, not, Bool, if◌then◌else◌, List, false, true, ◌∷◌, [], ℕ}
use goshire.Text.{Str, codes, str_eq, to_upper}
use goshire.DynMap.Fields.{Value, str, Fields, put}
use goshire.DynMap.Path.{exists}
use goshire.DynMap.Getters.{get_string}
use goshire.Strest.{Response, new_response}
use goshire.Router.{Controller, Router, Registered, registered, panicked, register}
use goshire.Handler.{Handlers, new_controller}

-- A controllerWrapper: the controller with the handlers and the filters of its configuration.
pub record ControllerWrapper (H F : Type 0) : Type 0 where
  pub c : Controller
  pub handlers : Handlers H
  pub filters : List F
  pub methods : List Str

-- RegisterPanic and the routes so far end what comes after.
abbrev pub and_then : Registered → (Router → Registered) → Registered
and_then (registered r) next = next r
and_then (panicked p r) next = panicked p r

-- The controller that InitControllers makes by default.
abbrev pub ping_controller : ℕ → Controller
ping_controller id = record { id = id; route = codes "/ping" }

module _ {H F : Type 0} where
  -- Register, of the package.
  abbrev pub register_queued :
      List (ControllerWrapper H F) → ControllerWrapper H F → List (ControllerWrapper H F)
  register_queued queue w = queue ++ w ∷ []

  -- The controller that RegisterApi and RegisterHtml make: one upper case method, one handler.
  abbrev pub wrapper : ℕ → Str → Str → H → List F → ControllerWrapper H F
  wrapper id route method handler filters =
      let m = to_upper method in
      record {
        c = record { id = id; route = route };
        handlers = new_controller (m ∷ []) handler;
        filters = filters;
        methods = m ∷ [];
      }

  -- RegisterApi and RegisterHtml; `id` is the new controller's.
  unfoldable pub register_api :
      List (ControllerWrapper H F) → ℕ → Str → Str → H → List F → List (ControllerWrapper H F)
  register_api queue id route method handler filters =
      register_queued queue (wrapper id route method handler filters)

  -- The loop of InitControllers over the queue, and the flag `ping` after it.
  unfoldable pub register_all : Router → List (ControllerWrapper H F) → Bool → Registered × Bool
  register_all r [] ping = (registered r, ping)
  register_all r (w ∷ queue) ping = elim (register r w.methods w.c) [
    | registered r' ↦
        register_all r' queue (if str_eq w.c.route (codes "/ping") then true else ping)
    | panicked p r' ↦ (panicked p r', ping)
  ]

  -- InitControllers; `id` is the number of the ping controller that it makes.
  unfoldable pub init_controllers : ℕ → Router → List (ControllerWrapper H F) → Registered
  init_controllers id r queue =
      let (done, ping) = register_all r queue false in
      and_then done
        λ r'. if ping then registered r' else register r' (codes "GET" ∷ []) (ping_controller id)

-- PingController: the response that it writes, from the txn id.
abbrev pub ping_response : Str → Response
ping_response txn_id = record new_response {
  txn_id = txn_id;
  values = put (codes "data") (str (codes "PONG")) new_response.values;
}

module _ (sprint : Value → Str) where
  -- InitStaticFiles. GetString finds whatever Exists finds, so its two messages are never logged for
  -- the route; where there is no directory, nothing is registered.
  unfoldable pub init_static_files : ℕ → Fields → Router → Registered
  init_static_files id conf r =
      let (route, has_route) = get_string sprint conf (codes "http.static_files.route") in
      let (path, has_path) = get_string sprint conf (codes "http.static_files.directory") in
      if not (exists conf (codes "http.static_files.route"))
      then registered r
      else if not has_route
      then registered r
      else if not has_path
      then registered r
      else register r (codes "GET" ∷ []) (record { id = id; route = route })

  -- InitWebSockets.
  unfoldable pub init_web_sockets : ℕ → Fields → Router → Registered
  init_web_sockets id conf r =
      let (route, has_route) = get_string sprint conf (codes "http.websockets.route") in
      if not (exists conf (codes "http.websockets.route"))
      then registered r
      else if not has_route
      then registered r
      else register r (codes "GET" ∷ codes "POST" ∷ codes "PUT" ∷ codes "DELETE" ∷ [])
          (record { id = id; route = route })

  -- What RunInitMethods does to the routes: the Init methods in the order of their names, in which
  -- reflect lists them. InitProcs does nothing to them. The numbers are those of the controllers made.
  unfoldable pub run_init_methods :
      {H F : Type 0} → ℕ × ℕ × ℕ → Fields → Router → List (ControllerWrapper H F) → Registered
  run_init_methods (ping, files, sockets) conf r queue =
      and_then (init_controllers ping r queue)
        λ r1. and_then (init_static_files files conf r1) (init_web_sockets sockets conf)
