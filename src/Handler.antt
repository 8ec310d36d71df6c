-- ===== src/Handler.antt =====
-- cheshire/controllers.go: the filters around a controller, and the controller that chooses a handler
-- by the method. What filters, handlers and the writer do besides (sessions, sockets, logs) is a state
-- `W` that is passed through them in the order in which they are called.
pub mod Filters
pub mod Dispatch
pub mod Session
pub mod Tests
use goshire.Base.{Bool, true, false, List, [], ◌∷◌, ◌++◌, Option, none, some, if◌then◌else◌}
use goshire.Text.{Str, codes, str_eq}
use goshire.Strest.{Response}

-- FilterAdvanced: both hooks get the response, which they may change.
pub record Hooks (W : Type 0) : Type 0 where
  pub before_write : Response → W → Response × W
  pub after_write : Response → W → Response × W

-- ControllerFilter, with its hooks where it is a FilterAdvanced.
pub record Filter (W : Type 0) : Type 0 where
  pub before : W → W × Bool
  pub hooks : Option (Hooks W)

module _ {W : Type 0} where
  abbrev before_hook : Option (Hooks W) → Response → W → Response × W
  before_hook none r w = (r, w)
  before_hook (some h) r w = h.before_write r w

  abbrev after_hook : Option (Hooks W) → Response → W → Response × W
  after_hook none r w = (r, w)
  after_hook (some h) r w = h.after_write r w

  -- The two loops of Txn.Write.
  unfoldable pub before_writes : List (Filter W) → Response → W → Response × W
  before_writes [] r w = (r, w)
  before_writes (f ∷ fs) r w = let (r', w') = before_hook f.hooks r w in before_writes fs r' w'

  unfoldable pub after_writes : List (Filter W) → Response → W → Response × W
  after_writes [] r w = (r, w)
  after_writes (f ∷ fs) r w = let (r', w') = after_hook f.hooks r w in after_writes fs r' w'

  -- Txn.Write. `write` is the Write of the underlying writer, with its result.
  unfoldable pub txn_write :
      {R : Type 0} → List (Filter W) → (Response → W → R × W) → Response → W → R × Response × W
  txn_write filters write r w =
      let (r', w') = before_writes filters r w in
      let (c, w'') = write r' w' in let (r'', w''') = after_writes filters r' w'' in (c, r'', w''')

  -- The loop of HandleRequest over the filters, and the call of the controller after it.
  unfoldable pub run_filters : List (Filter W) → (W → W) → W → W
  run_filters [] handle w = handle w
  run_filters (f ∷ fs) handle w =
      let (w', go_on) = f.before w in
      let rest = run_filters fs handle w' in if go_on then rest else w'

  -- append(filters, controller.Config().Filters...), where the Config() is not nil.
  abbrev pub all_filters : List (Filter W) → Option (List (Filter W)) → List (Filter W)
  all_filters server none = server
  all_filters server (some own) = server ++ own

  -- HandleRequest. `handle filters` is the controller's HandleRequest with the Txn that holds them.
  unfoldable pub handle_request :
      List (Filter W) → Option (List (Filter W)) → (List (Filter W) → W → W) → W → W
  handle_request server own handle w =
      let filters = all_filters server own in run_filters filters (handle filters) w

-- The handlers of a DefaultController: a map from methods.
abbrev pub Handlers : Type 0 → Type 0
Handlers H = List (Str × H)

module _ {H : Type 0} where
  unfoldable pub handler_of : Str → Handlers H → Option H
  handler_of method [] = none
  handler_of method ((m, h) ∷ hs) = if str_eq m method then some h else handler_of method hs

  unfoldable pub set_handler : Str → H → Handlers H → Handlers H
  set_handler method h [] = (method, h) ∷ []
  set_handler method h ((m, g) ∷ hs) =
      if str_eq m method then (m, h) ∷ hs else (m, g) ∷ set_handler method h hs

  -- The loop of NewController.
  unfoldable pub set_handlers : List Str → H → Handlers H → Handlers H
  set_handlers [] h hs = hs
  set_handlers (m ∷ methods) h hs = set_handlers methods h (set_handler m h hs)

  -- NewController, its handlers.
  unfoldable pub new_controller : List Str → H → Handlers H
  new_controller methods h = set_handlers methods h []

  -- HandleRequest of a DefaultController: the handler that it calls; `none` where it returns without
  -- an answer.
  unfoldable pub choose_handler : Handlers H → Str → Option H
  choose_handler hs method = elim (handler_of method hs) [
    | some h ↦ some h
    | none ↦ handler_of (codes "ALL") hs
  ]
