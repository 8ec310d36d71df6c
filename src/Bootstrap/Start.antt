-- ===== src/Bootstrap/Start.antt =====
-- Start of cheshire/bootstrap.go: the listeners that it starts, from the ports of the configuration.
use goshire.Bootstrap.{exists}
use goshire.DynMap.Getters.{get_int64}
use goshire.Config.Lookup.{config_get, node_of}
use goshire.Config.{new_server_config_file, Entries, scalar}
use goshire.DynMap.Path.{exists}
use goshire.DynMap.Getters.RoundTrip.{to_int64-decimal}
use goshire.Config.{from_node}
use goshire.DynMap.Cast.{trim_space, to_int64}
use goshire.DynMap.Number.{cutoff, parse_int, decimal}
use goshire.Base.{
  Fits, arith, ◌⊎◌, inr, inl, ◌++◌, ◌≡◌, Option, List, Bool, ℤ, some, none, false, true, ◌∷◌, [],
}
use goshire.DynMap.Fields.{Fields}
use goshire.Text.{codes, Str}
use goshire.DynMap.Cast.{to_int64}
use goshire.Router.{Controller}

-- HttpListen, JsonListen and BinaryListen, each in a goroutine.
pub data Listener : Type 0 where
  http_listen json_listen binary_listen : ℤ → Listener

abbrev started : (ℤ → Listener) → Bool → ℤ × Bool → List Listener
started listen false port = []
started listen true (port, false) = []
started listen true (port, true) = listen port ∷ []

-- One of the tests of Start. A port that is no number is logged.
unfoldable pub start_listener : (ℤ → Listener) → Fields → Str → List Listener
start_listener listen conf key = started listen (exists conf key) (get_int64 conf key)

-- Start, after the Init methods.
unfoldable pub start_listeners : Fields → List Listener
start_listeners conf =
    start_listener http_listen conf (codes "ports.http")
    ++ start_listener json_listen conf (codes "ports.json")
    ++ start_listener binary_listen conf (codes "ports.bin")

-- The node under the key is a number of 64 bits in decimal digits; or there is none, or it is a text
-- that is no number.
abbrev pub IsPort : Entries → Str → Option ℤ → Type 0
IsPort root key none =
    (node_of key root ≡ none)
    ⊎ ((s : Str) × (node_of key root ≡ some (scalar s)) × (parse_int (trim_space s) ≡ none))
IsPort root key (some port) = (node_of key root ≡ some (scalar (decimal port))) × Fits cutoff port

abbrev pub listening : (ℤ → Listener) → Option ℤ → List Listener
listening listen none = []
listening listen (some port) = listen port ∷ []

module _ (F : Type 0) (not_found : Controller) (root : Entries) where
  start_listener_lem :
      (listen : ℤ → Listener) (key : Str) (port : Option ℤ)
      → IsPort root key port
      → start_listener listen (new_server_config_file {F = F} not_found root).values key
        ≡ listening listen port
  unfolding start_listener exists get_int64 from_node to_int64
  start_listener_lem listen key none (inl absent) =
      ground (arith, config_get F not_found root key, absent)
  start_listener_lem listen key none (inr (s, h, bad)) =
      ground (arith, config_get F not_found root key, h, bad)
  start_listener_lem listen key (some port) (h, fits) =
      ground (arith, config_get F not_found root key, h, to_int64-decimal port fits)

  -- A configuration file and Start together: of the three listeners, HTTP, JSON and binary, Start starts
  -- those whose key under "ports" leads to a number in the YAML tree, on that port, and in this order;
  -- one whose key is missing or leads to a text that is no number is left out, and the others start.
  pub start_listeners_lem :
      (http json binary : Option ℤ)
      → IsPort root (codes "ports.http") http
      → IsPort root (codes "ports.json") json
      → IsPort root (codes "ports.bin") binary
      → start_listeners (new_server_config_file {F = F} not_found root).values
        ≡ listening http_listen http ++ listening json_listen json ++ listening binary_listen binary
  unfolding start_listeners
  start_listeners_lem http json binary h j b = ground (
    arith,
    start_listener_lem http_listen (codes "ports.http") http h,
    start_listener_lem json_listen (codes "ports.json") json j,
    start_listener_lem binary_listen (codes "ports.bin") binary b,
  )
