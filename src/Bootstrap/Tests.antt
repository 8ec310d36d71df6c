-- ===== src/Bootstrap/Tests.antt =====
-- The theorems about the bootstrap at one controller and a small configuration.
use goshire.Base.{
  arith, ◌++◌, if◌then◌else◌, ◌≡◌, pos, List, some, none, refl, inr, inl, ◌∷◌, [], ℕ, ℤ,
}
use goshire.Text.{to_upper, split, Str, codes, str_eq}
use goshire.DynMap.Fields.{Value, Fields, end, lookup}
use goshire.DynMap.Path.{walk, get, exists}
use goshire.DynMap.Getters.{get_string}
use goshire.Router.{
  Controller, Router, MuxEntry, new_default_router, registered, match, reg, register, method_of,
  lookup_entry, put_entry,
}
use goshire.Router.Register.{new_default_router-IsValid, entry_of}
use goshire.Handler.{choose_handler}
use goshire.Bootstrap.{
  ControllerWrapper, wrapper, register_api, register_all, init_controllers, init_static_files,
  init_web_sockets, run_init_methods, ping_controller,
}
use goshire.Bin.Tests.{ping, empty_codec, ping-IsSendable}
use goshire.Bin.Stream.{Queue}
use goshire.Bootstrap.Api.{register_api_lem}
use goshire.Config.{Entries, no_entries, entry, mapping, scalar, new_server_config_file}
use goshire.Config.Lookup.{node_of, entry_at, node_at}
use goshire.Bootstrap.Start.{
  start_listeners, start_listeners_lem, listening, http_listen, json_listen, binary_listen,
}
use goshire.DynMap.Number.{
  decimal_from, decimal, underscores_ok, digits_from, parse_uint, parse_int,
}
use goshire.DynMap.Cast.{trim_right, trim_left, to_text}

abbrev none_found : Controller
none_found = record { id = 0; route = [] }

abbrev empty : Router
empty = new_default_router none_found

abbrev sprint : Value → Str
sprint v = []

abbrev conf : Fields
conf = end

abbrev handler : ℕ
handler = 7

abbrev filters : List ℕ
filters = []

abbrev route : Str
route = codes "/a"

abbrev queue : List (ControllerWrapper ℕ ℕ)
queue = wrapper 1 route (codes "get") handler filters ∷ []

abbrev listed : Controller → Str × MuxEntry
listed c = (c.route, entry_of c)

abbrev ready : Router
ready = record empty {
  gets = listed (record { id = 1; route = route }) ∷ listed (ping_controller 90) ∷ [];
}

abbrev ids : ℕ × ℕ × ℕ
ids = (90, 91, 92)

init_runs : run_init_methods sprint ids conf empty queue ≡ registered ready
unfolding run_init_methods init_controllers register_all register reg method_of to_upper str_eq
    lookup_entry put_entry init_static_files init_web_sockets exists get_string get walk split
    lookup to_text
init_runs = refl

register_api_lem_example :
    (match ready (codes "Get") route ≡ record { id = 1; route = route })
    × (choose_handler (wrapper 1 route (codes "get") handler filters).handlers (codes "Get") ≡ (
        if str_eq (to_upper (codes "get")) (codes "Get")
        then some handler
        else if str_eq (to_upper (codes "get")) (codes "ALL")
        then some handler
        else none))
unfolding register_api to_upper
register_api_lem_example =
    register_api_lem sprint ids conf empty ready [] [] 1 route (codes "get") (codes "Get") handler
      filters (new_default_router-IsValid none_found) init_runs refl

-- ports: {http: 80, json: x}.
abbrev root : Entries
root =
    entry (codes "ports")
      (mapping (
        entry (codes "http") (scalar (codes "80"))
          (entry (codes "json") (scalar (codes "x")) no_entries)))
      no_entries

abbrev port : ℤ
port = pos 80

start_listeners_lem_example :
    start_listeners (new_server_config_file {F = ℕ} none_found root).values
    ≡ listening http_listen (some port)
      ++ listening json_listen none
      ++ listening binary_listen none
unfolding node_of node_at entry_at split str_eq parse_int parse_uint digits_from underscores_ok
    decimal decimal_from trim_left trim_right
start_listeners_lem_example =
    start_listeners_lem ℕ none_found root (some port) none none (refl, omega arith)
      (inr (codes "x", refl, refl)) (inl refl)

-- A server with a ping of its own.
abbrev ping_route : Str
ping_route = codes "/ping"

abbrev own_ping : Router
own_ping = record empty { gets = listed (record { id = 1; route = ping_route }) ∷ [] }

abbrev pings : Queue empty_codec
pings = (ping, ping-IsSendable) ∷ (ping, ping-IsSendable) ∷ []
