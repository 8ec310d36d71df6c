-- ===== src/Config/Tests.antt =====
-- The theorems about configurations at a small YAML tree.
use goshire.Base.{◌≡◌, some, refl, [], ℕ}
use goshire.Text.{codes, str_eq, split}
use goshire.DynMap.Fields.{Value, str, put, lookup}
use goshire.DynMap.Path.{get, walk, put_all, put_entries}
use goshire.Router.{Controller}
use goshire.Config.{
  Entries, no_entries, entry, mapping, empty, scalar, sequence, no_nodes, node, from_node,
  new_server_config_file,
}
use goshire.Config.Lookup.{node_of, value_of, config_get}
use goshire.Config.Types.{IsConfigValue, config_types}

abbrev none_found : Controller
none_found = record { id = 0; route = [] }

-- a: {b: x}, c: [y], d: nil.
abbrev root : Entries
root = entry (codes "a") (mapping (entry (codes "b") (scalar (codes "x")) no_entries)) (
    entry (codes "c") (sequence (node (scalar (codes "y")) no_nodes))
      (entry (codes "d") empty no_entries))

config_get_example :
    get (new_server_config_file {F = ℕ} none_found root).values (codes "a.b")
    ≡ value_of (node_of (codes "a.b") root)
config_get_example = config_get ℕ none_found root (codes "a.b")

abbrev value : Value
value = str (codes "x")

value_found : get (new_server_config_file {F = ℕ} none_found root).values (codes "a.b") ≡ some value
unfolding new_server_config_file put_all put_entries from_node put get walk split lookup str_eq
value_found = refl

config_types_example : IsConfigValue value
config_types_example = config_types ℕ none_found root (codes "a.b") value value_found
