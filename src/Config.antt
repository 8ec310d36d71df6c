-- ===== src/Config.antt =====
-- cheshire/config.go: the configuration of a server, filled from a YAML tree. The YAML package gives
-- the tree; `Node` has its three kinds of nodes and nil, and a yaml.Map is the list of its entries in the order
-- in which `range` meets them.
pub mod Lookup
pub mod Types
pub mod Tests
use goshire.Text.{Str}
use goshire.DynMap.Fields.{Value, nil, str, dynmap, list, Fields, end, put, Items, no_items, item}
use goshire.DynMap.Path.{put_all}
use goshire.Router.{Controller, Router, new_default_router}
use goshire.Base.{◌++◌, List, []}

mutual
  -- yaml.Node, an interface: `empty` is nil.
  pub data Node : Type 0 where
    empty : Node
    scalar : Str → Node
    sequence : Nodes → Node
    mapping : Entries → Node

  -- yaml.List.
  pub data Nodes : Type 0 where
    no_nodes : Nodes
    node : Node → Nodes → Nodes

  -- yaml.Map.
  pub data Entries : Type 0 where
    no_entries : Entries
    entry : Str → Node → Entries → Entries

unfoldable mutual
  -- fromNode.
  pub from_node : Node → Value
  from_node empty = nil
  from_node (scalar s) = str s
  from_node (sequence ns) = list (from_nodes ns)
  from_node (mapping es) = dynmap (fill es end)

  -- Its loop over a yaml.List.
  pub from_nodes : Nodes → Items
  from_nodes no_nodes = no_items
  from_nodes (node n ns) = item (from_node n) (from_nodes ns)

  -- The loop of toDynMap, with the map so far.
  pub fill : Entries → Fields → Fields
  fill no_entries d = d
  fill (entry k n es) d = fill es (put k (from_node n) d)

-- toDynMap.
abbrev pub yaml_dyn_map : Entries → Fields
yaml_dyn_map es = fill es end

-- ServerConfig; its filters are those of Bootstrap.AddFilters.
pub record ServerConfig (F : Type 0) : Type 0 where
  pub values : Fields
  pub router : Router
  pub filters : List F

-- NewServerConfig.
module _ {F : Type 0} where
  abbrev pub new_server_config : Controller → ServerConfig F
  new_server_config not_found = record {
    values = end;
    router = new_default_router not_found;
    filters = [];
  }

  -- AddFilters of the bootstrap.
  abbrev pub add_filters : ServerConfig F → List F → ServerConfig F
  add_filters conf fs = record conf { filters = conf.filters ++ fs }

  -- NewServerConfigFile, where the file was read and its root is a yaml.Map. For any other root it
  -- panics, and for a file that cannot be read it returns nil.
  unfoldable pub new_server_config_file : Controller → Entries → ServerConfig F
  new_server_config_file not_found root =
      let instance = new_server_config not_found in
      record instance { values = (put_all instance.values (dynmap (yaml_dyn_map root))).0 }
