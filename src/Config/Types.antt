-- ===== src/Config/Types.antt =====
-- Which kinds of values a configuration holds.
use goshire.Config.{
  empty, item, list, dynmap, str, Value, Str, Fields, end, Controller, Node, scalar, sequence,
  mapping, Nodes, no_nodes, node, Entries, no_entries, entry,
}
use goshire.Config.{from_node, from_nodes, fill, new_server_config_file}
use goshire.DynMap.Path.{get}
use goshire.DynMap.Fields.{nil, no_items, Items, field, put}
use goshire.Config.Lookup.{config_get, node_of}
use goshire.Base.{subst, Option-cases, ◌≡◌, Bool-cases, some, inr, inl}
use goshire.Text.{str_eq}

-- nil, a text, a *DynMap or an []interface{}, and so is everything inside.
abbrev mutual
  pub IsConfigValue : Value → Type 0
  IsConfigValue nil = Unit
  IsConfigValue (str s) = Unit
  IsConfigValue (dynmap m) = AreConfigFields m
  IsConfigValue (list vs) = AreConfigItems vs
  IsConfigValue _ = ⊥

  pub AreConfigItems : Items → Type 0
  AreConfigItems no_items = Unit
  AreConfigItems (item v vs) = IsConfigValue v × AreConfigItems vs

  pub AreConfigFields : Fields → Type 0
  AreConfigFields end = Unit
  AreConfigFields (field k v m) = IsConfigValue v × AreConfigFields m

put-AreConfigFields :
    (k : Str) (v : Value) (m : Fields)
    → IsConfigValue v
    → AreConfigFields m
    → AreConfigFields (put k v m)
unfolding put
put-AreConfigFields k v end h hs = (h, tt)
put-AreConfigFields k v (field j w m) h (g, gs) = elim (Bool-cases (str_eq j k)) [
  | inl same ↦ rw same (h, gs)
  | inr other ↦ rw other (g, put-AreConfigFields k v m h gs)
]

mutual
  unfolding from_node

  from_node-IsConfigValue : (n : Node) → IsConfigValue (from_node n)
  from_node-IsConfigValue empty = tt
  from_node-IsConfigValue (scalar s) = tt
  from_node-IsConfigValue (sequence ns) = from_nodes-AreConfigItems ns
  from_node-IsConfigValue (mapping es) = fill-AreConfigFields es end tt

  from_nodes-AreConfigItems : (ns : Nodes) → AreConfigItems (from_nodes ns)
  from_nodes-AreConfigItems no_nodes = tt
  from_nodes-AreConfigItems (node n ns) = (from_node-IsConfigValue n, from_nodes-AreConfigItems ns)

  fill-AreConfigFields :
      (es : Entries) (d : Fields) → AreConfigFields d → AreConfigFields (fill es d)
  fill-AreConfigFields no_entries d h = h
  fill-AreConfigFields (entry k n es) d h =
      fill-AreConfigFields es (put k (from_node n) d)
        (put-AreConfigFields k (from_node n) d (from_node-IsConfigValue n) h)

-- Whatever Get finds in the configuration that is read from a file, however deep, is nil, a text, a
-- *DynMap or an []interface{} whose contents are such values again: there is no number and no bool, so
-- every number of a configuration is parsed from a text when it is asked for.
pub config_types :
    (F : Type 0) (not_found : Controller) (root : Entries) (key : Str) (v : Value)
    → get (new_server_config_file {F = F} not_found root).values key ≡ some v
    → IsConfigValue v
config_types F not_found root key v e = elim (Option-cases (node_of key root)) [
  | inl absent ↦ cc (config_get F not_found root key, absent, e)
  | inr (n, found) ↦
      let same : from_node n ≡ v = cc (config_get F not_found root key, found, e) in
      subst IsConfigValue same (from_node-IsConfigValue n)
]
