-- ===== src/Config/Lookup.antt =====
-- What Get finds in a configuration, by an independent lookup in the YAML tree.
use goshire.Config.{
  dynmap, Controller, put, end, Value, Fields, Str, Node, empty, scalar, sequence, mapping, Entries,
  no_entries, entry,
}
use goshire.Config.{from_node, fill, yaml_dyn_map, new_server_config_file}
use goshire.Base.{
  ◌∙◌, arith, Option-cases, ◌≡◌, if◌then◌else◌, Option, List, some, none, refl, inr, inl, ◌∷◌, [],
}
use goshire.DynMap.Path.{get, walk}
use goshire.DynMap.Fields.{lookup-put, lookup}
use goshire.Text.{first_piece, split_cases, split, str_eq}
use goshire.DynMap.Merge.{get_same, put_all_lem, put-IsKeyed, IsKeyed, either_entry}

-- The node under a key of a yaml.Map.
unfoldable pub entry_at : Str → Entries → Option Node
entry_at k no_entries = none
entry_at k (entry j n es) = elim (entry_at k es) [
  | some m ↦ some m
  | none ↦ if str_eq j k then some n else none
]

-- The node at the end of a path of keys through the yaml.Maps of the tree.
unfoldable pub node_at : List Str → Entries → Option Node
node_at [] es = none
node_at (k ∷ []) es = entry_at k es
node_at (k ∷ j ∷ ks) es = elim (entry_at k es) [
  | some (mapping sub) ↦ node_at (j ∷ ks) sub
  | _ ↦ none
]

-- The node of a dotted key: the key as it stands, then the path of its parts.
unfoldable pub node_of : Str → Entries → Option Node
node_of key es = elim (entry_at key es) [ some n ↦ some n | none ↦ node_at (split b'.' key) es ]

abbrev pub value_of : Option Node → Option Value
value_of none = none
value_of (some n) = some (from_node n)

abbrev or_lookup : Option Node → Option Value → Option Value
or_lookup none o = o
or_lookup (some n) o = some (from_node n)

lookup-fill :
    (k : Str) (es : Entries) (d : Fields)
    → lookup k (fill es d) ≡ or_lookup (entry_at k es) (lookup k d)
unfolding fill entry_at
lookup-fill k no_entries d = refl
lookup-fill k (entry j n es) d = elim (Option-cases (entry_at k es)) [
  | inl e ↦
      lookup-fill k es (put j (from_node n) d) ∙ ground (arith, e, lookup-put j k (from_node n) d)
  | inr (m, e) ↦ lookup-fill k es (put j (from_node n) d) ∙ ground (arith, e)
]

or_nothing : (o : Option Node) → or_lookup o none ≡ value_of o
or_nothing none = refl
or_nothing (some n) = refl

lookup-yaml_dyn_map :
    (k : Str) (es : Entries) → lookup k (yaml_dyn_map es) ≡ value_of (entry_at k es)
lookup-yaml_dyn_map k es = lookup-fill k es end ∙ unfold lookup in or_nothing (entry_at k es)

walk-yaml_dyn_map :
    (ks : List Str) (es : Entries) → walk ks (yaml_dyn_map es) ≡ value_of (node_at ks es)
unfolding walk node_at from_node
walk-yaml_dyn_map [] es = refl
walk-yaml_dyn_map (k ∷ []) es = lookup-yaml_dyn_map k es
walk-yaml_dyn_map (k ∷ j ∷ ks) es = elim (Option-cases (entry_at k es)) [
  | inl e ↦ ground (arith, e, lookup-yaml_dyn_map k es)
  | inr (empty, e) ↦ ground (arith, e, lookup-yaml_dyn_map k es)
  | inr (scalar s, e) ↦ ground (arith, e, lookup-yaml_dyn_map k es)
  | inr (sequence ns, e) ↦ ground (arith, e, lookup-yaml_dyn_map k es)
  | inr (mapping sub, e) ↦
      ground (arith, e, lookup-yaml_dyn_map k es, walk-yaml_dyn_map (j ∷ ks) sub)
]

get-yaml_dyn_map :
    (key : Str) (es : Entries) → get (yaml_dyn_map es) key ≡ value_of (node_of key es)
unfolding get node_of node_at
get-yaml_dyn_map key es = elim (Option-cases (entry_at key es)) [
  | inr (n, e) ↦ ground (arith, e, lookup-yaml_dyn_map key es)
  | inl e ↦ elim (split_cases b'.' key) [
    | inl plain ↦ ground (arith, e, plain, lookup-yaml_dyn_map key es)
    | inr (q, qs, parts, l) ↦
        let path = walk-yaml_dyn_map (first_piece b'.' key ∷ q ∷ qs) es in
        ground (arith, e, parts, lookup-yaml_dyn_map key es, path)
  ]
]

fill-IsKeyed : (es : Entries) (d : Fields) → IsKeyed d → IsKeyed (fill es d)
unfolding fill
fill-IsKeyed no_entries d u = u
fill-IsKeyed (entry k n es) d u = fill-IsKeyed es _ (put-IsKeyed k (from_node n) d u)

either_nothing : (o : Option Value) → either_entry o none ≡ o
either_nothing none = refl
either_nothing (some v) = refl

-- A configuration file and Get together: under every key, dotted or not, Get finds in the
-- configuration the value of the YAML node that the key leads to, the key as it stands before its parts,
-- and nothing where it leads to none.
pub config_get :
    (F : Type 0) (not_found : Controller) (root : Entries) (key : Str)
    → get (new_server_config_file {F = F} not_found root).values key ≡ value_of (node_of key root)
unfolding new_server_config_file
config_get F not_found root key =
    let filled =
      put_all_lem end (yaml_dyn_map root) (dynmap (yaml_dyn_map root)) refl
        (fill-IsKeyed root end tt) tt in
    get_same _ (yaml_dyn_map root) key
      (λ j. filled.1 j ∙ unfold lookup in either_nothing (lookup j (yaml_dyn_map root)))
    ∙ get-yaml_dyn_map key root
