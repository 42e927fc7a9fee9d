-- ===== src/Tests/Instances.antt =====
-- Definitions from the hierarchy that GHDL prints, plugins/svhier-ghdl/src/svhier_ghdl/__init__.py.
use svhier.Base.{String, true, false, none, some, [], ◌∷◌, ◌≡◌, ◌≢◌, refl, arith}
use svhier.Base.{contains, nat_eq, string_eq, list_eq, pair_eq}
use svhier.Base.Dict.{lookup, set_default, update, values, dict_eq, covers}
use svhier.Base.Int.{pos, int_text, digits, sub_ℕ}
use svhier.Base.Lists.{add_if_new, any}
use svhier.Base.Text.{lower, lower_char}
use svhier.Result.{UnitUse, add_use_if_new, use_eq}
use svhier.Ghdl.Hierarchy.{
  architecture, instance_of, for_generate, scope, body, node, Nodes, leaf, next, append_node,
  no_use,
}
use svhier.Ghdl.Instances.{
  split_from, split_bodies, find_arch, scan_for, scan_all, scan_scope, scan_node, scan_nodes, scan,
  Defs, visit_found, visit_all, visit, visit_tops, tree_to_defs,
}
use svhier.Ghdl.Instances.Depth.{depth}
use svhier.Ghdl.Instances.Linked.{IsLinked}
use svhier.Ghdl.Instances.Visits.{top_entities, tree_to_defs_total}

abbrev width : UnitUse
width = record { generics = ("W", "8") ∷ []; unresolved = [] }

-- An unbound instance in each body of a loop that counts down, and a bound one in a block.
abbrev tree : Nodes
tree =
    next
      (node (architecture "rtl" "Top") no_use (
        next
          (node (for_generate "g" (pos 1) false) no_use (
            next (node body no_use leaf) (
              next (node (instance_of "u" "Core") width leaf) (
                next (node body no_use (next (node (instance_of "u" "Core") width leaf) leaf))
                  leaf))))
          (next
            (node (scope "b") no_use (
              next
                (node (instance_of "v" "work") no_use
                  (next (node (architecture "a" "Sub") no_use leaf) leaf))
                leaf))
            leaf)))
      leaf

tree-depth : depth tree ≡ 4
unfolding depth
tree-depth = refl

tree_defs :
    tree_to_defs (("top", "top.vhd") ∷ []) 4 tree
    ≡ some (
        record {
          name = "top";
          file = some "top.vhd";
          insts = ("core", "g[1].u") ∷ ("core", "g[0].u") ∷ ("sub", "b.v") ∷ [];
          uses = ("core", width ∷ []) ∷ [];
        }
        ∷ record { name = "sub"; file = none; insts = []; uses = [] }
        ∷ [])
unfolding tree_to_defs visit_tops visit visit_all visit_found scan scan_nodes scan_node scan_for
    scan_scope scan_all split_bodies split_from append_node find_arch int_text digits sub_ℕ lower
    lower_char set_default update lookup values add_if_new add_use_if_new use_eq dict_eq covers any
    string_eq list_eq pair_eq nat_eq
tree_defs = refl

tree_to_defs_total_example :
    (defs : Defs) × (tree_to_defs (("top", "top.vhd") ∷ []) 4 tree ≡ some (values defs))
    × IsLinked defs
    × ((e : String) → contains (top_entities tree) e ≡ true → lookup e defs ≢ none)
unfolding depth
tree_to_defs_total_example = tree_to_defs_total (("top", "top.vhd") ∷ []) 4 tree (omega arith)
