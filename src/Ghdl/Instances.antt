-- ===== src/Ghdl/Instances.antt =====
-- `_split_bodies`, `_scan` and `tree_to_defs` of
-- plugins/svhier-ghdl/src/svhier_ghdl/__init__.py: from the elaborated tree to one definition for
-- each entity. A node is deeper than its children, and the fuel is for the depth.
pub mod Depth
pub mod Linked
pub mod Visits
use svhier.Base.{
  ℕ, zero, suc, ◌+◌, String, ◌<>◌, Bool, true, false, Option, none, some, List, [], ◌∷◌, ◌++◌,
}
use svhier.Base.{◌==◌, contains, string_eq, pair_eq, if◌then◌else◌}
use svhier.Base.Dict.{Dict, lookup, set_default, update, values}
use svhier.Base.Int.{ℤ, add_ℕ, sub_ℕ, int_text}
use svhier.Base.Lists.{add_if_new}
use svhier.Base.Text.{lower}
use svhier.Result.{UnitUse, add_use_if_new}
use svhier.Ghdl.Hierarchy.{
  NodeText, architecture, instance_of, for_generate, scope, body, Node, node, Nodes, leaf, next,
  append_node,
}

unfoldable pub append : Nodes → Nodes → Nodes
append leaf ms = ms
append (next n ns) ms = next n (append ns ms)

-- The loop of `_split_bodies`, where `current` is `bodies[-1]`.
unfoldable pub split_from : Nodes → Nodes → List Nodes
unfolding append_node
split_from current leaf = current ∷ []
split_from current (next (node body u inner) rest) = current ∷ split_from inner rest
split_from current (next n rest) = split_from (append_node current n) rest

-- `_split_bodies`: what stands before the first marker is dropped.
unfoldable pub split_bodies : Nodes → List Nodes
unfolding split_from
split_bodies leaf = []
split_bodies (next (node body u inner) rest) = split_from inner rest
split_bodies (next n rest) = split_bodies rest

-- An instance below a scope.
pub record Found : Type 0 where
  pub path : String
  pub component : String
  pub arch : Option Node
  pub use_of : UnitUse

abbrev pub is_arch : NodeText → Bool
is_arch (architecture a e) = true
is_arch _ = false

abbrev pub is_arch_node : Node → Bool
is_arch_node (node text u children) = is_arch text

unfoldable pub find_arch : Nodes → Option Node
find_arch leaf = none
find_arch (next (node (architecture a e) u inner) rest) = some (node (architecture a e) u inner)
find_arch (next n rest) = find_arch rest

-- One recorded list after the other, if both have been recorded.
abbrev pub both {ℓ} : {A : Type ℓ} → Option (List A) → Option (List A) → Option (List A)
both none ys = none
both (some xs) none = none
both (some xs) (some ys) = some (xs ++ ys)

abbrev pub index_of : ℤ → Bool → ℕ → String
index_of low up offset = int_text (if up then add_ℕ low offset else sub_ℕ low offset)

-- A scan of the nodes one level deeper, behind a prefix.
abbrev pub Scanner : Type 0
Scanner = Nodes → String → Option (List Found)

unfoldable pub scan_for : Scanner → String → ℤ → Bool → ℕ → List Nodes → Option (List Found)
scan_for inside label low up offset [] = some []
scan_for inside label low up offset (b ∷ bodies) =
    both (inside b (label <> "[" <> index_of low up offset <> "]."))
      (scan_for inside label low up (suc offset) bodies)

unfoldable pub scan_all : Scanner → String → List Nodes → Option (List Found)
scan_all inside label [] = some []
scan_all inside label (b ∷ bodies) = both (inside b (label <> ".")) (scan_all inside label bodies)

unfoldable pub scan_scope : Scanner → String → Nodes → Option (List Found)
unfolding scan_all split_bodies
scan_scope inside label children = elim (split_bodies children) [
  | [] ↦ inside children (label <> ".")
  | b ∷ bodies ↦ scan_all inside label (b ∷ bodies)
]

-- The body of the loop of `_scan`.
unfoldable pub scan_node : Scanner → String → NodeText → UnitUse → Nodes → Option (List Found)
unfolding scan_for scan_scope split_bodies find_arch
scan_node inside prefix (instance_of label component) u children = some (
    record { path = prefix <> label; component = component; arch = find_arch children; use_of = u }
    ∷ [])
scan_node inside prefix (for_generate label low up) u children =
    scan_for inside (prefix <> label) low up 0 (split_bodies children)
scan_node inside prefix (scope label) u children = scan_scope inside (prefix <> label) children
scan_node inside prefix (architecture a e) u children = some []
scan_node inside prefix body u children = some []

unfoldable pub scan_nodes : Scanner → String → Nodes → Option (List Found)
unfolding scan_node
scan_nodes inside prefix leaf = some []
scan_nodes inside prefix (next (node text u children) rest) =
    both (scan_node inside prefix text u children) (scan_nodes inside prefix rest)

-- `_scan`; `none` is that the fuel ran out.
unfoldable pub scan : ℕ → Nodes → String → Option (List Found)
unfolding scan_nodes
scan zero children prefix = none
scan (suc fuel) children prefix = scan_nodes (scan fuel) prefix children

-- `ForeignDef`; an instance is what it is of and its name.
pub record ForeignDef : Type 0 where
  pub name : String
  pub file : Option String
  pub insts : List (String × String)
  pub uses : Dict String (List UnitUse)

abbrev pub Defs : Type 0
Defs = Dict String ForeignDef

abbrev pub new_def : Dict String String → String → ForeignDef
new_def files entity = record { name = entity; file = lookup entity files; insts = []; uses = [] }

abbrev pub add_inst : String × String → ForeignDef → ForeignDef
add_inst inst d = record d { insts = add_if_new d.insts inst }

abbrev pub add_use : String → UnitUse → ForeignDef → ForeignDef
add_use child u d = record d { uses = update child [] (λ us. add_use_if_new us u) d.uses }

-- A visit of an architecture node: its entity, and the definitions with what is below it.
abbrev pub Visitor : Type 0
Visitor = Node → Defs → Option (String × Defs)

module _ (files : Dict String String) where
  abbrev pub change : String → (ForeignDef → ForeignDef) → Defs → Defs
  change entity f defs = update entity (new_def files entity) f defs

  -- What the loop of `visit` does with one instance.
  unfoldable pub visit_found : Visitor → String → Found → Defs → Option Defs
  visit_found visit entity found defs = elim found.arch [
    | none ↦
        let child = lower found.component in
        some (change entity (λ d. add_use child found.use_of (add_inst (child, found.path) d)) defs)
    | some arch ↦ elim (visit arch defs) [
      | none ↦ none
      | some (child, defs1) ↦ some (change entity (add_inst (child, found.path)) defs1)
    ]
  ]

  unfoldable pub visit_all : Visitor → String → List Found → Defs → Option Defs
  unfolding visit_found
  visit_all visit entity [] defs = some defs
  visit_all visit entity (f ∷ found) defs = elim (visit_found visit entity f defs) [
    | none ↦ none
    | some defs1 ↦ visit_all visit entity found defs1
  ]

  -- `visit`, where `none` is that the fuel ran out or that the node is no architecture.
  unfoldable pub visit : ℕ → Node → Defs → Option (String × Defs)
  unfolding visit_all scan
  visit zero arch defs = none
  visit (suc fuel) (node (architecture a e) u children) defs =
      let entity = lower e in
      elim (scan (suc fuel) children "") [
        | none ↦ none
        | some found ↦
            elim (visit_all (visit fuel) entity found
              (set_default entity (new_def files entity) defs)) [
                | none ↦ none
                | some defs1 ↦ some (entity, defs1)
              ]
      ]
  visit (suc fuel) (node (instance_of l c) u children) defs = none
  visit (suc fuel) (node (for_generate l low up) u children) defs = none
  visit (suc fuel) (node (scope l) u children) defs = none
  visit (suc fuel) (node body u children) defs = none

  -- The loop over the root's children.
  unfoldable pub visit_tops : ℕ → Nodes → Defs → Option Defs
  unfolding visit
  visit_tops fuel leaf defs = some defs
  visit_tops fuel (next (node (architecture a e) u inner) rest) defs =
      elim (visit fuel (node (architecture a e) u inner) defs) [
        | none ↦ none
        | some (entity, defs1) ↦ visit_tops fuel rest defs1
      ]
  visit_tops fuel (next n rest) defs = visit_tops fuel rest defs

  unfoldable pub tree_to_defs : ℕ → Nodes → Option (List ForeignDef)
  unfolding visit_tops values
  tree_to_defs fuel tree = elim (visit_tops fuel tree []) [
    | none ↦ none
    | some defs ↦ some (values defs)
  ]
