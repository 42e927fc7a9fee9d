-- ===== src/Tree.antt =====
-- The instance tree, src/svhier/cli.py: `_select_children`, `_iter_subtree`, `iter_tree` and
-- `render_tree_line`. The generator is a step function on its stack; `run` makes the steps.
pub mod Shows
pub mod Loop
pub mod Total
pub mod Fuel
pub mod Marks
use svhier.Base.{
  ℕ, zero, suc, ◌+◌, ◌-◌, String, ◌<>◌, Bool, true, false, not, Option, none, some, List, [], ◌∷◌,
  ◌++◌, map,
}
use svhier.Base.{◌==◌, contains, string_eq, nat_eq, list_eq, option_eq, pair_eq, if◌then◌else◌}
use svhier.Base.Dict.{Dict, keys, values, lookup, insert}
use svhier.Base.Lists.{length, filter, flat_map}
use svhier.Result.{ParamSig, Inst, Definition, FileEntry}

pub record TreeLine : Type 0 where
  pub guide : String
  pub name : String
  pub module_name : Option String
  pub marker : Option String

pub record TreeGuides : Type 0 where
  pub tee : String
  pub elbow : String
  pub pipe : String
  pub gap : String

abbrev pub tree_guides : TreeGuides
tree_guides = record { tee = "├── "; elbow = "└── "; pipe = "│   "; gap = "    " }

abbrev pub ascii_guides : TreeGuides
ascii_guides = record { tee = "+-- "; elbow = "`-- "; pipe = "|   "; gap = "    " }

-- A module and its setting; the setting is `none` for the merged children.
abbrev pub Key : Type 0
Key = String × Option ParamSig

-- `last` is never read where there are no children, so it may be 0 there for Python's -1.
pub record Level : Type 0 where
  pub key : Key
  pub children : List (ℕ × Inst)
  pub last : ℕ
  pub indent : String

-- An instance that names no setting gets the only one, if there is one.
unfoldable pub only_variant : Option ParamSig → Dict ParamSig (List Inst) → Option ParamSig
only_variant none ((sig, _) ∷ []) = some sig
only_variant variant variants = variant

unfoldable pub known_children : Definition → Option ParamSig → Option ParamSig × List Inst
known_children unit none = (none, unit.insts)
known_children unit (some sig) = elim (lookup sig unit.variants) [
  | none ↦ (none, unit.insts)
  | some children ↦ (some sig, children)
]

unfoldable pub select_children : Definition → Option ParamSig → Option ParamSig × List Inst
unfolding only_variant known_children
select_children unit variant = known_children unit (only_variant variant unit.variants)

unfoldable pub enumerate : ℕ → List Inst → List (ℕ × Inst)
enumerate pos [] = []
enumerate pos (inst ∷ insts) = (pos, inst) ∷ enumerate (pos + 1) insts

-- `level` of `_iter_subtree`, with `unit` for `defs[name]`.
abbrev pub key_of : Definition → String → Option ParamSig → Key
key_of unit name variant = (name, (select_children unit variant).0)

abbrev pub children_of : Definition → Option ParamSig → List Inst
children_of unit variant = (select_children unit variant).1

unfoldable pub level : Definition → String → Option ParamSig → String → Level
unfolding enumerate
level unit name variant indent = record {
  key = key_of unit name variant;
  children = enumerate 0 (children_of unit variant);
  last = length (children_of unit variant) - 1;
  indent = indent;
}

pub record Walk : Type 0 where
  pub stack : List Level
  pub expanding : List Key

module _ (guides : TreeGuides) where
  abbrev pub guide_of : Bool → String → String
  guide_of is_last indent = indent <> (if is_last then guides.elbow else guides.tee)

  abbrev pub indent_of : Bool → String → String
  indent_of is_last indent = indent <> (if is_last then guides.gap else guides.pipe)

  abbrev pub line_of : Bool → String → Inst → Option String → TreeLine
  line_of is_last indent inst marker = record {
    guide = guide_of is_last indent;
    name = inst.inst_name;
    module_name = some inst.mod_name;
    marker = marker;
  }

-- `expanding.remove(key)`
unfoldable pub remove : Key → List Key → List Key
remove key = filter (λ k. not (k == key))

abbrev pub yield_line : Option TreeLine → Option (List TreeLine) → Option (List TreeLine)
yield_line none out = out
yield_line (some line) none = none
yield_line (some line) (some lines) = some (line ∷ lines)

abbrev pub root_line : String → TreeLine
root_line top = record { guide = ""; name = top; module_name = none; marker = none }

abbrev pub join_lines : Option (List TreeLine) → Option (List TreeLine) → Option (List TreeLine)
join_lines none rest = none
join_lines (some lines) none = none
join_lines (some lines) (some rest) = some (lines ++ rest)

module _ (defs : Dict String Definition) (guides : TreeGuides) where
  -- The body of the `for` loop, for the next child of `current`, which has been taken off it.
  unfoldable pub visit_child : Level → List Level → List Key → Bool → Inst → TreeLine × Walk
  unfolding level
  visit_child current stack expanding is_last inst = elim (lookup inst.mod_name defs) [
    | none ↦ (
      line_of guides is_last current.indent inst (some "blackbox"),
      record { stack = current ∷ stack; expanding = expanding },
    )
    | some unit ↦
        let below =
          level unit inst.mod_name inst.variant (indent_of guides is_last current.indent) in
        if contains expanding below.key
        then (
          line_of guides is_last current.indent inst (some "cycle"),
          record { stack = current ∷ stack; expanding = expanding },
        )
        else (
          line_of guides is_last current.indent inst none,
          record { stack = below ∷ current ∷ stack; expanding = below.key ∷ expanding },
        )
  ]

  -- One round of the loops: the next child of the top level, or, where it has none left, its end.
  unfoldable pub step_level :
      Level → List (ℕ × Inst) → List Level → List Key → Option TreeLine × Walk
  unfolding visit_child remove
  step_level current [] stack expanding =
      (none, record { stack = stack; expanding = remove current.key expanding })
  step_level current ((pos, inst) ∷ rest) stack expanding =
      let (line, walk) =
        visit_child (record current { children = rest }) stack expanding (pos == current.last)
          inst in
      (some line, walk)

  -- `none` means that the fuel ran out.
  unfoldable pub run : ℕ → List Level → List Key → Option (List TreeLine)
  run fuel [] expanding = some []
  run zero (current ∷ stack) expanding = none
  run (suc fuel) (current ∷ stack) expanding =
      let (line, walk) = step_level current current.children stack expanding in
      yield_line line (run fuel walk.stack walk.expanding)

  -- `defs[top]` is there, which `iter_tree` has tested.
  unfoldable pub iter_subtree : ℕ → Definition → String → Option (List TreeLine)
  unfolding run
  iter_subtree fuel unit top =
      let start = level unit top unit.top_variant "" in run fuel (start ∷ []) (start.key ∷ [])

  unfoldable pub iter_tops : ℕ → List String → Option (List TreeLine)
  iter_tops fuel [] = some []
  iter_tops fuel (top ∷ tops) = elim (lookup top defs) [
    | none ↦ iter_tops fuel tops
    | some unit ↦
        yield_line (some (root_line top))
          (join_lines (iter_subtree fuel unit top) (iter_tops fuel tops))
  ]

-- `{d["mod_name"]: d for f in hierarchy["files"] for d in f["defs"]}`
unfoldable pub collect_units : List Definition → Dict String Definition → Dict String Definition
collect_units [] defs = defs
collect_units (d ∷ ds) defs = collect_units ds (insert d.mod_name d defs)

unfoldable pub collect_defs : List FileEntry → Dict String Definition
collect_defs files = collect_units (flat_map (λ (f : FileEntry). f.defs) files) []

unfoldable pub instantiated : Dict String Definition → List String
instantiated defs =
    flat_map (λ (d : Definition). map (λ (i : Inst). i.mod_name) d.insts) (values defs)

-- The roots where none are requested.
unfoldable pub default_tops : Dict String Definition → List String
default_tops defs =
    let used = instantiated defs in filter (λ name. not (contains used name)) (keys defs)

unfoldable pub iter_tree :
    ℕ → List FileEntry → Option (List String) → TreeGuides → Option (List TreeLine)
iter_tree fuel files tops guides =
    let defs = collect_defs files in
    elim tops [
      | none ↦ iter_tops defs guides fuel (default_tops defs)
      | some names ↦ iter_tops defs guides fuel names
    ]

pub record TreeStyle : Type 0 where
  pub guides : TreeGuides
  pub root : String
  pub module_code : String
  pub blackbox : String
  pub cycle : String
  pub end : String

-- `code` is empty where the style has no colour for the marker.
unfoldable pub render_marker : String → String → String → String
render_marker code marker end =
    if code == "" then " (" <> marker <> ")" else " " <> code <> "(" <> marker <> ")" <> end

unfoldable pub render_module : TreeStyle → TreeLine → String → String
render_module style line module_name =
    line.guide <> line.name <> " " <> style.module_code <> "(" <> module_name <> ")" <> style.end

unfoldable pub render_tree_line : TreeLine → TreeStyle → String
unfolding render_module render_marker
render_tree_line line style = elim line.module_name [
  | none ↦ style.root <> line.name <> style.end
  | some module_name ↦ elim line.marker [
    | none ↦ render_module style line module_name
    | some marker ↦
        render_module style line module_name
        <> render_marker (if marker == "blackbox" then style.blackbox else style.cycle) marker
            style.end
  ]
]
