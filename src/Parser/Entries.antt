-- ===== src/Parser/Entries.antt =====
-- `_relative_name` and `_build_def_entry` of src/svhier/parser.py.
pub mod Laws
use Prim.Native.String.{len, slice}
use text.Mathlib.Text.{starts_with}
use svhier.Base.{ℕ, ◌+◌, String, ◌<>◌, Bool, true, Option, none, some, List, [], ◌∷◌, ◌++◌, map}
use svhier.Base.{
  Eq, String-discrete, ◌==◌, contains, string_eq, list_eq, pair_eq, nat_eq, if◌then◌else◌,
}
use svhier.Base.Dict.{Dict, lookup, insert, get_or}
use svhier.Base.Lists.{add_if_new, add_unique}
use svhier.Result.{ParamSig, Inst, Definition, inst_eq}
use svhier.Parser.Symbols.{Location, DefinitionSymbol, Instance, Child, instantiated, undefined}
use svhier.Parser.Walk.{Walk, DefKey, Setting, key_of}

-- `relative_name(child, parent_path)`, from the child's name and path.
unfoldable pub relative_name : String → String → String → String
relative_name name path parent_path =
    if starts_with path (parent_path <> ".")
    then slice path (len parent_path + 1) (len path)
    else name

abbrev pub child_name : Child → String
child_name (instantiated inst) = inst.info.name
child_name (undefined box) = box.name

abbrev pub child_path : Child → String
child_path (instantiated inst) = inst.info.hierarchical_path
child_path (undefined box) = box.hierarchical_path

abbrev pub child_module : Child → String
child_module (instantiated inst) = inst.info.definition.name
child_module (undefined box) = box.definition_name

-- What is appended to `children` for a child.
unfoldable pub variant_inst : String → Child × Option ParamSig → Inst
unfolding relative_name
variant_inst parent_path (child, child_sig) = record {
  mod_name = child_module child;
  inst_name = relative_name (child_name child) (child_path child) parent_path;
  variant = child_sig;
}

-- What is appended to `insts`, which names no setting.
abbrev pub merged_inst : Inst → Inst
merged_inst inst = record inst { variant = none }

-- The entry's two lists as they grow; the pairs in `seen` are those of `insts`.
pub record Merged : Type 0 where
  pub insts : List Inst
  pub variants : Dict ParamSig (List Inst)

-- One walked setting: its children are kept under it and merged into `insts`.
unfoldable pub add_setting : ParamSig → Instance → List (Child × Option ParamSig) → Merged → Merged
unfolding variant_inst
add_setting sig parent found merged =
    let children = map (variant_inst parent.info.hierarchical_path) found in
    record {
      insts = add_unique merged.insts (map merged_inst children);
      variants = insert sig children merged.variants;
    }

module _ (walk : Walk) (key : DefKey) where
  -- The loop over the walked settings; `none` is a `KeyError`.
  unfoldable pub merge_settings : Dict ParamSig Instance → Merged → Option Merged
  unfolding add_setting
  merge_settings [] merged = some merged
  merge_settings ((sig, parent) ∷ settings) merged =
      elim (lookup {K = Setting} (key, sig) walk.children) [
        | none ↦ none
        | some found ↦ merge_settings settings (add_setting sig parent found merged)
      ]

unfoldable pub build_def_entry : (Location → String) → DefinitionSymbol → Walk → Option Definition
unfolding merge_settings
build_def_entry canon defn walk =
    let key = key_of canon defn in
    let settings = get_or key [] walk.insts in
    elim (merge_settings walk key settings (record { insts = []; variants = [] })) [
      | none ↦ none
      | some merged ↦ some (record {
        mod_name = defn.name;
        pkg_imports = get_or key [] walk.imports;
        insts = merged.insts;
        variants = merged.variants;
        top_variant = lookup key walk.top_variants;
      })
    ]
