-- ===== src/Slang/Merge.antt =====
-- `_merge_results`, `_nothing_elaborated` and what they call, src/svhier/slang_frontend.py. A list
-- that the code extends in place is the list that is returned.
pub mod Laws
use svhier.Base.{
  String, Bool, true, false, not, ◌||◌, ◌&&◌, Option, none, some, List, [], ◌∷◌, ◌++◌, map, foldl,
}
use svhier.Base.{Eq, String-discrete, ◌==◌, contains, string_eq, list_eq, if◌then◌else◌}
use svhier.Base.Dict.{Dict, keys, insert, set_default, update, or_default}
use svhier.Base.Lists.{add_unique}
use svhier.Result.{
  ParamSig, Inst, inst_eq, Definition, FileEntry, Duplicate, Diagnostic, Missing, UnitUse,
  add_use_if_new,
}
use svhier.Frontends.Merge.{merge_users}

Duplicate-discrete : Discrete Duplicate
Duplicate-discrete = hlevel String-discrete

Diagnostic-discrete : Discrete Diagnostic
Diagnostic-discrete = hlevel String-discrete

instance unfoldable pub duplicate_eq : Eq Duplicate
unfolding Duplicate-discrete
duplicate_eq = record { dec = Duplicate-discrete }

instance unfoldable pub diagnostic_eq : Eq Diagnostic
unfolding Diagnostic-discrete
diagnostic_eq = record { dec = Diagnostic-discrete }

-- A `parse_files` result with what is for this frontend.
pub record Parsed : Type 0 where
  pub files : List FileEntry
  pub tops : List String
  pub duplicates : List Duplicate
  pub needed : Option (List String)
  pub defines : List String
  pub inc_dirs : List String
  pub diagnostics : List Diagnostic
  pub has_errors : Bool
  pub missing : Missing
  pub blackbox_params : Dict String (List UnitUse)
  pub invalid_tops : List String
  pub parameter_names : Dict String (List String)
  pub elaborated_tops : List String

-- `xs[name] = f(xs[name])` for a list read as a dict by `names`: the last with a name counts.
unfoldable pub update_last {ℓ} : {A : Type ℓ} → (A → String) → String → (A → A) → List A → List A
update_last name_of name f [] = []
update_last name_of name f (x ∷ xs) =
    let rest = update_last name_of name f xs in
    if name_of x == name && not (contains (map name_of xs) name) then f x ∷ xs else x ∷ rest

unfoldable pub merge_settings :
    Dict ParamSig (List Inst) → Dict ParamSig (List Inst) → Dict ParamSig (List Inst)
merge_settings base [] = base
merge_settings base ((sig, children) ∷ other) = merge_settings (set_default sig children base) other

abbrev pub first_of : Option ParamSig → Option ParamSig → Option ParamSig
first_of none other = other
first_of (some sig) other = some sig

-- The body for a unit that is there: its lists grow, and `_merge_variants`.
unfoldable pub merge_unit : Definition → Definition → Definition
unfolding merge_settings
merge_unit other base = record base {
  insts = add_unique base.insts other.insts;
  pkg_imports = add_unique base.pkg_imports other.pkg_imports;
  variants = merge_settings base.variants other.variants;
  top_variant = first_of base.top_variant other.top_variant;
}

abbrev pub unit_name : Definition → String
unit_name d = d.mod_name

abbrev pub entry_name : FileEntry → String
entry_name entry = entry.file_name

-- The loop over the units of an entry; `known` are the names that were there before it.
unfoldable pub merge_units : List String → List Definition → List Definition → List Definition
unfolding merge_unit update_last
merge_units known defs [] = defs
merge_units known defs (unit ∷ units) =
    merge_units known
      (if contains known unit.mod_name
        then update_last unit_name unit.mod_name (merge_unit unit) defs
        else defs ++ unit ∷ [])
      units

unfoldable pub merge_entry : FileEntry → FileEntry → FileEntry
unfolding merge_units
merge_entry other base = record base {
  defs = merge_units (map unit_name base.defs) base.defs other.defs;
}

unfoldable pub merge_entries : List String → List FileEntry → List FileEntry → List FileEntry
unfolding merge_entry update_last
merge_entries known base [] = base
merge_entries known base (entry ∷ other) =
    merge_entries known
      (if contains known entry.file_name
        then update_last entry_name entry.file_name (merge_entry entry) base
        else base ++ entry ∷ [])
      other

unfoldable pub merge_files : List FileEntry → List FileEntry → List FileEntry
unfolding merge_entries
merge_files base other = merge_entries (map entry_name base) base other

unfoldable pub merge_missing : Missing → Missing → Missing
merge_missing base [] = base
merge_missing base ((kind, names) ∷ other) =
    merge_missing (update kind [] (λ known. merge_users known names) base) other

unfoldable pub merge_uses :
    Dict String (List UnitUse) → Dict String (List UnitUse) → Dict String (List UnitUse)
merge_uses base [] = base
merge_uses base ((name, uses) ∷ other) =
    merge_uses (update name [] (λ known. foldl add_use_if_new known uses) base) other

abbrev pub merge_needed : Option (List String) → Option (List String) → Option (List String)
merge_needed none other = none
merge_needed (some base) other = some (add_unique base (or_default other []))

unfoldable pub merge_results : Parsed → Parsed → Parsed
unfolding merge_files merge_missing merge_uses duplicate_eq diagnostic_eq
merge_results base other = record base {
  files = merge_files base.files other.files;
  needed = merge_needed base.needed other.needed;
  duplicates = add_unique base.duplicates other.duplicates;
  diagnostics = add_unique base.diagnostics other.diagnostics;
  defines = add_unique base.defines other.defines;
  inc_dirs = add_unique base.inc_dirs other.inc_dirs;
  has_errors = base.has_errors || other.has_errors;
  missing = merge_missing base.missing other.missing;
  blackbox_params = merge_uses base.blackbox_params other.blackbox_params;
}

abbrev pub forget_unit : Definition → Definition
forget_unit unit = record unit { insts = []; variants = []; top_variant = none }

abbrev pub forget_entry : FileEntry → FileEntry
forget_entry entry = record entry { defs = map forget_unit entry.defs }

-- `_nothing_elaborated`
unfoldable pub nothing_elaborated : Parsed → Parsed
nothing_elaborated result = record result {
  files = map forget_entry result.files;
  blackbox_params = [];
  missing = insert "modules" [] result.missing;
}
