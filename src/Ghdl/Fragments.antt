-- ===== src/Ghdl/Fragments.antt =====
-- `_fragment` of plugins/svhier-ghdl/src/svhier_ghdl/__init__.py: the result of the GHDL frontend, one
-- entry per file.
pub mod Unresolved
use svhier.Base.{
  ℕ, String, ◌<>◌, Bool, true, false, not, ◌||◌, ◌&&◌, Option, none, some, List, [], ◌∷◌, ◌++◌, map,
}
use svhier.Base.{◌==◌, contains, string_eq, list_eq, if◌then◌else◌}
use svhier.Base.Dict.{Dict, keys, values, lookup, insert, set_default, update, get_or, erase}
use svhier.Base.Lists.{filter, add_if_new}
use svhier.Libsearch.Paths.{FilePath, path_of, path_text}
use svhier.Result.{
  Inst, Definition, FileEntry, Diagnostic, UnitUse, Fragment, Missing, empty_fragment,
}
use svhier.Ghdl.Instances.{ForeignDef, Defs}
use svhier.Ghdl.Frontend.{Ghdl}
use svhier.Ghdl.Collect.{Collected, add_uses}
use svhier.Ghdl.Errors.{library_of, unique_errors, add_not_found, blame, duplicates}

-- `if unit.file`
abbrev pub file_of : ForeignDef → Option String
file_of d = elim d.file [ none ↦ none | some f ↦ if f == "" then none else some f ]

unfoldable pub group_by_file :
    List ForeignDef → Dict String (List ForeignDef) → Dict String (List ForeignDef)
group_by_file [] by_file = by_file
group_by_file (d ∷ ds) by_file =
    group_by_file ds (elim (file_of d) [
      | none ↦ by_file
      | some f ↦ update f [] (λ known. known ++ d ∷ []) by_file
    ])

abbrev pub to_inst : String × String → Inst
to_inst (child, path) = record { mod_name = child; inst_name = path; variant = none }

abbrev pub to_definition : ForeignDef → Definition
to_definition d = record {
  mod_name = d.name;
  pkg_imports = [];
  insts = map to_inst d.insts;
  variants = [];
  top_variant = none;
}

abbrev pub to_entry :
    (String → String)
    → Dict String (List String)
    → Dict String (List ForeignDef)
    → String
    → FileEntry
to_entry library_in file_deps by_file f = record {
  library = some (library_in f);
  file_name = f;
  pkgs = [];
  ifaces = [];
  shadowed = [];
  refs = [];
  depends_on = get_or f [] file_deps;
  defs = map to_definition (get_or f [] by_file);
}

unfoldable pub entries_of : (String → String) → Collected → List FileEntry
unfolding group_by_file filter
entries_of library_in c =
    let by_file = group_by_file (values c.defs) [] in
    map (to_entry library_in c.file_deps by_file)
      (keys c.file_deps ++ filter (λ f. not (contains (keys c.file_deps) f)) (keys by_file))

-- What is unresolved, with its uses, and the missing modules with the files that want them.
pub record Lacking : Type 0 where
  pub unresolved : Dict String (List UnitUse)
  pub modules : Dict String (List String)

abbrev pub lack : String → String → Lacking → Lacking
lack f m l = record {
  unresolved = set_default m [] l.unresolved;
  modules = update m [] (λ users. add_if_new users f) l.modules;
}

unfoldable pub lack_insts : Defs → String → List Inst → Lacking → Lacking
lack_insts defs f [] l = l
lack_insts defs f (i ∷ insts) l =
    lack_insts defs f insts (if contains (keys defs) i.mod_name then l else lack f i.mod_name l)

unfoldable pub lack_defs : Defs → String → List Definition → Lacking → Lacking
unfolding lack_insts
lack_defs defs f [] l = l
lack_defs defs f (d ∷ ds) l = lack_defs defs f ds (lack_insts defs f d.insts l)

unfoldable pub lack_entries : Defs → List FileEntry → Lacking → Lacking
unfolding lack_defs
lack_entries defs [] l = l
lack_entries defs (e ∷ entries) l = lack_entries defs entries (lack_defs defs e.file_name e.defs l)

-- The uses of what is not defined.
unfoldable pub keep_uses :
    Defs → Dict String (List UnitUse) → Dict String (List UnitUse) → Dict String (List UnitUse)
unfolding add_uses
keep_uses defs [] unresolved = unresolved
keep_uses defs ((name, uses) ∷ more) unresolved = keep_uses defs more (
    if contains (keys defs) name
    then unresolved
    else update name [] (λ us. add_uses us uses) unresolved)

unfoldable pub keep_all_uses :
    Defs → List ForeignDef → Dict String (List UnitUse) → Dict String (List UnitUse)
unfolding keep_uses
keep_all_uses defs [] unresolved = unresolved
keep_all_uses defs (d ∷ ds) unresolved =
    keep_all_uses defs ds
      (elim (file_of d) [ none ↦ unresolved | some f ↦ keep_uses defs d.uses unresolved ])

abbrev pub error_of : String → Diagnostic
error_of message = record { severity = "error"; file = ""; message = message }

module _ {W : Type 0} (resolve : FilePath → FilePath) where
  -- `_report_errors` and the rest of `_fragment`.
  unfoldable pub to_fragment : Bool → Collected → Ghdl W → Fragment
  unfolding entries_of lack_entries keep_all_uses unique_errors add_not_found blame duplicates
  to_fragment auto c g =
      let entries = entries_of (library_of g.libraries g.work) c in
      let l = lack_entries c.defs entries (record { unresolved = []; modules = [] }) in
      let dups = duplicates g.libraries g.work g.scan g.definers in
      let unique = unique_errors c.errors [] in
      let names = map (λ f. (path_text (resolve (path_of f)), f)) (keys g.scan) in
      record empty_fragment {
        files = entries;
        unresolved = keep_all_uses c.defs (values c.defs) l.unresolved;
        missing =
            insert "modules" l.modules
              (insert "units" (add_not_found g.work names (keys unique) []) empty_fragment.missing);
        duplicates = dups;
        diagnostics = map error_of (values unique);
        has_errors = not (values unique == []);
        notes = g.notes ++ g.alone_notes ++ blame resolve dups (keys unique);
        pulled = map (λ (p : String × (FilePath × ℕ)). (p.0, (path_text p.1.0, p.1.1))) g.pulled;
        needed = if auto then none else some (map (λ (e : FileEntry). e.file_name) entries);
      }

-- `drop_resolved`
unfoldable pub drop_modules : List String → Dict String (List String) → Dict String (List String)
drop_modules [] modules = modules
drop_modules (name ∷ names) modules = drop_modules names (erase name modules)

unfoldable pub drop_resolved : Fragment → List String → Fragment
unfolding drop_modules
drop_resolved fragment names = record fragment {
  missing =
      insert "modules" (drop_modules names (get_or "modules" [] fragment.missing)) fragment.missing;
}
