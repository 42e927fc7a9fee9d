-- ===== src/Cli.antt =====
-- The rest of src/svhier/cli.py that computes: `_prepare_for_yaml`, `collect_source_files`,
-- `_route_files`, `_write_filelist` and `_warn_unknown_tops`. What is printed is returned as lines.
pub mod Inputs
pub mod Routed
use svhier.Base.{
  ℕ, String, ◌<>◌, Bool, true, false, not, ◌||◌, ◌&&◌, Option, none, some, List, [], ◌∷◌, ◌++◌, map,
}
use svhier.Base.{◌==◌, contains, string_eq, nat_eq, list_eq, if◌then◌else◌}
use svhier.Base.Dict.{Dict, keys, lookup, update, get_or}
use svhier.Base.Lists.{filter, flat_map, any}
use svhier.Base.Text.{lower}
use svhier.Result.{Inst, Definition, FileEntry, Fragment}
use svhier.Libsearch.Paths.{FilePath, path_of, path_text, last_part, cut_last_dot}

-- A module in the YAML; `pkg_imports` is left out where it is empty.
pub record YamlDef : Type 0 where
  pub mod_name : String
  pub pkg_imports : Option (List String)
  pub insts : List Inst

pub record YamlFile : Type 0 where
  pub file_name : String
  pub library : Option String
  pub defs : List YamlDef

abbrev pub yaml_imports : List String → Option (List String)
yaml_imports [] = none
yaml_imports (p ∷ ps) = some (p ∷ ps)

abbrev pub yaml_def : Definition → YamlDef
yaml_def d = record {
  mod_name = d.mod_name;
  pkg_imports = yaml_imports d.pkg_imports;
  insts = d.insts;
}

unfoldable pub prepare_for_yaml : List FileEntry → List YamlFile
prepare_for_yaml files =
    map
      (λ (entry : FileEntry). record {
        file_name = entry.file_name;
        library = entry.library;
        defs = map yaml_def entry.defs;
      })
      files

-- What `collect_source_files` finds at an input: a file, the files of a directory, or nothing.
pub data Found : Type 0 where
  file : FilePath → Bool → Found
  directory : List FilePath → Found
  nothing : Found

-- The flag of a file says whether it is ignored.
unfoldable pub expand : List Found → List FilePath
expand [] = []
expand (file p ignored ∷ inputs) = let rest = expand inputs in if ignored then rest else p ∷ rest
expand (directory ps ∷ inputs) = ps ++ expand inputs
expand (nothing ∷ inputs) = expand inputs

module _ (resolve : FilePath → FilePath) where
  -- The loop that drops paths that have been seen.
  unfoldable pub unique_paths : List FilePath → List FilePath → List FilePath
  unique_paths seen [] = []
  unique_paths seen (p ∷ ps) = elim (contains seen (resolve p)) [
    | true ↦ unique_paths seen ps
    | false ↦ p ∷ unique_paths (resolve p ∷ seen) ps
  ]

  unfoldable pub collect_source_files : List Found → List String
  unfolding expand unique_paths
  collect_source_files inputs = map path_text (unique_paths [] (expand inputs))

-- What `_route_files` reads of a usable frontend.
pub record Reader : Type 0 where
  pub key : ℕ
  pub suffixes : List String
  pub catch_all : Bool
  pub has_extra_inputs : Bool
  pub has_library : Bool

-- `KNOWN_SUFFIXES`
abbrev pub known_suffixes : List String
known_suffixes = ".vhd" ∷ ".vhdl" ∷ ".sv" ∷ ".v" ∷ []

-- `Path(fname).suffix.lower()`
unfoldable pub suffix_of : String → String
unfolding cut_last_dot last_part
suffix_of fname = elim (cut_last_dot (last_part (path_of fname))) [
  | none ↦ ""
  | some (before, after) ↦ if before == "" || after == "" then "" else lower ("." <> after)
]

unfoldable pub first_reader : (Reader → Bool) → List Reader → Option Reader
first_reader p [] = none
first_reader p (f ∷ fs) = let rest = first_reader p fs in if p f then some f else rest

-- The frontend that reads a file, if any does.
unfoldable pub reader_of : List Reader → String → Option Reader
unfolding first_reader suffix_of
reader_of usable fname =
    let suffix = suffix_of fname in
    elim (first_reader (λ (f : Reader). contains f.suffixes suffix) usable) [
      | some owner ↦ some owner
      | none ↦
          if contains known_suffixes suffix
          then none
          else first_reader (λ (f : Reader). f.catch_all) usable
    ]

unfoldable pub route_loop : List Reader → List String → Dict ℕ (List String) → Dict ℕ (List String)
unfolding reader_of
route_loop usable [] routed = routed
route_loop usable (fname ∷ files) routed = elim (reader_of usable fname) [
  | none ↦ route_loop usable files routed
  | some f ↦ route_loop usable files (update f.key [] (λ names. names ++ fname ∷ []) routed)
]

abbrev pub routed_to : Dict ℕ (List String) → Reader → List String
routed_to routed f = get_or f.key [] routed

abbrev pub has_inputs : Dict ℕ (List String) → Reader → Bool
has_inputs routed f = not (routed_to routed f == []) || f.has_extra_inputs

unfoldable pub route_files : List Reader → List String → List (Reader × List String)
unfolding route_loop
route_files usable files =
    let routed = route_loop usable files (map (λ (f : Reader). (f.key, [])) usable) in
    if any (has_inputs routed) usable
    then map (λ f. (f, routed_to routed f))
        (filter (λ (f : Reader). has_inputs routed f || f.has_library) usable)
    else []

-- The lines of `_write_filelist`, before they are joined.
abbrev pub filelist_lines : List String → List String → List String → List String
filelist_lines ordered inc_dirs defines =
    "// Generated by svhier — files in compilation order"
    ∷ (map ("+incdir+" <>◌) inc_dirs ++ (map ("+define+" <>◌) defines ++ (ordered ++ "" ∷ [])))

-- `_warn_unknown_tops`: the tops that failed, and those that nothing defines.
pub data TopWarning : Type 0 where
  failed : String → TopWarning
  not_found : String → TopWarning

abbrev pub defined_units : Fragment → List String
defined_units result =
    flat_map (λ (f : FileEntry). map (λ (d : Definition). d.mod_name) f.defs) result.files

unfoldable pub warn_unknown_tops : Fragment → List String → List TopWarning
warn_unknown_tops result [] = []
warn_unknown_tops result (top ∷ tops) =
    let rest = warn_unknown_tops result tops in
    if contains (map lower result.failed_tops) (lower top)
    then failed top ∷ rest
    else if contains (defined_units result) top
    then rest
    else not_found top ∷ rest
