-- ===== src/Filelist.antt =====
-- src/svhier/filelist.py: files in dependency order. A Python set is a list without repeats;
-- networkx is a parameter, described by `IsTopologicalSort`.
pub mod Tables
pub mod Edges
pub mod Order
pub mod Correct
use svhier.Base.{String, Bool, true, false, not, ◌||◌, Option, none, some, List, [], ◌∷◌, ◌++◌, map}
use svhier.Base.{◌≡◌, ◌↔◌, ◌⊎◌, Eq, ◌==◌, contains, string_eq, if◌then◌else◌}
use svhier.Base.Dict.{Dict, keys, lookup, insert}
use svhier.Base.Lists.{filter, flat_map, dedupe, Nodup, add_unique}
use svhier.Result.{Inst, Definition, FileEntry}

abbrev pub Edge : Type 0
Edge = String × String

-- `nx.topological_sort` on the graph with these nodes and edges: `none` is `NetworkXUnfeasible`.
abbrev pub Sorter : Type 0
Sorter = List String → List Edge → Option (List String)

-- The values of the names that `table` has.
unfoldable pub resolve : Dict String String → List String → List String
resolve table [] = []
resolve table (name ∷ names) = elim (lookup name table) [
  | none ↦ resolve table names
  | some file ↦ file ∷ resolve table names
]

abbrev pub inst_names : FileEntry → List String
inst_names entry = flat_map (λ (d : Definition). map (λ (i : Inst). i.mod_name) d.insts) entry.defs

abbrev pub import_names : FileEntry → List String
import_names entry = flat_map (λ (d : Definition). d.pkg_imports) entry.defs

unfoldable pub file_deps : FileEntry → Dict String String → Dict String String → List String
unfolding dedupe
file_deps entry mod_to_file pkg_to_file =
    let deps = dedupe (
      resolve mod_to_file (inst_names entry)
      ++ (resolve pkg_to_file (import_names entry ++ entry.refs) ++ entry.depends_on)) in
    filter (λ dep. not (dep == entry.file_name)) deps

-- The body of the loop over the files, for one of the two tables: unless it is shadowed, each of
-- `names` maps to the file.
unfoldable pub index_names :
    List String → String → List String → Dict String String → Dict String String
index_names shadowed fname [] table = table
index_names shadowed fname (name ∷ names) table =
    index_names shadowed fname names
      (if contains shadowed name then table else insert name fname table)

abbrev pub pkg_names : FileEntry → List String
pkg_names entry = entry.pkgs ++ entry.ifaces

abbrev pub mod_names : FileEntry → List String
mod_names entry = map (λ (d : Definition). d.mod_name) entry.defs

unfoldable pub index_files :
    (FileEntry → List String) → List FileEntry → Dict String String → Dict String String
index_files names [] table = table
index_files names (entry ∷ files) table =
    index_files names files (index_names entry.shadowed entry.file_name (names entry) table)

abbrev pub file_names : List FileEntry → List String
file_names = map (λ (entry : FileEntry). entry.file_name)

-- The files that the tops need, if there are tops.
unfoldable pub keep_needed : List FileEntry → Option (List String) → List FileEntry
keep_needed files none = files
keep_needed files (some needed) =
    filter (λ (entry : FileEntry). contains needed entry.file_name) files

-- `deps`: the dependencies by file name.
unfoldable pub collect_deps :
    Dict String String
    → Dict String String
    → List FileEntry
    → Dict String (List String)
    → Dict String (List String)
collect_deps mods pkgs [] deps = deps
collect_deps mods pkgs (entry ∷ files) deps =
    collect_deps mods pkgs files (insert entry.file_name (file_deps entry mods pkgs) deps)

-- The edges that the two loops over `deps` add.
unfoldable pub edges : Dict String (List String) → List Edge
edges [] = []
edges ((f, fdeps) ∷ deps) = map (λ d. (d, f)) fdeps ++ edges deps

unfoldable pub all_deps : List FileEntry → Dict String (List String)
unfolding collect_deps index_files index_names file_deps resolve
all_deps files =
    collect_deps (index_files mod_names files []) (index_files pkg_names files []) files []

module _ (topological_sort : Sorter) where
  unfoldable pub order_files : List FileEntry → List String
  order_files files =
      let deps = all_deps files in
      elim (topological_sort (keys deps) (edges deps)) [
        | some order ↦ order
        | none ↦ file_names files
      ]

  unfoldable pub compute_filelist : List FileEntry → Option (List String) → List String
  compute_filelist files needed = order_files (keep_needed files needed)
