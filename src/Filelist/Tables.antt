-- ===== src/Filelist/Tables.antt =====
-- What the name tables of `compute_filelist` (src/svhier/filelist.py) hold, and which files
-- `_file_deps` and the graph's edges name.
use mathlib.Core.List.{Memᴰ}
use mathlib.Core.List.Memᴰ
use svhier.Base.{String, true, false, not, ◌&&◌, some, List, [], ◌∷◌, ◌++◌}
use svhier.Base.{
  ◌≡◌, refl, ◌≢◌, ◌↔◌, ◌⊎◌, inl, inr, ◌==◌, contains, string_eq, pair_eq, if◌then◌else◌,
}
use svhier.Base.{arith, Bool-cases, Option-cases}
use svhier.Base.Dict.{Dict, lookup, insert, lookup-insert, lookup-nil}
use svhier.Base.Lists.{dedupe, Nodup, add_unique, contains-filter}
use svhier.Base.Lists.{contains-add_unique, contains-append}
use svhier.Result.{FileEntry}
use svhier.Filelist.{resolve, inst_names, import_names, file_deps, index_names, index_files}
use svhier.Filelist.{file_names, collect_deps}

-- One of `names` stands in the table, for the file.
abbrev pub Provides : Dict String String → List String → String → Type 0
Provides table names file =
    (name : String) × (contains names name ≡ true) × (lookup name table ≡ some file)

resolve-intro :
    (table : Dict String String) (names : List String) (file name : String)
    → contains names name ≡ true
    → lookup name table ≡ some file
    → contains (resolve table names) file ≡ true
unfolding resolve
resolve-intro table [] file name h e = cc
resolve-intro table (n ∷ names) file name h e = ground (arith, resolve-intro table names file name)

resolve-elim :
    (table : Dict String String) (names : List String) (file : String)
    → contains (resolve table names) file ≡ true
    → Provides table names file
unfolding resolve
resolve-elim table [] file h = cc
resolve-elim table (n ∷ names) file h = elim (Option-cases (lookup n table)) [
  | inl missing ↦
      let (m, i, l) = resolve-elim table names file (ground arith) in (m, ground arith, l)
  | inr (f, found) ↦ elim (Bool-cases (file == f)) [
    | inl same ↦ (n, ground arith, ground arith)
    | inr other ↦
        let (m, i, l) = resolve-elim table names file (ground arith) in (m, ground arith, l)
  ]
]

contains-resolve :
    (table : Dict String String) (names : List String) (file : String)
    → (contains (resolve table names) file ≡ true) ↔ Provides table names file
contains-resolve table names file =
    (resolve-elim table names file, λ (m, i, l). resolve-intro table names file m i l)

pub contains-file_deps :
    (e : FileEntry) (mods pkgs : Dict String String) (d : String)
    → (contains (file_deps e mods pkgs) d ≡ true) ↔ (
        (d ≢ e.file_name)
        × (Provides mods (inst_names e) d
            ⊎ (Provides pkgs (import_names e ++ e.refs) d ⊎ (contains e.depends_on d ≡ true))))
unfolding file_deps dedupe
contains-file_deps e mods pkgs d = ground (
  arith,
  contains-resolve mods (inst_names e) d,
  contains-resolve pkgs (import_names e ++ e.refs) d,
  contains-append (resolve mods (inst_names e))
      (resolve pkgs (import_names e ++ e.refs) ++ e.depends_on) d,
  contains-append (resolve pkgs (import_names e ++ e.refs)) e.depends_on d,
  contains-filter (λ dep. not (dep == e.file_name))
      (add_unique []
        (resolve mods (inst_names e) ++ (resolve pkgs (import_names e ++ e.refs) ++ e.depends_on)))
      d,
  contains-add_unique []
      (resolve mods (inst_names e) ++ (resolve pkgs (import_names e ++ e.refs) ++ e.depends_on)) d,
)

pub lookup-index_names :
    (shadowed : List String) (fname : String) (names : List String) (table : Dict String String)
    (m : String)
    → lookup m (index_names shadowed fname names table)
      ≡ (if contains names m && not (contains shadowed m) then some fname else lookup m table)
unfolding index_names
lookup-index_names shadowed fname [] table m = refl
lookup-index_names shadowed fname (n ∷ names) table m = ground (
  arith,
  lookup-index_names shadowed fname names table m,
  lookup-index_names shadowed fname names (insert n fname table) m,
  lookup-insert m n fname table,
)

-- The file defines the name, and slang uses its copy.
abbrev pub Supplies : (FileEntry → List String) → FileEntry → String → Type 0
Supplies names e m = (contains (names e) m ≡ true) × (contains e.shadowed m ≡ false)

lookup-index_files_kept :
    (names : FileEntry → List String) (files : List FileEntry) (table : Dict String String)
    (m f : String)
    → ((e : FileEntry) → Memᴰ e files → Supplies names e m → e.file_name ≡ f)
    → lookup m table ≡ some f
    → lookup m (index_files names files table) ≡ some f
unfolding index_files
lookup-index_files_kept names [] table m f only h = h
lookup-index_files_kept names (e ∷ files) table m f only h =
    lookup-index_files_kept names files _ m f (λ x i s. only x (Memᴰ.tail i) s)
      (ground (
        arith,
        only e (Memᴰ.head refl),
        lookup-index_names e.shadowed e.file_name (names e) table m,
      ))

-- A name that one file supplies stands in the table for that file.
pub lookup-index_files :
    (names : FileEntry → List String) (files : List FileEntry) (table : Dict String String)
    (m : String) (definer : FileEntry)
    → Memᴰ definer files
    → Supplies names definer m
    → ((e : FileEntry) → Memᴰ e files → Supplies names e m → e.file_name ≡ definer.file_name)
    → lookup m (index_files names files table) ≡ some definer.file_name
unfolding index_files
lookup-index_files names [] table m definer i s only = absurd (Memᴰ.not-nil i)
lookup-index_files names (e ∷ files) table m definer (Memᴰ.tail i) s only =
    lookup-index_files names files _ m definer i s (λ x j t. only x (Memᴰ.tail j) t)
lookup-index_files names (e ∷ files) table m definer (Memᴰ.head q) s only =
    lookup-index_files_kept names files _ m definer.file_name (λ x j t. only x (Memᴰ.tail j) t)
      (rw q
        (ground (arith, rw q at s, lookup-index_names e.shadowed e.file_name (names e) table m)))

-- The table names files of the list, and what it named before.
index_files-file :
    (names : FileEntry → List String) (files : List FileEntry) (table : Dict String String)
    (m f : String)
    → lookup m (index_files names files table) ≡ some f
    → (contains (file_names files) f ≡ true) ⊎ (lookup m table ≡ some f)
unfolding index_files
index_files-file names [] table m f h = inr h
index_files-file names (e ∷ files) table m f h =
    let step = index_names e.shadowed e.file_name (names e) table in
    elim (index_files-file names files step m f h) [
      | inl i ↦ inl (ground arith)
      | inr l ↦ ground (arith, lookup-index_names e.shadowed e.file_name (names e) table m)
    ]

pub Provides-file :
    (names : FileEntry → List String) (files : List FileEntry) (ns : List String) (f : String)
    → Provides (index_files names files []) ns f
    → contains (file_names files) f ≡ true
Provides-file names files ns f (m, i, l) = elim (index_files-file names files [] m f l) [
  | inl h ↦ h
  | inr h ↦ absurd (ground (arith, lookup-nil {V = String} m))
]

collect_deps_other :
    (mods pkgs : Dict String String) (files : List FileEntry) (deps : Dict String (List String))
    (f : String)
    → contains (file_names files) f ≡ false
    → lookup f (collect_deps mods pkgs files deps) ≡ lookup f deps
unfolding collect_deps
collect_deps_other mods pkgs [] deps f h = refl
collect_deps_other mods pkgs (e ∷ files) deps f h = ground (
  arith,
  collect_deps_other mods pkgs files (insert e.file_name (file_deps e mods pkgs) deps) f,
  lookup-insert f e.file_name (file_deps e mods pkgs) deps,
)

-- With distinct file names each file keeps its own dependencies.
pub lookup-collect_deps :
    (mods pkgs : Dict String String) (files : List FileEntry) (deps : Dict String (List String))
    (e : FileEntry)
    → Nodup (file_names files)
    → Memᴰ e files
    → lookup e.file_name (collect_deps mods pkgs files deps) ≡ some (file_deps e mods pkgs)
unfolding collect_deps
lookup-collect_deps mods pkgs [] deps e u i = absurd (Memᴰ.not-nil i)
lookup-collect_deps mods pkgs (x ∷ files) deps e u (Memᴰ.tail i) =
    lookup-collect_deps mods pkgs files _ e u.1 i
lookup-collect_deps mods pkgs (x ∷ files) deps e u (Memᴰ.head q) = rw q (
    ground (
      arith,
      collect_deps_other mods pkgs files (insert x.file_name (file_deps x mods pkgs) deps)
          x.file_name,
      lookup-insert x.file_name x.file_name (file_deps x mods pkgs) deps,
    ))
