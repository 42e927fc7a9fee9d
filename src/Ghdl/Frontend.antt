-- ===== src/Ghdl/Frontend.antt =====
-- The state of `GhdlFrontend` of plugins/svhier-ghdl/src/svhier_ghdl/__init__.py, and how it grows:
-- `units`, `provide` and `_pull_needed`. The worker's scan, `Path.resolve` and the library's `find`
-- are parameters.
pub mod Pulls
use svhier.Base.{
  ℕ, zero, suc, ◌+◌, String, ◌<>◌, Bool, true, false, not, ◌||◌, ◌&&◌, Option, none, some, List, [],
  ◌∷◌, ◌++◌, map, foldl,
}
use mathlib.Core.List.{reverse}
use svhier.Base.{◌==◌, contains, string_eq, pair_eq, if◌then◌else◌}
use svhier.Base.Dict.{Dict, keys, values, lookup, insert, update}
use svhier.Base.Lists.{filter, any, flat_map, length}
use svhier.Base.Text.{lower}
use svhier.Libsearch.Paths.{FilePath, path_of, path_text}
use svhier.Libsearch.{pull}
use svhier.Ghdl.Instances.{ForeignDef}
use svhier.Ghdl.Libraries.{Scan, assign_libraries}

-- What the worker's scan says of a file.
pub record FileScan : Type 0 where
  pub units : List String
  pub entities : List String
  pub arch_of : List String
  pub libs : List String
  pub refs : List (String × String)
  pub named : List (String × String)

abbrev pub to_scan : FileScan → Scan
to_scan e = record { units = e.units; arch_of = e.arch_of; refs = e.refs; libs = e.libs }

-- `Elaboration`
pub record Elaboration : Type 0 where
  pub defs : List ForeignDef
  pub file_deps : Dict String (List String)
  pub errors : List String
  pub notes : List String
  pub unset : List String

-- What is outside of the frontend, over a state of its own: the worker's scan says for each file
-- that it is given what it has read, or nothing where it failed; `find` is that of the library
-- under `-y`, if there is one.
pub record Outside (W : Type 0) : Type 0 where
  pub resolve : FilePath → FilePath
  pub scan : List String → W → (String → Option FileScan) × W
  pub find : Option (String → String → List FilePath × ℕ)

-- `GhdlFrontend`, with the files of the compilation, which the library adds to.
pub record Ghdl (W : Type 0) : Type 0 where
  pub world : W
  pub work : String
  pub files : List String
  pub units : Option (Dict String String)
  pub definers : Dict String (List String)
  pub libraries : Dict String String
  pub notes : List String
  pub alone_notes : List String
  pub cache : Dict (String × List (String × String)) Elaboration
  pub scan : Dict String FileScan
  pub pulled : List (String × (FilePath × ℕ))

-- `{f: scan[f] for f in files if f in scan}`
unfoldable pub scan_of :
    Dict String FileScan → List String → Dict String FileScan → Dict String FileScan
scan_of scan [] found = found
scan_of scan (f ∷ files) found =
    scan_of scan files (elim (lookup f scan) [ none ↦ found | some entry ↦ insert f entry found ])

unfoldable pub add_definer :
    String → List String → Dict String (List String) → Dict String (List String)
add_definer path [] definers = definers
add_definer path (name ∷ names) definers =
    add_definer path names (update name [] (λ paths. paths ++ path ∷ []) definers)

unfoldable pub add_definers :
    Dict String FileScan → Dict String (List String) → Dict String (List String)
unfolding add_definer
add_definers [] definers = definers
add_definers ((path, entry) ∷ scan) definers =
    add_definers scan (add_definer path entry.entities definers)

-- `{name: paths[0] for name, paths in definers.items()}`
unfoldable pub first_definers : Dict String (List String) → Dict String String
first_definers [] = []
first_definers ((name, []) ∷ definers) = first_definers definers
first_definers ((name, path ∷ paths) ∷ definers) = (name, path) ∷ first_definers definers

-- `{str(Path(f).resolve()): f for f in files}`
abbrev pub by_abs_of : (FilePath → FilePath) → List String → Dict String String
by_abs_of resolve files =
    foldl (λ known f. insert (path_text (resolve (path_of f))) f known) [] files

unfoldable pub add_scans :
    (String → Option FileScan) → Dict String String → Dict String FileScan → Dict String FileScan
add_scans answer [] scan = scan
add_scans answer ((path, f) ∷ by_abs) scan =
    add_scans answer by_abs (elim (answer path) [ none ↦ scan | some entry ↦ insert f entry scan ])

-- With more fuel than files, which is enough, `assign_libraries` has a result.
abbrev pub libraries_of : Dict String FileScan → String → Dict String String × List String
libraries_of scan work =
    elim (assign_libraries (suc (length (keys scan)))
      (map (λ (entry : String × FileScan). (entry.0, to_scan entry.1)) scan) (lower work)) [
        | none ↦ ([], [])
        | some result ↦ result
      ]

-- `_BUILTIN_LIBRARIES`
abbrev pub builtin_libraries : List String
builtin_libraries = "std" ∷ "ieee" ∷ []

abbrev pub is_local : FileScan → String → Bool
is_local entry library =
    (library == "work" || contains (map lower entry.libs) library)
    && not (contains builtin_libraries library)

-- What an entry adds to `pending` for a unit.
abbrev pub refs_for : String → FileScan → List (String × String)
refs_for unit entry =
    if contains entry.units unit || contains entry.arch_of unit
    then filter (λ (ref : String × String). is_local entry ref.0) entry.named
    else []

abbrev pub is_scanned : String → Dict String FileScan → Bool
is_scanned unit scan = any (λ (entry : FileScan). contains entry.units unit) (values scan)

abbrev pub pending_of : List String → List (String × String)
pending_of names = reverse (map (λ n. ("", lower n)) names)

module _ {W : Type 0} where
  abbrev pub units_of : Ghdl W → Dict String String
  units_of g = elim g.units [ some units ↦ units | none ↦ [] ]

module _ {W : Type 0} (outside : Outside W) where
  -- The first part of `_read_units`: files that are new are scanned.
  unfoldable pub scan_new : Ghdl W → Ghdl W
  unfolding add_scans
  scan_new g =
      elim (by_abs_of outside.resolve (filter (λ f. not (contains (keys g.scan) f)) g.files)) [
        | [] ↦ g
        | first ∷ more ↦
            let (answer, w) = outside.scan (keys (first ∷ more)) g.world in
            record g { world = w; scan = add_scans answer (first ∷ more) g.scan }
      ]

  -- The rest of `_read_units`.
  unfoldable pub choose_libraries : Ghdl W → Ghdl W
  unfolding scan_of add_definers first_definers
  choose_libraries g =
      let scan = scan_of g.scan g.files [] in
      let definers = add_definers scan [] in
      let (libraries, notes) = libraries_of scan g.work in
      record g {
        libraries = libraries;
        notes = notes;
        definers = definers;
        units = some (first_definers definers);
      }

  -- `units`, whose result is in the state afterwards.
  unfoldable pub read_units : Ghdl W → Ghdl W
  unfolding scan_new choose_libraries
  read_units g = elim g.units [ some units ↦ g | none ↦ choose_libraries (scan_new g) ]

  -- `self.search.pull(unit, files, library)`
  abbrev pub found_by : String → String → List FilePath × ℕ
  found_by name library = elim outside.find [ none ↦ ([], 0) | some find ↦ find name library ]

  unfoldable pub search_pull : String → String → Ghdl W → Bool × Ghdl W
  unfolding pull
  search_pull name library g =
      let (found, others) = found_by name library in
      let (added, (files, pulled)) = pull outside.resolve name found others g.files g.pulled in
      (added, record g { files = files; pulled = pulled })

  -- After a pull, everything is read again.
  abbrev pub after_pull : Ghdl W → Ghdl W
  after_pull g = read_units (record g { units = none; cache = [] })

  unfoldable pub pull_unit : String → String → Ghdl W → Bool × Ghdl W
  unfolding search_pull read_units any
  pull_unit library unit g = elim (is_scanned unit g.scan) [
    | true ↦ (false, g)
    | false ↦
        let (added, g1) = search_pull unit library g in
        elim added [ false ↦ (false, g1) | true ↦ (true, after_pull g1) ]
  ]

  -- The loop of `_pull_needed`. The list that it pops from the end of stands here the other way
  -- round; `none` is that the fuel ran out.
  unfoldable pub pull_loop :
      ℕ → List (String × String) → List String → Bool → Ghdl W → Option (Bool × Ghdl W)
  unfolding pull_unit flat_map filter
  pull_loop zero pending seen pulled g = none
  pull_loop (suc fuel) [] seen pulled g = some (pulled, g)
  pull_loop (suc fuel) ((library, unit) ∷ pending) seen pulled g = elim (contains seen unit) [
    | true ↦ pull_loop fuel pending seen pulled g
    | false ↦
        let (added, g1) = pull_unit library unit g in
        let refs = flat_map (refs_for unit) (values g1.scan) in
        pull_loop fuel (reverse refs ++ pending) (unit ∷ seen) (added || pulled) g1
  ]

  -- `_pull_needed`
  unfoldable pub pull_needed : ℕ → List String → Ghdl W → Option (Bool × Ghdl W)
  unfolding pull_loop
  pull_needed fuel names g = elim outside.find [
    | none ↦ some (false, g)
    | some find ↦ pull_loop fuel (pending_of names) [] false g
  ]

  -- `provide`
  unfoldable pub provide : ℕ → String → Ghdl W → Option (Bool × Ghdl W)
  unfolding pull_needed
  provide fuel name g = elim (found_by name "").0 [
    | [] ↦ some (false, g)
    | _ ∷ _ ↦ elim (pull_needed fuel (name ∷ []) g) [
      | none ↦ none
      | some (pulled, g1) ↦ some (true, record g1 { units = none })
    ]
  ]
