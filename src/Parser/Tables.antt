-- ===== src/Parser/Tables.antt =====
-- `_defined_names`, `_find_duplicates`, `_build_file_entries`, `_collect_missing`,
-- `_strip_frontend_info` and the rounds of `_elaborate`, src/svhier/parser.py. What slang returns is
-- data: the definitions and packages by canonical file, and the diagnostics.
pub mod Duplicates
use svhier.Base.{
  ℕ, zero, suc, String, Bool, true, false, not, ◌||◌, ◌&&◌, Option, none, some, List, [], ◌∷◌, ◌++◌,
  map,
}
use svhier.Base.{◌==◌, contains, string_eq, pair_eq, if◌then◌else◌}
use svhier.Base.Dict.{Dict, keys, values, lookup, insert, set_default, update, get_or}
use svhier.Base.Lists.{length, filter, flat_map, add_if_new, dedupe}
use svhier.Base.Text.{sort, string_le, leb}
use svhier.Result.{Definition, FileEntry, Duplicate, Missing}
use svhier.Parser.Symbols.{Location, DefinitionSymbol}
use svhier.Parser.Walk.{Walk}
use svhier.Parser.Entries.{build_def_entry}

-- A kind and a name.
abbrev pub Item : Type 0
Item = String × String

-- `_Tables`
pub record Tables : Type 0 where
  pub modules : Dict String (List DefinitionSymbol)
  pub ifaces : Dict String (List DefinitionSymbol)
  pub pkgs : Dict String (List String)
  pub used : Dict Item String

abbrev pub tagged : String → List DefinitionSymbol → List Item
tagged kind defs = map (λ (d : DefinitionSymbol). (kind, d.name)) defs

unfoldable pub defined_names : Tables → String → List Item
defined_names tables canonical =
    tagged "module" (get_or canonical [] tables.modules)
    ++ (tagged "interface" (get_or canonical [] tables.ifaces)
        ++ map (λ n. ("package", n)) (get_or canonical [] tables.pkgs))

-- The loop over what one file defines.
unfoldable pub note_items : String → List Item → Dict Item (List String) → Dict Item (List String)
note_items canonical [] places = places
note_items canonical (item ∷ items) places =
    note_items canonical items (update item [] (λ files. add_if_new files canonical) places)

-- A loaded file: the name it is reported under and its canonical path.
abbrev pub Loaded : Type 0
Loaded = String × String

unfoldable pub note_files : Tables → List Loaded → Dict Item (List String) → Dict Item (List String)
unfolding note_items defined_names
note_files tables [] places = places
note_files tables ((_, canonical) ∷ files) places =
    note_files tables files (note_items canonical (defined_names tables canonical) places)

unfoldable pub names_of : List Loaded → Dict String String → Dict String String
names_of [] names = names
names_of ((file_name, canonical) ∷ files) names = names_of files (insert canonical file_name names)

-- `canonicals[-1]`, where there are some.
unfoldable pub last_of : String → List String → String
last_of c [] = c
last_of _ (c ∷ cs) = last_of c cs

-- The loop over the items; every canonical path has a name there.
unfoldable pub report : Tables → Dict String String → Dict Item (List String) → List Duplicate
unfolding last_of
report tables names [] = []
report tables names (((kind, name), canonicals) ∷ places) =
    let rest = report tables names places in
    let used = get_or (kind, name) (last_of "" canonicals) tables.used in
    if leb (length canonicals) 1
    then rest
    else record {
      name = name;
      kind = kind;
      files = map (λ c. get_or c c names) canonicals;
      used = get_or used used names;
    }
      ∷ rest

unfoldable pub find_duplicates : Tables → List Loaded → List Duplicate
unfolding report note_files names_of
find_duplicates tables files = report tables (names_of files []) (note_files tables files [])

-- `shadowed`: the names of which another copy is used, whatever their kind.
abbrev pub is_shadowed : Tables → String → Item → Bool
is_shadowed tables canonical item = not (get_or item canonical tables.used == canonical)

unfoldable pub shadowed_names : Tables → String → List String
unfolding defined_names dedupe
shadowed_names tables canonical = sort string_le (
    dedupe (
      map (λ (item : Item). item.1)
        (filter (is_shadowed tables canonical) (defined_names tables canonical))))

-- All packages and interfaces.
abbrev pub known_names : Tables → List String
known_names tables =
    flat_map (λ names. names) (values tables.pkgs)
    ++ flat_map (λ defs. map (λ (d : DefinitionSymbol). d.name) defs) (values tables.ifaces)

-- The entries of a file's modules, where every one has been built.
unfoldable pub build_defs :
    (Location → String) → Walk → List DefinitionSymbol → Option (List Definition)
build_defs canon walk [] = some []
build_defs canon walk (d ∷ ds) = elim (build_def_entry canon d walk) [
  | none ↦ none
  | some unit ↦ elim (build_defs canon walk ds) [ none ↦ none | some units ↦ some (unit ∷ units) ]
]

-- `syntax_refs` is what `_collect_syntax_refs` finds in the file's syntax tree.
unfoldable pub build_file_entry :
    (Location → String) → Walk → Tables → Loaded → List String → Option FileEntry
unfolding shadowed_names build_defs
build_file_entry canon walk tables (file_name, canonical) syntax_refs =
    let pkgs = get_or canonical [] tables.pkgs in
    let ifaces = map (λ (d : DefinitionSymbol). d.name) (get_or canonical [] tables.ifaces) in
    elim (build_defs canon walk (get_or canonical [] tables.modules)) [
      | none ↦ none
      | some defs ↦ some (record {
        file_name = file_name;
        library = none;
        pkgs = pkgs;
        ifaces = ifaces;
        shadowed = shadowed_names tables canonical;
        refs = sort string_le (
            dedupe (
              filter
                (λ r.
                  contains (known_names tables) r
                  && not (contains pkgs r)
                  && not (contains ifaces r))
                syntax_refs));
        depends_on = [];
        defs = defs;
      })
    ]

-- A diagnostic on something that is missing: its kind, the name, and where it stands, if anywhere.
pub record MissingDiag : Type 0 where
  pub kind : String
  pub name : String
  pub location : Option Location

-- `name.lstrip("`")` has been done for macros. The loop of `_collect_missing`.
abbrev pub add_user :
    (Location → String) → Dict String String → Option Location → List String → List String
add_user canon names none files = files
add_user canon names (some l) files = add_if_new files (get_or (canon l) (canon l) names)

unfoldable pub collect_missing :
    (Location → String) → Dict String String → List MissingDiag → Missing → Missing
collect_missing canon names [] missing = missing
collect_missing canon names (d ∷ diags) missing =
    collect_missing canon names diags
      (update d.kind [] (update d.name [] (add_user canon names d.location)) missing)
