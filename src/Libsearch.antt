-- ===== src/Libsearch.antt =====
-- src/svhier/libsearch.py: definitions and headers from library directories. `resolve` is
-- `Path.resolve`, and `Files` what the file system and the regular expression for definitions give;
-- both lie outside of the program.
pub mod Paths
pub mod Includes
pub mod Pull
use Prim.Native.Nat.{Ordering, compare as compare_ℕ}
use text.Mathlib.Text.{starts_with}
use svhier.Base.{
  ℕ, suc, ◌-◌, String, Bool, true, false, not, ◌||◌, ◌&&◌, Option, none, some, List, [], ◌∷◌, ◌++◌,
  map,
}
use svhier.Base.{◌==◌, contains, string_eq, list_eq, pair_eq, if◌then◌else◌}
use svhier.Base.Dict.{Dict, keys, lookup, insert, update, get_or}
use svhier.Base.Lists.{length, filter, any, flat_map, dedupe, add_unique}
use svhier.Base.Text.{lower, sort, string_le, leb}
use svhier.Result.{Missing}
use svhier.Libsearch.Paths.{
  FilePath, path_of, path_text, stem, last_part, is_absolute, drop_end, take_end,
}

abbrev pub def_kinds : List String
def_kinds = "modules" ∷ "interfaces" ∷ "packages" ∷ []

-- `LibraryIndex`: the files by the names that they define, and the headers.
pub record LibraryIndex : Type 0 where
  pub defs : Dict String (List FilePath)
  pub headers : List FilePath

-- The names of a source, or `none` where it cannot be read.
abbrev pub Source : Type 0
Source = FilePath × Option (List String)

unfoldable pub add_names :
    FilePath → List String → Dict String (List FilePath) → Dict String (List FilePath)
add_names f [] defs = defs
add_names f (name ∷ names) defs = add_names f names (update name [] (λ files. files ++ f ∷ []) defs)

-- The loop over the sources that are not ignored.
unfoldable pub add_sources : List Source → Dict String (List FilePath) → Dict String (List FilePath)
unfolding add_names dedupe
add_sources [] defs = defs
add_sources ((f, none) ∷ sources) defs = add_sources sources defs
add_sources ((f, some names) ∷ sources) defs = add_sources sources (add_names f (dedupe names) defs)

unfoldable pub build_index : List Source → List FilePath → LibraryIndex
unfolding add_sources
build_index sources headers = record { defs = add_sources sources []; headers = headers }

-- `_rank(name, p) <= _rank(name, q)`, where `False` comes before `True`.
abbrev pub test_le : Bool → Bool → Bool → Bool
test_le p q rest = if p then q && rest else q || rest

unfoldable pub rank_le : String → FilePath → FilePath → Bool
unfolding stem path_text
rank_le name p q = test_le (not (stem p == name)) (not (stem q == name)) (
    test_le (not (starts_with name (stem p))) (not (starts_with name (stem q)))
      (elim (compare_ℕ (length p) (length q)) [
        | Ordering.lt ↦ true
        | Ordering.eq ↦ string_le (path_text p) (path_text q)
        | Ordering.gt ↦ false
      ]))

unfoldable pub find_definition : LibraryIndex → String → List FilePath
unfolding rank_le
find_definition index name = sort (rank_le name) (get_or name [] index.defs)

-- `bool(index)`
abbrev pub has_entries : LibraryIndex → Bool
has_entries index = not (index.defs == [] && index.headers == [])

abbrev pub spellings_of : LibraryIndex → String → List String
spellings_of index name = filter (λ n. lower n == lower name) (keys index.defs)

-- `spellings[0]` is only read where there is one.
abbrev pub first_of : List String → String → String
first_of [] name = name
first_of (n ∷ _) name = n

-- `find`, for names from languages that do not tell case apart.
unfoldable pub find : LibraryIndex → String → List FilePath × ℕ
unfolding rank_le
find index name =
    let spellings = spellings_of index name in
    let candidates =
      sort (rank_le (first_of spellings name)) (flat_map (λ n. get_or n [] index.defs) spellings) in
    elim candidates [ [] ↦ ([], 0) | best ∷ others ↦ (best ∷ [], length others) ]

-- The shortest path, and of those the first by text.
abbrev pub header_le : FilePath → FilePath → Bool
header_le p q = elim (compare_ℕ (length p) (length q)) [
  | Ordering.lt ↦ true
  | Ordering.eq ↦ string_le (path_text p) (path_text q)
  | Ordering.gt ↦ false
]

-- `min(matches, key=...)`, where `best` came first.
unfoldable pub min_header : FilePath → List FilePath → FilePath
min_header best [] = best
min_header best (h ∷ hs) = min_header (if header_le best h then best else h) hs

abbrev pub is_match : List String → FilePath → Bool
is_match parts h = take_end (length parts) h == parts && not (leb (length h) (length parts))

-- `_files_named` is an argument: a search of the directories, whose result is kept.
unfoldable pub find_include_dir : (String → List FilePath) → String → Option FilePath
find_include_dir files_named include =
    let parts = path_of include in
    if parts == [] || (is_absolute parts || contains parts "..")
    then none
    else elim (filter (is_match parts) (files_named (last_part parts))) [
      | [] ↦ none
      | h ∷ hs ↦ some (drop_end (length parts) (min_header h hs))
    ]

-- `resolve_missing`
module _ (resolve : FilePath → FilePath) where
  abbrev pub resolved : List String → List FilePath
  resolved files = map (λ f. resolve (path_of f)) files

  abbrev pub is_had : List FilePath → List FilePath → Bool
  is_had had candidates = any (λ c. contains had (resolve c)) candidates

  unfoldable pub resolve_names :
      LibraryIndex
      → List FilePath
      → List String
      → Dict String (FilePath × ℕ)
      → Dict String (FilePath × ℕ)
  unfolding find_definition
  resolve_names index had [] files = files
  resolve_names index had (name ∷ names) files = elim (find_definition index name) [
    | [] ↦ resolve_names index had names files
    | best ∷ others ↦
        resolve_names index had names
          (if is_had had (best ∷ others) then files else insert name (best, length others) files)
  ]

  unfoldable pub resolve_includes :
      (String → List FilePath)
      → List FilePath
      → List String
      → Dict String FilePath
      → Dict String FilePath
  unfolding find_include_dir
  resolve_includes files_named had [] dirs = dirs
  resolve_includes files_named had (include ∷ includes) dirs =
      elim (find_include_dir files_named include) [
        | none ↦ resolve_includes files_named had includes dirs
        | some d ↦
            resolve_includes files_named had includes
              (if contains had (resolve d) then dirs else insert include d dirs)
      ]

  abbrev pub wanted_names : Missing → List String
  wanted_names missing = flat_map (λ kind. keys (get_or kind [] missing)) def_kinds

  unfoldable pub resolve_missing :
      Missing
      → LibraryIndex
      → (String → List FilePath)
      → List String
      → List String
      → Dict String (FilePath × ℕ) × Dict String FilePath
  unfolding resolve_names resolve_includes
  resolve_missing missing index files_named have_files have_inc_dirs = (
    resolve_names index (resolved have_files) (wanted_names missing) [],
    resolve_includes files_named (resolved have_inc_dirs) (keys (get_or "includes" [] missing)) [],
  )

  -- `LibrarySearch.pull` for what `library.find` has returned: whether a file was added, the
  -- files, and what is recorded as pulled.
  abbrev pub is_new : List String → FilePath → Bool
  is_new files p = not (contains (resolved files) (resolve p))

  unfoldable pub pull :
      String
      → List FilePath
      → ℕ
      → List String
      → List (String × (FilePath × ℕ))
      → Bool × (List String × List (String × (FilePath × ℕ)))
  pull name [] others files pulled = (false, (files, pulled))
  pull name (best ∷ more) others files pulled = elim (filter (is_new files) (best ∷ more)) [
    | [] ↦ (false, (files, pulled))
    | new ∷ news ↦
        (true, (files ++ map path_text (new ∷ news), pulled ++ (name, (best, others)) ∷ []))
  ]
