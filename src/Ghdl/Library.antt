-- ===== src/Ghdl/Library.antt =====
-- `VhdlLibrary` of plugins/svhier-ghdl/src/svhier_ghdl/__init__.py: the files under `-y` by the units
-- that they define. Searching directories, reading files and the two regular expressions lie
-- outside: a source is its path with the names that they find in it.
pub mod Best
use text.Mathlib.Text.{starts_with}
use svhier.Base.{
  ℕ, String, Bool, true, false, not, ◌&&◌, ◌||◌, Option, none, some, List, [], ◌∷◌, map,
}
use svhier.Base.{◌==◌, contains, string_eq, list_eq, pair_eq}
use svhier.Base.Dict.{Dict, get_or}
use svhier.Base.Lists.{length, filter, dedupe}
use svhier.Base.Order.{by_test, by_number}
use svhier.Base.Text.{lower, sort, string_le}
use svhier.Libsearch.{add_names}
use svhier.Libsearch.Paths.{FilePath, stem, drop_end, path_text}

pub record VhdlLibrary : Type 0 where
  pub primary : Dict String (List FilePath)
  pub secondary : Dict String (List FilePath)

-- The names of the primary and of the secondary units of a file that can be read.
abbrev pub VhdlSource : Type 0
VhdlSource = FilePath × Option (List String × List String)

unfoldable pub add_vhdl_sources : List VhdlSource → VhdlLibrary → VhdlLibrary
unfolding add_names dedupe
add_vhdl_sources [] library = library
add_vhdl_sources ((path, none) ∷ sources) library = add_vhdl_sources sources library
add_vhdl_sources ((path, some (primary, secondary)) ∷ sources) library =
    add_vhdl_sources sources (record {
      primary = add_names path (dedupe (map lower primary)) library.primary;
      secondary = add_names path (dedupe (map lower secondary)) library.secondary;
    })

-- `__init__`
abbrev pub build_vhdl_library : List VhdlSource → VhdlLibrary
build_vhdl_library sources = add_vhdl_sources sources (record { primary = []; secondary = [] })

-- `bool(library)`
abbrev pub has_units : VhdlLibrary → Bool
has_units library = not (library.primary == [])

abbrev pub parent : FilePath → FilePath
parent p = drop_end 1 p

-- The parts of `rank(path)`, and their order.
abbrev pub is_elsewhere : String → FilePath → Bool
is_elsewhere scope p = not (contains (map lower (parent p)) scope)

abbrev pub is_other_stem : String → FilePath → Bool
is_other_stem name p = not (lower (stem p) == name)

abbrev pub is_no_start : String → FilePath → Bool
is_no_start name p = not (starts_with name (lower (stem p)))

abbrev pub text_le : FilePath → FilePath → Bool
text_le p q = string_le (path_text p) (path_text q)

abbrev pub vhdl_rank_le : String → String → FilePath → FilePath → Bool
vhdl_rank_le name scope =
    by_test (is_elsewhere scope)
      (by_test (is_other_stem name) (by_test (is_no_start name) (by_number length text_le)))

abbrev pub is_beside : FilePath → FilePath → Bool
is_beside best p = parent p == parent best && not (p == best)

abbrev pub candidates_of : VhdlLibrary → String → List FilePath
candidates_of library name = get_or (lower name) [] library.primary

-- What `find` makes of the candidates in their order.
abbrev pub choose : VhdlLibrary → String → List FilePath → List FilePath × ℕ
choose library name [] = ([], 0)
choose library name (best ∷ others) =
    (best ∷ filter (is_beside best) (get_or (lower name) [] library.secondary), length others)

-- `find`
unfoldable pub find_units : VhdlLibrary → String → String → List FilePath × ℕ
unfolding filter stem drop_end path_text
find_units library name scope =
    choose library name (sort (vhdl_rank_le (lower name) scope) (candidates_of library name))
