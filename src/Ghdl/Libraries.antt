-- ===== src/Ghdl/Libraries.antt =====
-- `assign_libraries` and what it calls, plugins/svhier-ghdl/src/svhier_ghdl/__init__.py: a library
-- for each file, from how the files refer to each other.
pub mod Placed
pub mod Spread
use svhier.Base.{
  ℕ, zero, suc, String, ◌<>◌, Bool, true, false, not, ◌||◌, ◌&&◌, Option, none, some, List, [], ◌∷◌,
  ◌++◌, map,
}
use svhier.Base.{◌==◌, contains, string_eq, list_eq, option_eq, if◌then◌else◌}
use svhier.Base.Dict.{Dict, keys, values, lookup, insert, set_default, update, get_or}
use svhier.Base.Lists.{filter, any, flat_map, add_if_new}
use svhier.Base.Text.{lower, sort, string_le}
use svhier.Libsearch.Paths.{FilePath, path_of, drop_end}

-- What the worker reports of a file.
pub record Scan : Type 0 where
  pub units : List String
  pub arch_of : List String
  pub refs : List (String × String)
  pub libs : List String

-- `Path(p).parent`
abbrev pub parent_of : String → FilePath
parent_of p = drop_end 1 (path_of p)

-- `library in (p.lower() for p in Path(c).parent.parts)`
abbrev pub is_below : String → String → Bool
is_below library c = contains (map lower (parent_of c)) library

abbrev pub several_note : String → String → String → String
several_note name library c =
    "several files define " <> name <> " for library " <> library <> "; using " <> c

-- `_pick_named`, for the candidates `first ∷ more`, and the notes after it.
unfoldable pub pick_named :
    String → String → String → List String → List String → String × List String
pick_named name library first [] notes = (first, notes)
pick_named name library first (second ∷ more) notes =
    elim (filter (is_below library) (first ∷ second ∷ more)) [
      | near ∷ _ ↦ (near, notes)
      | [] ↦ (first, add_if_new notes (several_note name library first))
    ]

unfoldable pub find_placed : List String → Option String → Dict String String → Option String
find_placed [] library placed = none
find_placed (c ∷ candidates) library placed =
    let rest = find_placed candidates library placed in
    elim (lookup c placed) [
      | none ↦ rest
      | some place ↦ if some place == library then some c else rest
    ]

abbrev pub only_one : List String → Option String
only_one [] = none
only_one (c ∷ []) = some c
only_one (_ ∷ _ ∷ _) = none

unfoldable pub pick_near : String → List String → Dict String String → Option String
unfolding find_placed
pick_near path candidates placed = elim (filter (λ c. parent_of c == parent_of path) candidates) [
  | near ∷ _ ↦ some near
  | [] ↦ find_placed candidates (lookup path placed) placed
]

-- `_pick_local`
unfoldable pub pick_local : String → List String → Dict String String → Option String
unfolding pick_near
pick_local path candidates placed =
    if contains candidates path then some path else elim (only_one candidates) [
      | some only ↦ some only
      | none ↦ pick_near path candidates placed
    ]

abbrev pub both_note : String → String → String → String
both_note target first second =
    target <> " is referenced as part of both " <> first <> " and " <> second <> "; using " <> first

-- One reference of `_place_named`; `candidates` define its unit.
unfoldable pub place_ref :
    String
    → String
    → List String
    → Dict String String × List String
    → Dict String String × List String
unfolding pick_named
place_ref library unit [] (placed, notes) = (placed, notes)
place_ref library unit (first ∷ more) (placed, notes) =
    let (target, notes1) = pick_named unit library first more notes in
    let known = get_or target library placed in
    (
      set_default target library placed,
      if known == library then notes1 else add_if_new notes1 (both_note target known library),
    )

unfoldable pub place_refs :
    List String
    → Dict String (List String)
    → List (String × String)
    → Dict String String × List String
    → Dict String String × List String
unfolding place_ref
place_refs declared definers [] state = state
place_refs declared definers ((library, unit) ∷ refs) state = place_refs declared definers refs (
    if contains declared (lower library)
    then place_ref (lower library) (lower unit) (get_or (lower unit) [] definers) state
    else state)

-- `_place_named`
abbrev pub declared_libs : Dict String Scan → List String
declared_libs scan =
    filter (λ l. not (l == "work"))
      (flat_map (λ (entry : Scan). map lower entry.libs) (values scan))

abbrev pub refs_of : Dict String Scan → String → List (String × String)
refs_of scan path = elim (lookup path scan) [ none ↦ [] | some entry ↦ entry.refs ]

unfoldable pub place_files :
    Dict String Scan
    → Dict String (List String)
    → List String
    → Dict String String × List String
    → Dict String String × List String
unfolding place_refs
place_files scan definers [] state = state
place_files scan definers (path ∷ paths) state =
    place_files scan definers paths
      (place_refs (declared_libs scan) definers (refs_of scan path) state)

-- The units that `_spread_local` follows from a file.
abbrev pub linked : Dict String Scan → String → List String
linked scan path = elim (lookup path scan) [
  | none ↦ []
  | some entry ↦
      map (λ (r : String × String). lower r.1)
        (filter (λ (r : String × String). lower r.0 == "work") entry.refs)
      ++ map lower entry.arch_of
]

-- The libraries of two files that share one; whether that placed a file.
unfoldable pub share : String → String → Dict String String → Bool × Dict String String
share path target placed = elim (lookup path placed) [
  | some library ↦ elim (lookup target placed) [
    | none ↦ (true, insert target library placed)
    | some _ ↦ (false, placed)
  ]
  | none ↦ elim (lookup target placed) [
    | some library ↦ (true, insert path library placed)
    | none ↦ (false, placed)
  ]
]

abbrev pub target_of :
    Dict String (List String) → String → String → Dict String String → Option String
target_of definers path unit placed = elim (lookup unit definers) [
  | none ↦ none
  | some candidates ↦ pick_local path candidates placed
]

unfoldable pub spread_unit :
    Dict String (List String) → String → String → Dict String String → Bool × Dict String String
unfolding share pick_local
spread_unit definers path unit placed = elim (target_of definers path unit placed) [
  | none ↦ (false, placed)
  | some target ↦ if target == path then (false, placed) else share path target placed
]

unfoldable pub spread_units :
    Dict String (List String)
    → String
    → List String
    → Dict String String
    → Bool × Dict String String
unfolding spread_unit
spread_units definers path [] placed = (false, placed)
spread_units definers path (unit ∷ units) placed =
    let (here, placed1) = spread_unit definers path unit placed in
    let (later, placed2) = spread_units definers path units placed1 in (here || later, placed2)

unfoldable pub spread_files :
    Dict String Scan
    → Dict String (List String)
    → List String
    → Dict String String
    → Bool × Dict String String
unfolding spread_units
spread_files scan definers [] placed = (false, placed)
spread_files scan definers (path ∷ paths) placed =
    let (here, placed1) = spread_units definers path (linked scan path) placed in
    let (later, placed2) = spread_files scan definers paths placed1 in (here || later, placed2)

-- The `while` loop of `_spread_local`; `none` means that the fuel ran out.
unfoldable pub spread_local :
    ℕ
    → Dict String Scan
    → Dict String (List String)
    → Dict String String
    → Option (Dict String String)
unfolding spread_files
spread_local zero scan definers placed = none
spread_local (suc fuel) scan definers placed =
    let (changed, placed1) = spread_files scan definers (sort string_le (keys scan)) placed in
    elim changed [ true ↦ spread_local fuel scan definers placed1 | false ↦ some placed1 ]

unfoldable pub define_units :
    String → List String → Dict String (List String) → Dict String (List String)
define_units path [] definers = definers
define_units path (unit ∷ units) definers =
    define_units path units (update (lower unit) [] (λ paths. paths ++ path ∷ []) definers)

abbrev pub units_in : Dict String Scan → String → List String
units_in scan path = elim (lookup path scan) [ none ↦ [] | some entry ↦ entry.units ]

unfoldable pub define_files :
    Dict String Scan → List String → Dict String (List String) → Dict String (List String)
unfolding define_units
define_files scan [] definers = definers
define_files scan (path ∷ paths) definers =
    define_files scan paths (define_units path (units_in scan path) definers)

unfoldable pub assign_libraries :
    ℕ → Dict String Scan → String → Option (Dict String String × List String)
unfolding spread_local place_files define_files
assign_libraries fuel scan default =
    let paths = sort string_le (keys scan) in
    let definers = define_files scan paths [] in
    let (placed, notes) = place_files scan definers paths ([], []) in
    elim (spread_local fuel scan definers placed) [
      | none ↦ none
      | some spread ↦ some (map (λ path. (path, get_or path default spread)) (keys scan), notes)
    ]
