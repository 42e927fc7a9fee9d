-- ===== src/Tests/Frontend.antt =====
-- The GHDL frontend, plugins/svhier-ghdl/src/svhier_ghdl/__init__.py, on one design file and a library
-- with one file.
use svhier.Base.{
  ℕ, ◌+◌, String, ◌<>◌, true, false, not, ◌&&◌, Option, none, some, List, [], ◌∷◌, map, ◌≡◌, ◌≢◌,
  ◌↔◌, refl, arith, inl, inr, Bool-cases,
}
use svhier.Base.{◌==◌, contains, nat_eq, string_eq, list_eq, pair_eq, if◌then◌else◌}
use svhier.Base.Dict.{Dict, keys, lookup, insert, update, values, get_or}
use svhier.Base.Lists.{All, filter, any, flat_map, dedupe, add_unique, add_if_new}
use svhier.Base.Text.{lower, lower_char, sort, insert_sorted}
use svhier.Frontends.{Root}
use svhier.Result.{Duplicate}
use svhier.Libsearch.{pull}
use svhier.Ghdl.Frontend.{
  FileScan, Elaboration, Outside, Ghdl, search_pull, pull_unit, pull_loop, pull_needed,
}
use svhier.Ghdl.Frontend.Pulls.{IsClosed, pull_needed-IsClosed}
use svhier.Ghdl.Frontend.Pulls.Fuel.{Names}
use svhier.Ghdl.Collect.{
  Collected, nothing_collected, collect, merge_defs, merge_deps, merge_uses, cached, run, run_roots,
}
use svhier.Ghdl.Collect.Ran.{IsCurrent, IsCollected, run_roots-IsCollected}
use svhier.Ghdl.Instances.{ForeignDef}
use svhier.Ghdl.Errors.{note_units, note_scans, report_units, duplicates}
use svhier.Ghdl.Errors.Duplicated.{Has, dup_of, files_with, duplicates-files_with}
use svhier.Ghdl.Fragments.{to_fragment}
use svhier.Ghdl.Fragments.Unresolved.{entry_wants, to_fragment-missing}

abbrev top_scan : FileScan
top_scan = record {
  units = "top" ∷ [];
  entities = "top" ∷ [];
  arch_of = "top" ∷ [];
  libs = [];
  refs = ("work", "util") ∷ [];
  named = ("work", "util") ∷ [];
}

abbrev util_scan : FileScan
util_scan = record {
  units = "util" ∷ [];
  entities = [];
  arch_of = [];
  libs = [];
  refs = [];
  named = ("ieee", "numeric_std") ∷ [];
}

-- Only `util` is under `-y`; the world counts the scans.
abbrev scans : String → Option FileScan
scans path = if path == "lib/util.vhd" then some util_scan else none

abbrev pub outside : Outside ℕ
outside = record {
  resolve = λ p. p;
  scan = λ files w. (scans, w + 1);
  find =
      some
        (λ name library. if name == "util" then (("lib" ∷ "util.vhd" ∷ []) ∷ [], 0) else ([], 0));
}

abbrev pub state : Ghdl ℕ
state = record {
  world = 0;
  work = "work";
  files = "top.vhd" ∷ [];
  units = some (("top", "top.vhd") ∷ []);
  definers = ("top", "top.vhd" ∷ []) ∷ [];
  libraries = ("top.vhd", "work") ∷ [];
  notes = [];
  alone_notes = [];
  cache = [];
  scan = ("top.vhd", top_scan) ∷ [];
  pulled = [];
}

-- The same, with `util` read.
abbrev pub complete : Ghdl ℕ
complete = record state {
  files = "top.vhd" ∷ "lib/util.vhd" ∷ [];
  scan = ("top.vhd", top_scan) ∷ ("lib/util.vhd", util_scan) ∷ [];
}

nothing_pulled : pull_needed outside 5 ("Top" ∷ "none" ∷ []) complete ≡ some (false, complete)
unfolding pull_needed pull_loop pull_unit search_pull pull any flat_map filter values lower
    lower_char string_eq nat_eq
nothing_pulled = refl

pub some_library : outside.find ≢ none
some_library h = cc

pull_needed-IsClosed_example :
    (complete ≡ complete)
    × (units : List String) × IsClosed outside complete units
    × ((n : String) → contains (map lower ("Top" ∷ "none" ∷ [])) n ≡ true → contains units n ≡ true)
pull_needed-IsClosed_example =
    pull_needed-IsClosed outside 5 ("Top" ∷ "none" ∷ []) complete complete some_library
      nothing_pulled

abbrev pub names : List String
names = "top" ∷ "util" ∷ "core" ∷ "numeric_std" ∷ []

top_named : Names names top_scan
top_named u h = ground arith

util_named : Names names util_scan
util_named u h = ground arith

pub answers_known :
    (files : List String) (w : ℕ) (path : String) (e : FileScan)
    → (outside.scan files w).0 path ≡ some e
    → Names names e
unfolding string_eq
answers_known files w path e h = elim (Bool-cases (path == "lib/util.vhd")) [
  | inl same ↦
      let found : some util_scan ≡ some e = rw same at h in
      let same_scan : util_scan ≡ e = cc in rw (← same_scan) util_named
  | inr other ↦ absurd (cc (rw other at h))
]

pub state_known : All (Names names) (values state.scan)
unfolding values
state_known = (top_named, tt)

-- What one run reports.
abbrev pub core_run : Elaboration
core_run = record {
  defs = record { name = "top"; file = some "top.vhd"; insts = ("core", "u") ∷ []; uses = [] } ∷ [];
  file_deps = ("top.vhd", []) ∷ [];
  errors = [];
  notes = [];
  unset = [];
}

abbrev pub run_one : String → Dict String String → Ghdl ℕ → Option Elaboration × Ghdl ℕ
run_one top generics g = (some core_run, g)

abbrev pub top_root : Root
top_root = record { name = "Top"; generics = []; requested = true }

abbrev pub collected : Collected
collected = record nothing_collected {
  defs =
      ("top", record { name = "top"; file = some "top.vhd"; insts = ("core", "u") ∷ []; uses = [] })
      ∷ [];
  file_deps = ("top.vhd", []) ∷ [];
}

-- A run whose instance is named for the width that is passed.
abbrev wide_def : String → ForeignDef
wide_def width = record {
  name = "top";
  file = some "top.vhd";
  insts = ("core", "u" <> width) ∷ [];
  uses = [];
}

abbrev wide_run : String → Elaboration
wide_run width = record core_run { defs = wide_def width ∷ [] }

abbrev run_wide : String → Dict String String → Ghdl ℕ → Option Elaboration × Ghdl ℕ
run_wide top generics g = (some (wide_run (get_or "w" "" generics)), g)

-- The same entity with two widths.
abbrev wide_root : String → Root
wide_root width = record { name = "Top"; generics = ("w", width) ∷ []; requested = true }

abbrev both_widths : Collected
both_widths = record nothing_collected {
  defs = ("top", record (wide_def "4") { insts = ("core", "u4") ∷ ("core", "u8") ∷ [] }) ∷ [];
  file_deps = ("top.vhd", []) ∷ [];
}

abbrev after_runs : Ghdl ℕ
after_runs = record state {
  cache = (("top", ("w", "4") ∷ []), wide_run "4") ∷ (("top", ("w", "8") ∷ []), wide_run "8") ∷ [];
}

two_runs :
    run_roots run_wide (wide_root "4" ∷ wide_root "8" ∷ []) nothing_collected state
    ≡ (some both_widths, after_runs)
unfolding run_roots run cached collect merge_defs merge_deps merge_uses lookup insert update
    add_unique add_if_new sort insert_sorted lower lower_char string_eq list_eq pair_eq nat_eq
two_runs = refl

nothing_cached : IsCurrent run_wide ("top.vhd" ∷ []) state
unfolding lookup
nothing_cached = (refl, λ name generics result h. absurd (cc))

run_roots-IsCollected_example :
    All
      (IsCollected run_wide ("top.vhd" ∷ []) (λ t gs g. refl) (λ t gs g. refl) both_widths)
      (wide_root "4" ∷ wide_root "8" ∷ [])
run_roots-IsCollected_example =
    run_roots-IsCollected run_wide ("top.vhd" ∷ []) (λ t gs g. refl) (λ t gs g. refl)
      (wide_root "4" ∷ wide_root "8" ∷ []) nothing_collected both_widths state after_runs
      nothing_cached two_runs

-- Two files of one library define `util`.
abbrev twice : Dict String FileScan
twice = ("a.vhd", util_scan) ∷ ("top.vhd", top_scan) ∷ ("b.vhd", util_scan) ∷ []

abbrev definers : Dict String (List String)
definers = ("top", "top.vhd" ∷ []) ∷ []

abbrev util_dup : Duplicate
util_dup = dup_of ("top" ∷ []) "util" "a.vhd" "b.vhd" []

two_files : duplicates [] "work" twice definers ≡ util_dup ∷ []
unfolding duplicates note_scans note_units report_units dedupe add_unique add_if_new keys lookup
    update lower lower_char string_eq pair_eq nat_eq
two_files = refl

duplicates-files_with_example : Has (duplicates [] "work" twice definers) util_dup ↔ (
    (library name first second : String) × (more : List String) × (files_with [] "work" library name
        twice
      ≡ first ∷ second ∷ more)
    × (util_dup ≡ dup_of (keys definers) name first second more))
duplicates-files_with_example = duplicates-files_with [] "work" twice definers util_dup

to_fragment-missing_example :
    contains
      (get_or "core" [] (get_or "modules" [] (to_fragment (λ p. p) false collected state).missing))
      "top.vhd"
    ≡ (not (contains (keys collected.defs) "core")
        && entry_wants "top.vhd" "core" (to_fragment (λ p. p) false collected state).files)
to_fragment-missing_example = to_fragment-missing (λ p. p) false collected state "top.vhd" "core"
