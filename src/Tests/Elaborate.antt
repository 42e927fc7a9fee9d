-- ===== src/Tests/Elaborate.antt =====
-- `elaborate` of the GHDL frontend, plugins/svhier-ghdl/src/svhier_ghdl/__init__.py, on the files of
-- Frontend.
use svhier.Base.{
  ℕ, String, Bool, true, false, Option, some, List, [], ◌∷◌, map, ◌≡◌, refl, arith, inl, inr,
  Bool-cases,
}
use svhier.Base.{◌==◌, ==_iff, contains, nat_eq, string_eq, list_eq, pair_eq}
use svhier.Base.Dict.{keys, lookup, values}
use svhier.Base.Lists.{filter, any, flat_map, dedupe, add_unique, add_if_new}
use svhier.Base.Text.{lower, lower_char, sort, insert_sorted}
use svhier.Frontends.{Request}
use svhier.Result.{Fragment}
use svhier.Libsearch.{pull}
use svhier.Ghdl.Frontend.{
  Ghdl, found_by, read_units, search_pull, pull_unit, pull_loop, pull_needed,
}
use svhier.Ghdl.Frontend.Pulls.Growth.{IsFrom}
use svhier.Ghdl.Elaborate.Ends.{elaborate_ends}
use svhier.Ghdl.Collect.Within.{CacheIn, RunIn}
use svhier.Libsearch.Paths.{FilePath, path_of, split_parts, cut, is_rooted, path_text, join_parts}
use svhier.Ghdl.Collect.{Collected, elaborate_all}
use svhier.Ghdl.Elaborate.{unbound_of, first_names, finish, elaborate_loop, elaborate}
use svhier.Ghdl.Elaborate.Left.{IsSettled, elaborate-IsSettled}
use svhier.Tests.Frontend.{
  core_run, outside, state, complete, collected, top_root, some_library, names, answers_known,
  state_known, run_one,
}

abbrev run_all : Request → Ghdl ℕ → Option Collected × Ghdl ℕ
run_all request g = (some collected, g)

abbrev ask_top : Request
ask_top = record { auto = false; roots = top_root ∷ []; defined_elsewhere = [] }

elaborated :
    elaborate outside run_all 5 1 ask_top complete
    ≡ some (finish outside ask_top collected complete)
unfolding elaborate elaborate_loop unbound_of pull_needed pull_loop pull_unit search_pull pull
    read_units any flat_map filter values keys dedupe add_unique add_if_new sort insert_sorted lower
    lower_char string_eq nat_eq
elaborated = refl

elaborate-IsSettled_example :
    (pulled : Bool) × (start : Ghdl ℕ) × (pull_needed outside 5
        (first_names ask_top (read_units outside complete))
        (read_units outside complete)
      ≡ some (pulled, start))
    × IsSettled outside run_all 5 ask_top start (finish outside ask_top collected complete)
elaborate-IsSettled_example =
    elaborate-IsSettled outside run_all 5 some_library 1 ask_top complete
      (finish outside ask_top collected complete) elaborated

abbrev library : List FilePath
library = ("lib" ∷ "util.vhd" ∷ []) ∷ []

util_path : path_of (path_text ("lib" ∷ "util.vhd" ∷ [])) ≡ "lib" ∷ "util.vhd" ∷ []
unfolding path_of is_rooted split_parts cut path_text join_parts filter string_eq nat_eq
util_path = refl

library_text : (p : FilePath) → contains library p ≡ true → path_of (path_text p) ≡ p
library_text p there =
    let same : (p == "lib" ∷ "util.vhd" ∷ []) ≡ true = ground (arith, there) in
    let e : p ≡ "lib" ∷ "util.vhd" ∷ [] = (==_iff p ("lib" ∷ "util.vhd" ∷ [])).0 same in
    rw e util_path

library_offers : (name scope : String) → IsFrom (λ p. p) library (found_by outside name scope).0
library_offers name scope p h = elim (Bool-cases (name == "util")) [
  | inl same ↦ let there : contains library p ≡ true = rw same at h in (there, library_text p there)
  | inr other ↦ absurd (cc (rw other at h))
]

run_known : RunIn names run_one
unfolding lower lower_char string_eq
run_known top generics g = (core_run, refl, ((refl, tt), tt), refl, refl, refl)

cache_known : CacheIn names state
unfolding lookup
cache_known k r h = absurd (cc)

roots_known :
    (u : String)
    → contains (map lower (first_names ask_top (read_units outside state))) u ≡ true
    → contains names u ≡ true
unfolding lower lower_char
roots_known u h = ground arith

elaborate_ends_example :
    (pull_fuel : ℕ) × (fuel : ℕ) × (result : Fragment × Ghdl ℕ) × (elaborate outside
        (elaborate_all run_one)
        pull_fuel
        fuel
        ask_top
        state
      ≡ some result)
elaborate_ends_example =
    elaborate_ends outside run_one names library answers_known library_offers run_known ask_top
      state state_known cache_known roots_known
