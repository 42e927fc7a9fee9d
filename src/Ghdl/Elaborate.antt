-- ===== src/Ghdl/Elaborate.antt =====
-- `elaborate` of plugins/svhier-ghdl/src/svhier_ghdl/__init__.py: all roots are elaborated again while
-- `-y` has a file for what they left unbound. How all roots are elaborated is a parameter,
-- `elaborate_all` of Collect.
pub mod Cache
pub mod Ends
pub mod Left
pub mod More
pub mod Total
use svhier.Base.{
  ℕ, zero, suc, String, Bool, true, false, not, ◌||◌, ◌&&◌, Option, none, some, List, [], ◌∷◌, ◌++◌,
  map,
}
use svhier.Base.{contains, string_eq, if◌then◌else◌}
use svhier.Base.Dict.{Dict, keys, values}
use svhier.Base.Lists.{filter, flat_map, dedupe}
use svhier.Base.Text.{lower, sort, string_le}
use svhier.Result.{Fragment}
use svhier.Frontends.{Root, Request}
use svhier.Ghdl.Instances.{ForeignDef, Defs}
use svhier.Ghdl.Frontend.{FileScan, Outside, Ghdl, read_units, units_of, pull_needed}
use svhier.Ghdl.Collect.{Collected}
use svhier.Ghdl.Fragments.{to_fragment}

-- The names of instances that have no definition here or elsewhere, sorted.
abbrev pub child_names : Defs → List String
child_names defs =
    flat_map (λ (d : ForeignDef). map (λ (i : String × String). i.0) d.insts) (values defs)

abbrev pub is_unbound : Defs → List String → String → Bool
is_unbound defs elsewhere m = not (contains (keys defs) m) && not (contains elsewhere m)

unfoldable pub unbound_of : Defs → List String → List String
unfolding flat_map filter dedupe
unbound_of defs elsewhere =
    sort string_le (filter (is_unbound defs elsewhere) (dedupe (child_names defs)))

abbrev pub is_failed_top : List String → Defs → Root → Bool
is_failed_top known defs r =
    r.requested && contains known (lower r.name) && not (contains (keys defs) (lower r.name))

abbrev pub failed_tops_of : Request → List String → Defs → List String
failed_tops_of request known defs =
    map (λ (r : Root). r.name) (filter (is_failed_top known defs) request.roots)

abbrev pub all_units : Dict String FileScan → List String
all_units scan = flat_map (λ (e : FileScan). e.units) (values scan)

module _ {W : Type 0} where
  abbrev pub first_names : Request → Ghdl W → List String
  first_names request g =
      let names = map (λ (r : Root). r.name) request.roots in
      if request.auto then names ++ all_units g.scan else names

module _ {W : Type 0} (outside : Outside W) where
  abbrev pub finish : Request → Collected → Ghdl W → Fragment × Ghdl W
  finish request c g =
      let fragment = to_fragment outside.resolve request.auto c g in
      let g1 = read_units outside g in
      (record fragment { failed_tops = failed_tops_of request (keys (units_of g1)) c.defs }, g1)

module _ {W : Type 0} (outside : Outside W)
    (elaborate_all : Request → Ghdl W → Option Collected × Ghdl W) (pull_fuel : ℕ) where
  -- The loop of `elaborate`; `none` is an exception, or that the fuel ran out.
  unfoldable pub elaborate_loop : ℕ → Request → Ghdl W → Option (Fragment × Ghdl W)
  unfolding pull_needed unbound_of to_fragment
  elaborate_loop zero request g = none
  elaborate_loop (suc fuel) request g =
      let (made, g1) = elaborate_all request g in
      elim made [
        | none ↦ none
        | some c ↦
            elim (pull_needed outside pull_fuel (unbound_of c.defs request.defined_elsewhere) g1) [
              | none ↦ none
              | some (pulled, g2) ↦ elim pulled [
                | true ↦ elaborate_loop fuel request g2
                | false ↦ some (finish outside request c g2)
              ]
            ]
      ]

  -- `elaborate`
  unfoldable pub elaborate : ℕ → Request → Ghdl W → Option (Fragment × Ghdl W)
  unfolding elaborate_loop flat_map read_units
  elaborate fuel request g =
      let g1 = read_units outside g in
      elim (pull_needed outside pull_fuel (first_names request g1) g1) [
        | none ↦ none
        | some (pulled, g2) ↦ elaborate_loop fuel request g2
      ]
