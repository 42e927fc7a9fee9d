-- ===== src/Ghdl/Collect.antt =====
-- `_elaborate_all` of plugins/svhier-ghdl/src/svhier_ghdl/__init__.py: the worker runs for every
-- root, and what the runs report is put together. A run is a parameter, `elaborate_one` of Runs.
pub mod Merged
pub mod Ran
pub mod Within
use svhier.Base.{
  ℕ, zero, suc, String, ◌<>◌, Bool, true, false, not, ◌||◌, ◌&&◌, Option, none, some, List, [], ◌∷◌,
  ◌++◌, map, foldl,
}
use svhier.Base.{◌==◌, contains, string_eq, list_eq, pair_eq, if◌then◌else◌}
use svhier.Base.Dict.{Dict, keys, values, lookup, insert, set_default, update}
use svhier.Base.Lists.{flat_map, add_unique}
use svhier.Base.Text.{lower, sort, pair_le}
use svhier.Result.{UnitUse, add_use_if_new}
use svhier.Frontends.{Root, Request}
use svhier.Ghdl.Instances.{ForeignDef, Defs}
use svhier.Ghdl.Frontend.{Elaboration, Ghdl, units_of}

-- What the runs have reported so far; `soft` holds the runs that no root asked for.
pub record Collected : Type 0 where
  pub defs : Defs
  pub file_deps : Dict String (List String)
  pub errors : List String
  pub soft : Dict String Elaboration

abbrev pub nothing_collected : Collected
nothing_collected = record { defs = []; file_deps = []; errors = []; soft = [] }

unfoldable pub add_uses : List UnitUse → List UnitUse → List UnitUse
add_uses have [] = have
add_uses have (u ∷ uses) = add_uses (add_use_if_new have u) uses

unfoldable pub merge_uses :
    Dict String (List UnitUse) → Dict String (List UnitUse) → Dict String (List UnitUse)
unfolding add_uses
merge_uses have [] = have
merge_uses have ((name, uses) ∷ more) =
    merge_uses (update name [] (λ us. add_uses us uses) have) more

abbrev pub empty_def : String → Option String → ForeignDef
empty_def name file = record { name = name; file = file; insts = []; uses = [] }

abbrev pub merge_def : ForeignDef → ForeignDef → ForeignDef
merge_def new have = record have {
  insts = add_unique have.insts new.insts;
  uses = merge_uses have.uses new.uses;
}

unfoldable pub merge_defs : Defs → List ForeignDef → Defs
unfolding merge_uses
merge_defs defs [] = defs
merge_defs defs (new ∷ more) =
    merge_defs (update new.name (empty_def new.name new.file) (merge_def new) defs) more

unfoldable pub merge_deps :
    Dict String (List String) → Dict String (List String) → Dict String (List String)
merge_deps have [] = have
merge_deps have ((f, needs) ∷ more) = merge_deps (update f [] (λ ns. add_unique ns needs) have) more

-- What `run` does with a result.
unfoldable pub collect : String → Bool → Elaboration → Collected → Collected
unfolding merge_defs merge_deps
collect top is_soft result c = record {
  defs = merge_defs c.defs result.defs;
  file_deps = merge_deps c.file_deps result.file_deps;
  errors = if is_soft then c.errors else add_unique c.errors result.errors;
  soft = if is_soft then insert (lower top) result c.soft else c.soft;
}

abbrev pub cache_key : String → Dict String String → String × List (String × String)
cache_key top generics = (lower top, sort pair_le generics)

-- An entity that fails alone, and what is said of it.
abbrev pub joined : List String → String
joined [] = ""
joined (s ∷ rest) = s <> foldl (λ text t. text <> ", " <> t) "" rest

abbrev pub alone_note : String → List String → String
alone_note unit unset =
    unit
    <> ": no default for generics "
    <> joined unset
    <> ", so it can't be elaborated on its own and its children aren't shown"

-- `dict(root.generics)`
abbrev pub dict_of : List (String × String) → Dict String String
dict_of pairs = foldl (λ d (p : String × String). insert p.0 p.1 d) [] pairs

-- The names that some instance has.
abbrev pub reached_by : Defs → List String
reached_by defs =
    flat_map (λ (d : ForeignDef). map (λ (i : String × String). lower i.0) d.insts) (values defs)

module _ {W : Type 0}
    (elaborate_one : String → Dict String String → Ghdl W → Option Elaboration × Ghdl W) where
  -- A result from the cache, or one that is put there; `none` is an exception.
  unfoldable pub cached : String → Dict String String → Ghdl W → Option Elaboration × Ghdl W
  cached top generics g = elim (lookup (cache_key top generics) g.cache) [
    | some result ↦ (some result, g)
    | none ↦
        let (made, g1) = elaborate_one top generics g in
        elim made [
          | none ↦ (none, g1)
          | some result ↦
              (some result, record g1 { cache = insert (cache_key top generics) result g1.cache })
        ]
  ]

  -- `run`
  unfoldable pub run :
      String → Dict String String → Bool → Collected → Ghdl W → Option Collected × Ghdl W
  unfolding cached collect
  run top generics is_soft c g =
      let (made, g1) = cached top generics g in
      elim made [
        | none ↦ (none, g1)
        | some result ↦ (
          some (collect top is_soft result c),
          record g1 { notes = add_unique g1.notes result.notes },
        )
      ]

  unfoldable pub run_roots : List Root → Collected → Ghdl W → Option Collected × Ghdl W
  unfolding run
  run_roots [] c g = (some c, g)
  run_roots (root ∷ roots) c g =
      let (made, g1) = run root.name (dict_of root.generics) false c g in
      elim made [ none ↦ (none, g1) | some c1 ↦ run_roots roots c1 g1 ]

  -- With `auto`, each entity that nothing has reached is run too.
  unfoldable pub run_units : List String → Collected → Ghdl W → Option Collected × Ghdl W
  unfolding run
  run_units [] c g = (some c, g)
  run_units (unit ∷ units) c g = elim (contains (keys c.defs) unit) [
    | true ↦ run_units units c g
    | false ↦
        let (made, g1) = run unit [] true c g in
        elim made [ none ↦ (none, g1) | some c1 ↦ run_units units c1 g1 ]
  ]

-- One run that no root asked for, if it failed and no instance reached its entity.
abbrev pub is_blamed : List String → String → Elaboration → Bool
is_blamed reached unit result = not (contains reached unit) && not (result.errors == [])

unfoldable pub judge_soft :
    Dict String String
    → List String
    → Dict String Elaboration
    → Collected × List String
    → Collected × List String
judge_soft units reached [] (c, notes) = (c, notes)
judge_soft units reached ((unit, result) ∷ soft) (c, notes) = judge_soft units reached soft (
    if is_blamed reached unit result
    then (if result.unset == []
        then (record c { errors = add_unique c.errors result.errors }, notes)
        else (
          record c { defs = set_default unit (empty_def unit (lookup unit units)) c.defs },
          notes ++ alone_note unit result.unset ∷ [],
        ))
    else (c, notes))

module _ {W : Type 0}
    (elaborate_one : String → Dict String String → Ghdl W → Option Elaboration × Ghdl W) where
  -- `_elaborate_all`. `elaborate` has read the units before, so `units` only returns them.
  unfoldable pub elaborate_all : Request → Ghdl W → Option Collected × Ghdl W
  unfolding run_roots run_units judge_soft flat_map
  elaborate_all request g =
      let (made, g1) = run_roots elaborate_one request.roots nothing_collected g in
      elim made [
        | none ↦ (none, g1)
        | some c ↦
            let (made2, g2) =
              if request.auto
              then run_units elaborate_one (keys (units_of g1)) c g1
              else (some c, g1) in
            elim made2 [
              | none ↦ (none, g2)
              | some c2 ↦
                  let (c3, notes) =
                    judge_soft (units_of g2) (reached_by c2.defs) c2.soft (c2, []) in
                  (some c3, record g2 { alone_notes = notes })
            ]
      ]
