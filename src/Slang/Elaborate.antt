-- ===== src/Slang/Elaborate.antt =====
-- `SlangFrontend.elaborate` and what it calls, src/svhier/slang_frontend.py.
pub mod Plain
use text.Mathlib.Text.{find?}
use svhier.Base.{
  ℕ, zero, suc, String, ◌<>◌, Bool, true, false, not, ◌||◌, ◌&&◌, Option, none, some, List, [], ◌∷◌,
  ◌++◌, map, foldl,
}
use svhier.Base.{Eq, ◌==◌, contains, string_eq, list_eq, pair_eq, if◌then◌else◌}
use svhier.Base.Dict.{
  Dict, keys, values, lookup, insert, set_default, erase, update, get_or, or_default,
}
use svhier.Base.Lists.{length, filter, any, flat_map, add_unique, add_if_new, dedupe}
use svhier.Base.Text.{lower, sort, pair_le, string_le}
use svhier.Result.{Definition, FileEntry, Diagnostic, Missing, Fragment, empty_fragment}
use svhier.Frontends.{Root, Request}
use svhier.Slang.Merge.{Parsed, merge_results, nothing_elaborated}
use svhier.Slang.Compile.{
  Params, Tool, Slang, Settings, module_name, root_name, parse, units, elaborate_settings,
}

module _ {W : Type 0} (tool : Tool W) where
  abbrev pub without : List String → List String → List String
  without dropped names = filter (λ n. not (contains dropped n)) names

  abbrev pub common : List String → List String → List String
  common kept names = filter (contains kept) names

  -- `_elaborate_auto`
  unfoldable pub elaborate_auto :
      Slang W → List String → List String → (Option Parsed × List String) × Slang W
  elaborate_auto st plain set_elsewhere =
      let (result, st1) = parse tool st [] [] true in
      let (checked, st2) = if plain == [] then (result, st1) else parse tool st1 plain [] true in
      let rejected = if plain == [] then [] else common plain (dedupe checked.invalid_tops) in
      let tops =
        filter (λ t. not (contains set_elsewhere t) || contains plain t) result.elaborated_tops in
      if without plain set_elsewhere == []
      then ((some result, rejected), st2)
      else if tops == []
      then ((none, rejected), st2)
      else ((some (parse tool st2 tops [] true).0, rejected), (parse tool st2 tops [] true).1)

  -- The `while` loop of `_elaborate_plain`; `none` means that the fuel ran out.
  unfoldable pub retry :
      ℕ
      → List String
      → List String
      → List String
      → Parsed
      → Slang W
      → Option ((Option Parsed × List String) × Slang W)
  retry zero plain optional rejected result st =
      elim (common optional (dedupe result.invalid_tops)) [
        | [] ↦ some ((some result, rejected), st)
        | _ ∷ _ ↦ none
      ]
  retry (suc left) plain optional rejected result st =
      elim (common optional (dedupe result.invalid_tops)) [
        | [] ↦ some ((some result, rejected), st)
        | bad ∷ more ↦
            let rejected1 = add_unique rejected (bad ∷ more) in
            elim (without rejected1 plain) [
              | [] ↦ some ((none, rejected1), st)
              | n ∷ names ↦
                  retry left plain (without rejected1 optional) rejected1
                    (parse tool st (n ∷ names) [] true).0 (parse tool st (n ∷ names) [] true).1
            ]
      ]

  abbrev pub required : Slang W → List Root → List String
  required st roots = map (root_name st) (filter (λ (r : Root). r.requested) roots)

  -- `_elaborate_plain`
  unfoldable pub elaborate_plain :
      ℕ → Slang W → List Root → List String → Option ((Option Parsed × List String) × Slang W)
  unfolding retry
  elaborate_plain fuel st roots plain =
      let optional = without (required st roots) (dedupe plain) in
      retry fuel plain optional [] (parse tool st plain [] true).0 (parse tool st plain [] true).1

  -- What `elaborate` makes of the roots without values.
  unfoldable pub elaborate_base :
      ℕ
      → Request
      → List String
      → List String
      → Slang W
      → Option ((Option Parsed × List String) × Slang W)
  unfolding elaborate_auto elaborate_plain
  elaborate_base fuel request plain set_elsewhere st =
      if request.auto
      then some (elaborate_auto st plain set_elsewhere)
      else if plain == []
      then some ((none, []), st)
      else elaborate_plain fuel st request.roots plain

  abbrev pub is_plain : Root → Bool
  is_plain root = root.generics == []

  -- `_fragment` of a merged result.
  abbrev pub to_fragment : W → Parsed → List String → List String → Fragment
  to_fragment world result rejected notes = record empty_fragment {
    files = result.files;
    duplicates = result.duplicates;
    tops = result.tops;
    needed = result.needed;
    defines = result.defines;
    inc_dirs = dedupe (tool.inc_dirs world ++ result.inc_dirs);
    diagnostics = result.diagnostics;
    has_errors = result.has_errors;
    missing = result.missing;
    unresolved =
        foldl (λ table name. set_default name [] table) result.blackbox_params
          (keys (get_or "modules" [] result.missing));
    rejected_roots = sort string_le rejected;
    notes = notes;
    pulled = tool.pulled world;
  }

  abbrev pub with_base : Option Parsed → List Parsed → List Parsed
  with_base none results = results
  with_base (some base) results = base ∷ results

  -- The first result with the others merged in, or what the sources define.
  unfoldable pub merge_all : List Parsed → Slang W → Parsed × Slang W
  merge_all [] st =
      (nothing_elaborated (parse tool st [] [] false).0, (parse tool st [] [] false).1)
  merge_all (result ∷ others) st = (foldl merge_results result others, st)

  -- The files of the roots that could not be elaborated, which are needed all the same.
  abbrev pub files_of : Dict String String → List String → List String
  files_of names rejected =
      flat_map (λ n. elim (lookup (lower n) names) [ none ↦ [] | some file ↦ file ∷ [] ])
        (sort string_le rejected)

  unfoldable pub set_needed : Request → List String → Parsed × Slang W → Parsed × Slang W
  unfolding units
  set_needed request rejected (result, st) =
      if request.auto
      then (record result { needed = none }, st)
      else if rejected == []
      then (record result { needed = some (or_default result.needed []) }, st)
      else (
        record result {
          needed = some (or_default result.needed [] ++ files_of (units tool st).0 rejected);
        },
        (units tool st).1,
      )

  -- What `elaborate` does once the roots without values have been elaborated.
  unfoldable pub finish :
      Request
      → Settings W
      → List String
      → (Option Parsed × List String) × Slang W
      → Fragment × Slang W
  unfolding merge_all set_needed
  finish request run set_elsewhere ((base, plain_rejected), st) =
      let rejected = without run.worked run.failed in
      let worked = without rejected set_elsewhere in
      let all_rejected = add_unique rejected (without worked plain_rejected) in
      let (result, st1) =
        set_needed request all_rejected (merge_all (with_base base run.results) st) in
      (to_fragment st1.world result all_rejected run.notes, st1)

  abbrev pub has_work : Request → W → Bool
  has_work request world =
      tool.has_inputs world && (any (λ (r : Root). true) request.roots || request.auto)

  -- `elaborate`; `none` means that the fuel of `_elaborate_plain` ran out.
  unfoldable pub elaborate : ℕ → Request → Slang W → Option (Fragment × Slang W)
  unfolding elaborate_base elaborate_settings finish
  elaborate fuel request st =
      if has_work request st.world
      then (let st1 = record st { defined_elsewhere = request.defined_elsewhere } in
          let st2 =
            if any (λ (r : Root). not r.requested) request.roots then (units tool st1).1 else st1 in
          let plain = map (root_name st2) (filter is_plain request.roots) in
          let settings = filter (λ r. not (is_plain r)) request.roots in
          let run = elaborate_settings tool settings (record {
            state = st2;
            results = [];
            failed = [];
            worked = [];
            seen = [];
            notes = [];
          }) in
          let set_elsewhere = dedupe (map (λ (r : Root). module_name run.state r.name) settings) in
          elim (elaborate_base fuel request plain set_elsewhere run.state) [
            | none ↦ none
            | some base ↦ some (finish request run set_elsewhere base)
          ])
      else some (empty_fragment, st)

-- `drop_resolved`
abbrev pub is_about : String → Diagnostic → Bool
is_about name d = elim (find? d.message ("unknown module '" <> name <> "'")) [
  | none ↦ false
  | some _ ↦ true
]

unfoldable pub drop_resolved : Fragment → List String → Fragment
drop_resolved fragment names = record fragment {
  missing =
      update "modules" [] (λ modules. foldl (λ table name. erase name table) modules names)
        fragment.missing;
  diagnostics = filter (λ d. not (any (λ name. is_about name d) names)) fragment.diagnostics;
}
