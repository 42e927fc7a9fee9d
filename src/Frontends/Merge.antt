-- ===== src/Frontends/Merge.antt =====
-- `_Stitcher._merge`, `run` and `stitch` of src/svhier/frontends.py.
use svhier.Base.{ℕ, String, ◌<>◌, Bool, not, some, List, [], ◌∷◌, ◌++◌, map, foldl}
use svhier.Base.{◌==◌, contains, string_eq, nat_eq, list_eq, pair_eq, if◌then◌else◌}
use svhier.Base.Dict.{Dict, keys, insert, update, get_or, or_default}
use svhier.Base.Lists.{filter, any, flat_map, add_unique}
use svhier.Base.Text.{lower}
use svhier.Result.{
  Inst, Definition, FileEntry, Diagnostic, Fragment, empty_fragment, Missing, missing_kinds,
}
use svhier.Frontends.{
  Request, Frontend, Plugins, Stitcher, is_other, units_of, fragment_of, rounds, init,
  requested_root,
}

abbrev pub rejected_note : String → String
rejected_note name =
    name
    <> ": its parameters aren't known from the instantiating language, so its children aren't shown"

-- The users of the names of one kind, merged into those already there.
unfoldable pub merge_users :
    Dict String (List String) → Dict String (List String) → Dict String (List String)
merge_users names [] = names
merge_users names ((name, users) ∷ more) =
    merge_users (update name [] (λ known. add_unique known users) names) more

unfoldable pub merge_kinds : List String → Missing → Missing → Missing
unfolding merge_users
merge_kinds [] merged missing = merged
merge_kinds (kind ∷ kinds) merged missing =
    merge_kinds kinds (update kind [] (λ names. merge_users names (get_or kind [] missing)) merged)
      missing

-- The body of the loop over the fragments, and the notes.
unfoldable pub merge_fragment : Bool → Fragment → Fragment → Fragment
unfolding merge_kinds
merge_fragment with_tops merged fragment = record merged {
  files = merged.files ++ fragment.files;
  duplicates = merged.duplicates ++ fragment.duplicates;
  diagnostics = merged.diagnostics ++ fragment.diagnostics;
  defines = add_unique merged.defines fragment.defines;
  inc_dirs = add_unique merged.inc_dirs fragment.inc_dirs;
  missing = merge_kinds missing_kinds merged.missing fragment.missing;
  pulled = merged.pulled ++ fragment.pulled;
  failed_tops = merged.failed_tops ++ fragment.failed_tops;
  needed =
      if with_tops
      then some (or_default merged.needed [] ++ or_default fragment.needed [])
      else merged.needed;
}

abbrev pub add_notes : List String → Fragment → List String
add_notes notes fragment =
    add_unique (add_unique notes fragment.notes) (map rejected_note fragment.rejected_roots)

-- `{d["mod_name"].lower(): d["mod_name"]}`
unfoldable pub spell_units : List Definition → Dict String String → Dict String String
spell_units [] names = names
spell_units (d ∷ ds) names = spell_units ds (insert (lower d.mod_name) d.mod_name names)

unfoldable pub spellings : List FileEntry → Dict String String
unfolding spell_units
spellings files = spell_units (flat_map (λ (f : FileEntry). f.defs) files) []

abbrev pub spelled : Dict String String → String → String
spelled names name = get_or (lower name) name names

abbrev pub spell_inst : Dict String String → Inst → Inst
spell_inst names inst = record inst { mod_name = spelled names inst.mod_name }

abbrev pub spell_unit : Dict String String → Definition → Definition
spell_unit names unit = record unit {
  insts = map (spell_inst names) unit.insts;
  variants = map (λ (sig, children). (sig, map (spell_inst names) children)) unit.variants;
}

abbrev pub spell_file : Dict String String → FileEntry → FileEntry
spell_file names entry = record entry { defs = map (spell_unit names) entry.defs }

abbrev pub is_error : Diagnostic → Bool
is_error d = d.severity == "error"

-- What follows the loop over the fragments.
unfoldable pub finish : List String → List String → Fragment → Fragment
unfolding spellings
finish tops notes merged =
    let names = spellings merged.files in
    record merged {
      files = map (spell_file names) merged.files;
      tops = map (spelled names) tops;
      has_errors = any is_error merged.diagnostics;
      frontend_notes = notes;
    }

module _ {W : Type 0} (plugins : Plugins W) (inputs : List Frontend) where
  abbrev pub others_units : ℕ → Stitcher W → List String
  others_units key st =
      flat_map (λ (fe : Frontend). keys (units_of fe.key st.units))
        (filter (is_other (some key)) inputs)

  abbrev pub resolved : ℕ → Stitcher W → List String
  resolved key st =
      filter (λ n. contains (others_units key st) (lower n)) (keys (fragment_of key st).unresolved)

  abbrev pub cleaned : Stitcher W → Frontend → Fragment
  cleaned st fe = plugins.drop_resolved fe.key (fragment_of fe.key st) (resolved fe.key st)

  unfoldable pub merge : List String → Stitcher W → Fragment
  unfolding merge_fragment finish
  merge tops st =
      let fragments = map (cleaned st) inputs in
      finish tops (foldl add_notes st.notes fragments)
        (foldl (merge_fragment (not (tops == []))) empty_fragment fragments)

abbrev pub max_rounds : ℕ
max_rounds = 20

-- The request of the only frontend.
abbrev pub only_request : List String → Request
only_request tops = record {
  auto = tops == [];
  roots = map requested_root tops;
  defined_elsewhere = [];
}

-- `inputs[0]` is `first`; `main` does not stitch without inputs.
unfoldable pub stitch :
    {W : Type 0} → Plugins W → Frontend → List Frontend → List String → W → Fragment
unfolding merge
stitch plugins first [] tops world =
    let (result, w) = plugins.elaborate first.key (only_request tops) world in
    record result { frontend_notes = result.notes }
stitch plugins first (second ∷ more) tops world =
    let inputs = first ∷ second ∷ more in
    let (settled, st) = rounds plugins inputs max_rounds (init plugins inputs first tops world) in
    merge plugins inputs tops st
