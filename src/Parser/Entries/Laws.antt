-- ===== src/Parser/Entries/Laws.antt =====
-- What `_relative_name` and `_build_def_entry` (src/svhier/parser.py) return.
use Prim.Native.String.{len}
use text.Mathlib.TextPositions.{len-append, slice-append_right, starts_with-append}
use text.Mathlib.TextLemmas
use svhier.Base.{◌+◌, String, ◌<>◌, Option, List, map}
use svhier.Base.{◌≡◌, string_eq, list_eq, pair_eq, nat_eq}
use svhier.Base.Dict.{Dict, lookup}
use svhier.Result.{ParamSig, Inst, inst_eq}
use svhier.Parser.Symbols.{Instance, Child}
use svhier.Parser.Walk.{Walk, DefKey, Setting}
use svhier.Parser.Entries.{relative_name, variant_inst}

-- A child whose path is its parent's, a dot and more is named by what follows the dot, so the
-- parent's path, a dot and the name give the path back.
pub relative_name-path :
    (name parent_path rest : String)
    → relative_name name (parent_path <> ("." <> rest)) parent_path ≡ rest
unfolding relative_name
relative_name-path name parent_path rest =
    let stem = parent_path <> "." in
    let size : len stem ≡ len parent_path + 1 = len-append parent_path "." in
    let whole : stem <> rest ≡ parent_path <> ("." <> rest) =
      TextLemmas.append_assoc parent_path "." rest in
    rw (← whole, starts_with-append stem rest, ← size, len-append stem rest)
      (slice-append_right stem rest)

module _ (walk : Walk) (key : DefKey) where
  abbrev stored_children : ParamSig → Option (List (Child × Option ParamSig))
  stored_children sig = lookup {K = Setting} (key, sig) walk.children

  abbrev rendered : Instance → List (Child × Option ParamSig) → List Inst
  rendered parent found = map (variant_inst parent.info.hierarchical_path) found
