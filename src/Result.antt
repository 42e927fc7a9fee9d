-- ===== src/Result.antt =====
-- The shape of a result, src/svhier/parser.py (`parse_files`) and src/svhier/frontends.py
-- (`empty_fragment`), which every part of the program reads or builds. A key that a dict may lack
-- is an `Option`, or the empty list or dict where the code asks for it with that default.
use svhier.Base.{ℕ, String, Bool, false, Option, none, List, [], ◌∷◌, map}
use svhier.Base.{Eq, String-discrete, ◌&&◌, ◌++◌, ◌==◌, string_eq, list_eq, if◌then◌else◌}
use svhier.Base.Dict.{Dict, dict_eq}
use svhier.Base.Lists.{any}

-- The parameter values of an instance, one setting of a definition.
abbrev pub ParamSig : Type 0
ParamSig = List String

-- `variant` is only there under `variants`, where a blackbox has `None`.
pub record Inst : Type 0 where
  pub mod_name : String
  pub inst_name : String
  pub variant : Option ParamSig

ParamSig-discrete : Discrete (Option ParamSig)
ParamSig-discrete = hlevel String-discrete

Inst-discrete : Discrete Inst
Inst-discrete = hlevel (String-discrete, ParamSig-discrete)

-- `==` on the dicts of two instances.
instance unfoldable pub inst_eq : Eq Inst
unfolding ParamSig-discrete Inst-discrete
inst_eq = record { dec = Inst-discrete }

pub record Definition : Type 0 where
  pub mod_name : String
  pub pkg_imports : List String
  pub insts : List Inst
  pub variants : Dict ParamSig (List Inst)
  pub top_variant : Option ParamSig

pub record FileEntry : Type 0 where
  pub file_name : String
  pub library : Option String
  pub pkgs : List String
  pub ifaces : List String
  pub shadowed : List String
  pub refs : List String
  pub depends_on : List String
  pub defs : List Definition

pub record Duplicate : Type 0 where
  pub name : String
  pub kind : String
  pub files : List String
  pub used : String

pub record Diagnostic : Type 0 where
  pub severity : String
  pub file : String
  pub message : String

-- `{kind: {name: [referencing files]}}`
abbrev pub Missing : Type 0
Missing = Dict String (Dict String (List String))

-- How an unresolved name is used: the values that could be read, and the texts that could not.
pub record UnitUse : Type 0 where
  pub generics : Dict String String
  pub unresolved : List String

-- `a == b` for two uses, where `generics` is a dict.
unfoldable pub use_eq : UnitUse → UnitUse → Bool
unfolding dict_eq string_eq list_eq
use_eq a b = dict_eq a.generics b.generics && a.unresolved == b.unresolved

-- `if use not in uses: uses.append(use)`
unfoldable pub add_use_if_new : List UnitUse → UnitUse → List UnitUse
unfolding use_eq any
add_use_if_new uses u = if any (use_eq u) uses then uses else uses ++ u ∷ []

pub record Fragment : Type 0 where
  pub files : List FileEntry
  pub duplicates : List Duplicate
  pub tops : List String
  pub needed : Option (List String)
  pub defines : List String
  pub inc_dirs : List String
  pub diagnostics : List Diagnostic
  pub has_errors : Bool
  pub unresolved : Dict String (List UnitUse)
  pub rejected_roots : List String
  pub notes : List String
  pub failed_tops : List String
  pub missing : Missing
  pub frontend_notes : List String
  pub pulled : List (String × (String × ℕ))

-- `_MISSING_KINDS`
abbrev pub missing_kinds : List String
missing_kinds = "modules" ∷ "interfaces" ∷ "packages" ∷ "units" ∷ "includes" ∷ "macros" ∷ []

unfoldable pub empty_fragment : Fragment
empty_fragment = record {
  files = [];
  duplicates = [];
  tops = [];
  needed = none;
  defines = [];
  inc_dirs = [];
  diagnostics = [];
  has_errors = false;
  unresolved = [];
  rejected_roots = [];
  notes = [];
  failed_tops = [];
  missing = map (λ kind. (kind, [])) missing_kinds;
  frontend_notes = [];
  pulled = [];
}
