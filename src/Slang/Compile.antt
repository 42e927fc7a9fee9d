-- ===== src/Slang/Compile.antt =====
-- What `SlangFrontend` of src/svhier/slang_frontend.py compiles with: its state, `units`, and one
-- compilation for each setting of parameters. `Tool` is what the frontend asks of pyslang, over
-- the state of the world, in which the lists of files and include directories are, which grow
-- while `-y` is searched.
use svhier.Base.{
  ℕ, String, ◌<>◌, Bool, true, false, Option, none, some, List, [], ◌∷◌, ◌++◌, map, foldl,
}
use svhier.Base.{contains, string_eq, list_eq, pair_eq, if◌then◌else◌}
use svhier.Base.Dict.{Dict, lookup, insert, get_or}
use svhier.Base.Lists.{flat_map, add_if_new}
use svhier.Base.Text.{lower, sort, pair_le}
use svhier.Result.{Definition, FileEntry}
use svhier.Frontends.{Root}
use svhier.Slang.Merge.{Parsed}

abbrev pub Params : Type 0
Params = Dict String String

-- `_parse(files, tops, params, library=...)`, and what the world holds: whether there are
-- files or command files, the include directories, and what was pulled from `-y`.
pub record Tool (W : Type 0) : Type 0 where
  pub parse : List String → Params → Bool → W → Parsed × W
  pub has_inputs : W → Bool
  pub inc_dirs : W → List String
  pub pulled : W → List (String × (String × ℕ))

-- The state of the frontend that elaborating uses; `modules` are the names and the parameters by
-- lowercase name.
pub record Slang (W : Type 0) : Type 0 where
  pub world : W
  pub units : Option (Dict String String)
  pub modules : Dict String (String × List String)
  pub defined_elsewhere : List String

-- `{name.lower(): (name, params)}`
unfoldable pub read_modules : Dict String (List String) → Dict String (String × List String)
read_modules names =
    foldl (λ table (name, params). insert (lower name) (name, params) table) [] names

unfoldable pub read_names : List FileEntry → Dict String String
read_names files =
    foldl (λ table (name, file). insert (lower name) file table) []
      (flat_map (λ (f : FileEntry). map (λ (d : Definition). (d.mod_name, f.file_name)) f.defs)
        files)

module _ {W : Type 0} where
  abbrev pub module_name : Slang W → String → String
  module_name st name = (get_or (lower name) (name, []) st.modules).0

  abbrev pub root_name : Slang W → Root → String
  root_name st root = if root.requested then root.name else module_name st root.name

  abbrev pub declared : Slang W → Root → String × List String
  declared st root = get_or (lower root.name) (root.name, []) st.modules

-- `{name.lower(): name for name in declared}`
abbrev pub by_lower : List String → Dict String String
by_lower names = foldl (λ table name. insert (lower name) name table) [] names

abbrev pub no_parameter : String → String → String
no_parameter module_name name = module_name <> ": has no parameter " <> name

-- `_overrides`: the values that match a parameter, and the notes on those that do not.
unfoldable pub match_params :
    String
    → Dict String String
    → List (String × String)
    → Params
    → List String
    → Params × List String
match_params module_name table [] params notes = (params, notes)
match_params module_name table ((name, value) ∷ generics) params notes =
    elim (lookup (lower name) table) [
      | some spelled ↦ match_params module_name table generics (insert spelled value params) notes
      | none ↦
          match_params module_name table generics params
            (notes ++ no_parameter module_name name ∷ [])
    ]

-- The keys of the settings that have been compiled.
abbrev pub SettingKey : Type 0
SettingKey = String × List (String × String)

-- What `_elaborate_settings` keeps while it goes through the roots.
pub record Settings (W : Type 0) : Type 0 where
  pub state : Slang W
  pub results : List Parsed
  pub failed : List String
  pub worked : List String
  pub seen : List SettingKey
  pub notes : List String

module _ {W : Type 0} (tool : Tool W) where
  abbrev pub parse : Slang W → List String → Params → Bool → Parsed × Slang W
  parse st tops params library =
      let (result, w) = tool.parse tops params library st.world in (result, record st { world = w })

  -- `units`, which reads the inputs once.
  unfoldable pub units : Slang W → Dict String String × Slang W
  unfolding read_modules read_names
  units st = elim st.units [
    | some names ↦ (names, st)
    | none ↦
        if tool.has_inputs st.world
        then (
          read_names (parse st [] [] false).0.files,
          record (parse st [] [] false).1 {
            modules = read_modules (parse st [] [] false).0.parameter_names;
            units = some (read_names (parse st [] [] false).0.files);
          },
        )
        else ([], record st { units = some [] })
  ]

  abbrev pub overrides : Slang W → Root → List String → Params × List String
  overrides st root notes =
      let (module_name, names) = declared st root in
      match_params module_name (by_lower names) root.generics [] notes

  -- The body of the loop of `_elaborate_settings`.
  unfoldable pub elaborate_setting : Root → Settings W → Settings W
  unfolding match_params
  elaborate_setting root run =
      let name = module_name run.state root.name in
      let (params, notes) = overrides run.state root run.notes in
      let key : SettingKey = (name, sort pair_le params) in
      let (result, st) = parse run.state (name ∷ []) params true in
      if contains run.seen key
      then record run { notes = notes }
      else if contains result.invalid_tops name
      then record run {
        state = st;
        notes = notes;
        seen = key ∷ run.seen;
        failed = add_if_new run.failed name;
      }
      else record run {
        state = st;
        notes = notes;
        seen = key ∷ run.seen;
        worked = add_if_new run.worked name;
        results = run.results ++ result ∷ [];
      }

  unfoldable pub elaborate_settings : List Root → Settings W → Settings W
  unfolding elaborate_setting
  elaborate_settings [] run = run
  elaborate_settings (root ∷ roots) run = elaborate_settings roots (elaborate_setting root run)
