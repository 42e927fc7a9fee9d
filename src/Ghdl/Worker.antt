-- ===== src/Ghdl/Worker.antt =====
-- plugins/svhier-ghdl/src/svhier_ghdl/worker.py: what files define and refer to, loading them into
-- libraries, and one elaboration with what it prints. libghdl is a parameter; the nodes that it
-- parses are data, by the kinds that the code tells apart.
pub mod Dates
pub mod Needs
pub mod Printed
use svhier.Base.{
  ℕ, zero, suc, ◌+◌, String, Bool, true, false, not, ◌||◌, ◌&&◌, Option, none, some, List, [], ◌∷◌,
  ◌++◌, map, foldl,
}
use svhier.Base.{◌==◌, contains, string_eq, pair_eq, nat_eq, if◌then◌else◌}
use svhier.Base.Dict.{Dict, insert, update, get_or}
use svhier.Base.Lists.{filter, add_if_new, add_unique}
use svhier.Base.Text.{lower, sort, pair_le}
use svhier.Ghdl.Hierarchy.{Line}
use svhier.Ghdl.Tool.{Top}
use svhier.Ghdl.Frontend.{FileScan}
use svhier.Ghdl.Runs.{OutputLine, file_deps_line, unset_line, printed}

-- A node below another: `Selected_Name` with a `Simple_Name` as its prefix, or
-- `Component_Declaration`.
pub data RefNode : Type 0 where
  selected_name : String → String → RefNode
  component_declaration : String → RefNode
  other_node : RefNode

-- What stands before a unit: `Library_Clause`, or an item with nodes below it.
pub data ContextItem : Type 0 where
  library_clause : String → ContextItem
  other_item : List RefNode → ContextItem

-- The entity of an architecture or a configuration is a name if it is a `Simple_Name`.
pub data LibraryUnit : Type 0 where
  entity_declaration : String → LibraryUnit
  package_declaration : String → LibraryUnit
  package_instantiation_declaration : String → LibraryUnit
  context_declaration : String → LibraryUnit
  configuration_declaration : String → Option String → LibraryUnit
  architecture_body : Option String → LibraryUnit
  package_body : String → LibraryUnit
  other_unit : LibraryUnit

pub record DesignUnit : Type 0 where
  pub context : List ContextItem
  pub library_unit : LibraryUnit
  pub nodes : List RefNode

-- The two sets of `_scan`, in the order of their elements' first occurrence.
abbrev pub Refs : Type 0
Refs = List (String × String) × List (String × String)

-- `_collect_refs`
unfoldable pub collect_refs : List RefNode → Refs → Refs
collect_refs [] refs = refs
collect_refs (selected_name prefix name ∷ nodes) (named, components) =
    collect_refs nodes (add_if_new named (lower prefix, lower name), components)
collect_refs (component_declaration name ∷ nodes) (named, components) =
    collect_refs nodes (named, add_if_new components ("work", lower name))
collect_refs (other_node ∷ nodes) refs = collect_refs nodes refs

unfoldable pub scan_context : List ContextItem → FileScan × Refs → FileScan × Refs
unfolding collect_refs
scan_context [] state = state
scan_context (library_clause name ∷ items) (entry, refs) =
    scan_context items (record entry { libs = entry.libs ++ lower name ∷ [] }, refs)
scan_context (other_item nodes ∷ items) (entry, refs) =
    scan_context items (entry, collect_refs nodes refs)

abbrev pub add_unit : String → FileScan → FileScan
add_unit name entry = record entry { units = entry.units ++ lower name ∷ [] }

abbrev pub add_arch_of : Option String → FileScan → FileScan
add_arch_of none entry = entry
add_arch_of (some name) entry = record entry { arch_of = entry.arch_of ++ lower name ∷ [] }

-- What a unit's kind adds to the entry.
abbrev pub scan_kind : LibraryUnit → FileScan → FileScan
scan_kind (entity_declaration name) entry = record (add_unit name entry) {
  entities = entry.entities ++ lower name ∷ [];
}
scan_kind (package_declaration name) entry = add_unit name entry
scan_kind (package_instantiation_declaration name) entry = add_unit name entry
scan_kind (context_declaration name) entry = add_unit name entry
scan_kind (configuration_declaration name entity) entry = add_arch_of entity (add_unit name entry)
scan_kind (architecture_body entity) entry = add_arch_of entity entry
scan_kind (package_body name) entry = add_arch_of (some name) entry
scan_kind other_unit entry = entry

unfoldable pub scan_units : List DesignUnit → FileScan × Refs → FileScan × Refs
unfolding scan_context collect_refs
scan_units [] state = state
scan_units (u ∷ units) state =
    let (entry, refs) = scan_context u.context state in
    scan_units units (scan_kind u.library_unit entry, collect_refs u.nodes refs)

abbrev pub no_entry : FileScan
no_entry = record { units = []; entities = []; arch_of = []; libs = []; refs = []; named = [] }

unfoldable pub scan_file : List DesignUnit → FileScan
unfolding scan_units
scan_file units =
    let (entry, (named, components)) = scan_units units (no_entry, ([], [])) in
    record entry { refs = sort pair_le (add_unique named components); named = sort pair_le named }

-- `_scan`, over the parser.
abbrev pub scan : (String → List DesignUnit) → List String → Dict String FileScan
scan design_units files =
    foldl (λ result path. insert path (scan_file (design_units path)) result) [] files

-- A unit in its library, with its date where `_load` sets one.
pub record Loaded : Type 0 where
  pub unit : DesignUnit
  pub library : String
  pub date : Option ℕ

abbrev pub is_architecture : LibraryUnit → Bool
is_architecture (architecture_body entity) = true
is_architecture _ = false

-- The units of one file, and the date after them.
unfoldable pub load_units : String → ℕ → List DesignUnit → List Loaded × ℕ
load_units library date [] = ([], date)
load_units library date (u ∷ units) = elim (is_architecture u.library_unit) [
  | true ↦
      let (loaded, last) = load_units library (date + 1) units in
      (record { unit = u; library = library; date = some (date + 1) } ∷ loaded, last)
  | false ↦
      let (loaded, last) = load_units library date units in
      (record { unit = u; library = library; date = none } ∷ loaded, last)
]

module _ (design_units : String → List DesignUnit) (assigned : Dict String String)
    (work : String) where
  unfoldable pub load_files : ℕ → List String → List Loaded
  unfolding load_units
  load_files date [] = []
  load_files date (path ∷ files) =
      let (loaded, last) = load_units (get_or path work assigned) date (design_units path) in
      loaded ++ load_files last files

  -- `_load`, which counts from `_FIRST_DATE`.
  abbrev pub load : List String → List Loaded
  load files = load_files 10 files

-- A unit of the configured design: its file, and the file of each unit that it depends on, if that
-- is found.
pub record TableUnit : Type 0 where
  pub file : String
  pub dependences : List (Option String)

unfoldable pub add_needs : List String → String → List (Option String) → List String → List String
add_needs known name [] needs = needs
add_needs known name (none ∷ deps) needs = add_needs known name deps needs
add_needs known name (some dep ∷ deps) needs = add_needs known name deps (
    if contains known dep && not (dep == name) && not (contains needs dep)
    then needs ++ dep ∷ []
    else needs)

-- `_file_deps`
unfoldable pub file_deps :
    List String → List TableUnit → Dict String (List String) → Dict String (List String)
unfolding add_needs
file_deps known [] deps = deps
file_deps known (u ∷ table) deps = file_deps known table (
    if contains known u.file
    then update u.file [] (add_needs known u.file u.dependences) deps
    else deps)

-- `Interface_Constant_Declaration` or another kind, and whether there is a default value.
pub record Generic : Type 0 where
  pub name : String
  pub is_constant : Bool
  pub has_default : Bool

-- `_unset_generics`
abbrev pub unset_generics : List Generic → List String
unset_generics generics =
    map (λ (g : Generic). lower g.name)
      (filter (λ (g : Generic). not g.is_constant || not g.has_default) generics)

-- What `_elaborate` calls, over libghdl's global state. A node is its number, and 0 is none.
pub record Libghdl (W : Type 0) : Type 0 where
  pub add_generic_override : String → String → W → W
  pub configure : String → String → W → ℕ × W
  pub error_count : W → ℕ
  pub entity_of : ℕ → W → ℕ
  pub apply_generic_override : ℕ → W → W
  pub generic_chain : ℕ → W → List Generic
  pub check_entity_declaration_top : ℕ → W → W
  pub elab_top_unit : ℕ → W → ℕ × W
  pub design_units : W → List TableUnit
  pub strip_declarations : W → W
  pub disp_hierarchy : ℕ → Bool → W → List Line

module _ {W : Type 0} (lib : Libghdl W) where
  abbrev pub is_stopped : ℕ → W → Bool
  is_stopped node w = node == 0 || not (lib.error_count w == 0)

  abbrev pub override_all : Dict String String → W → W
  override_all generics w =
      foldl (λ v (g : String × String). lib.add_generic_override (lower g.0) g.1 v) w generics

  -- The last part of `_elaborate`: what an instance prints.
  unfoldable pub print_design : List String → Bool → ℕ → W → List OutputLine
  unfolding file_deps
  print_design files objects top w =
      let w1 = if objects then lib.strip_declarations w else w in
      file_deps_line (file_deps files (lib.design_units w) [])
      ∷ map printed (lib.disp_hierarchy top objects w1)

  -- From the configuration on.
  unfoldable pub elaborate_config : List String → Bool → ℕ → W → ℕ × List OutputLine
  unfolding print_design filter
  elaborate_config files objects config w =
      let entity = lib.entity_of config w in
      let w1 = lib.apply_generic_override entity w in
      let unset = unset_line (unset_generics (lib.generic_chain entity w1)) in
      let w2 = lib.check_entity_declaration_top entity w1 in
      let (top, w3) = lib.elab_top_unit config w2 in
      if not (lib.error_count w2 == 0)
      then (4, unset ∷ [])
      else (if is_stopped top w3
          then (5, unset ∷ [])
          else (0, unset ∷ print_design files objects top w3))

  -- `_elaborate`: the exit code and the lines that are printed.
  unfoldable pub elaborate : List String → Top → W → ℕ × List OutputLine
  unfolding elaborate_config
  elaborate files request w =
      let (config, w1) =
        lib.configure (lower request.top_library) (lower request.top)
          (override_all request.generics w) in
      if is_stopped config w1 then (3, []) else elaborate_config files request.objects config w1
