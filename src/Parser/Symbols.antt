-- ===== src/Parser/Symbols.antt =====
-- The elaborated tree that slang hands to src/svhier/parser.py, and the functions that only read it:
-- `_collect_imports`, `_iter_module_instances` and `_param_signature`.
use svhier.Base.{ℕ, String, ◌<>◌, Bool, false, List, [], ◌∷◌, ◌++◌, map}
use svhier.Base.{◌==◌, string_eq, if◌then◌else◌}
use svhier.Base.Lists.{add_if_new}
use svhier.Result.{ParamSig, UnitUse}

-- The buffer and the offset.
abbrev pub Location : Type 0
Location = ℕ × ℕ

pub record DefinitionSymbol : Type 0 where
  pub name : String
  pub location : Location

pub data Parameter : Type 0 where
  type_parameter : String → String → Parameter
  value_parameter : String → String → Parameter

pub record InstanceInfo : Type 0 where
  pub definition : DefinitionSymbol
  pub name : String
  pub hierarchical_path : String
  pub parameters : List Parameter

-- An instance of a module that has no definition. `use` is what `_blackbox_params` returns for it.
pub record Blackbox : Type 0 where
  pub definition_name : String
  pub name : String
  pub hierarchical_path : String
  pub params : UnitUse

pub data ContainerKind : Type 0 where
  generate_block generate_block_array instance_array : ContainerKind

-- `instance` and `interface_instance` share `SymbolKind.Instance`; `isModule` tells them apart.
mutual
  pub data Symbol : Type 0 where
    module_instance : InstanceInfo → Scope → Symbol
    interface_instance : InstanceInfo → Scope → Symbol
    uninstantiated_def : Blackbox → Symbol
    container : ContainerKind → Bool → Scope → Symbol
    import_symbol : String → Symbol
    other : Symbol

  pub data Scope : Type 0 where
    empty : Scope
    member : Symbol → Scope → Scope

pub record Instance : Type 0 where
  pub info : InstanceInfo
  pub body : Scope

pub data Child : Type 0 where
  instantiated : Instance → Child
  undefined : Blackbox → Child

-- `_param_signature`
unfoldable pub param_text : Parameter → String
param_text (type_parameter name target) = name <> "=" <> target
param_text (value_parameter name value) = name <> "=" <> value

unfoldable pub param_signature : List Parameter → ParamSig
param_signature parameters = map param_text parameters

abbrev pub sig_of : Instance → ParamSig
sig_of inst = param_signature inst.info.parameters

unfoldable pub imports_onto : Scope → List String → List String
imports_onto empty imports = imports
imports_onto (member (import_symbol pkg) scope) imports =
    imports_onto scope (if pkg == "" then imports else add_if_new imports pkg)
imports_onto (member _ scope) imports = imports_onto scope imports

unfoldable pub collect_imports : Scope → List String
unfolding imports_onto
collect_imports body = imports_onto body []

-- A generate block that was not taken; only such blocks have the attribute.
abbrev pub is_skipped : ContainerKind → Bool → Bool
is_skipped generate_block uninstantiated = uninstantiated
is_skipped _ uninstantiated = false

unfoldable mutual
  pub iter_symbol : Bool → Symbol → List Child
  iter_symbol blackboxes (module_instance info body) =
      instantiated (record { info = info; body = body }) ∷ []
  iter_symbol blackboxes (interface_instance info body) = []
  iter_symbol blackboxes (uninstantiated_def box) = if blackboxes then undefined box ∷ [] else []
  iter_symbol blackboxes (container kind uninstantiated scope) =
      let inner = iter_module_instances blackboxes scope in
      if is_skipped kind uninstantiated then [] else inner
  iter_symbol blackboxes (import_symbol pkg) = []
  iter_symbol blackboxes other = []

  pub iter_module_instances : Bool → Scope → List Child
  iter_module_instances blackboxes empty = []
  iter_module_instances blackboxes (member symbol scope) =
      iter_symbol blackboxes symbol ++ iter_module_instances blackboxes scope
