-- ===== src/Parser/Walk.antt =====
-- `_walk_instances` of src/svhier/parser.py. `canon` is `_canon` for the source manager at hand:
-- the resolved path of the file of a location. `_Walk.key` caches it by location, which `key`
-- models; the walk itself calls it through `key_of`, which `key-eq-key_of` justifies.
pub mod Visited
pub mod Reach
use svhier.Base.{
  ℕ, zero, suc, String, Bool, true, false, ◌||◌, Option, none, some, List, [], ◌∷◌, ◌++◌, map,
  foldl,
}
use svhier.Base.{
  ◌≡◌, refl, arith, Option-cases, inl, inr, Eq, ◌==◌, contains, string_eq, nat_eq, list_eq, pair_eq,
  if◌then◌else◌,
}
use svhier.Base.Dict.{Dict, lookup, insert, set_default, update, lookup-insert}
use svhier.Base.Lists.{add_unique, add_if_new}
use svhier.Result.{ParamSig, UnitUse, add_use_if_new}
use svhier.Parser.Symbols.{
  Location, DefinitionSymbol, Instance, Child, instantiated, undefined, Blackbox, sig_of,
  collect_imports, iter_module_instances,
}

abbrev pub DefKey : Type 0
DefKey = String × String

-- A definition with a setting.
abbrev pub Setting : Type 0
Setting = DefKey × ParamSig

abbrev pub FileCache : Type 0
FileCache = Dict Location String

pub record Walk : Type 0 where
  pub insts : Dict DefKey (Dict ParamSig Instance)
  pub children : Dict Setting (List (Child × Option ParamSig))
  pub top_variants : Dict DefKey ParamSig
  pub imports : Dict DefKey (List String)
  pub blackbox_params : Dict String (List UnitUse)

module _ (canon : Location → String) where
  abbrev pub key_of : DefinitionSymbol → DefKey
  key_of defn = (defn.name, canon defn.location)

  abbrev pub setting_of : Instance → Setting
  setting_of inst = (key_of inst.info.definition, sig_of inst)

  unfoldable pub key : FileCache → DefinitionSymbol → DefKey × FileCache
  key files defn = elim (lookup defn.location files) [
    | some canonical ↦ ((defn.name, canonical), files)
    | none ↦
        let canonical = canon defn.location in
        ((defn.name, canonical), insert defn.location canonical files)
  ]

  -- Every cached file is that of its location.
  abbrev pub IsCached : FileCache → Type 0
  IsCached files = (l : Location) (file : String) → lookup l files ≡ some file → file ≡ canon l

  -- Whatever has been asked before, the cache answers with the definition's name and the file of
  -- its location, and stays a cache of them.
  pub key-eq-key_of :
      (files : FileCache) (defn : DefinitionSymbol)
      → IsCached files
      → ((key files defn).0 ≡ key_of defn) × IsCached (key files defn).1
  unfolding key
  key-eq-key_of files defn cached = elim (Option-cases (lookup defn.location files)) [
    | inl e ↦
        rw (e, key)
          (
            refl,
            λ l file h.
                ground
                  (arith, cached l file, lookup-insert l defn.location (canon defn.location) files),
          )
    | inr (file, e) ↦ rw (e, key) (ground (arith, cached defn.location file e), cached)
  ]

  -- The children of an instance, with their settings; blackboxes have none.
  unfoldable pub with_setting : Child → Child × Option ParamSig
  with_setting (instantiated inst) = (instantiated inst, some (sig_of inst))
  with_setting (undefined box) = (undefined box, none)

  abbrev pub children_of : Instance → List (Child × Option ParamSig)
  children_of inst = map with_setting (iter_module_instances true inst.body)

  -- The uses of a blackbox, without repeats.
  unfoldable pub add_use : Dict String (List UnitUse) → Child → Dict String (List UnitUse)
  add_use params (instantiated inst) = params
  add_use params (undefined box) =
      update box.definition_name [] (λ uses. add_use_if_new uses box.params) params

  -- What goes on the stack, its top at the head: the first child is walked first.
  unfoldable pub pushed : List Child → List Instance
  pushed [] = []
  pushed (instantiated inst ∷ found) = inst ∷ pushed found
  pushed (undefined box ∷ found) = pushed found

  -- The body of the `while` loop for a setting that has not been seen.
  unfoldable pub visit : Walk → Instance → Walk
  unfolding add_use with_setting
  visit walk inst =
      let key = key_of inst.info.definition in
      let found = iter_module_instances true inst.body in
      record {
        insts = update key [] (insert (sig_of inst) inst) walk.insts;
        children = insert (setting_of inst) (children_of inst) walk.children;
        top_variants = walk.top_variants;
        imports =
            update key [] (λ imports. add_unique imports (collect_imports inst.body)) walk.imports;
        blackbox_params = foldl add_use walk.blackbox_params found;
      }

  unfoldable pub is_seen : Walk → Setting → Bool
  is_seen walk setting = elim (lookup setting walk.children) [ none ↦ false | some _ ↦ true ]

  -- The `while` loop; `none` means that the fuel ran out.
  unfoldable pub walk_stack : ℕ → List Instance → Walk → Option Walk
  walk_stack fuel [] walk = some walk
  walk_stack zero (inst ∷ stack) walk = none
  walk_stack (suc fuel) (inst ∷ stack) walk = elim (is_seen walk (setting_of inst)) [
    | true ↦ walk_stack fuel stack walk
    | false ↦
        walk_stack fuel (pushed (iter_module_instances true inst.body) ++ stack) (visit walk inst)
  ]

  -- `stack` has the last top at its bottom, and the loop over it starts there.
  unfoldable pub set_top_variants : List Instance → Dict DefKey ParamSig → Dict DefKey ParamSig
  set_top_variants [] variants = variants
  set_top_variants (top ∷ tops) variants =
      set_default (key_of top.info.definition) (sig_of top) (set_top_variants tops variants)

  abbrev pub start_walk : List Instance → Walk
  start_walk tops = record {
    insts = [];
    children = [];
    top_variants = set_top_variants tops [];
    imports = [];
    blackbox_params = [];
  }

  unfoldable pub walk_instances : ℕ → List Instance → Option Walk
  walk_instances fuel tops = walk_stack fuel tops (start_walk tops)
