-- ===== src/Tests/Walks.antt =====
-- `_walk_instances` and `_build_def_entry` of src/svhier/parser.py on a small elaborated tree.
use mathlib.Core.List.{Memᴰ}
use mathlib.Core.List.Memᴰ
use text.Mathlib.TextEquality.{eq_iff}
use svhier.Base.{
  String, ◌<>◌, true, false, none, some, List, [], ◌∷◌, ◌≡◌, ◌≢◌, ◌↔◌, ◌⊎◌, inl, inr, refl, sym, ap,
  ◌∙◌, arith,
}
use svhier.Base.{string_eq, nat_eq, list_eq, option_eq, pair_eq}
use svhier.Base.Dict.{lookup, insert, set_default, update}
use svhier.Base.Lists.{add_unique, add_if_new, any}
use svhier.Result.{inst_eq, use_eq, add_use_if_new}
use svhier.Parser.Symbols.{
  Location, DefinitionSymbol, InstanceInfo, Scope, empty, member, module_instance,
  uninstantiated_def, container, import_symbol, generate_block, value_parameter, Instance,
  iter_module_instances, param_signature, param_text, collect_imports, imports_onto,
}
use svhier.Parser.Walk.{
  Walk, FileCache, Setting, key, key_of, setting_of, children_of, pushed, visit, is_seen,
  walk_stack, set_top_variants, walk_instances, with_setting, add_use, IsCached, key-eq-key_of,
}
use svhier.Parser.Walk.Visited.{Reach, top, below, kids, Inv}
use svhier.Parser.Walk.Reach.{
  count_all, count_scope, Uniform, walk_instances_total, walk_instances-Reach,
}
use svhier.Parser.Entries.{
  relative_name, variant_inst, add_setting, merge_settings, build_def_entry,
}
use svhier.Parser.Entries.Laws.{relative_name-path}

-- Every location lies in the one file.
abbrev canon : Location → String
canon l = "/work/chip.sv"

abbrev soc_defn : DefinitionSymbol
soc_defn = record { name = "soc"; location = (1, 7) }

abbrev core_defn : DefinitionSymbol
core_defn = record { name = "core"; location = (1, 90) }

abbrev core_info : InstanceInfo
core_info = record {
  definition = core_defn;
  name = "u_core";
  hierarchical_path = "soc.u_core";
  parameters = value_parameter "W" "8" ∷ [];
}

abbrev core_inst : Instance
core_inst = record { info = core_info; body = member (import_symbol "types") empty }

abbrev soc_body : Scope
soc_body =
    member
      (container generate_block false (member (module_instance core_info core_inst.body) empty))
      (member
        (uninstantiated_def (record {
          definition_name = "pll";
          name = "u_pll";
          hierarchical_path = "soc.u_pll";
          params = record { generics = []; unresolved = [] };
        }))
        empty)

abbrev soc_inst : Instance
soc_inst = record {
  info = record { definition = soc_defn; name = "soc"; hierarchical_path = "soc"; parameters = [] };
  body = soc_body;
}

abbrev tops : List Instance
tops = soc_inst ∷ []

abbrev core_setting : Setting
core_setting = (("core", "/work/chip.sv"), "W=8" ∷ [])

abbrev soc_setting : Setting
soc_setting = (("soc", "/work/chip.sv"), [])

abbrev walked : Walk
walked = record {
  insts =
      (("soc", "/work/chip.sv"), ([], soc_inst) ∷ [])
      ∷ (("core", "/work/chip.sv"), ("W=8" ∷ [], core_inst) ∷ [])
      ∷ [];
  children = (soc_setting, children_of canon soc_inst) ∷ (core_setting, []) ∷ [];
  top_variants = (("soc", "/work/chip.sv"), []) ∷ [];
  imports = (("soc", "/work/chip.sv"), []) ∷ (("core", "/work/chip.sv"), "types" ∷ []) ∷ [];
  blackbox_params = ("pll", record { generics = []; unresolved = [] } ∷ []) ∷ [];
}

walk_run : walk_instances canon 2 tops ≡ some walked
unfolding walk_instances walk_stack visit is_seen pushed set_top_variants with_setting add_use
    iter_module_instances param_signature param_text collect_imports imports_onto add_unique
    add_if_new add_use_if_new any use_eq lookup insert set_default update string_eq list_eq pair_eq
walk_run = refl

tops_count : count_all tops ≡ 2
unfolding count_all count_scope
tops_count = refl

walk_instances_total_example :
    (walk : Walk) × (walk_instances canon 2 tops ≡ some walk) × Inv canon tops [] walk
walk_instances_total_example = walk_instances_total canon 2 tops (omega (arith, tops_count))

soc_kids : kids canon soc_inst ≡ core_inst ∷ []
unfolding pushed iter_module_instances
soc_kids = refl

core_kids : kids canon core_inst ≡ []
unfolding pushed iter_module_instances
core_kids = refl

reached : (inst : Instance) → Reach canon tops inst → (inst ≡ soc_inst) ⊎ (inst ≡ core_inst)
reached inst (top (Memᴰ.head q)) = inl q
reached inst (top (Memᴰ.tail m)) = absurd (Memᴰ.not-nil m)
reached inst (below {parent} r m) = elim (reached parent r) [
  | inl e ↦ elim (rw (e, soc_kids) at m) [
    | Memᴰ.head q ↦ inr q
    | Memᴰ.tail n ↦ absurd (Memᴰ.not-nil n)
  ]
  | inr e ↦ absurd (Memᴰ.not-nil (rw (e, core_kids) at m))
]

named : (setting_of canon soc_inst ≡ soc_setting) × (setting_of canon core_inst ≡ core_setting)
unfolding param_signature param_text
named = (refl, refl)

differ : soc_setting ≢ core_setting
differ e =
    let names : "soc" ≡ "core" = ap (λ (s : Setting). s.0.0) e in
    ground (arith, eq_iff "soc" "core")

tops-Uniform : Uniform canon tops
tops-Uniform a b p q e = elim (reached a p) [
  | inl x ↦ elim (reached b q) [
    | inl y ↦ rw (x, y) refl
    | inr y ↦ absurd (differ (sym named.0 ∙ rw (x, y) at e ∙ named.1))
  ]
  | inr x ↦ elim (reached b q) [
    | inl y ↦ absurd (differ (sym (rw (x, y) at e ∙ named.0) ∙ named.1))
    | inr y ↦ rw (x, y) refl
  ]
]

walk_instances-Reach_example :
    (is_seen canon walked core_setting ≡ true)
    ↔ ∥ ((inst : Instance) × Reach canon tops inst × (setting_of canon inst ≡ core_setting)) ∥₁
walk_instances-Reach_example =
    walk_instances-Reach canon 2 tops walked core_setting tops-Uniform walk_run

soc_entry :
    build_def_entry canon soc_defn walked
    ≡ some (record {
      mod_name = "soc";
      pkg_imports = [];
      insts =
          record { mod_name = "core"; inst_name = "u_core"; variant = none }
          ∷ record { mod_name = "pll"; inst_name = "u_pll"; variant = none }
          ∷ [];
      variants =
          (
            [],
            record { mod_name = "core"; inst_name = "u_core"; variant = some ("W=8" ∷ []) }
                ∷ record { mod_name = "pll"; inst_name = "u_pll"; variant = none }
                ∷ [],
          )
          ∷ [];
      top_variant = some [];
    })
unfolding build_def_entry merge_settings add_setting variant_inst relative_name with_setting
    iter_module_instances param_signature param_text add_unique add_if_new inst_eq lookup insert
    string_eq list_eq pair_eq
soc_entry = refl

relative_name-path_example :
    relative_name "u_core" ("soc" <> ("." <> "gen[0].u_core")) "soc" ≡ "gen[0].u_core"
relative_name-path_example = relative_name-path "u_core" "soc" "gen[0].u_core"

abbrev files : FileCache
files = ((1, 7), "/work/chip.sv") ∷ []

files-IsCached : IsCached canon files
unfolding lookup
files-IsCached l file h = ground (arith)

key-eq-key_of_example :
    ((key canon files core_defn).0 ≡ key_of canon core_defn)
    × IsCached canon (key canon files core_defn).1
key-eq-key_of_example = key-eq-key_of canon files core_defn files-IsCached
