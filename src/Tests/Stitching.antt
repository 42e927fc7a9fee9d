-- ===== src/Tests/Stitching.antt =====
-- `stitch` of src/svhier/frontends.py over two small frontends.
use svhier.Base.{Bool, true, false, none, List, [], ◌∷◌, ◌≡◌, ◌↔◌, refl, map}
use svhier.Base.{contains, string_eq, nat_eq, list_eq, option_eq, pair_eq, if◌then◌else◌, ◌==◌}
use svhier.Base.Dict.{lookup, insert, update, keys}
use svhier.Base.Lists.{All, filter, any, flat_map, add_unique, add_if_new}
use svhier.Base.Text.{lower, lower_char, sort, insert_sorted}
use svhier.Result.{Inst, Definition, Fragment, empty_fragment}
use svhier.Tree.{collect_defs}
use svhier.Frontends.{
  Frontend, Plugins, Root, Stitcher, root_eq, roots_eq, choose_catch_all, find_unit, route_use,
  route_uses, find_provider, definer, route, elaborate_one, elaborate_all, route_all, rounds,
  read_units, assign_tops, init,
}
use svhier.Frontends.Merge.{
  merge_users, merge_kinds, merge_fragment, spell_units, spellings, finish, merge, stitch,
  max_rounds,
}
use svhier.Frontends.Settled.{Settled, run-Settled}
use svhier.Frontends.Spelling.{lowered, units_in}
use svhier.Frontends.Spelling.Finished.{insts_in, caseless, finish-insts_in}
use svhier.Tests.Files.{inst, module_of, entry}

-- A Verilog frontend whose `Top` instantiates `Core`, and a VHDL one that defines `core`.
abbrev slang : Frontend
slang = record { key = 0; name = "slang"; catch_all = true }

abbrev ghdl : Frontend
ghdl = record { key = 1; name = "ghdl"; catch_all = false }

abbrev top_fragment : Fragment
top_fragment = record empty_fragment {
  files = entry "top.sv" [] (module_of "Top" [] (inst "Core" "u_core" ∷ []) ∷ []) ∷ [];
  unresolved = ("Core", []) ∷ [];
}

abbrev core_fragment : Fragment
core_fragment = record empty_fragment {
  files = entry "core.vhd" [] (module_of "core" [] [] ∷ []) ∷ [];
}

-- Without roots there is nothing to elaborate.
abbrev either : List Root → Fragment → Fragment
either roots fragment = elim roots [ [] ↦ empty_fragment | _ ∷ _ ↦ fragment ]

abbrev plugins : Plugins Unit
plugins = record {
  units = λ key w. (if key == 0 then ("top", "top.sv") ∷ [] else ("core", "core.vhd") ∷ [], w);
  provide = λ key name w. (false, w);
  elaborate =
      λ key request w. (either request.roots (if key == 0 then top_fragment else core_fragment), w);
  drop_resolved = λ key fragment names. fragment;
}

abbrev inputs : List Frontend
inputs = slang ∷ ghdl ∷ []

abbrev settled_rounds : Bool × Stitcher Unit
settled_rounds = rounds plugins inputs max_rounds (init plugins inputs slang ("Top" ∷ []) tt)

run_stops : settled_rounds.0 ≡ true
unfolding rounds init read_units assign_tops choose_catch_all find_unit route_use route_uses
    find_provider definer route elaborate_one elaborate_all route_all root_eq roots_eq
    empty_fragment lower lower_char sort insert_sorted filter any flat_map add_unique add_if_new
    lookup insert keys string_eq nat_eq list_eq pair_eq
run_stops = refl

run-Settled_example : Settled plugins inputs settled_rounds.1
run-Settled_example =
    run-Settled plugins inputs max_rounds slang ("Top" ∷ []) tt (λ key name w. refl) run_stops

-- The VHDL name is the one that the tree looks up.
stitched_insts :
    flat_map
      (λ (d : Definition). d.insts)
      (units_in (stitch plugins slang (ghdl ∷ []) ("Top" ∷ []) tt).files)
    ≡ inst "core" "u_core" ∷ []
unfolding stitch merge merge_users merge_kinds merge_fragment spell_units spellings finish update
    rounds init read_units assign_tops choose_catch_all find_unit route_use route_uses find_provider
    definer route elaborate_one elaborate_all route_all root_eq roots_eq empty_fragment lower
    lower_char sort insert_sorted filter any flat_map add_unique add_if_new lookup insert keys
    string_eq nat_eq list_eq pair_eq
stitched_insts = refl

-- A VHDL entity in another case than its Verilog instance, also in a setting.
abbrev mixed_fragment : Fragment
mixed_fragment = record empty_fragment {
  files =
      entry "top.sv" [] (
        record (module_of "Top" [] (inst "Core" "u_core" ∷ inst "Gone" "u_gone" ∷ [])) {
          variants = (("4" ∷ []), inst "CORE" "u_core" ∷ []) ∷ [];
        }
        ∷ [])
      ∷ entry "core.vhd" [] (module_of "core" [] [] ∷ [])
      ∷ [];
}

finish-insts_in_example :
    All
      (λ (i : Inst).
        (lookup i.mod_name (collect_defs (finish ("top" ∷ []) [] mixed_fragment).files) ≡ none)
        ↔ (contains (map lowered (units_in mixed_fragment.files)) (lower i.mod_name) ≡ false))
      (insts_in (finish ("top" ∷ []) [] mixed_fragment).files)
    × (map caseless (insts_in (finish ("top" ∷ []) [] mixed_fragment).files)
        ≡ map caseless (insts_in mixed_fragment.files))
finish-insts_in_example = finish-insts_in ("top" ∷ []) [] mixed_fragment
