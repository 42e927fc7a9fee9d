-- ===== src/Tests/Worker.antt =====
-- The worker of the GHDL plugin, plugins/svhier-ghdl/src/svhier_ghdl/worker.py, and `VhdlLibrary`, on
-- two files.
use svhier.Base.{
  ℕ, ◌+◌, ◌≤◌, ◌<◌, String, true, false, not, ◌&&◌, none, some, List, [], ◌∷◌, map, ◌≡◌, refl,
}
use svhier.Base.{◌==◌, contains, string_eq, list_eq, pair_eq, nat_eq, if◌then◌else◌}
use svhier.Base.Dict.{Dict, keys, lookup, update, get_or}
use svhier.Base.Lists.{All, any, flat_map, filter, dedupe, add_unique, add_if_new}
use svhier.Base.Text.{lower, lower_char, sort, insert_sorted}
use svhier.Libsearch.{add_names}
use svhier.Libsearch.Paths.{stem, drop_end, path_text, last_part, cut_last_dot, join_parts}
use svhier.Ghdl.Tool.{Top}
use svhier.Ghdl.Runs.{Output, read_output, no_output, file_deps_line, unset_line}
use svhier.Ghdl.Worker.{
  DesignUnit, selected_name, component_declaration, other_node, library_clause, other_item,
  entity_declaration, architecture_body, package_body, collect_refs, scan_context, scan_units,
  scan_file, load, TableUnit, add_needs, file_deps, Libghdl, print_design, elaborate_config,
  elaborate,
}
use svhier.Ghdl.Worker.Dates.{
  placed, OnlyArchitectures, place, dates_of, count_from, architectures, load-dates,
}
use svhier.Ghdl.Worker.Needs.{depends, file_deps-depends}
use svhier.Ghdl.Worker.Printed.{IsRead, read_output-elaborate}
use svhier.Ghdl.Library.{VhdlLibrary, build_vhdl_library, add_vhdl_sources, find_units}
use svhier.Ghdl.Library.Best.{IsChosen, find_units-IsChosen}

abbrev entity : DesignUnit
entity = record {
  context = library_clause "Lib" ∷ other_item (selected_name "lib" "Types" ∷ []) ∷ [];
  library_unit = entity_declaration "Top";
  nodes = other_node ∷ [];
}

abbrev arch : DesignUnit
arch = record {
  context = [];
  library_unit = architecture_body (some "Top");
  nodes = component_declaration "core" ∷ selected_name "lib" "types" ∷ [];
}

abbrev types_body : DesignUnit
types_body = record { context = []; library_unit = package_body "types"; nodes = [] }

top_scan : scan_file (entity ∷ arch ∷ []) ≡ record {
  units = "top" ∷ [];
  entities = "top" ∷ [];
  arch_of = "top" ∷ [];
  libs = "lib" ∷ [];
  refs = ("lib", "types") ∷ ("work", "core") ∷ [];
  named = ("lib", "types") ∷ [];
}
unfolding scan_file scan_units scan_context collect_refs add_if_new add_unique lower lower_char sort
    insert_sorted string_eq pair_eq
top_scan = refl

abbrev design_units : String → List DesignUnit
design_units path = if path == "types.vhd" then types_body ∷ [] else entity ∷ arch ∷ arch ∷ []

abbrev assigned : Dict String String
assigned = ("types.vhd", "lib") ∷ []

abbrev files : List String
files = "types.vhd" ∷ "top.vhd" ∷ []

load-dates_example :
    (placed (load design_units assigned "work" files)
      ≡ flat_map (λ path. map (place (get_or path "work" assigned)) (design_units path)) files)
    × (dates_of (load design_units assigned "work" files)
        ≡ count_from 10 (architectures (flat_map design_units files)))
    × OnlyArchitectures (load design_units assigned "work" files)
    × All
        (λ d. (10 < d) × (d ≤ 10 + architectures (flat_map design_units files)))
        (dates_of (load design_units assigned "work" files))
load-dates_example = load-dates design_units assigned "work" files

abbrev table : List TableUnit
table =
    record { file = "/types.vhd"; dependences = none ∷ [] }
    ∷ record { file = "/std.vhd"; dependences = [] }
    ∷ record {
      file = "/top.vhd";
      dependences = some "/types.vhd" ∷ some "/std.vhd" ∷ some "/top.vhd" ∷ [];
    }
    ∷ record { file = "/top.vhd"; dependences = some "/types.vhd" ∷ [] }
    ∷ []

abbrev known : List String
known = "/types.vhd" ∷ "/top.vhd" ∷ []

needs : file_deps known table [] ≡ ("/types.vhd", []) ∷ ("/top.vhd", "/types.vhd" ∷ []) ∷ []
unfolding file_deps add_needs update string_eq
needs = refl

file_deps-depends_example :
    contains (get_or "/top.vhd" [] (file_deps known table [])) "/types.vhd" ≡ (
      contains known "/top.vhd"
      && (contains known "/types.vhd"
          && (not (◌==◌ {A = String} "/types.vhd" "/top.vhd")
              && any (depends "/top.vhd" "/types.vhd") table)))
file_deps-depends_example = file_deps-depends known table "/top.vhd" "/types.vhd"

-- A libghdl whose state is how many overrides it was given.
abbrev libghdl : Libghdl ℕ
libghdl = record {
  add_generic_override = λ name value w. w + 1;
  configure = λ library top w. (7, w);
  error_count = λ w. 0;
  entity_of = λ config w. 8;
  apply_generic_override = λ entity w. w;
  generic_chain =
      λ entity w. record { name = "WIDTH"; is_constant = true; has_default = false } ∷ [];
  check_entity_declaration_top = λ entity w. w;
  elab_top_unit = λ config w. (9, w);
  design_units = λ w. table;
  strip_declarations = λ w. w;
  disp_hierarchy = λ top objects w. [];
}

abbrev by_abs : Dict String String
by_abs = ("/types.vhd", "types.vhd") ∷ ("/top.vhd", "top.vhd") ∷ []

abbrev request : Top
request = record {
  top = "Top";
  generics = ("Width", "8") ∷ [];
  top_library = "work";
  objects = true;
}

ran : elaborate libghdl known request 0 ≡ (
  0,
  unset_line ("width" ∷ [])
      ∷ file_deps_line (("/types.vhd", []) ∷ ("/top.vhd", "/types.vhd" ∷ []) ∷ [])
      ∷ [],
)
unfolding elaborate elaborate_config print_design filter file_deps add_needs update lower lower_char
    string_eq nat_eq
ran = refl

read_output-elaborate_example :
    (out : Output) × (read_output by_abs (elaborate libghdl (keys by_abs) request 0).1 no_output
      ≡ some out)
    × IsRead by_abs (elaborate libghdl (keys by_abs) request 0) out
read_output-elaborate_example = read_output-elaborate libghdl by_abs request 0

-- Two files define `core`; the one in a directory named after the library is better.
abbrev library : VhdlLibrary
library = build_vhdl_library (
    ("lib" ∷ "other" ∷ "core.vhd" ∷ [], some ("core" ∷ [], []))
    ∷ ("lib" ∷ "Util" ∷ "impl.vhd" ∷ [], some ("Core" ∷ "CORE" ∷ [], "core" ∷ []))
    ∷ ("lib" ∷ "Util" ∷ "rtl.vhd" ∷ [], some ([], "core" ∷ []))
    ∷ ("lib" ∷ "gone.vhd" ∷ [], none)
    ∷ [])

in_util :
    find_units library "Core" "util"
    ≡ (("lib" ∷ "Util" ∷ "impl.vhd" ∷ []) ∷ ("lib" ∷ "Util" ∷ "rtl.vhd" ∷ []) ∷ [], 1)
unfolding find_units filter stem drop_end path_text last_part cut_last_dot join_parts
    add_vhdl_sources add_names dedupe add_unique add_if_new update lookup lower lower_char sort
    insert_sorted string_eq list_eq
in_util = refl

find_units-IsChosen_example : IsChosen library "Core" "util" (find_units library "Core" "util")
find_units-IsChosen_example = find_units-IsChosen library "Core" "util"
