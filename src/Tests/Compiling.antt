-- ===== src/Tests/Compiling.antt =====
-- src/svhier/slang_frontend.py and the tables of src/svhier/parser.py on small results.
use svhier.Base.{
  ℕ, String, true, false, ◌||◌, Option, none, some, List, [], ◌∷◌, ◌++◌, ◌≡◌, refl, arith, map,
}
use svhier.Base.{contains, string_eq, list_eq, pair_eq, if◌then◌else◌}
use svhier.Base.Dict.{lookup, insert, update}
use svhier.Base.Lists.{filter, dedupe, add_unique, add_if_new, Nodup}
use svhier.Result.{Inst, inst_eq, Definition, FileEntry}
use svhier.Frontends.{Root}
use svhier.Parser.Symbols.{DefinitionSymbol}
use svhier.Parser.Tables.{
  Tables, Loaded, defined_names, find_duplicates, note_files, note_items, names_of, report, last_of,
}
use svhier.Slang.Merge.{Parsed, merge_unit, merge_files, entry_name}
use svhier.Slang.Merge.Laws.{first_some, new_names, merge_unit_lem, merge_files-names}
use svhier.Slang.Compile.{Tool, Slang}
use svhier.Slang.Elaborate.{without, required, retry, elaborate_plain}
use svhier.Slang.Elaborate.Plain.{IsSettled, elaborate_plain_total}
use svhier.Tests.Files.{inst, module_of, entry}

abbrev nothing : Parsed
nothing = record {
  files = [];
  tops = [];
  duplicates = [];
  needed = none;
  defines = [];
  inc_dirs = [];
  diagnostics = [];
  has_errors = false;
  missing = [];
  blackbox_params = [];
  invalid_tops = [];
  parameter_names = [];
  elaborated_tops = [];
}

-- `adder` cannot be elaborated without parameters.
abbrev tool : Tool Unit
tool = record {
  parse = λ tops params library w. (
    record nothing {
      tops = tops;
      invalid_tops = if contains tops "adder" then "adder" ∷ [] else [];
    },
    w,
  );
  has_inputs = λ w. true;
  inc_dirs = λ w. [];
  pulled = λ w. [];
}

abbrev state : Slang Unit
state = record { world = tt; units = none; modules = []; defined_elsewhere = [] }

abbrev roots : List Root
roots =
    record { name = "soc"; generics = []; requested = true }
    ∷ record { name = "adder"; generics = []; requested = false }
    ∷ []

plain_run :
    elaborate_plain tool 1 state roots ("soc" ∷ "adder" ∷ [])
    ≡ some ((some (record nothing { tops = "soc" ∷ [] }), "adder" ∷ []), state)
unfolding elaborate_plain retry filter dedupe add_unique add_if_new string_eq
plain_run = refl

plain_optional :
    without tool (required tool state roots) (dedupe ("soc" ∷ "adder" ∷ [])) ≡ "adder" ∷ []
unfolding filter dedupe add_unique add_if_new string_eq
plain_optional = refl

elaborate_plain_total_example :
    (res : Option Parsed) × (rejected : List String) × (st : Slang Unit) × (elaborate_plain tool 1
        state roots
        ("soc" ∷ "adder" ∷ [])
      ≡ some ((res, rejected), st))
    × IsSettled tool
        ("soc" ∷ "adder" ∷ [])
        (without tool (required tool state roots) (dedupe ("soc" ∷ "adder" ∷ [])))
        res
        rejected
elaborate_plain_total_example =
    elaborate_plain_total tool 1 state roots ("soc" ∷ "adder" ∷ [])
      (rw plain_optional (omega arith))

abbrev narrow : Definition
narrow = record (module_of "mac" [] (inst "mul" "u_mul" ∷ [])) {
  variants = ("W=1" ∷ [], inst "mul" "u_mul" ∷ []) ∷ [];
}

abbrev wide : Definition
wide = record (module_of "mac" [] (inst "mul" "u_mul" ∷ inst "add" "u_add" ∷ [])) {
  variants = ("W=2" ∷ [], inst "add" "u_add" ∷ []) ∷ [];
  top_variant = some ("W=2" ∷ []);
}

merge_unit_lem_example :
    let unit = merge_unit wide narrow in
    ((i : Inst) → contains unit.insts i ≡ (contains narrow.insts i || contains wide.insts i))
    × (Nodup narrow.insts → Nodup unit.insts)
    × ((p : String)
        → contains unit.pkg_imports p
          ≡ (contains narrow.pkg_imports p || contains wide.pkg_imports p))
    × ((sig : List String)
        → lookup sig unit.variants
          ≡ first_some (lookup sig narrow.variants) (lookup sig wide.variants))
    × (unit.top_variant ≡ first_some narrow.top_variant wide.top_variant)
merge_unit_lem_example = merge_unit_lem wide narrow

abbrev one : List FileEntry
one = entry "mac.sv" [] (narrow ∷ []) ∷ []

abbrev two : List FileEntry
two = entry "ip.sv" [] [] ∷ entry "mac.sv" [] (wide ∷ []) ∷ []

merge_files-names_example :
    map entry_name (merge_files one two) ≡ map entry_name one ++ new_names (map entry_name one) two
merge_files-names_example = merge_files-names one two

abbrev defn : String → ℕ → DefinitionSymbol
defn name offset = record { name = name; location = (1, offset) }

abbrev tables : Tables
tables = record {
  modules = ("/a.sv", defn "m" 0 ∷ []) ∷ ("/b.sv", defn "m" 0 ∷ defn "n" 9 ∷ []) ∷ [];
  ifaces = [];
  pkgs = ("/a.sv", "n" ∷ []) ∷ [];
  used = (("module", "m"), "/a.sv") ∷ [];
}

abbrev loaded : List Loaded
loaded = ("a.sv", "/a.sv") ∷ ("b.sv", "/b.sv") ∷ []

-- A package and a module may share their name.
duplicates :
    find_duplicates tables loaded
    ≡ record { name = "m"; kind = "module"; files = "a.sv" ∷ "b.sv" ∷ []; used = "a.sv" } ∷ []
unfolding find_duplicates note_files note_items names_of report last_of defined_names add_if_new
    lookup insert update string_eq pair_eq
duplicates = refl
