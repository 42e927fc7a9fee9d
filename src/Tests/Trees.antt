-- ===== src/Tests/Trees.antt =====
-- `iter_tree` and `render_tree_line` on concrete hierarchies, src/svhier/cli.py.
use svhier.Base.{ℕ, ◌+◌, String, true, Option, none, some, List, [], ◌∷◌, ◌≡◌, ◌≢◌, ◌↔◌, refl, map}
use svhier.Base.{contains, string_eq, nat_eq, list_eq, option_eq, pair_eq}
use svhier.Base.Dict.{lookup, insert, keys, values}
use svhier.Base.Lists.{All, filter, flat_map}
use svhier.Result.{Inst, Definition, FileEntry}
use svhier.Tree.{TreeLine, ascii_guides, select_children, level, visit_child, remove}
use svhier.Tree.{
  step_level, run, iter_subtree, iter_tops, collect_units, collect_defs, instantiated,
}
use svhier.Tree.{default_tops, iter_tree, render_tree_line}
use svhier.Tree.Total.{ShowsTrees, tops_of, iter_tree_total}
use svhier.Tree.Marks.{
  IsMarked, roots, is_defined, iter_tree_marks, iter_tree-roots, Uninstantiated,
}
use svhier.Tests.Files.{inst, module_of, entry}

-- `node` instantiates itself with a smaller setting, and `pad` with the setting that it has.
abbrev variant_of : Inst → List String → Inst
variant_of i sig = record i { variant = some sig }

abbrev node : Definition
node = record (module_of "node" [] (inst "node" "left" ∷ [])) {
  variants =
      ("N=2" ∷ [], variant_of (inst "node" "left") ("N=1" ∷ []) ∷ [])
      ∷ ("N=1" ∷ [], inst "ip" "u_ip" ∷ [])
      ∷ [];
}

abbrev pad : Definition
pad = module_of "pad" [] (inst "pad" "u_pad" ∷ [])

abbrev soc : Definition
soc = record (module_of "soc" [] (inst "node" "u_node" ∷ inst "pad" "u_pad" ∷ [])) {
  variants = ([], variant_of (inst "node" "u_node") ("N=2" ∷ []) ∷ inst "pad" "u_pad" ∷ []) ∷ [];
  top_variant = some [];
}

abbrev chip : List FileEntry
chip = entry "soc.sv" [] (soc ∷ node ∷ []) ∷ entry "pad.sv" [] (pad ∷ []) ∷ []

abbrev below : String → String → String → Option String → TreeLine
below guide name module_name marker = record {
  guide = guide;
  name = name;
  module_name = some module_name;
  marker = marker;
}

abbrev chip_lines : List TreeLine
chip_lines =
    record { guide = ""; name = "soc"; module_name = none; marker = none }
    ∷ below "+-- " "u_node" "node" none
    ∷ below "|   `-- " "left" "node" none
    ∷ below "|       `-- " "u_ip" "ip" (some "blackbox")
    ∷ below "`-- " "u_pad" "pad" none
    ∷ below "    `-- " "u_pad" "pad" (some "cycle")
    ∷ []

chip_tree : iter_tree 20 chip none ascii_guides ≡ some chip_lines
unfolding iter_tree iter_tops iter_subtree run step_level visit_child remove level select_children
    collect_defs collect_units default_tops instantiated keys values insert lookup filter flat_map
    string_eq nat_eq list_eq option_eq pair_eq
chip_tree = refl

iter_tree_total_example :
    (fuel : ℕ) × (lines : List TreeLine) × ShowsTrees
      (collect_defs chip)
      ascii_guides
      (tops_of (collect_defs chip) none)
      lines
    × ((more : ℕ) → iter_tree (fuel + more) chip none ascii_guides ≡ some lines)
iter_tree_total_example = iter_tree_total chip none ascii_guides

iter_tree_marks_example :
    All (IsMarked (collect_defs chip)) chip_lines
    × (roots chip_lines
        ≡ filter (is_defined (collect_defs chip)) (tops_of (collect_defs chip) none))
iter_tree_marks_example = iter_tree_marks 20 chip none ascii_guides chip_lines chip_tree

iter_tree-roots_example : (contains (roots chip_lines) "soc" ≡ true) ↔ (
    (lookup "soc" (collect_defs chip) ≢ none) × Uninstantiated (values (collect_defs chip)) "soc")
iter_tree-roots_example = iter_tree-roots 20 chip ascii_guides chip_lines "soc" chip_tree

rendered :
    map
      (λ line. render_tree_line line (record {
        guides = ascii_guides;
        root = "B";
        module_code = "D";
        blackbox = "Y";
        cycle = "";
        end = "!";
      }))
      (below "|-- " "u" "ip" (some "blackbox") ∷ below "|-- " "v" "pad" (some "cycle") ∷ [])
    ≡ "|-- u D(ip)! Y(blackbox)!" ∷ "|-- v D(pad)! (cycle)" ∷ []
unfolding render_tree_line string_eq
rendered = refl
