-- ===== src/Tests/Hierarchy.antt =====
-- The reader of the hierarchy that GHDL prints, plugins/svhier-ghdl/src/svhier_ghdl/__init__.py.
use svhier.Base.{none, some, List, [], ◌∷◌, ◌≡◌, refl}
use svhier.Base.{string_eq, nat_eq}
use svhier.Base.Dict.{insert}
use svhier.Base.Int.{digits}
use svhier.Base.Text.{lower, lower_char}
use svhier.Parser.Command.{escape, escape_all}
use svhier.Ghdl.Hierarchy.{
  architecture, instance_of, leaf, next, node, Line, structure, generic, object, no_use, is_digits,
  is_integer, is_bits, to_literal, append_node, close_to, close_frames, read_generic, read_line,
  read_lines, parse_tree,
}
use svhier.Ghdl.Hierarchy.{Nodes}
use svhier.Ghdl.Hierarchy.Parsing.{print_nodes, without_uses, parse_tree-print_nodes}

integer_value : to_literal "discrete" "-12" ≡ some "-12"
unfolding to_literal is_integer is_digits string_eq nat_eq
integer_value = refl

time_value : to_literal "discrete" "12 ns" ≡ none
unfolding to_literal is_integer is_digits string_eq nat_eq
time_value = refl

vector_value : to_literal "vector" "\"01XZ\"" ≡ some "4'b01xz"
unfolding to_literal is_bits digits lower lower_char string_eq nat_eq
vector_value = refl

array_value : to_literal "array" "\"a\\b\"" ≡ some "\"a\\\\b\""
unfolding to_literal escape_all escape string_eq nat_eq
array_value = refl

abbrev printed : List Line
printed =
    structure 0 (architecture "rtl" "top")
    ∷ object
    ∷ structure 2 (instance_of "u0" "core")
    ∷ generic 2 "W" "discrete" "8"
    ∷ generic 2 "T" "discrete" "5 ns"
    ∷ structure 2 (instance_of "u1" "core")
    ∷ []

printed-tree :
    parse_tree printed
    ≡ next
        (node (architecture "rtl" "top") no_use (
          next
            (node
              (instance_of "u0" "core")
              (record { generics = ("W", "8") ∷ []; unresolved = "T = 5 ns" ∷ [] })
              leaf)
            (next (node (instance_of "u1" "core") no_use leaf) leaf)))
        leaf
unfolding parse_tree read_lines read_line read_generic close_frames close_to append_node to_literal
    is_integer is_digits string_eq nat_eq insert
printed-tree = refl

-- An architecture with two instances, the first of them with a value, and another behind it.
abbrev design : Nodes
design =
    next
      (node (architecture "rtl" "top") no_use (
        next
          (node (instance_of "u0" "core") (record { generics = ("W", "8") ∷ []; unresolved = [] })
            (next (node (architecture "rtl" "core") no_use leaf) leaf))
          (next (node (instance_of "u1" "core") no_use leaf) leaf)))
      (next (node (architecture "rtl" "other") no_use leaf) leaf)

parse_tree-print_nodes_example : parse_tree (print_nodes 1 0 design) ≡ without_uses design
parse_tree-print_nodes_example = parse_tree-print_nodes 1 design
