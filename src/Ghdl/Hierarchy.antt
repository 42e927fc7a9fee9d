-- ===== src/Ghdl/Hierarchy.antt =====
-- `to_literal` and `parse_tree` of plugins/svhier-ghdl/src/svhier_ghdl/__init__.py: what GHDL
-- prints of an elaborated design, as a tree. The regular expressions for the lines have been
-- applied: a line is what they match, and an empty line is none.
pub mod Parsing
use Prim.Native.Char.{code}
use Prim.Native.Nat.{◌/◌, ◌%◌}
use Prim.Native.String.{slice, len}
use text.Mathlib.Text.{starts_with}
use svhier.Base.{
  ℕ, zero, suc, ◌+◌, ◌-◌, String, ◌<>◌, Bool, true, false, not, ◌&&◌, Option, none, some, List, [],
  ◌∷◌, ◌++◌,
}
use svhier.Base.{◌==◌, contains, string_eq, nat_eq, if◌then◌else◌}
use svhier.Base.Dict.{Dict, lookup, insert}
use svhier.Base.Int.{ℤ, digits}
use svhier.Base.Text.{leb, lower}
use svhier.Result.{UnitUse}
use svhier.Parser.Command.{escape_all}

-- What a line of the hierarchy says.
pub data NodeText : Type 0 where
  architecture : String → String → NodeText
  instance_of : String → String → NodeText
  for_generate : String → ℤ → Bool → NodeText
  scope : String → NodeText
  body : NodeText

mutual
  pub data Node : Type 0 where
    node : NodeText → UnitUse → Nodes → Node

  pub data Nodes : Type 0 where
    leaf : Nodes
    next : Node → Nodes → Nodes

-- A line: its indent and a node, or its indent and a generic's name, kind and value, or another.
pub data Line : Type 0 where
  structure : ℕ → NodeText → Line
  generic : ℕ → String → String → String → Line
  object : Line

-- `_LOGIC` and `_BOOLEAN`
abbrev pub logic_values : Dict String String
logic_values = ("'0'", "1'b0") ∷ ("'1'", "1'b1") ∷ ("'X'", "1'bx") ∷ ("'Z'", "1'bz") ∷ []

abbrev pub boolean_values : Dict String String
boolean_values = ("true", "1'b1") ∷ ("false", "1'b0") ∷ ("'1'", "1'b1") ∷ ("'0'", "1'b0") ∷ []

unfoldable pub is_digits : String → Bool
is_digits String.[] = true
is_digits (String.◌∷◌ c s) = leb 48 (code c) && leb (code c) 57 && is_digits s

-- `_INTEGER`
unfoldable pub is_integer : String → Bool
unfolding is_digits
is_integer value =
    if starts_with value "-"
    then not (slice value 1 (len value) == "") && is_digits (slice value 1 (len value))
    else not (value == "") && is_digits value

-- The codes of `0`, `1`, `X` and `Z`
unfoldable pub is_bits : String → Bool
is_bits String.[] = true
is_bits (String.◌∷◌ c s) = contains (48 ∷ 49 ∷ 88 ∷ 90 ∷ []) (code c) && is_bits s

-- `value[1:-1]`
abbrev pub inner : String → String
inner value = slice value 1 (len value - 1)

abbrev pub is_quoted : String → Bool
is_quoted value =
    leb 2 (len value) && starts_with value "\"" && slice value (len value - 1) (len value) == "\""

-- `_BITS`
abbrev pub is_vector : String → Bool
is_vector value = is_quoted value && not (inner value == "") && is_bits (inner value)

unfoldable pub to_literal : String → String → Option String
unfolding is_integer is_bits lower escape_all digits
to_literal kind value =
    if kind == "discrete"
    then (if is_integer value then some value else none)
    else if kind == "bit"
    then lookup value boolean_values
    else if kind == "logic"
    then lookup value logic_values
    else if kind == "float"
    then some value
    else if kind == "vector"
    then (if is_vector value
        then some
            (digits (suc (len (inner value))) (len (inner value)) <> "'b" <> lower (inner value))
        else none)
    else if kind == "array" && starts_with value "\""
    then some ("\"" <> escape_all (inner value) <> "\"")
    else none

-- A node being read.
pub record Frame : Type 0 where
  pub indent : ℕ
  pub text : NodeText
  pub use_of : UnitUse
  pub children : Nodes

-- `stack` without the root, whose children are `top`.
pub record Reading : Type 0 where
  pub top : Nodes
  pub stack : List Frame

unfoldable pub append_node : Nodes → Node → Nodes
append_node leaf n = next n leaf
append_node (next m ms) n = next m (append_node ms n)

abbrev pub closed : Frame → Node
closed f = node f.text f.use_of f.children

abbrev pub with_child : Frame → Node → Frame
with_child f n = record f { children = append_node f.children n }

-- `stack.pop()` while the indent is not smaller, after the node `n` has been taken off.
unfoldable pub close_to : ℕ → List Frame → Nodes → Node → Reading
unfolding append_node
close_to indent [] top n = record { top = append_node top n; stack = [] }
close_to indent (f ∷ fs) top n =
    let rest = close_to indent fs top (closed (with_child f n)) in
    if leb indent f.indent then rest else record { top = top; stack = with_child f n ∷ fs }

unfoldable pub close_frames : ℕ → List Frame → Nodes → Reading
unfolding close_to
close_frames indent [] top = record { top = top; stack = [] }
close_frames indent (f ∷ fs) top =
    if leb indent f.indent
    then close_to indent fs top (closed f)
    else record { top = top; stack = f ∷ fs }

abbrev pub close : ℕ → Reading → Reading
close indent r = close_frames indent r.stack r.top

abbrev pub no_use : UnitUse
no_use = record { generics = []; unresolved = [] }

abbrev pub open_node : ℕ → NodeText → Reading → Reading
open_node indent text r = record r {
  stack = record { indent = indent; text = text; use_of = no_use; children = leaf } ∷ r.stack;
}

abbrev pub is_instance : NodeText → Bool
is_instance (instance_of label component) = true
is_instance _ = false

-- A generic's value is kept if it has a literal, and else noted as it was printed.
abbrev pub add_generic : String → String → String → UnitUse → UnitUse
add_generic name kind value u = elim (to_literal kind value) [
  | none ↦ record u { unresolved = u.unresolved ++ (name <> " = " <> value) ∷ [] }
  | some literal ↦ record u { generics = insert name literal u.generics }
]

unfoldable pub read_generic : ℕ → String → String → String → List Frame → List Frame
read_generic indent name kind value [] = []
read_generic indent name kind value (f ∷ fs) =
    if is_instance f.text && f.indent == indent
    then record f { use_of = add_generic name kind value f.use_of } ∷ fs
    else f ∷ fs

-- The body of the loop over the lines.
unfoldable pub read_line : Reading → Line → Reading
unfolding close_frames read_generic to_literal
read_line r (structure indent text) = open_node indent text (close indent r)
read_line r (generic indent name kind value) = record r {
  stack = read_generic indent name kind value r.stack;
}
read_line r object = r

unfoldable pub read_lines : List Line → Reading → Reading
unfolding read_line
read_lines [] r = r
read_lines (line ∷ lines) r = read_lines lines (read_line r line)

-- `parse_tree`, which returns the children of its root.
unfoldable pub parse_tree : List Line → Nodes
unfolding read_lines
parse_tree lines = (close 0 (read_lines lines (record { top = leaf; stack = [] }))).top
