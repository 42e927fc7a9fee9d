-- ===== src/Ghdl/Hierarchy/Parsing.antt =====
-- That `parse_tree` of plugins/svhier-ghdl/src/svhier_ghdl/__init__.py reads back a tree that is
-- printed with an indent for each level.
use svhier.Base.{
  ℕ, suc, ◌+◌, ◌≤◌, true, false, List, [], ◌∷◌, ◌++◌, ◌≡◌, refl, sym, ◌∙◌, ap, arith, inl, inr,
  Bool-cases,
}
use svhier.Base.Text.{leb}
use svhier.Ghdl.Hierarchy.{
  NodeText, Node, node, Nodes, leaf, next, Line, structure, Frame, Reading, append_node, closed,
  with_child, close, close_to, close_frames, no_use, open_node, read_line, read_lines, parse_tree,
}

-- A tree on lines, each level `deeper + 1` to the right of the one above.
unfoldable pub print_nodes : ℕ → ℕ → Nodes → List Line
print_nodes deeper indent leaf = []
print_nodes deeper indent (next (node text u children) rest) =
    structure indent text
    ∷ (print_nodes deeper (indent + suc deeper) children ++ print_nodes deeper indent rest)

-- A tree without what the generics say.
unfoldable pub without_uses : Nodes → Nodes
without_uses leaf = leaf
without_uses (next (node text u children) rest) =
    next (node text no_use (without_uses children)) (without_uses rest)

unfoldable append : Nodes → Nodes → Nodes
append leaf ms = ms
append (next n ns) ms = next n (append ns ms)

append_node-append :
    (ns : Nodes) (n : Node) (ms : Nodes) → append (append_node ns n) ms ≡ append ns (next n ms)
unfolding append append_node
append_node-append leaf n ms = refl
append_node-append (next m ns) n ms = ap (next m) (append_node-append ns n ms)

append-leaf : (ns : Nodes) → append ns leaf ≡ ns
unfolding append
append-leaf leaf = refl
append-leaf (next n ns) = ap (next n) (append-leaf ns)

-- A node for what is open, or for the root.
unfoldable add_child : Node → Reading → Reading
add_child n r = elim r.stack [
  | [] ↦ record r { top = append_node r.top n }
  | f ∷ fs ↦ record r { stack = with_child f n ∷ fs }
]

unfoldable add_children : Nodes → Reading → Reading
add_children leaf r = r
add_children (next n ns) r = add_children ns (add_child n r)

add_children-frame :
    (ms : Nodes) (f : Frame) (fs : List Frame) (top : Nodes)
    → add_children ms (record { top = top; stack = f ∷ fs })
      ≡ record { top = top; stack = record f { children = append f.children ms } ∷ fs }
unfolding add_children add_child append
add_children-frame leaf f fs top = rw (append-leaf f.children) refl
add_children-frame (next n ms) f fs top =
    rw (add_children-frame ms (with_child f n) fs top, append_node-append f.children n ms) refl

add_children-top :
    (ms top : Nodes) → (add_children ms (record { top = top; stack = [] })).top ≡ append top ms
unfolding add_children add_child
add_children-top leaf top = rw (append-leaf top) refl
add_children-top (next n ms) top =
    rw (add_children-top ms (append_node top n), append_node-append top n ms) refl

read_lines-append :
    (xs ys : List Line) (r : Reading) → read_lines (xs ++ ys) r ≡ read_lines ys (read_lines xs r)
unfolding read_lines
read_lines-append [] ys r = refl
read_lines-append (x ∷ xs) ys r = read_lines-append xs ys (read_line r x)

close-close_to :
    (d deep : ℕ) (fs : List Frame) (top : Nodes) (n : Node)
    → d ≤ deep
    → close d (close_to deep fs top n) ≡ close_to d fs top n
unfolding close_to close_frames
close-close_to d deep [] top n h = refl
close-close_to d deep (f ∷ fs) top n h = elim (Bool-cases (leb deep f.indent)) [
  | inl ends ↦
      let also : leb d f.indent ≡ true = ground arith in
      rw (ends, also) (close-close_to d deep fs top (closed (with_child f n)) h)
  | inr stays ↦ rw stays refl
]

close-close :
    (d deep : ℕ) (fs : List Frame) (top : Nodes)
    → d ≤ deep
    → close d (close_frames deep fs top) ≡ close_frames d fs top
unfolding close_frames
close-close d deep [] top h = refl
close-close d deep (f ∷ fs) top h = elim (Bool-cases (leb deep f.indent)) [
  | inl ends ↦
      let also : leb d f.indent ≡ true = ground arith in
      rw (ends, also) (close-close_to d deep fs top (closed f) h)
  | inr stays ↦ rw stays refl
]

close_to-again :
    (d : ℕ) (fs : List Frame) (top : Nodes) (m n : Node)
    → let r = close_to d fs top m in close_to d r.stack r.top n ≡ add_child n r
unfolding close_to add_child
close_to-again d [] top m n = refl
close_to-again d (f ∷ fs) top m n = elim (Bool-cases (leb d f.indent)) [
  | inl ends ↦ rw ends (close_to-again d fs top (closed (with_child f m)) n)
  | inr stays ↦ rw (stays, close_to, add_child, stays) refl
]

close_frames-again :
    (d : ℕ) (fs : List Frame) (top : Nodes) (n : Node)
    → let r = close_frames d fs top in close_to d r.stack r.top n ≡ add_child n r
unfolding close_frames close_to add_child
close_frames-again d [] top n = refl
close_frames-again d (f ∷ fs) top n = elim (Bool-cases (leb d f.indent)) [
  | inl ends ↦ rw ends (close_to-again d fs top (closed f) n)
  | inr stays ↦ rw (stays, close_to, add_child, stays) refl
]

-- A node has been read with what is below it, and is closed.
close-open_node :
    (d deep : ℕ) (text : NodeText) (ms : Nodes) (r after : Reading)
    → suc d ≤ deep
    → close deep after ≡ add_children ms (close deep (open_node d text (close d r)))
    → close d after ≡ add_child (node text no_use ms) (close d r)
unfolding close_frames append
close-open_node d deep text ms r after h inside =
    let before = close d r in
    let opened : Frame = record { indent = d; text = text; use_of = no_use; children = leaf } in
    let stays : leb deep d ≡ false = ground arith in
    let ends : leb d d ≡ true = ground arith in
    let same : close deep (open_node d text before) ≡ open_node d text before = rw stays refl in
    let full : close deep after
        ≡ record { top = before.top; stack = record opened { children = ms } ∷ before.stack } =
      inside ∙ ap (add_children ms) same ∙ add_children-frame ms opened before.stack before.top in
    let below : d ≤ deep = omega arith in
    let again : close d
          (record { top = before.top; stack = record opened { children = ms } ∷ before.stack })
        ≡ add_child (node text no_use ms) before =
      rw ends (close_frames-again d r.stack r.top (node text no_use ms)) in
    sym (close-close d deep after.stack after.top below) ∙ ap (close d) full ∙ again

read_lines-print_nodes :
    (deeper d : ℕ) (ns : Nodes) (r : Reading)
    → close d (read_lines (print_nodes deeper d ns) r) ≡ add_children (without_uses ns) (close d r)
unfolding print_nodes without_uses add_children read_lines read_line
read_lines-print_nodes deeper d leaf r = refl
read_lines-print_nodes deeper d (next (node text u children) rest) r =
    let opened = open_node d text (close d r) in
    let inner_lines = print_nodes deeper (d + suc deeper) children in
    let after = read_lines inner_lines opened in
    let inside = read_lines-print_nodes deeper (d + suc deeper) children opened in
    let beside = read_lines-print_nodes deeper d rest after in
    let below : suc d ≤ d + suc deeper = omega arith in
    let closed_again =
      close-open_node d (d + suc deeper) text (without_uses children) r after below inside in
    ap (close d) (read_lines-append inner_lines (print_nodes deeper d rest) opened)
    ∙ beside
    ∙ ap (add_children (without_uses rest)) closed_again

-- Reading a tree that is printed without its generics, with the same number of further columns at
-- each level and at least one, gives the same tree back, with no generics.
pub parse_tree-print_nodes :
    (deeper : ℕ) (ns : Nodes) → parse_tree (print_nodes deeper 0 ns) ≡ without_uses ns
unfolding parse_tree append close_frames
parse_tree-print_nodes deeper ns =
    ap (λ r. r.top) (read_lines-print_nodes deeper 0 ns (record { top = leaf; stack = [] }))
    ∙ add_children-top (without_uses ns) leaf
