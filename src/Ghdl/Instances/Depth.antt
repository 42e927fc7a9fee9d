-- ===== src/Ghdl/Instances/Depth.antt =====
-- That `_scan` (plugins/svhier-ghdl/src/svhier_ghdl/__init__.py) ends, and that what it finds lies
-- less deep than what it scans.
use Prim.Native.Nat.{max}
use svhier.Base.{
  ℕ, zero, suc, ◌-◌, ◌≤◌, ◌<◌, String, ◌<>◌, Bool, true, Option, some, List, [], ◌∷◌, ◌++◌, ◌≡◌,
  refl, arith, inl, inr,
}
use svhier.Base.Int.{ℤ}
use svhier.Base.Lists.{All, List-cases}
use svhier.Result.{UnitUse}
use svhier.Ghdl.Hierarchy.{
  NodeText, architecture, instance_of, for_generate, scope, body, Node, node, Nodes, leaf, next,
  append_node,
}
use svhier.Ghdl.Instances.{
  split_from, split_bodies, Found, find_arch, is_arch_node, both, Scanner, scan_for, scan_all,
  scan_scope, scan_node, scan_nodes, scan,
}

unfoldable pub depth : Nodes → ℕ
depth leaf = 0
depth (next (node text u children) rest) = max (suc (depth children)) (depth rest)

unfoldable pub node_depth : Node → ℕ
unfolding depth
node_depth (node text u children) = suc (depth children)

depth-next : (n : Node) (rest : Nodes) → depth (next n rest) ≡ max (node_depth n) (depth rest)
unfolding depth node_depth
depth-next (node text u children) rest = refl

depth-leaf : depth leaf ≡ 0
unfolding depth
depth-leaf = refl

depth-append_node :
    (ns : Nodes) (n : Node) → depth (append_node ns n) ≡ max (depth ns) (node_depth n)
unfolding append_node
depth-append_node leaf n = omega (arith, depth-next n leaf, depth-leaf)
depth-append_node (next m ns) n =
    omega (arith, depth-next m (append_node ns n), depth-next m ns, depth-append_node ns n)

-- A node and what follows it, in a scope of at most this depth.
pub next_bounds :
    (m : ℕ) (text : NodeText) (u : UnitUse) (inner rest : Nodes)
    → depth (next (node text u inner) rest) ≤ m
    → (suc (depth inner) ≤ m) × (depth rest ≤ m)
unfolding depth
next_bounds m text u inner rest h = omega arith

-- The architectures that are found, at most this deep.
abbrev pub Shallow : ℕ → List Found → Type 0
Shallow k found =
    All
      (λ (f : Found).
        (arch : Node) → f.arch ≡ some arch → (node_depth arch ≤ k) × (is_arch_node arch ≡ true))
      found

abbrev pub Finds : ℕ → Option (List Found) → Type 0
Finds k o = (found : List Found) × (o ≡ some found) × Shallow k found

-- What is at most this deep can be scanned.
abbrev pub Scans : Scanner → ℕ → ℕ → Type 0
Scans inside m k = (b : Nodes) (prefix : String) → depth b ≤ m → Finds k (inside b prefix)

Shallow-append : (k : ℕ) (xs ys : List Found) → Shallow k xs → Shallow k ys → Shallow k (xs ++ ys)
Shallow-append k [] ys a b = b
Shallow-append k (x ∷ xs) ys a b = (a.0, Shallow-append k xs ys a.1 b)

Finds-both : (k : ℕ) (a b : Option (List Found)) → Finds k a → Finds k b → Finds k (both a b)
Finds-both k a b (xs, p, s) (ys, q, t) = rw p (rw q (xs ++ ys, refl, Shallow-append k xs ys s t))

split_from_step :
    (m : ℕ) (current : Nodes) (text : NodeText) (u : UnitUse) (inner rest : Nodes)
    → depth current ≤ m
    → depth (next (node text u inner) rest) ≤ m
    → ((c : Nodes) → depth c ≤ m → depth rest ≤ m → All (λ b. depth b ≤ m) (split_from c rest))
    → All (λ b. depth b ≤ m) (split_from (append_node current (node text u inner)) rest)
unfolding node_depth
split_from_step m current text u inner rest c h go =
    let (below, after) = next_bounds m text u inner rest h in
    go (append_node current (node text u inner))
      (omega (arith, depth-append_node current (node text u inner))) after

split_from-depth :
    (m : ℕ) (current ns : Nodes)
    → depth current ≤ m
    → depth ns ≤ m
    → All (λ b. depth b ≤ m) (split_from current ns)
unfolding split_from
split_from-depth m current leaf c h = (c, tt)
split_from-depth m current (next (node body u inner) rest) c h =
    let (below, after) = next_bounds m body u inner rest h in
    (c, split_from-depth m inner rest (omega arith) after)
split_from-depth m current (next (node (architecture a e) u inner) rest) c h =
    split_from_step m current (architecture a e) u inner rest c h (λ c1. split_from-depth m c1 rest)
split_from-depth m current (next (node (instance_of l x) u inner) rest) c h =
    split_from_step m current (instance_of l x) u inner rest c h (λ c1. split_from-depth m c1 rest)
split_from-depth m current (next (node (for_generate l low up) u inner) rest) c h =
    split_from_step m current (for_generate l low up) u inner rest c h
      (λ c1. split_from-depth m c1 rest)
split_from-depth m current (next (node (scope l) u inner) rest) c h =
    split_from_step m current (scope l) u inner rest c h (λ c1. split_from-depth m c1 rest)

split_bodies-depth : (m : ℕ) (ns : Nodes) → depth ns ≤ m → All (λ b. depth b ≤ m) (split_bodies ns)
unfolding split_bodies
split_bodies-depth m leaf h = tt
split_bodies-depth m (next (node body u inner) rest) h =
    let (below, after) = next_bounds m body u inner rest h in
    split_from-depth m inner rest (omega arith) after
split_bodies-depth m (next (node (architecture a e) u inner) rest) h =
    split_bodies-depth m rest (next_bounds m (architecture a e) u inner rest h).1
split_bodies-depth m (next (node (instance_of l x) u inner) rest) h =
    split_bodies-depth m rest (next_bounds m (instance_of l x) u inner rest h).1
split_bodies-depth m (next (node (for_generate l low up) u inner) rest) h =
    split_bodies-depth m rest (next_bounds m (for_generate l low up) u inner rest h).1
split_bodies-depth m (next (node (scope l) u inner) rest) h =
    split_bodies-depth m rest (next_bounds m (scope l) u inner rest h).1

find_arch-depth :
    (ns : Nodes) (arch : Node)
    → find_arch ns ≡ some arch
    → (node_depth arch ≤ depth ns) × (is_arch_node arch ≡ true)
unfolding find_arch depth node_depth
find_arch-depth leaf arch h = absurd (cc)
find_arch-depth (next (node (architecture a e) u inner) rest) arch h =
    let same : node (architecture a e) u inner ≡ arch = cc in rw (← same) (omega arith, refl)
find_arch-depth (next (node (instance_of l x) u inner) rest) arch h =
    let found = find_arch-depth rest arch h in (omega (arith, found.0), found.1)
find_arch-depth (next (node (for_generate l low up) u inner) rest) arch h =
    let found = find_arch-depth rest arch h in (omega (arith, found.0), found.1)
find_arch-depth (next (node (scope l) u inner) rest) arch h =
    let found = find_arch-depth rest arch h in (omega (arith, found.0), found.1)
find_arch-depth (next (node body u inner) rest) arch h =
    let found = find_arch-depth rest arch h in (omega (arith, found.0), found.1)

module _ (inside : Scanner) (m k : ℕ) (scans : Scans inside m k) where
  scan_for_total :
      (label : String) (low : ℤ) (up : Bool) (offset : ℕ) (bodies : List Nodes)
      → All (λ b. depth b ≤ m) bodies
      → Finds k (scan_for inside label low up offset bodies)
  unfolding scan_for
  scan_for_total label low up offset [] a = ([], refl, tt)
  scan_for_total label low up offset (b ∷ bodies) a =
      Finds-both k _ _ (scans b _ a.0) (scan_for_total label low up (suc offset) bodies a.1)

  scan_all_total :
      (label : String) (bodies : List Nodes)
      → All (λ b. depth b ≤ m) bodies
      → Finds k (scan_all inside label bodies)
  unfolding scan_all
  scan_all_total label [] a = ([], refl, tt)
  scan_all_total label (b ∷ bodies) a =
      Finds-both k _ _ (scans b _ a.0) (scan_all_total label bodies a.1)

  scan_node_total :
      (prefix : String) (text : NodeText) (u : UnitUse) (children : Nodes)
      → depth children ≤ m
      → depth children ≤ k
      → Finds k (scan_node inside prefix text u children)
  unfolding scan_node scan_scope
  scan_node_total prefix (instance_of label component) u children h g = (
    _,
    refl,
    (
      λ arch e. let found = find_arch-depth children arch e in (omega (arith, found.0), found.1),
      tt,
    ),
  )
  scan_node_total prefix (for_generate label low up) u children h g =
      scan_for_total (prefix <> label) low up 0 (split_bodies children)
        (split_bodies-depth m children h)
  scan_node_total prefix (scope label) u children h g =
      let bounds = split_bodies-depth m children h in
      elim (List-cases (split_bodies children)) [
        | inl no_body ↦ rw (no_body, scan_scope) (scans children _ h)
        | inr (b, bodies, e) ↦
            rw (e, scan_scope) (scan_all_total (prefix <> label) (b ∷ bodies) (rw e at bounds))
      ]
  scan_node_total prefix (architecture a e) u children h g = ([], refl, tt)
  scan_node_total prefix body u children h g = ([], refl, tt)

  scan_nodes_total :
      (prefix : String) (ns : Nodes)
      → depth ns ≤ suc m
      → depth ns ≤ k
      → Finds k (scan_nodes inside prefix ns)
  unfolding scan_nodes
  scan_nodes_total prefix leaf h g = ([], refl, tt)
  scan_nodes_total prefix (next (node text u children) rest) h g =
      let (below, after) = next_bounds (suc m) text u children rest h in
      let (kept, later) = next_bounds k text u children rest g in
      Finds-both k _ _ (scan_node_total prefix text u children (omega arith) (omega arith))
        (scan_nodes_total prefix rest after later)

-- `_scan` ends, with more fuel than there are levels; what it finds is less deep than the scope.
pub scan_total :
    (fuel k : ℕ) (ns : Nodes) (prefix : String)
    → depth ns < fuel
    → depth ns ≤ k
    → Finds k (scan fuel ns prefix)
unfolding scan scan_nodes
scan_total zero k ns prefix h g = absurd (omega arith)
scan_total (suc fuel) k leaf prefix h g = ([], refl, tt)
scan_total (suc fuel) k (next (node text u children) rest) prefix h g =
    let ns = next (node text u children) rest in
    let some_depth = (next_bounds (depth ns) text u children rest (omega arith)).0 in
    scan_nodes_total (scan fuel) (depth ns - 1) k
      (λ b p below. scan_total fuel k b p (omega arith) (omega arith)) prefix ns (omega arith) g
