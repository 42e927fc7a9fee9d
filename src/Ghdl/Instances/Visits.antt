-- ===== src/Ghdl/Instances/Visits.antt =====
-- That `tree_to_defs` (plugins/svhier-ghdl/src/svhier_ghdl/__init__.py) returns, and what.
use svhier.Base.{
  ℕ, zero, suc, ◌≤◌, String, true, Option, none, some, List, [], ◌∷◌, ◌≡◌, ◌≢◌, refl, arith, inl,
  inr, Option-cases,
}
use svhier.Base.{==_iff, contains, string_eq, pair_eq}
use svhier.Base.Dict.{Dict, lookup, set_default, values, lookup-set_default, lookup-nil}
use svhier.Base.Text.{lower}
use svhier.Result.{UnitUse}
use svhier.Ghdl.Hierarchy.{
  architecture, instance_of, for_generate, scope, body, Node, node, Nodes, leaf, next,
}
use svhier.Ghdl.Instances.{
  Found, is_arch_node, scan, ForeignDef, Defs, new_def, add_inst, add_use, Visitor, change,
  visit_found, visit_all, visit, visit_tops, tree_to_defs,
}
use svhier.Ghdl.Instances.Depth.{depth, node_depth, Shallow, scan_total, next_bounds}
use svhier.Ghdl.Instances.Linked.{
  or_true, IsLinked, Keeps, change-Keeps, change-IsLinked, set_default-Keeps, set_default-IsLinked,
  get_or-Fine, add_inst-Fine, add_use-Fine,
}

abbrev LinkedFrom : Defs → Option Defs → Type 0
LinkedFrom defs o = (later : Defs) × (o ≡ some later) × IsLinked later × Keeps defs later

abbrev Visited : Defs → Option (String × Defs) → Type 0
Visited defs o =
    (entity : String) × (later : Defs) × (o ≡ some (entity, later))
    × IsLinked later
    × Keeps defs later
    × (lookup entity later ≢ none)

-- What is at most this deep can be visited.
abbrev Visits : Visitor → ℕ → Type 0
Visits visit k =
    (arch : Node) (defs : Defs)
    → node_depth arch ≤ k
    → is_arch_node arch ≡ true
    → IsLinked defs
    → Visited defs (visit arch defs)

module _ (files : Dict String String) (visitor : Visitor) (k : ℕ) (visits : Visits visitor k) where
  visit_found_total :
      (entity : String) (f : Found) (defs : Defs)
      → ((arch : Node) → f.arch ≡ some arch → (node_depth arch ≤ k) × (is_arch_node arch ≡ true))
      → IsLinked defs
      → LinkedFrom defs (visit_found files visitor entity f defs)
  unfolding visit_found
  visit_found_total entity f defs shallow l = elim (Option-cases f.arch) [
    | inl unbound ↦
        let child = lower f.component in
        let g : ForeignDef → ForeignDef =
          λ d. add_use child f.use_of (add_inst (child, f.path) d) in
        rw (unbound, visit_found)
          (
            change files entity g defs,
            refl,
            change-IsLinked files entity g defs l (
                add_use-Fine files defs entity child f.path f.use_of _
                  (get_or-Fine files entity defs l)),
            change-Keeps files entity g defs,
          )
    | inr (arch, bound) ↦
        let (low, is_arch) = shallow arch bound in
        let (child, defs1, r, l1, k1, there) = visits arch defs low is_arch l in
        let g = add_inst (child, f.path) in
        rw (bound, visit_found)
          (rw (r, visit_found)
            (
              change files entity g defs1,
              refl,
              change-IsLinked files entity g defs1 l1 (
                  add_inst-Fine files defs1 entity child f.path _ there
                    (get_or-Fine files entity defs1 l1)),
              λ e h. change-Keeps files entity g defs1 e (k1 e h),
            ))
  ]

  visit_all_total :
      (entity : String) (found : List Found) (defs : Defs)
      → Shallow k found
      → IsLinked defs
      → LinkedFrom defs (visit_all files visitor entity found defs)
  unfolding visit_all
  visit_all_total entity [] defs shallow l = (defs, refl, l, λ e h. h)
  visit_all_total entity (f ∷ found) defs shallow l =
      let (defs1, r1, l1, k1) = visit_found_total entity f defs shallow.0 l in
      let (defs2, r2, l2, k2) = visit_all_total entity found defs1 shallow.1 l1 in
      (defs2, rw (r1, visit_all) r2, l2, λ e h. k2 e (k1 e h))

-- The entities of the architectures among these nodes.
unfoldable pub top_entities : Nodes → List String
top_entities leaf = []
top_entities (next (node (architecture a e) u inner) rest) = lower e ∷ top_entities rest
top_entities (next n rest) = top_entities rest

module _ (files : Dict String String) where
  visit_total : (fuel : ℕ) → Visits (visit files fuel) fuel
  unfolding visit node_depth
  visit_total zero (node text u children) defs h a l = absurd (omega arith)
  visit_total (suc fuel) (node (architecture b e) u children) defs h a l =
      let entity = lower e in
      let fresh = new_def files entity in
      let (found, r, shallow) =
        scan_total (suc fuel) fuel children "" (omega arith) (omega arith) in
      let started = set_default entity fresh defs in
      let (later, v, l1, k1) =
        visit_all_total files (visit files fuel) fuel (visit_total fuel) entity found started
          shallow (set_default-IsLinked files entity defs l) in
      let here : lookup entity started ≢ none =
        ground (arith, lookup-set_default entity entity fresh defs) in
      (
        entity,
        later,
        rw (r, visit) (rw (v, visit) refl),
        l1,
        (λ x p. k1 x (set_default-Keeps files entity fresh defs x p)),
        k1 entity here,
      )
  visit_total (suc fuel) (node (instance_of x c) u children) defs h a l = absurd (cc)
  visit_total (suc fuel) (node (for_generate x low up) u children) defs h a l = absurd (cc)
  visit_total (suc fuel) (node (scope x) u children) defs h a l = absurd (cc)
  visit_total (suc fuel) (node body u children) defs h a l = absurd (cc)

  visit-entity :
      (fuel : ℕ) (a e : String) (u : UnitUse) (children : Nodes) (defs later : Defs) (x : String)
      → visit files fuel (node (architecture a e) u children) defs ≡ some (x, later)
      → lower e ≡ x
  unfolding visit
  visit-entity zero a e u children defs later x h = absurd (cc)
  visit-entity (suc fuel) a e u children defs later x h =
      elim (Option-cases (scan (suc fuel) children "")) [
        | inl stuck ↦ absurd (cc (rw (stuck, visit) at h))
        | inr (found, r) ↦
            let h1 = rw (r, visit) at h in
            let entity = lower e in
            let started = set_default entity (new_def files entity) defs in
            elim (Option-cases (visit_all files (visit files fuel) entity found started)) [
              | inl stuck ↦ absurd (cc (rw (stuck, visit) at h1))
              | inr (d, v) ↦
                  let h2 : ◌≡◌ {A = Option (String × Defs)} (some (entity, d)) (some (x, later)) =
                    rw (v, visit) at h1 in
                  cc
            ]
      ]

  -- The loop over the root's children ends and loses no definition; afterwards each entity at the
  -- top is defined.
  visit_tops_total :
      (fuel : ℕ) (tree : Nodes) (defs : Defs)
      → depth tree ≤ fuel
      → IsLinked defs
      → (later : Defs) × (visit_tops files fuel tree defs ≡ some later)
        × IsLinked later
        × Keeps defs later
        × ((e : String) → contains (top_entities tree) e ≡ true → lookup e later ≢ none)
  unfolding visit_tops node_depth top_entities
  visit_tops_total fuel leaf defs h l = (defs, refl, l, (λ e x. x), λ e t. absurd (cc))
  visit_tops_total fuel (next (node (architecture b e) u inner) rest) defs h l =
      let (below, after) = next_bounds fuel (architecture b e) u inner rest h in
      let (entity, defs1, r, l1, k1, there) =
        visit_total fuel (node (architecture b e) u inner) defs below refl l in
      let (later, v, l2, k2, tops) = visit_tops_total fuel rest defs1 after l1 in
      let named = visit-entity fuel b e u inner defs defs1 entity r in
      (
        later,
        rw (r, visit_tops) v,
        l2,
        (λ x p. k2 x (k1 x p)),
        λ x t. elim (or_true _ _ t) [
          | inl first ↦ rw ((==_iff x (lower e)).0 first) (rw named (k2 entity there))
          | inr other ↦ tops x other
        ],
      )
  visit_tops_total fuel (next (node (instance_of x c) u inner) rest) defs h l =
      visit_tops_total fuel rest defs (next_bounds fuel (instance_of x c) u inner rest h).1 l
  visit_tops_total fuel (next (node (for_generate x low up) u inner) rest) defs h l =
      visit_tops_total fuel rest defs (next_bounds fuel (for_generate x low up) u inner rest h).1 l
  visit_tops_total fuel (next (node (scope x) u inner) rest) defs h l =
      visit_tops_total fuel rest defs (next_bounds fuel (scope x) u inner rest h).1 l
  visit_tops_total fuel (next (node body u inner) rest) defs h l =
      visit_tops_total fuel rest defs (next_bounds fuel body u inner rest h).1 l

  -- With as much fuel as the tree has levels, the tree is flattened to definitions under their
  -- entities' names, among them the entity of each architecture at the top; none has an instance
  -- twice, and for each instance its child is defined or the child's use is kept.
  pub tree_to_defs_total :
      (fuel : ℕ) (tree : Nodes)
      → depth tree ≤ fuel
      → (defs : Defs) × (tree_to_defs files fuel tree ≡ some (values defs))
        × IsLinked defs
        × ((e : String) → contains (top_entities tree) e ≡ true → lookup e defs ≢ none)
  unfolding tree_to_defs
  tree_to_defs_total fuel tree h =
      let nothing : IsLinked [] = λ e d at. absurd (cc (lookup-nil {V = ForeignDef} e)) in
      let (defs, r, l, k, tops) = visit_tops_total fuel tree [] h nothing in
      (defs, rw (r, tree_to_defs) refl, l, tops)
