-- ===== src/Tree/Total.antt =====
-- `iter_tree` (src/svhier/cli.py) ends on every hierarchy: a module is expanded inside of itself
-- only with another setting, and there are finitely many settings.
use mathlib.Core.List.{append-nil}
use svhier.Base.{
  ℕ, zero, suc, ◌+◌, ◌-◌, ◌≤◌, ◌<◌, String, true, false, not, Option, none, some, List, [], ◌∷◌,
  ◌++◌, map,
}
use svhier.Base.{
  inl, inr, ◌≡◌, refl, ap, ◌∙◌, contains, string_eq, nat_eq, list_eq, option_eq, pair_eq, arith,
  Bool-cases, Option-cases,
}
use svhier.Base.Dict.{Dict, keys, lookup}
use svhier.Base.Lists.{length, filter, contains-append}
use svhier.Result.{ParamSig, Inst, Definition, FileEntry}
use svhier.Tree.{
  TreeLine, TreeGuides, Key, key_of, children_of, select_children, only_variant, known_children,
  level,
}
use svhier.Tree.{
  step_level, indent_of, run, iter_subtree, iter_tops, iter_tree, root_line, collect_defs,
  default_tops,
}
use svhier.Tree.Shows.{is_last, Shows, done, blackbox, cycle, expand}
use svhier.Tree.Loop.{fuel_for, fuel_for-add, run-Shows}

unit_keys : String → Definition → List Key
unit_keys name unit = (name, none) ∷ map (λ sig. (name, some sig)) (keys unit.variants)

all_keys : Dict String Definition → List Key
all_keys [] = []
all_keys ((name, unit) ∷ defs) = unit_keys name unit ++ all_keys defs

contains-settings :
    (name : String) (sig : ParamSig) (children : List Inst) (variants : Dict ParamSig (List Inst))
    → lookup sig variants ≡ some children
    → contains {A = Key} (map (λ s. (name, some s)) (keys variants)) (name, some sig) ≡ true
unfolding keys lookup
contains-settings name sig children [] h = absurd (cc)
contains-settings name sig children ((s, c) ∷ variants) h =
    ground (arith, contains-settings name sig children variants)

key_of-mem :
    (unit : Definition) (name : String) (v : Option ParamSig)
    → contains (unit_keys name unit) (key_of unit name v) ≡ true
unfolding unit_keys select_children
key_of-mem unit name v =
    elim (only_variant v unit.variants)
      as (λ w. contains (unit_keys name unit) (name, (known_children unit w).0) ≡ true) [
        | none ↦ ground arith
        | some sig ↦ elim (Option-cases (lookup sig unit.variants)) [
          | inl e ↦ rw (e, known_children) (ground arith)
          | inr (children, e) ↦
              rw (e, known_children)
                (ground (arith, contains-settings name sig children unit.variants e))
        ]
      ]

all_keys-mem :
    (defs : Dict String Definition) (name : String) (unit : Definition) (v : Option ParamSig)
    → lookup name defs ≡ some unit
    → contains (all_keys defs) (key_of unit name v) ≡ true
unfolding all_keys lookup
all_keys-mem [] name unit v h = absurd (cc)
all_keys-mem ((n, u) ∷ defs) name unit v h = ground (
  arith,
  contains-append {A = Key} (unit_keys n u) (all_keys defs) (key_of unit name v),
  key_of-mem unit name v,
  all_keys-mem defs name unit v,
)

-- The keys that are not yet expanded.
fresh : List Key → List Key → ℕ
fresh all expanding = length (filter (λ k. not (contains expanding k)) all)

fresh-le :
    (all : List Key) (expanding : List Key) (key : Key)
    → fresh all (key ∷ expanding) ≤ fresh all expanding
unfolding fresh filter
fresh-le [] expanding key = omega arith
fresh-le (k ∷ all) expanding key = ground (arith, fresh-le all expanding key)

fresh-lt :
    (all : List Key) (expanding : List Key) (key : Key)
    → contains all key ≡ true
    → contains expanding key ≡ false
    → fresh all (key ∷ expanding) < fresh all expanding
unfolding fresh filter
fresh-lt [] expanding key h f = absurd (cc)
fresh-lt (k ∷ all) expanding key h f =
    ground (arith, fresh-lt all expanding key, fresh-le all expanding key)

module _ (defs : Dict String Definition) (guides : TreeGuides) where
  -- Every level has its lines.
  shows :
      (n : ℕ) (expanding : List Key) (indent : String) (insts : List Inst)
      → fresh (all_keys defs) expanding ≤ n
      → (lines : List TreeLine) × Shows defs guides expanding indent insts lines
  shows n expanding indent [] h = ([], done)
  shows zero expanding indent (inst ∷ insts) h =
      let (lines, s) = shows zero expanding indent insts h in
      elim (Option-cases (lookup inst.mod_name defs)) [
        | inl e ↦ (_, blackbox inst e s)
        | inr (unit, e) ↦
            let key = key_of unit inst.mod_name inst.variant in
            elim (Bool-cases (contains expanding key)) [
              | inl c ↦ (_, cycle inst unit e c s)
              | inr c ↦
                  let known = all_keys-mem defs inst.mod_name unit inst.variant e in
                  absurd (omega (arith, fresh-lt (all_keys defs) expanding key known c))
            ]
      ]
  shows (suc n) expanding indent (inst ∷ insts) h =
      let (lines, s) = shows (suc n) expanding indent insts h in
      elim (Option-cases (lookup inst.mod_name defs)) [
        | inl e ↦ (_, blackbox inst e s)
        | inr (unit, e) ↦
            let key = key_of unit inst.mod_name inst.variant in
            elim (Bool-cases (contains expanding key)) [
              | inl c ↦ (_, cycle inst unit e c s)
              | inr c ↦
                  let known = all_keys-mem defs inst.mod_name unit inst.variant e in
                  let (below, b) =
                    shows n (key ∷ expanding) (indent_of guides (is_last insts) indent)
                      (children_of unit inst.variant)
                      (omega (arith, fresh-lt (all_keys defs) expanding key known c)) in
                  (_, expand inst unit e c b s)
            ]
      ]

  -- The lines of one tree, the root's own left out.
  abbrev pub ShowsBelow : Definition → String → List TreeLine → Type 0
  ShowsBelow unit top =
      Shows defs guides (key_of unit top unit.top_variant ∷ []) ""
        (children_of unit unit.top_variant)

  iter_subtree_Shows :
      (unit : Definition) (top : String) {lines : List TreeLine} (s : ShowsBelow unit top lines)
      (more : ℕ)
      → iter_subtree defs guides (suc (fuel_for defs guides s 0) + more) unit top ≡ some lines
  unfolding iter_subtree level run step_level
  iter_subtree_Shows unit top {lines} s more =
      let key = key_of unit top unit.top_variant in
      let start = level unit top unit.top_variant "" in
      let enough : suc (fuel_for defs guides s 0) + more ≡ fuel_for defs guides s (suc more) =
        omega (arith, fuel_for-add defs guides s (suc more)) in
      ap (λ n. run defs guides n (start ∷ []) (key ∷ [])) enough
      ∙ run-Shows defs guides s key 0 (length (children_of unit unit.top_variant) - 1) (suc more) []
          (omega arith)
      ∙ ap some (append-nil lines)

  iter_subtree_total :
      (unit : Definition) (top : String)
      → (fuel : ℕ) × (lines : List TreeLine) × ShowsBelow unit top lines
        × ((more : ℕ) → iter_subtree defs guides (fuel + more) unit top ≡ some lines)
  unfolding iter_subtree level run
  iter_subtree_total unit top =
      let key = key_of unit top unit.top_variant in
      let (lines, s) =
        shows (fresh (all_keys defs) (key ∷ [])) (key ∷ []) "" (children_of unit unit.top_variant)
          (omega arith) in
      (suc (fuel_for defs guides s 0), lines, s, iter_subtree_Shows unit top s)

  -- The trees of the tops that are defined.
  pub data ShowsTrees : List String → List TreeLine → Type 0 where
    no_tops : ShowsTrees [] []
    undefined :
        {tops : List String} {lines : List TreeLine} (top : String)
        → lookup top defs ≡ none
        → ShowsTrees tops lines
        → ShowsTrees (top ∷ tops) lines
    tree :
        {tops : List String} {below lines : List TreeLine} (top : String) (unit : Definition)
        → lookup top defs ≡ some unit
        → ShowsBelow unit top below
        → ShowsTrees tops lines
        → ShowsTrees (top ∷ tops) (root_line top ∷ (below ++ lines))

  iter_tops_tree :
      (fuel : ℕ) (top : String) (tops : List String) (unit : Definition)
      (below rest : List TreeLine)
      → lookup top defs ≡ some unit
      → iter_subtree defs guides fuel unit top ≡ some below
      → iter_tops defs guides fuel tops ≡ some rest
      → iter_tops defs guides fuel (top ∷ tops) ≡ some (root_line top ∷ (below ++ rest))
  unfolding iter_tops
  iter_tops_tree fuel top tops unit below rest e a b = rw (e, iter_tops) (rw (a, b))

  iter_tops_total :
      (tops : List String)
      → (fuel : ℕ) × (lines : List TreeLine) × ShowsTrees tops lines
        × ((more : ℕ) → iter_tops defs guides (fuel + more) tops ≡ some lines)
  unfolding iter_tops
  iter_tops_total [] = (0, [], no_tops, λ more. refl)
  iter_tops_total (top ∷ tops) =
      let (k, rest, r, run_rest) = iter_tops_total tops in
      elim (Option-cases (lookup top defs)) [
        | inl e ↦ (k, rest, undefined top e r, λ more. rw (e, iter_tops) (run_rest more))
        | inr (unit, e) ↦
            let (j, below, b, run_below) = iter_subtree_total unit top in
            (
              j + k,
              root_line top ∷ (below ++ rest),
              tree top unit e b r,
              λ more.
                  let left : j + k + more ≡ j + (k + more) = omega arith in
                  let right : j + k + more ≡ k + (j + more) = omega arith in
                  iter_tops_tree (j + k + more) top tops unit below rest e
                    (rw left (run_below (k + more))) (rw right (run_rest (j + more))),
            )
      ]

abbrev pub tops_of : Dict String Definition → Option (List String) → List String
tops_of defs none = default_tops defs
tops_of defs (some tops) = tops

-- For every hierarchy, requested tops and guides there are lines that `iter_tree` yields with any
-- fuel from some number on, and they are the trees of the tops: each defined top's root, and below
-- it for each instance of the shown setting, in order, a blackbox if nothing defines its module, a
-- cycle if the module with its setting is already being expanded above it, and else the instance
-- followed by its own children's lines.
pub iter_tree_total :
    (files : List FileEntry) (tops : Option (List String)) (guides : TreeGuides)
    → (fuel : ℕ) × (lines : List TreeLine) × ShowsTrees
        (collect_defs files)
        guides
        (tops_of (collect_defs files) tops)
        lines
      × ((more : ℕ) → iter_tree (fuel + more) files tops guides ≡ some lines)
unfolding iter_tree
iter_tree_total files none guides = iter_tops_total (collect_defs files) guides _
iter_tree_total files (some tops) guides = iter_tops_total (collect_defs files) guides tops
