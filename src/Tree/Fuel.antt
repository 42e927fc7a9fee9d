-- ===== src/Tree/Fuel.antt =====
-- The lines of `iter_tree` (src/svhier/cli.py) do not depend on the fuel.

use svhier.Base.{ℕ, zero, suc, ◌+◌, ◌≤◌, String, Option, none, some, List, [], ◌∷◌}
use svhier.Base.{
  inl, inr, ◌≡◌, refl, string_eq, nat_eq, list_eq, option_eq, pair_eq, arith, Option-cases,
}
use svhier.Base.Dict.{Dict, lookup}
use svhier.Result.{Definition, FileEntry}
use svhier.Tree.{TreeLine, TreeGuides, Key, Level, level}
use svhier.Tree.{
  yield_line, run, join_lines, iter_subtree, iter_tops, iter_tree, root_line, collect_defs,
  step_level,
}
use svhier.Tree.Total.{ShowsTrees, tops_of, iter_tree_total}

abbrev Grows : Option (List TreeLine) → Option (List TreeLine) → Type 0
Grows a b = (lines : List TreeLine) → a ≡ some lines → b ≡ some lines

yield_line-Grows :
    (line : Option TreeLine) (a b : Option (List TreeLine))
    → Grows a b
    → Grows (yield_line line a) (yield_line line b)
yield_line-Grows none a b h lines e = h lines e
yield_line-Grows (some line) none b h lines e = absurd (cc)
yield_line-Grows (some line) (some rest) b h lines e = rw (h rest refl) e

join_lines-Grows :
    (a b c d : Option (List TreeLine))
    → Grows a b
    → Grows c d
    → Grows (join_lines a c) (join_lines b d)
join_lines-Grows none b c d h k lines e = absurd (cc)
join_lines-Grows (some xs) b none d h k lines e = absurd (cc)
join_lines-Grows (some xs) b (some ys) d h k lines e = rw (h xs refl, k ys refl) e

module _ (defs : Dict String Definition) (guides : TreeGuides) where
  -- More fuel does not change the lines.
  run-le :
      (f g : ℕ) (stack : List Level) (expanding : List Key)
      → f ≤ g
      → Grows (run defs guides f stack expanding) (run defs guides g stack expanding)
  unfolding run
  run-le f g [] expanding h lines e = e
  run-le zero g (current ∷ stack) expanding h lines e = absurd (cc)
  run-le (suc f) zero (current ∷ stack) expanding h lines e = absurd (omega arith)
  run-le (suc f) (suc g) (current ∷ stack) expanding h lines e =
      let (line, walk) = step_level defs guides current current.children stack expanding in
      yield_line-Grows line _ _ (run-le f g walk.stack walk.expanding (omega arith)) lines e

  iter_subtree-le :
      (f g : ℕ) (unit : Definition) (top : String)
      → f ≤ g
      → Grows (iter_subtree defs guides f unit top) (iter_subtree defs guides g unit top)
  unfolding iter_subtree
  iter_subtree-le f g unit top h =
      let start = level unit top unit.top_variant "" in run-le f g (start ∷ []) (start.key ∷ []) h

  iter_tops-le :
      (f g : ℕ) (tops : List String)
      → f ≤ g
      → Grows (iter_tops defs guides f tops) (iter_tops defs guides g tops)
  unfolding iter_tops
  iter_tops-le f g [] h lines e = e
  iter_tops-le f g (top ∷ tops) h lines q = elim (Option-cases (lookup top defs)) [
    | inl e ↦ rw (e, iter_tops) (iter_tops-le f g tops h lines (rw (e, iter_tops) at q))
    | inr (unit, e) ↦
        rw (e, iter_tops)
          (yield_line-Grows (some (root_line top)) _ _
            (join_lines-Grows _ _ _ _ (iter_subtree-le f g unit top h) (iter_tops-le f g tops h))
            lines (rw (e, iter_tops) at q))
  ]

iter_tree-le :
    (f g : ℕ) (files : List FileEntry) (tops : Option (List String)) (guides : TreeGuides)
    → f ≤ g
    → Grows (iter_tree f files tops guides) (iter_tree g files tops guides)
unfolding iter_tree
iter_tree-le f g files none guides h = iter_tops-le (collect_defs files) guides f g _ h
iter_tree-le f g files (some tops) guides h = iter_tops-le (collect_defs files) guides f g tops h

-- Whatever the fuel, lines that come back are the trees of the tops.
pub iter_tree-ShowsTrees :
    (fuel : ℕ) (files : List FileEntry) (tops : Option (List String)) (guides : TreeGuides)
    (lines : List TreeLine)
    → iter_tree fuel files tops guides ≡ some lines
    → ShowsTrees (collect_defs files) guides (tops_of (collect_defs files) tops) lines
iter_tree-ShowsTrees fuel files tops guides lines e =
    let (k, out, shown, runs) = iter_tree_total files tops guides in
    let more : iter_tree (k + fuel) files tops guides ≡ some lines =
      iter_tree-le fuel (k + fuel) files tops guides (omega arith) lines e in
    let same : lines ≡ out = cc (runs fuel) in rw same shown
