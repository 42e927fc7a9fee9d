-- ===== src/Tree/Loop.antt =====
-- The loop of `_iter_subtree` (src/svhier/cli.py) draws the lines of the relation `Shows`.
use mathlib.Core.List.{append_assoc}
use svhier.Base.{
  ℕ, suc, ◌+◌, ◌-◌, String, Bool, true, false, Option, none, some, List, [], ◌∷◌, ◌++◌,
}
use svhier.Base.{
  ◌≡◌, refl, sym, ap, ◌∙◌, ◌==◌, contains, string_eq, nat_eq, list_eq, option_eq, pair_eq, arith,
}
use svhier.Base.Dict.{Dict, lookup}
use svhier.Base.Lists.{length, filter}
use svhier.Result.{Inst, Definition}
use svhier.Tree.{TreeLine, TreeGuides, Key, Level, Walk, key_of, children_of, level, enumerate}
use svhier.Tree.{indent_of, line_of, visit_child, remove, step_level, yield_line, run, join_lines}
use svhier.Tree.Shows.{is_last, Shows, done, blackbox, cycle, expand}

-- The test for the last child says that no sibling follows.
last_test :
    (pos last : ℕ) (inst : Inst) (rest : List Inst)
    → last ≡ pos + length (inst ∷ rest) - 1
    → (pos == last) ≡ is_last rest
last_test pos last inst [] h = ground arith
last_test pos last inst (x ∷ rest) h = ground arith

remove-fresh :
    (key : Key) (expanding : List Key)
    → contains expanding key ≡ false
    → remove key expanding ≡ expanding
unfolding remove filter
remove-fresh key [] h = refl
remove-fresh key (k ∷ expanding) h = ground (arith, remove-fresh key expanding)

remove-cons :
    (key : Key) (expanding : List Key)
    → contains expanding key ≡ false
    → remove key (key ∷ expanding) ≡ expanding
unfolding remove filter
remove-cons key expanding h = ground (arith, remove-fresh key expanding h)

join_lines-nil : (out : Option (List TreeLine)) → join_lines (some []) out ≡ out
join_lines-nil none = refl
join_lines-nil (some out) = refl

yield_line-join_lines :
    (line : TreeLine) (lines : List TreeLine) (out : Option (List TreeLine))
    → yield_line (some line) (join_lines (some lines) out) ≡ join_lines (some (line ∷ lines)) out
yield_line-join_lines line lines none = refl
yield_line-join_lines line lines (some out) = refl

join_lines_assoc :
    (xs ys : List TreeLine) (out : Option (List TreeLine))
    → join_lines (some xs) (join_lines (some ys) out) ≡ join_lines (some (xs ++ ys)) out
join_lines_assoc xs ys none = refl
join_lines_assoc xs ys (some out) = rw append_assoc

abbrev pub at_level : Key → ℕ → String → List (ℕ × Inst) → Level
at_level key last indent children = record {
  key = key;
  children = children;
  last = last;
  indent = indent;
}

module _ (defs : Dict String Definition) (guides : TreeGuides) where
  -- The fuel that the lines take, in front of `fuel` for what follows.
  pub fuel_for :
      {expanding : List Key} {indent : String} {insts : List Inst} {lines : List TreeLine}
      → Shows defs guides expanding indent insts lines
      → ℕ
      → ℕ
  fuel_for done fuel = fuel
  fuel_for (blackbox inst e s) fuel = suc (fuel_for s fuel)
  fuel_for (cycle inst unit e c s) fuel = suc (fuel_for s fuel)
  fuel_for (expand inst unit e c b s) fuel = suc (fuel_for b (suc (fuel_for s fuel)))

  pub fuel_for-add :
      {expanding : List Key} {indent : String} {insts : List Inst} {lines : List TreeLine}
      (s : Shows defs guides expanding indent insts lines) (n : ℕ)
      → fuel_for s n ≡ fuel_for s 0 + n
  unfolding fuel_for
  fuel_for-add done n = omega arith
  fuel_for-add (blackbox inst e s) n = omega (arith, fuel_for-add s n)
  fuel_for-add (cycle inst unit e c s) n = omega (arith, fuel_for-add s n)
  fuel_for-add (expand inst unit e c b s) n = omega (
    arith,
    fuel_for-add s n,
    fuel_for-add b (suc (fuel_for s n)),
    fuel_for-add b (suc (fuel_for s 0)),
  )

  -- What `run` yields for one child and then.
  abbrev after : ℕ → TreeLine × Walk → Option (List TreeLine)
  after fuel (line, walk) = yield_line (some line) (run defs guides fuel walk.stack walk.expanding)

  module _ (current : Level) (stack : List Level) (expanding : List Key) (b : Bool)
      (inst : Inst) where
    visit_blackbox :
        lookup inst.mod_name defs ≡ none
        → visit_child defs guides current stack expanding b inst ≡ (
          line_of guides b current.indent inst (some "blackbox"),
          record { stack = current ∷ stack; expanding = expanding },
        )
    unfolding visit_child
    visit_blackbox e = rw (e, visit_child)

    visit_cycle :
        (unit : Definition)
        → lookup inst.mod_name defs ≡ some unit
        → contains expanding (key_of unit inst.mod_name inst.variant) ≡ true
        → visit_child defs guides current stack expanding b inst ≡ (
          line_of guides b current.indent inst (some "cycle"),
          record { stack = current ∷ stack; expanding = expanding },
        )
    unfolding visit_child level
    visit_cycle unit e c = rw (e, visit_child) (rw c)

    visit_expand :
        (unit : Definition)
        → lookup inst.mod_name defs ≡ some unit
        → contains expanding (key_of unit inst.mod_name inst.variant) ≡ false
        → visit_child defs guides current stack expanding b inst ≡ (
          line_of guides b current.indent inst none,
          record {
            stack =
                level unit inst.mod_name inst.variant (indent_of guides b current.indent)
                ∷ current
                ∷ stack;
            expanding = key_of unit inst.mod_name inst.variant ∷ expanding;
          },
        )
    unfolding visit_child level
    visit_expand unit e c = rw (e, visit_child) (rw c)

  -- One step at a level that has a child left.
  run_child :
      (key : Key) (pos last fuel : ℕ) (indent : String) (inst : Inst) (rest : List Inst)
      (stack : List Level) (expanding : List Key)
      → last ≡ pos + length (inst ∷ rest) - 1
      → run defs guides
          (suc fuel)
          (at_level key last indent (enumerate pos (inst ∷ rest)) ∷ stack)
          expanding
        ≡ after fuel (
            visit_child defs guides
              (at_level key last indent (enumerate (pos + 1) rest))
              stack
              expanding
              (is_last rest)
              inst)
  unfolding run step_level enumerate
  run_child key pos last fuel indent inst rest stack expanding placed =
      ap
        (λ b. after fuel (
          visit_child defs guides (at_level key last indent (enumerate (pos + 1) rest)) stack
            expanding b inst))
        (last_test pos last inst rest placed)

  -- The step at the end of a level.
  run_end :
      (key : Key) (last : ℕ) (indent : String) (fuel : ℕ) (stack : List Level)
      (expanding : List Key)
      → contains expanding key ≡ false
      → run defs guides (suc fuel) (at_level key last indent [] ∷ stack) (key ∷ expanding)
        ≡ run defs guides fuel stack expanding
  unfolding run step_level
  run_end key last indent fuel stack expanding fresh =
      ap (run defs guides fuel stack) (remove-cons key expanding fresh)

  -- The loop draws the lines, and is then at the end of the level.
  pub run-Shows :
      {expanding : List Key} {indent : String} {insts : List Inst} {lines : List TreeLine}
      (s : Shows defs guides expanding indent insts lines) (key : Key) (pos last fuel : ℕ)
      (stack : List Level)
      → last ≡ pos + length insts - 1
      → run defs guides
          (fuel_for s fuel)
          (at_level key last indent (enumerate pos insts) ∷ stack)
          expanding
        ≡ join_lines
            (some lines)
            (run defs guides fuel (at_level key last indent [] ∷ stack) expanding)
  unfolding fuel_for enumerate level
  run-Shows done key pos last fuel stack placed = sym (join_lines-nil _)
  run-Shows {expanding} {indent} (blackbox {rest} {lines} inst e s) key pos last fuel stack placed =
      run_child key pos last (fuel_for s fuel) indent inst rest stack expanding placed
      ∙ ap (after (fuel_for s fuel)) (visit_blackbox _ stack expanding (is_last rest) inst e)
      ∙ ap (yield_line (some (line_of guides (is_last rest) indent inst (some "blackbox"))))
          (run-Shows s key (pos + 1) last fuel stack (omega arith))
      ∙ yield_line-join_lines _ lines _
  run-Shows {expanding} {indent} (cycle {rest} {lines} inst unit e c s) key pos last fuel stack
        placed =
      run_child key pos last (fuel_for s fuel) indent inst rest stack expanding placed
      ∙ ap (after (fuel_for s fuel)) (visit_cycle _ stack expanding (is_last rest) inst unit e c)
      ∙ ap (yield_line (some (line_of guides (is_last rest) indent inst (some "cycle"))))
          (run-Shows s key (pos + 1) last fuel stack (omega arith))
      ∙ yield_line-join_lines _ lines _
  run-Shows {expanding} {indent} (expand {rest} {below} {lines} inst unit e c b s) key pos last fuel
        stack placed =
      run_child key pos last (fuel_for b (suc (fuel_for s fuel))) indent inst rest stack expanding
        placed
      ∙ ap (after (fuel_for b (suc (fuel_for s fuel))))
          (visit_expand _ stack expanding (is_last rest) inst unit e c)
      ∙ ap (yield_line (some (line_of guides (is_last rest) indent inst none))) (
          run-Shows b (key_of unit inst.mod_name inst.variant) 0
            (length (children_of unit inst.variant) - 1) (suc (fuel_for s fuel))
            (at_level key last indent (enumerate (pos + 1) rest) ∷ stack) (omega arith)
          ∙ ap (join_lines (some below)) (
              run_end (key_of unit inst.mod_name inst.variant) _ _ (fuel_for s fuel) _ expanding c
              ∙ run-Shows s key (pos + 1) last fuel stack (omega arith))
          ∙ join_lines_assoc below lines _)
      ∙ yield_line-join_lines _ (below ++ lines) _
