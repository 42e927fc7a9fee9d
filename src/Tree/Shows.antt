-- ===== src/Tree/Shows.antt =====
-- The tree below a module as a relation, with no stack: what `_iter_subtree` (src/svhier/cli.py)
-- is to draw, and that its loop draws it.
use svhier.Base.{String, Bool, true, false, none, some, List, [], ◌∷◌, ◌++◌}
use svhier.Base.{◌≡◌, contains, string_eq, nat_eq, list_eq, option_eq, pair_eq}
use svhier.Base.Dict.{Dict, lookup}
use svhier.Result.{Inst, Definition}
use svhier.Tree.{TreeLine, TreeGuides, Key, key_of, children_of}
use svhier.Tree.{indent_of, line_of}

-- No sibling follows.
abbrev pub is_last : List Inst → Bool
is_last [] = true
is_last (_ ∷ _) = false

module _ (defs : Dict String Definition) (guides : TreeGuides) where
  -- `Shows expanding indent insts lines`: inside of `expanding`, the instances give the lines.
  pub data Shows : List Key → String → List Inst → List TreeLine → Type 0 where
    done : {expanding : List Key} {indent : String} → Shows expanding indent [] []
    blackbox :
        {expanding : List Key} {indent : String} {rest : List Inst} {lines : List TreeLine}
        (inst : Inst)
        → lookup inst.mod_name defs ≡ none
        → Shows expanding indent rest lines
        → Shows expanding indent
            (inst ∷ rest)
            (line_of guides (is_last rest) indent inst (some "blackbox") ∷ lines)
    cycle :
        {expanding : List Key} {indent : String} {rest : List Inst} {lines : List TreeLine}
        (inst : Inst) (unit : Definition)
        → lookup inst.mod_name defs ≡ some unit
        → contains expanding (key_of unit inst.mod_name inst.variant) ≡ true
        → Shows expanding indent rest lines
        → Shows expanding indent
            (inst ∷ rest)
            (line_of guides (is_last rest) indent inst (some "cycle") ∷ lines)
    expand :
        {expanding : List Key} {indent : String} {rest : List Inst} {below lines : List TreeLine}
        (inst : Inst) (unit : Definition)
        → lookup inst.mod_name defs ≡ some unit
        → contains expanding (key_of unit inst.mod_name inst.variant) ≡ false
        → Shows
            (key_of unit inst.mod_name inst.variant ∷ expanding)
            (indent_of guides (is_last rest) indent)
            (children_of unit inst.variant)
            below
        → Shows expanding indent rest lines
        → Shows expanding indent
            (inst ∷ rest)
            (line_of guides (is_last rest) indent inst none ∷ (below ++ lines))
