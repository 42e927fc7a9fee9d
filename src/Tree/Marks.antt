-- ===== src/Tree/Marks.antt =====
-- What the lines of `iter_tree` (src/svhier/cli.py) say, and which modules are its roots.
use mathlib.Core.List.{Memᴰ, append_assoc}
use mathlib.Core.List.Memᴰ
use text.Mathlib.TextEquality.{eq_iff}
use svhier.Base.{ℕ, String, Bool, true, false, not, Option, none, some, List, [], ◌∷◌, ◌++◌, map}
use svhier.Base.{
  inl, inr, ◌≡◌, ◌≢◌, ◌↔◌, refl, ◌∙◌, contains, string_eq, nat_eq, list_eq, option_eq, pair_eq,
  arith,
}
use svhier.Base.Dict.{Dict, keys, values, lookup, contains-keys}
use svhier.Base.Lists.{All, filter, flat_map, contains-append, contains-filter}
use svhier.Result.{Inst, Definition, FileEntry}
use svhier.Tree.{TreeLine, TreeGuides, Key}
use svhier.Tree.{iter_tree, collect_defs, default_tops, instantiated}
use svhier.Tree.Shows.{Shows, done, blackbox, cycle, expand}
use svhier.Tree.Total.{ShowsTrees, no_tops, undefined, tree, tops_of}
use svhier.Tree.Fuel.{iter_tree-ShowsTrees}

module _ (defs : Dict String Definition) where
  -- A line that is no root is marked as a blackbox exactly if nothing defines its module.
  abbrev pub IsMarked : TreeLine → Type 0
  IsMarked line =
      (m : String)
      → line.module_name ≡ some m
      → (line.marker ≡ some "blackbox") ↔ (lookup m defs ≡ none)

All-append :
    (P : TreeLine → Type 0) (xs ys : List TreeLine) → All P xs → All P ys → All P (xs ++ ys)
All-append P [] ys hx hy = hy
All-append P (x ∷ xs) ys hx hy = (hx.0, All-append P xs ys hx.1 hy)

module _ (defs : Dict String Definition) (guides : TreeGuides) where
  Shows-IsMarked :
      {expanding : List Key} {indent : String} {insts : List Inst} {lines : List TreeLine}
      → Shows defs guides expanding indent insts lines
      → All (IsMarked defs) lines
  Shows-IsMarked done = tt
  Shows-IsMarked (blackbox inst e s) = (λ m q. ground arith, Shows-IsMarked s)
  Shows-IsMarked (cycle inst unit e c s) =
      (λ m q. ground (arith, eq_iff "cycle" "blackbox"), Shows-IsMarked s)
  Shows-IsMarked (expand {below} {lines} inst unit e c b s) = (
    λ m q. ground arith,
    All-append (IsMarked defs) below lines (Shows-IsMarked b) (Shows-IsMarked s),
  )

  ShowsTrees-IsMarked :
      {tops : List String} {lines : List TreeLine}
      → ShowsTrees defs guides tops lines
      → All (IsMarked defs) lines
  ShowsTrees-IsMarked no_tops = tt
  ShowsTrees-IsMarked (undefined top e s) = ShowsTrees-IsMarked s
  ShowsTrees-IsMarked (tree {below} {lines} top unit e b s) = (
    λ m q. absurd (cc),
    All-append (IsMarked defs) below lines (Shows-IsMarked b) (ShowsTrees-IsMarked s),
  )

-- The names of the lines that are roots.
unfoldable pub roots : List TreeLine → List String
roots [] = []
roots (line ∷ lines) = elim line.module_name [
  | none ↦ line.name ∷ roots lines
  | some _ ↦ roots lines
]

abbrev pub is_defined : Dict String Definition → String → Bool
is_defined defs name = contains (keys defs) name

module _ (defs : Dict String Definition) (guides : TreeGuides) where
  roots-append_Shows :
      {expanding : List Key} {indent : String} {insts : List Inst} {lines : List TreeLine}
      → Shows defs guides expanding indent insts lines
      → (rest : List TreeLine) → roots (lines ++ rest) ≡ roots rest
  unfolding roots
  roots-append_Shows done rest = refl
  roots-append_Shows (blackbox inst e s) rest = roots-append_Shows s rest
  roots-append_Shows (cycle inst unit e c s) rest = roots-append_Shows s rest
  roots-append_Shows (expand {below} {lines} inst unit e c b s) rest =
      rw append_assoc (roots-append_Shows b (lines ++ rest) ∙ roots-append_Shows s rest)

  ShowsTrees-roots :
      {tops : List String} {lines : List TreeLine}
      → ShowsTrees defs guides tops lines
      → roots lines ≡ filter (is_defined defs) tops
  unfolding roots filter
  ShowsTrees-roots no_tops = refl
  ShowsTrees-roots (undefined top e s) = ground (arith, ShowsTrees-roots s, contains-keys defs top)
  ShowsTrees-roots (tree {tops} {below} {lines} top unit e b s) =
      ground (arith, ShowsTrees-roots s, roots-append_Shows b lines, contains-keys defs top)

abbrev inst_mods : Definition → List String
inst_mods d = map (λ (i : Inst). i.mod_name) d.insts

-- No definition of the list instantiates the module.
abbrev pub Uninstantiated : List Definition → String → Type 0
Uninstantiated ds name = (d : Definition) → Memᴰ d ds → contains (inst_mods d) name ≡ false

contains-instantiated :
    (ds : List Definition) (name : String)
    → (contains (flat_map inst_mods ds) name ≡ false) ↔ Uninstantiated ds name
unfolding flat_map
contains-instantiated [] name = (λ h d i. absurd (Memᴰ.not-nil i), λ all. refl)
contains-instantiated (x ∷ ds) name =
    let split = contains-append (inst_mods x) (flat_map inst_mods ds) name in
    let (down, up) = contains-instantiated ds name in
    (
      λ h d i. elim (Memᴰ.cases_cons i) [
        | inl q ↦ rw q (ground (arith, split))
        | inr j ↦ down (ground (arith, split)) d j
      ],
      λ all.
          let here = all x (Memᴰ.head refl) in
          let there = up (λ d i. all d (Memᴰ.tail i)) in ground (arith, split, here, there),
    )

-- Lines that `iter_tree` returns are marked as blackboxes exactly where nothing defines the
-- instance's module, and the roots are, in order, those of the tops that are defined.
pub iter_tree_marks :
    (fuel : ℕ) (files : List FileEntry) (tops : Option (List String)) (guides : TreeGuides)
    (lines : List TreeLine)
    → iter_tree fuel files tops guides ≡ some lines
    → All (IsMarked (collect_defs files)) lines
      × (roots lines ≡ filter (is_defined (collect_defs files)) (tops_of (collect_defs files) tops))
iter_tree_marks fuel files tops guides lines e =
    let shown = iter_tree-ShowsTrees fuel files tops guides lines e in
    (
      ShowsTrees-IsMarked (collect_defs files) guides shown,
      ShowsTrees-roots (collect_defs files) guides shown,
    )

-- Where no tops are requested, the roots of the lines that `iter_tree` returns are exactly the
-- defined modules that no definition, their own included, instantiates.
pub iter_tree-roots :
    (fuel : ℕ) (files : List FileEntry) (guides : TreeGuides) (lines : List TreeLine)
    (name : String)
    → iter_tree fuel files none guides ≡ some lines
    → let defs = collect_defs files in
      (contains (roots lines) name ≡ true)
      ↔ ((lookup name defs ≢ none) × Uninstantiated (values defs) name)
unfolding default_tops instantiated
iter_tree-roots fuel files guides lines name e =
    let defs = collect_defs files in
    let used = contains-instantiated (values defs) name in
    let same = (iter_tree_marks fuel files none guides lines e).1 in
    let shown = contains-filter (is_defined defs) (default_tops defs) name in
    let kept = contains-filter (λ n. not (contains (instantiated defs) n)) (keys defs) name in
    let known = contains-keys defs name in
    rw same (
      λ h. (ground (arith, shown, kept, known), used.0 (ground (arith, shown, kept))),
      λ (d, u). let free = used.1 u in ground (arith, shown, kept, known, free),
    )
