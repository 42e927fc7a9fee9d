-- ===== src/Ghdl/Libraries/Placed.antt =====
-- How `_spread_local` (plugins/svhier-ghdl/src/svhier_ghdl/__init__.py) changes what is placed: a file
-- keeps its library, and each change places one file more.
use svhier.Base.{
  ℕ, ◌+◌, ◌≤◌, ◌<◌, String, Bool, true, false, ◌||◌, Option, none, some, List, [], ◌∷◌,
}
use svhier.Base.{
  ◌≡◌, refl, ◌∙◌, inl, inr, arith, Bool-cases, Option-cases, ◌==◌, contains, string_eq, list_eq,
  option_eq,
}
use svhier.Base.Dict.{Dict, lookup, insert, lookup-insert}
use svhier.Ghdl.Libraries.{share}

abbrev weight : Option String → ℕ
weight none = 1
weight (some library) = 0

-- How many of the files have no library yet.
abbrev pub unplaced : List String → Dict String String → ℕ
unplaced [] placed = 0
unplaced (f ∷ files) placed = weight (lookup f placed) + unplaced files placed

-- No library is taken back, and one that changed something placed one of the files.
abbrev pub Grows : List String → Dict String String → Bool × Dict String String → Type 0
Grows files placed (changed, placed1) =
    (unplaced files placed1 ≤ unplaced files placed)
    × ((changed ≡ true) → unplaced files placed1 < unplaced files placed)
    × ((f library : String) → lookup f placed ≡ some library → lookup f placed1 ≡ some library)
    × ((changed ≡ false) → placed1 ≡ placed)

unplaced-insert_le :
    (files : List String) (f library : String) (placed : Dict String String)
    → unplaced files (insert f library placed) ≤ unplaced files placed
unplaced-insert_le [] f library placed = omega arith
unplaced-insert_le (g ∷ files) f library placed =
    ground (arith, unplaced-insert_le files f library placed, lookup-insert g f library placed)

unplaced-insert_lt :
    (files : List String) (f library : String) (placed : Dict String String)
    → contains files f ≡ true
    → lookup f placed ≡ none
    → unplaced files (insert f library placed) < unplaced files placed
unplaced-insert_lt [] f library placed c h = absurd (cc)
unplaced-insert_lt (g ∷ files) f library placed c h =
    let less = unplaced-insert_le files f library placed in
    let at = lookup-insert g f library placed in
    elim (Bool-cases (f == g)) [
      | inl same ↦
          let e : g ≡ f = ground arith in
          let before : lookup g placed ≡ none = rw e h in
          let after : lookup g (insert f library placed) ≡ some library = ground (arith, at) in
          rw (before, after) (omega (arith, less))
      | inr differs ↦
          let there : contains files f ≡ true = ground arith in
          let fewer = unplaced-insert_lt files f library placed there h in
          let kept : lookup g (insert f library placed) ≡ lookup g placed = ground (arith, at) in
          rw kept (omega (arith, fewer))
    ]

or_false : (a b : Bool) → (a || b) ≡ false → (a ≡ false) × (b ≡ false)
or_false a b h = ground arith

pub Grows-none :
    (files : List String) (placed : Dict String String) → Grows files placed (false, placed)
Grows-none files placed = (omega arith, λ h. absurd (cc), λ f library h. h, λ h. refl)

Grows-insert :
    (files : List String) (f library : String) (placed : Dict String String)
    → contains files f ≡ true
    → lookup f placed ≡ none
    → Grows files placed (true, insert f library placed)
Grows-insert files f library placed c h = (
  unplaced-insert_le files f library placed,
  λ e. unplaced-insert_lt files f library placed c h,
  λ g l k. ground (arith, lookup-insert g f library placed),
  λ e. absurd (cc),
)

pub Grows-or :
    (files : List String) (a b c : Dict String String) (here later : Bool)
    → Grows files a (here, b)
    → Grows files b (later, c)
    → Grows files a (here || later, c)
Grows-or files a b c here later (le, lt, keep, same) (le', lt', keep', same') = (
  omega (arith, le, le'),
  λ h. elim (Bool-cases here) [
    | inl first ↦ omega (arith, lt first, le')
    | inr none_here ↦ omega (arith, le, lt' (ground arith))
  ],
  λ f l h. keep' f l (keep f l h),
  λ h. same' (or_false here later h).1 ∙ same (or_false here later h).0,
)

pub share-Grows :
    (files : List String) (path target : String) (placed : Dict String String)
    → contains files path ≡ true
    → contains files target ≡ true
    → Grows files placed (share path target placed)
unfolding share
share-Grows files path target placed p t = elim (Option-cases (lookup path placed)) [
  | inl e ↦ elim (Option-cases (lookup target placed)) [
    | inl e' ↦ rw (e, e', share) (Grows-none files placed)
    | inr (library, e') ↦ rw (e, e', share) (Grows-insert files path library placed p e)
  ]
  | inr (library, e) ↦ elim (Option-cases (lookup target placed)) [
    | inl e' ↦ rw (e, e', share) (Grows-insert files target library placed t e')
    | inr (other, e') ↦ rw (e, e', share) (Grows-none files placed)
  ]
]
