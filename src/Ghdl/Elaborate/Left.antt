-- ===== src/Ghdl/Elaborate/Left.antt =====
-- What `elaborate` (plugins/svhier-ghdl/src/svhier_ghdl/__init__.py) has left unbound when it returns.
use svhier.Base.{
  ℕ, zero, suc, String, Bool, true, false, Option, none, some, List, [], ◌∷◌, map, ◌≡◌, ◌≢◌, refl,
  sym, ap, ◌∙◌, arith, inl, inr, Bool-cases, Option-cases,
}
use svhier.Base.{◌==◌, ==_iff, contains, string_eq}
use svhier.Base.Dict.{keys}
use svhier.Base.Lists.{filter, dedupe, contains-filter, contains-add_unique}
use svhier.Base.Text.{lower, string_le, contains-sort}
use svhier.Result.{Fragment}
use svhier.Frontends.{Request}
use svhier.Ghdl.Instances.{Defs}
use svhier.Ghdl.Frontend.{Outside, Ghdl, pull_needed, read_units}
use svhier.Ghdl.Frontend.Pulls.{IsClosed, pull_needed-IsClosed}
use svhier.Ghdl.Collect.{Collected}
use svhier.Ghdl.Elaborate.{
  child_names, is_unbound, unbound_of, finish, elaborate_loop, first_names, elaborate,
}

-- An instance is of this name, and no definition here or elsewhere has it.
abbrev pub IsLeft : Defs → List String → String → Type 0
IsLeft defs elsewhere m =
    (contains (child_names defs) m ≡ true)
    × (contains (keys defs) m ≡ false)
    × (contains elsewhere m ≡ false)

unbound_of-IsLeft :
    (defs : Defs) (elsewhere : List String) (m : String)
    → IsLeft defs elsewhere m
    → contains (unbound_of defs elsewhere) m ≡ true
unfolding unbound_of dedupe
unbound_of-IsLeft defs elsewhere m (child, undefined, missing) =
    let open_names = filter (is_unbound defs elsewhere) (dedupe (child_names defs)) in
    contains-sort string_le open_names m
    ∙ (contains-filter (is_unbound defs elsewhere) (dedupe (child_names defs)) m).1
        (contains-add_unique [] (child_names defs) m ∙ child, rw (undefined, missing) refl)

contains-lower :
    (names : List String) (m : String)
    → contains names m ≡ true
    → contains (map lower names) (lower m) ≡ true
contains-lower [] m h = absurd (cc)
contains-lower (n ∷ names) m h = elim (Bool-cases (m == n)) [
  | inl same ↦ rw ((==_iff (lower m) (lower n)).1 (ap lower ((==_iff m n).0 same))) refl
  | inr other ↦ let later = contains-lower names m (rw other at h) in ground arith
]

module _ {W : Type 0} (outside : Outside W)
    (elaborate_all : Request → Ghdl W → Option Collected × Ghdl W) (pull_fuel : ℕ)
    (request : Request) where
  -- Rounds lead from one state to another: each elaborates all roots, and then pulls something.
  pub data Rounds : Ghdl W → Ghdl W → Type 0 where
    none_yet : {g : Ghdl W} → Rounds g g
    round :
        {g g1 g2 last : Ghdl W} (c : Collected)
        → elaborate_all request g ≡ (some c, g1)
        → pull_needed outside pull_fuel (unbound_of c.defs request.defined_elsewhere) g1
          ≡ some (true, g2)
        → Rounds g2 last
        → Rounds g last

  -- The result is made of what all roots gave when they were elaborated in the state that all
  -- pulls have left, and of the state after that. The library then has nothing for what is left: the
  -- names are among a closed set of units.
  abbrev pub IsSettled : Ghdl W → Fragment × Ghdl W → Type 0
  IsSettled start result =
      (before : Ghdl W) × (c : Collected) × (g : Ghdl W) × Rounds start before
      × (elaborate_all request before ≡ (some c, g))
      × (result ≡ finish outside request c g)
      × (units : List String) × IsClosed outside g units
      × ((m : String) → IsLeft c.defs request.defined_elsewhere m → contains units (lower m) ≡ true)

module _ {W : Type 0} (outside : Outside W)
    (elaborate_all : Request → Ghdl W → Option Collected × Ghdl W) (pull_fuel : ℕ)
    (some_library : outside.find ≢ none) where
  IsSettled-round :
      (request : Request) (g g1 g2 : Ghdl W) (c : Collected) (result : Fragment × Ghdl W)
      → elaborate_all request g ≡ (some c, g1)
      → pull_needed outside pull_fuel (unbound_of c.defs request.defined_elsewhere) g1
        ≡ some (true, g2)
      → IsSettled outside elaborate_all pull_fuel request g2 result
      → IsSettled outside elaborate_all pull_fuel request g result
  IsSettled-round request g g1 g2 c result ran pulled
        (before, last, made, rounds, ran_last, of_last, units, closed, all) =
      (before, last, made, round c ran pulled rounds, ran_last, of_last, units, closed, all)

  elaborate_loop-IsSettled :
      (fuel : ℕ) (request : Request) (g : Ghdl W) (result : Fragment × Ghdl W)
      → elaborate_loop outside elaborate_all pull_fuel fuel request g ≡ some result
      → IsSettled outside elaborate_all pull_fuel request g result
  unfolding elaborate_loop
  elaborate_loop-IsSettled zero request g result h = absurd (cc)
  elaborate_loop-IsSettled (suc fuel) request g result h =
      elim (Option-cases (elaborate_all request g).0) [
        | inl failed ↦ absurd (cc (rw (failed, elaborate_loop) at h))
        | inr (c, made) ↦
            let g1 = (elaborate_all request g).1 in
            let left = unbound_of c.defs request.defined_elsewhere in
            let h1 = rw (made, elaborate_loop) at h in
            elim (Option-cases (pull_needed outside pull_fuel left g1)) [
              | inl stuck ↦ absurd (cc (rw (stuck, elaborate_loop) at h1))
              | inr ((true, g2), pulled) ↦
                  IsSettled-round request g g1 g2 c result (λ i. (made i, g1)) pulled
                    (elaborate_loop-IsSettled fuel request g2 result
                      (rw (pulled, elaborate_loop) at h1))
              | inr ((false, g2), quiet) ↦
                  let (same, units, closed, all) =
                    pull_needed-IsClosed outside pull_fuel left g1 g2 some_library quiet in
                  let h2 : some (finish outside request c g2) ≡ some result =
                    rw (quiet, elaborate_loop) at h1 in
                  let it : finish outside request c g2 ≡ result = cc in
                  (
                    g,
                    c,
                    g1,
                    none_yet,
                    (λ i. (made i, g1)),
                    sym it ∙ ap (finish outside request c) (sym same),
                    units,
                    closed,
                    λ m l. all (lower m) (
                        contains-lower left m
                          (unbound_of-IsLeft c.defs request.defined_elsewhere m l)),
                  )
            ]
      ]

  -- If there is a library, whatever `elaborate` returns is what all roots gave when they were elaborated
  -- in the state that the first pull and those of all later rounds have left, each after its own
  -- elaboration of all roots. The library then has nothing more: each instance's name that no definition
  -- here or elsewhere has is in a closed set of units, all of them in a scanned file or not to be found.
  pub elaborate-IsSettled :
      (fuel : ℕ) (request : Request) (g : Ghdl W) (result : Fragment × Ghdl W)
      → elaborate outside elaborate_all pull_fuel fuel request g ≡ some result
      → (pulled : Bool) × (start : Ghdl W) × (pull_needed outside pull_fuel
            (first_names request (read_units outside g))
            (read_units outside g)
          ≡ some (pulled, start))
        × IsSettled outside elaborate_all pull_fuel request start result
  unfolding elaborate
  elaborate-IsSettled fuel request g result h =
      let g1 = read_units outside g in
      elim (Option-cases (pull_needed outside pull_fuel (first_names request g1) g1)) [
        | inl stuck ↦ absurd (cc (rw (stuck, elaborate) at h))
        | inr ((pulled, g2), e) ↦ (
          pulled,
          g2,
          e,
          elaborate_loop-IsSettled fuel request g2 result (rw (e, elaborate) at h),
        )
      ]
