-- ===== src/Ghdl/Elaborate/More.antt =====
-- That more fuel does not change what `elaborate` (plugins/svhier-ghdl/src/svhier_ghdl/__init__.py)
-- returns.
use mathlib.Core.List.{reverse}
use svhier.Base.{
  ℕ, zero, suc, ◌≤◌, String, Bool, true, false, ◌||◌, Option, some, List, [], ◌∷◌, ◌++◌, ◌≡◌, inl,
  inr, sym, ◌∙◌, arith, Bool-cases, Option-cases,
}
use svhier.Base.{contains, string_eq, list_eq}
use svhier.Base.Dict.{values}
use svhier.Base.Lists.{flat_map}
use svhier.Frontends.{Request}
use svhier.Result.{Fragment}
use svhier.Ghdl.Collect.{Collected}
use svhier.Ghdl.Frontend.{Outside, Ghdl, refs_for, pull_unit, pull_loop, pending_of, pull_needed}
use svhier.Ghdl.Frontend.Pulls.Fuel.{pull_needed-some}
use svhier.Ghdl.Elaborate.{unbound_of, elaborate_loop}

module _ {W : Type 0} (outside : Outside W) where
  -- More fuel gives the same result.
  pull_loop-more :
      (fuel more : ℕ) (pending : List (String × String)) (seen : List String) (pulled : Bool)
      (g : Ghdl W) (result : Bool × Ghdl W)
      → fuel ≤ more
      → pull_loop outside fuel pending seen pulled g ≡ some result
      → pull_loop outside more pending seen pulled g ≡ some result
  unfolding pull_loop
  pull_loop-more zero more pending seen pulled g result le h = absurd (cc)
  pull_loop-more (suc fuel) zero pending seen pulled g result le h = absurd (omega (arith, le))
  pull_loop-more (suc fuel) (suc more) [] seen pulled g result le h = h
  pull_loop-more (suc fuel) (suc more) ((scope, unit) ∷ pending) seen pulled g result le h =
      elim (Bool-cases (contains seen unit)) [
        | inl old ↦
            rw (old, pull_loop)
              (pull_loop-more fuel more pending seen pulled g result (omega (arith, le))
                (rw (old, pull_loop) at h))
        | inr new ↦
            let (added, g1) = pull_unit outside scope unit g in
            let refs = flat_map (refs_for unit) (values g1.scan) in
            rw (new, pull_loop)
              (pull_loop-more fuel more (reverse refs ++ pending) (unit ∷ seen) (added || pulled) g1
                result (omega (arith, le)) (rw (new, pull_loop) at h))
      ]

  pub pull_needed-more :
      (fuel more : ℕ) (wants : List String) (g : Ghdl W) (result : Bool × Ghdl W)
      → fuel ≤ more
      → pull_needed outside fuel wants g ≡ some result
      → pull_needed outside more wants g ≡ some result
  unfolding pull_needed
  pull_needed-more fuel more wants g result le h = elim (Option-cases outside.find) [
    | inl no_library ↦ rw (no_library, pull_needed) (rw (no_library, pull_needed) at h)
    | inr (find, e) ↦
        pull_needed-some outside find more wants g e
        ∙ pull_loop-more fuel more (pending_of wants) [] false g result le
            (sym (pull_needed-some outside find fuel wants g e) ∙ h)
  ]

  module _ (elaborate_all : Request → Ghdl W → Option Collected × Ghdl W) where
    pub elaborate_loop-more :
        (fuel pull_fuel more : ℕ) (request : Request) (g : Ghdl W) (result : Fragment × Ghdl W)
        → pull_fuel ≤ more
        → elaborate_loop outside elaborate_all pull_fuel fuel request g ≡ some result
        → elaborate_loop outside elaborate_all more fuel request g ≡ some result
    unfolding elaborate_loop
    elaborate_loop-more zero pull_fuel more request g result le h = absurd (cc)
    elaborate_loop-more (suc fuel) pull_fuel more request g result le h =
        let (made, g1) = elaborate_all request g in
        elim (Option-cases (elaborate_all request g).0) [
          | inl stopped ↦ absurd (cc (rw (stopped, elaborate_loop) at h))
          | inr (c, ran) ↦
              let wants = unbound_of c.defs request.defined_elsewhere in
              elim (Option-cases (pull_needed outside pull_fuel wants g1)) [
                | inl out ↦
                    absurd (cc (rw (out, elaborate_loop) at (rw (ran, elaborate_loop) at h)))
                | inr ((true, g2), r) ↦
                    let r2 = pull_needed-more pull_fuel more wants g1 (true, g2) le r in
                    let h2 = rw (r, elaborate_loop) at (rw (ran, elaborate_loop) at h) in
                    rw (ran, elaborate_loop)
                      (rw (r2, elaborate_loop)
                        (elaborate_loop-more fuel pull_fuel more request g2 result le h2))
                | inr ((false, g2), r) ↦
                    let r2 = pull_needed-more pull_fuel more wants g1 (false, g2) le r in
                    let h2 = rw (r, elaborate_loop) at (rw (ran, elaborate_loop) at h) in
                    rw (ran, elaborate_loop) (rw (r2, elaborate_loop) h2)
              ]
        ]
