-- ===== src/Ghdl/Elaborate/Total.antt =====
-- That the loop of `elaborate` (plugins/svhier-ghdl/src/svhier_ghdl/__init__.py) ends: it goes on only
-- after it has pulled a file, and the library has finitely many.
use mathlib.Core.List.{reverse}
use svhier.Base.{
  ℕ, zero, suc, ◌+◌, ◌<◌, String, Bool, true, false, ◌||◌, Option, some, List, [], ◌∷◌, ◌++◌, map,
  ◌≡◌, inl, inr, refl, sym, ap, ◌∙◌, arith, Bool-cases, Option-cases,
}
use svhier.Base.{contains, string_eq, list_eq}
use svhier.Base.Dict.{values}
use svhier.Base.Lists.{All, flat_map}
use svhier.Base.Left.{left}
use svhier.Base.Text.{lower}
use svhier.Frontends.{Request}
use svhier.Result.{Fragment}
use svhier.Libsearch.{resolved}
use svhier.Libsearch.Paths.{FilePath}
use svhier.Ghdl.Collect.{Collected}
use svhier.Ghdl.Frontend.{
  FileScan, Outside, Ghdl, found_by, refs_for, pull_unit, pull_loop, pending_of, pull_needed,
  read_units,
}
use svhier.Ghdl.Frontend.Pulls.Fuel.{
  Names, read_units-Names, pull_unit-Names, pull_needed-some, pull_needed_total,
}
use svhier.Ghdl.Frontend.Pulls.Growth.{IsFrom, unpulled, Shrinks, pull_loop-Shrinks}
use svhier.Ghdl.Elaborate.{unbound_of, first_names, finish, elaborate_loop, elaborate}
use svhier.Ghdl.Collect.Within.{CacheIn}
use svhier.Ghdl.Elaborate.Cache.{read_units-CacheIn, pull_needed-CacheIn}
use svhier.Ghdl.Elaborate.More.{pull_needed-more, elaborate_loop-more}

module _ {W : Type 0} (outside : Outside W) where
  module _ (elaborate_all : Request → Ghdl W → Option Collected × Ghdl W) where
    -- One round of the loop, when it is the last and when it is not.
    elaborate_loop-last :
        (fuel pull_fuel : ℕ) (request : Request) (g g2 : Ghdl W) (c : Collected)
        → (elaborate_all request g).0 ≡ some c
        → pull_needed outside pull_fuel
            (unbound_of c.defs request.defined_elsewhere)
            (elaborate_all request g).1
          ≡ some (false, g2)
        → elaborate_loop outside elaborate_all pull_fuel (suc fuel) request g
          ≡ some (finish outside request c g2)
    unfolding elaborate_loop
    elaborate_loop-last fuel pull_fuel request g g2 c ran r =
        rw (ran, elaborate_loop) (rw (r, elaborate_loop) refl)

    elaborate_loop-again :
        (fuel pull_fuel : ℕ) (request : Request) (g g2 : Ghdl W) (c : Collected)
        → (elaborate_all request g).0 ≡ some c
        → pull_needed outside pull_fuel
            (unbound_of c.defs request.defined_elsewhere)
            (elaborate_all request g).1
          ≡ some (true, g2)
        → elaborate_loop outside elaborate_all pull_fuel (suc fuel) request g
          ≡ elaborate_loop outside elaborate_all pull_fuel fuel request g2
    unfolding elaborate_loop
    elaborate_loop-again fuel pull_fuel request g g2 c ran r =
        rw (ran, elaborate_loop) (rw (r, elaborate_loop) refl)

    abbrev Ends : Request → Ghdl W → Type 0
    Ends request g =
        (pull_fuel : ℕ) × (fuel : ℕ) × (result : Fragment × Ghdl W) × (elaborate_loop outside
            elaborate_all pull_fuel fuel request g
          ≡ some result)

    -- The loop ends if it ends from each state that a pull may lead to.
    Ends-round :
        (pull_fuel : ℕ) (request : Request) (g : Ghdl W) (c : Collected) (result : Bool × Ghdl W)
        → (elaborate_all request g).0 ≡ some c
        → pull_needed outside pull_fuel
            (unbound_of c.defs request.defined_elsewhere)
            (elaborate_all request g).1
          ≡ some result
        → (result.0 ≡ true → Ends request result.1)
        → Ends request g
    Ends-round pull_fuel request g c (false, g2) ran r again = (
      pull_fuel,
      1,
      finish outside request c g2,
      elaborate_loop-last 0 pull_fuel request g g2 c ran r,
    )
    Ends-round pull_fuel request g c (true, g2) ran r again =
        let (pull_fuel2, fuel, result, e) = again refl in
        let wants = unbound_of c.defs request.defined_elsewhere in
        let most = pull_fuel + pull_fuel2 in
        (
          most,
          suc fuel,
          result,
          elaborate_loop-again fuel most request g g2 c ran (
                pull_needed-more outside pull_fuel most wants (elaborate_all request g).1 (true, g2)
                  (omega arith) r)
              ∙ elaborate_loop-more outside elaborate_all fuel pull_fuel2 most request g2 result
                  (omega arith) e,
        )

    -- What is asked of an elaboration of all roots while the cache keeps to the names: it ends, the cache
    -- still keeps to them, the files and the scans are as before, and what is left unbound is among the names.
    abbrev pub RunsWithin : List String → Type 0
    RunsWithin names =
        (request : Request) (g : Ghdl W)
        → All (Names names) (values g.scan)
        → CacheIn names g
        → (c : Collected) × ((elaborate_all request g).0 ≡ some c)
          × ((elaborate_all request g).1.files ≡ g.files)
          × ((elaborate_all request g).1.scan ≡ g.scan)
          × CacheIn names (elaborate_all request g).1
          × ((u : String)
              → contains (map lower (unbound_of c.defs request.defined_elsewhere)) u ≡ true
              → contains names u ≡ true)

    module _ (names : List String) (library : List FilePath)
        (answers : (files : List String) (w : W) (path : String) (entry : FileScan)
          → (outside.scan files w).0 path ≡ some entry
          → Names names entry)
        (offers : (name scope : String)
          → IsFrom outside.resolve library (found_by outside name scope).0)
        (runs : RunsWithin names) where
      pull_loop-Names :
          (fuel : ℕ) (pending : List (String × String)) (seen : List String) (pulled : Bool)
          (g : Ghdl W) (result : Bool × Ghdl W)
          → All (Names names) (values g.scan)
          → pull_loop outside fuel pending seen pulled g ≡ some result
          → All (Names names) (values result.1.scan)
      unfolding pull_loop
      pull_loop-Names zero pending seen pulled g result a h = absurd (cc)
      pull_loop-Names (suc fuel) [] seen pulled g result a h =
          let e : ◌≡◌ {A = Bool × Ghdl W} (pulled, g) result = cc in rw (← e) a
      pull_loop-Names (suc fuel) ((scope, unit) ∷ pending) seen pulled g result a h =
          elim (Bool-cases (contains seen unit)) [
            | inl old ↦
                pull_loop-Names fuel pending seen pulled g result a (rw (old, pull_loop) at h)
            | inr new ↦
                let (added, g1) = pull_unit outside scope unit g in
                let refs = flat_map (refs_for unit) (values g1.scan) in
                pull_loop-Names fuel (reverse refs ++ pending) (unit ∷ seen) (added || pulled) g1
                  result (pull_unit-Names names outside answers scope unit g a)
                  (rw (new, pull_loop) at h)
          ]

      -- A pull keeps to the names, and leaves less of the library if it added anything.
      pull_needed-Shrinks :
          (fuel : ℕ) (wants : List String) (g : Ghdl W) (result : Bool × Ghdl W)
          → All (Names names) (values g.scan)
          → pull_needed outside fuel wants g ≡ some result
          → All (Names names) (values result.1.scan)
            × Shrinks outside library offers false (unpulled outside library g) result
      unfolding pull_needed
      pull_needed-Shrinks fuel wants g result a h = elim (Option-cases outside.find) [
        | inl no_library ↦
            let e : ◌≡◌ {A = Bool × Ghdl W} (false, g) result =
              cc (rw (no_library, pull_needed) at h) in
            rw (← e) (a, (omega arith, λ p q. absurd (cc)))
        | inr (find, e) ↦
            let r = sym (pull_needed-some outside find fuel wants g e) ∙ h in
            (
              pull_loop-Names fuel (pending_of wants) [] false g result a r,
              pull_loop-Shrinks outside library offers fuel (pending_of wants) [] false g result r,
            )
      ]

      elaborate_loop_total :
          (bound : ℕ) (request : Request) (g : Ghdl W)
          → unpulled outside library g < bound
          → All (Names names) (values g.scan)
          → CacheIn names g
          → Ends request g
      elaborate_loop_total zero request g lt a inside = absurd (omega (arith, lt))
      elaborate_loop_total (suc bound) request g lt a inside =
          let g1 = (elaborate_all request g).1 in
          let (c, ran, files, scan, inside1, among) = runs request g a inside in
          let wants = unbound_of c.defs request.defined_elsewhere in
          let a1 : All (Names names) (values g1.scan) = rw scan a in
          let same = ap (λ fs. left outside.resolve library (resolved outside.resolve fs)) files in
          let (fuel1, result, r) = pull_needed_total names outside answers wants g1 among a1 in
          let (a2, (less, shrinks)) = pull_needed-Shrinks fuel1 wants g1 result a1 r in
          Ends-round fuel1 request g c result ran r (λ pulled.
            elaborate_loop_total bound request result.1
              (omega (arith, lt, same, shrinks pulled refl)) a2
              (pull_needed-CacheIn names outside fuel1 wants g1 result inside1 r))

      -- With enough fuel for its loop and for each pull, `elaborate` has a result.
      pub elaborate_total :
          (request : Request) (g : Ghdl W)
          → All (Names names) (values g.scan)
          → CacheIn names g
          → ((u : String)
              → contains (map lower (first_names request (read_units outside g))) u ≡ true
              → contains names u ≡ true)
          → (pull_fuel : ℕ) × (fuel : ℕ) × (result : Fragment × Ghdl W) × (elaborate outside
                elaborate_all pull_fuel fuel request g
              ≡ some result)
      unfolding elaborate
      elaborate_total request g a inside roots =
          let g1 = read_units outside g in
          let wants = first_names request g1 in
          let a1 = read_units-Names names outside answers g a in
          let (fuel1, first, r) = pull_needed_total names outside answers wants g1 roots a1 in
          let (a2, _) = pull_needed-Shrinks fuel1 wants g1 first a1 r in
          let (fuel2, fuel, result, e) =
            elaborate_loop_total (suc (unpulled outside library first.1)) request first.1
              (omega arith) a2
              (pull_needed-CacheIn names outside fuel1 wants g1 first
                (read_units-CacheIn names outside g inside) r) in
          let most = fuel1 + fuel2 in
          (
            most,
            fuel,
            result,
            rw (pull_needed-more outside fuel1 most wants g1 first (omega arith) r, elaborate)
                (elaborate_loop-more outside elaborate_all fuel fuel2 most request first.1 result
                  (omega arith) e),
          )
