-- ===== src/Ghdl/Frontend/Pulls.antt =====
-- What `_pull_needed` (plugins/svhier-ghdl/src/svhier_ghdl/__init__.py) leaves when it adds nothing.
pub mod Fuel
pub mod Growth
use mathlib.Core.List.{reverse, reverse-cons}
use svhier.Base.{
  ℕ, zero, suc, ◌+◌, String, Bool, true, false, not, ◌||◌, ◌&&◌, Option, none, some, List, [], ◌∷◌,
  ◌++◌, map, ◌≡◌, ◌≢◌, ◌⊎◌, inl, inr, refl, sym, ap, ◌∙◌, arith, Bool-cases, Option-cases,
}
use svhier.Base.{◌==◌, ==_iff, contains, string_eq, pair_eq, if◌then◌else◌}
use svhier.Base.Dict.{Dict, keys, values, lookup, insert, update}
use svhier.Base.Lists.{filter, any, flat_map, length, contains-append, List-cases}
use svhier.Base.Text.{lower}
use svhier.Libsearch.Paths.{FilePath, path_of, path_text}
use svhier.Libsearch.{pull, is_new}
use svhier.Ghdl.Frontend.{
  FileScan, Outside, Ghdl, found_by, search_pull, refs_for, is_scanned, after_pull, pull_unit,
  pull_loop, pending_of, pull_needed,
}

pub pull-false :
    (resolve : FilePath → FilePath) (name : String) (found : List FilePath) (others : ℕ)
    (files : List String) (pulled : List (String × (FilePath × ℕ)))
    → (pull resolve name found others files pulled).0 ≡ false
    → (pull resolve name found others files pulled).1 ≡ (files, pulled)
unfolding pull
pull-false resolve name [] others files pulled h = refl
pull-false resolve name (best ∷ more) others files pulled h =
    elim (List-cases (filter (is_new resolve files) (best ∷ more))) [
      | inl old ↦ rw (old, pull) refl
      | inr (n, ns, new) ↦ absurd (cc (rw (new, pull) at h))
    ]

abbrev pub wanted : List (String × String) → List String
wanted pending = map (λ (ref : String × String). ref.1) pending

pub wanted-append :
    (xs ys : List (String × String)) (u : String)
    → contains (wanted (xs ++ ys)) u ≡ (contains (wanted xs) u || contains (wanted ys) u)
wanted-append [] ys u = refl
wanted-append (x ∷ xs) ys u = ground (arith, wanted-append xs ys u)

pub wanted-reverse :
    (xs : List (String × String)) (u : String)
    → contains (wanted (reverse xs)) u ≡ contains (wanted xs) u
wanted-reverse [] u = refl
wanted-reverse (x ∷ xs) u =
    rw (reverse-cons x xs, wanted-append (reverse xs) (x ∷ []) u, wanted-reverse xs u)
      (ground arith)

pub wanted-spread :
    (refs pending : List (String × String)) (u : String)
    → contains (wanted (reverse refs ++ pending)) u
      ≡ (contains (wanted refs) u || contains (wanted pending) u)
wanted-spread refs pending u =
    rw (wanted-append (reverse refs) pending u, wanted-reverse refs u) refl

pub wanted-pending_of :
    (names : List String) (u : String)
    → contains (wanted (pending_of names)) u ≡ contains (map lower names) u
wanted-pending_of names u = wanted-reverse (map (λ n. ("", lower n)) names) u ∙ unpaired names
  where
    unpaired :
        (ns : List String)
        → contains (wanted (map (λ n. ("", lower n)) ns)) u ≡ contains (map lower ns) u
    unpaired [] = refl
    unpaired (n ∷ ns) = ground (arith, unpaired ns)

or_true_right : (b : Bool) → (b || true) ≡ true
or_true_right true = refl
or_true_right false = refl

module _ {W : Type 0} (outside : Outside W) where
  search_pull-false :
      (name library : String) (g : Ghdl W)
      → (search_pull outside name library g).0 ≡ false
      → (search_pull outside name library g).1 ≡ g
  unfolding search_pull
  search_pull-false name library g h =
      let found = found_by outside name library in
      let same = pull-false outside.resolve name found.0 found.1 g.files g.pulled h in rw same refl

  -- A unit that a scanned file has, or for which the library has no further file.
  abbrev pub Settled : Ghdl W → String → Type 0
  Settled g unit =
      (is_scanned unit g.scan ≡ true)
      ⊎ ((library : String) × ((search_pull outside unit library g).0 ≡ false))

  pull_unit-false :
      (library unit : String) (g : Ghdl W)
      → (pull_unit outside library unit g).0 ≡ false
      → ((pull_unit outside library unit g).1 ≡ g) × Settled g unit
  unfolding pull_unit
  pull_unit-false library unit g h = elim (Bool-cases (is_scanned unit g.scan)) [
    | inl scanned ↦ (rw (scanned, pull_unit) refl, inl scanned)
    | inr new ↦ elim (Bool-cases (search_pull outside unit library g).0) [
      | inl added ↦ absurd (cc (rw (new, pull_unit, added) at h))
      | inr nothing ↦ (
        rw (new, pull_unit) (rw (nothing, pull_unit) (search_pull-false unit library g nothing)),
        inr (library, nothing),
      )
    ]
  ]

  pull_loop-true :
      (fuel : ℕ) (pending : List (String × String)) (seen : List String) (g g1 : Ghdl W) (b : Bool)
      → pull_loop outside fuel pending seen true g ≡ some (b, g1)
      → b ≡ true
  unfolding pull_loop
  pull_loop-true zero pending seen g g1 b h = absurd (cc)
  pull_loop-true (suc fuel) [] seen g g1 b h = cc
  pull_loop-true (suc fuel) ((library, unit) ∷ pending) seen g g1 b h =
      elim (Bool-cases (contains seen unit)) [
        | inl old ↦ pull_loop-true fuel pending seen g g1 b (rw (old, pull_loop) at h)
        | inr new ↦
            let (added, g2) = pull_unit outside library unit g in
            let refs = flat_map (refs_for unit) (values g2.scan) in
            let h1 = rw (new, pull_loop) at h in
            pull_loop-true fuel (reverse refs ++ pending) (unit ∷ seen) g2 g1 b
              (rw (or_true_right added) at h1)
      ]

  abbrev pub refs_of : Ghdl W → String → List (String × String)
  refs_of g unit = flat_map (refs_for unit) (values g.scan)

  -- What has been seen is settled, and what it refers to has been seen or is pending.
  abbrev pub Followed : Ghdl W → List String → List String → Type 0
  Followed g seen pending =
      (u : String)
      → contains seen u ≡ true
      → Settled g u
        × ((r : String)
            → contains (wanted (refs_of g u)) r ≡ true
            → (contains seen r || contains pending r) ≡ true)

  pull_loop-Followed :
      (fuel : ℕ) (pending : List (String × String)) (seen : List String) (g g1 : Ghdl W)
      → Followed g seen (wanted pending)
      → pull_loop outside fuel pending seen false g ≡ some (false, g1)
      → (g ≡ g1)
        × (last : List String) × Followed g last []
        × ((u : String)
            → (contains seen u || contains (wanted pending) u) ≡ true
            → contains last u ≡ true)
  unfolding pull_loop
  pull_loop-Followed zero pending seen g g1 inv h = absurd (cc)
  pull_loop-Followed (suc fuel) [] seen g g1 inv h = (cc, seen, inv, λ u there. ground arith)
  pull_loop-Followed (suc fuel) ((library, unit) ∷ pending) seen g g1 inv h =
      elim (Bool-cases (contains seen unit)) [
        | inl old ↦
            let inv1 : Followed g seen (wanted pending) =
              λ u there. ((inv u there).0, λ r ref. ground (arith, (inv u there).1 r ref)) in
            let (same, last, f, all) =
              pull_loop-Followed fuel pending seen g g1 inv1 (rw (old, pull_loop) at h) in
            (same, last, f, λ u there. all u (ground arith))
        | inr new ↦
            let step = rw (new, pull_loop) at h in
            elim (Bool-cases (pull_unit outside library unit g).0) [
              | inl added ↦
                  let g2 = (pull_unit outside library unit g).1 in
                  let true_now = rw added at step in
                  absurd (
                    cc (
                      pull_loop-true fuel (reverse (refs_of g2 unit) ++ pending) (unit ∷ seen) g2 g1
                        false true_now))
              | inr nothing ↦
                  let (kept, settled) = pull_unit-false library unit g nothing in
                  let refs = refs_of g unit in
                  let spread = λ (u : String). wanted-spread refs pending u in
                  let h1 : pull_loop outside fuel (reverse refs ++ pending) (unit ∷ seen) false g
                      ≡ some (false, g1) =
                    rw kept at (rw nothing at step) in
                  let inv1 : Followed g (unit ∷ seen) (wanted (reverse refs ++ pending)) =
                    λ u there. elim (Bool-cases (u == unit)) [
                      | inl same ↦
                          rw ((==_iff u unit).0 same) (settled, λ r ref. ground (arith, spread r))
                      | inr other ↦
                          let before = inv u (ground arith) in
                          (before.0, λ r ref. ground (arith, spread r, before.1 r ref))
                    ] in
                  let (same, last, f, all) =
                    pull_loop-Followed fuel (reverse refs ++ pending) (unit ∷ seen) g g1 inv1 h1 in
                  (same, last, f, λ u there. all u (ground (arith, spread u)))
            ]
      ]

  -- A set of units that is closed: each is settled, and what the scanned files refer to from it, in
  -- libraries of the design, is in the set too.
  abbrev pub IsClosed : Ghdl W → List String → Type 0
  IsClosed g units =
      (u : String)
      → contains units u ≡ true
      → Settled g u
        × ((r : String) → contains (wanted (refs_of g u)) r ≡ true → contains units r ≡ true)

  -- If there is a library and `_pull_needed` reports that it added nothing, nothing has changed, and
  -- the names are among a closed set of units: each is in a scanned file or the library has no
  -- further file for it, and so on for what these refer to.
  pub pull_needed-IsClosed :
      (fuel : ℕ) (names : List String) (g g1 : Ghdl W)
      → outside.find ≢ none
      → pull_needed outside fuel names g ≡ some (false, g1)
      → (g ≡ g1)
        × (units : List String) × IsClosed g units
        × ((n : String) → contains (map lower names) n ≡ true → contains units n ≡ true)
  unfolding pull_needed
  pull_needed-IsClosed fuel names g g1 some_library h = elim (Option-cases outside.find) [
    | inl no_library ↦ absurd (some_library no_library)
    | inr (find, e) ↦
        let start : Followed g [] (wanted (pending_of names)) = λ u there. absurd (cc) in
        let (same, units, f, all) =
          pull_loop-Followed fuel (pending_of names) [] g g1 start (rw (e, pull_needed) at h) in
        (
          same,
          units,
          (λ u there. ((f u there).0, λ r ref. ground (arith, (f u there).1 r ref))),
          λ n there. all n (wanted-pending_of names n ∙ there),
        )
  ]
