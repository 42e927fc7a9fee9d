-- ===== src/Ghdl/Frontend/Pulls/Growth.antt =====
-- How `_pull_needed` (plugins/svhier-ghdl/src/svhier_ghdl/__init__.py) changes the files: the more it
-- pulls, the fewer files of the library are left.
use mathlib.Core.List.{reverse}
use svhier.Base.{
  ℕ, zero, suc, ◌≤◌, ◌<◌, String, Bool, true, false, not, ◌||◌, none, some, List, [], ◌∷◌, ◌++◌,
  map, ◌≡◌, inl, inr, refl, ap, ◌∙◌, arith, Bool-cases,
}
use svhier.Base.{==_refl, contains, string_eq, list_eq, pair_eq}
use svhier.Base.Dict.{keys, values}
use svhier.Base.Lists.{filter, flat_map, contains-append, contains-filter, List-cases}
use svhier.Base.Left.{left, left_lt}
use svhier.Libsearch.Paths.{FilePath, path_of, path_text}
use svhier.Libsearch.{resolved, is_new, pull}
use svhier.Ghdl.Frontend.{
  Outside, Ghdl, found_by, search_pull, refs_for, is_scanned, after_pull, pull_unit, pull_loop,
  scan_new, choose_libraries, read_units, by_abs_of,
}
use svhier.Ghdl.Frontend.Pulls.{pull-false}

module _ (resolve : FilePath → FilePath) where
  resolved-append :
      (xs ys : List String)
      → resolved resolve (xs ++ ys) ≡ resolved resolve xs ++ resolved resolve ys
  resolved-append [] ys = refl
  resolved-append (x ∷ xs) ys = ap (◌∷◌ (resolve (path_of x))) (resolved-append xs ys)

  -- Files of a library, whose paths are as pathlib writes them.
  abbrev pub IsFrom : List FilePath → List FilePath → Type 0
  IsFrom library found =
      (p : FilePath)
      → contains found p ≡ true
      → (contains library p ≡ true) × (path_of (path_text p) ≡ p)

  pull-left :
      (library : List FilePath) (name : String) (found : List FilePath) (others : ℕ)
      (files : List String) (pulled : List (String × (FilePath × ℕ)))
      → IsFrom library found
      → (pull resolve name found others files pulled).0 ≡ true
      → left resolve library (resolved resolve (pull resolve name found others files pulled).1.0)
        < left resolve library (resolved resolve files)
  unfolding pull
  pull-left library name [] others files pulled from h = absurd (cc)
  pull-left library name (best ∷ more) others files pulled from h =
      elim (List-cases (filter (is_new resolve files) (best ∷ more))) [
        | inl old ↦ absurd (cc (rw (old, pull) at h))
        | inr (n, ns, new) ↦
            let (there, fresh) =
              (contains-filter (is_new resolve files) (best ∷ more) n).0
                (ap (λ ps. contains ps n) new ∙ ground (arith, ==_refl n)) in
            let (known, text) = from n there in
            let added = map path_text (n ∷ ns) in
            let grown = resolved-append files added in
            let away : contains (resolved resolve files) (resolve n) ≡ false =
              ground (arith, fresh) in
            let head : contains (resolved resolve added) (resolve n) ≡ true =
              rw text (ground (arith, ==_refl (resolve n))) in
            rw (new, pull)
              (left_lt resolve library (resolved resolve files) (resolved resolve (files ++ added))
                n
                (λ p here.
                  rw
                    (
                      grown,
                      contains-append (resolved resolve files) (resolved resolve added) p,
                      here,
                    )
                    refl)
                known away
                (rw
                  (
                    grown,
                    contains-append (resolved resolve files) (resolved resolve added) (resolve n),
                    head,
                  )
                  (ground arith)))
      ]

  pull_left_same :
      (name : String) (found : List FilePath) (others : ℕ) (files : List String)
      (pulled : List (String × (FilePath × ℕ)))
      → (pull resolve name found others files pulled).0 ≡ false
      → (pull resolve name found others files pulled).1.0 ≡ files
  pull_left_same name found others files pulled h =
      ap (λ r. r.0) (pull-false resolve name found others files pulled h)

module _ {W : Type 0} (outside : Outside W) where
  pub scan_new-files : (g : Ghdl W) → (scan_new outside g).files ≡ g.files
  unfolding scan_new
  scan_new-files g =
      elim (List-cases
        (by_abs_of outside.resolve (filter (λ f. not (contains (keys g.scan) f)) g.files))) [
          | inl nothing ↦ rw (nothing, scan_new) refl
          | inr (f, fs, new) ↦ rw (new, scan_new) refl
        ]

  after_pull-files : (g : Ghdl W) → (after_pull outside g).files ≡ g.files
  unfolding read_units choose_libraries
  after_pull-files g = scan_new-files (record g { units = none; cache = [] })

  -- How many of the library's files the compilation does not have.
  abbrev pub unpulled : List FilePath → Ghdl W → ℕ
  unpulled library g = left outside.resolve library (resolved outside.resolve g.files)

  module _ (library : List FilePath)
      (offers : (name scope : String)
        → IsFrom outside.resolve library (found_by outside name scope).0) where
    pull_unit-unpulled :
        (scope unit : String) (g : Ghdl W)
        → ((pull_unit outside scope unit g).0 ≡ true
            → unpulled library (pull_unit outside scope unit g).1 < unpulled library g)
          × ((pull_unit outside scope unit g).0 ≡ false
              → (pull_unit outside scope unit g).1.files ≡ g.files)
    unfolding pull_unit search_pull
    pull_unit-unpulled scope unit g = elim (Bool-cases (is_scanned unit g.scan)) [
      | inl scanned ↦ rw (scanned, pull_unit) (λ h. absurd (cc), λ h. refl)
      | inr new ↦
          let (found, others) = found_by outside unit scope in
          let (added, g1) = search_pull outside unit scope g in
          elim (Bool-cases (search_pull outside unit scope g).0) [
            | inl yes_added ↦
                rw (new, pull_unit)
                  (rw (yes_added, pull_unit)
                    (
                      λ h.
                          let kept =
                            ap (λ fs. left outside.resolve library (resolved outside.resolve fs))
                              (after_pull-files g1) in
                          omega (
                            arith,
                            kept,
                            pull-left outside.resolve library unit found others g.files g.pulled
                                (offers unit scope) yes_added,
                          ),
                      λ h. absurd (cc),
                    ))
            | inr nothing ↦
                rw (new, pull_unit)
                  (rw (nothing, pull_unit)
                    (
                      λ h. absurd (cc),
                      λ h.
                          pull_left_same outside.resolve unit found others g.files g.pulled nothing,
                    ))
          ]
    ]

    pull_unit-unpulled_le :
        (scope unit : String) (g : Ghdl W)
        → unpulled library (pull_unit outside scope unit g).1 ≤ unpulled library g
    pull_unit-unpulled_le scope unit g =
        let (shrinks, keeps) = pull_unit-unpulled scope unit g in
        elim (Bool-cases (pull_unit outside scope unit g).0) [
          | inl added ↦ omega (arith, shrinks added)
          | inr nothing ↦ omega (
            arith,
            ap (λ fs. left outside.resolve library (resolved outside.resolve fs)) (keeps nothing),
          )
        ]

    -- What a run of the loop leaves of the library.
    abbrev pub Shrinks : Bool → ℕ → Bool × Ghdl W → Type 0
    Shrinks pulled before (result, g) =
        (unpulled library g ≤ before)
        × (result ≡ true → pulled ≡ false → unpulled library g < before)

    pub pull_loop-Shrinks :
        (fuel : ℕ) (pending : List (String × String)) (seen : List String) (pulled : Bool)
        (g : Ghdl W) (result : Bool × Ghdl W)
        → pull_loop outside fuel pending seen pulled g ≡ some result
        → Shrinks pulled (unpulled library g) result
    unfolding pull_loop
    pull_loop-Shrinks zero pending seen pulled g result h = absurd (cc)
    pull_loop-Shrinks (suc fuel) [] seen pulled g result h =
        let e : ◌≡◌ {A = Bool × Ghdl W} (pulled, g) result = cc in
        rw (← e) (omega arith, λ p q. absurd (cc))
    pull_loop-Shrinks (suc fuel) ((scope, unit) ∷ pending) seen pulled g result h =
        elim (Bool-cases (contains seen unit)) [
          | inl old ↦ pull_loop-Shrinks fuel pending seen pulled g result (rw (old, pull_loop) at h)
          | inr new ↦
              let (added, g1) = pull_unit outside scope unit g in
              let refs = flat_map (refs_for unit) (values g1.scan) in
              let (shrinks, keeps) = pull_unit-unpulled scope unit g in
              let less = pull_unit-unpulled_le scope unit g in
              let (le, lt) =
                pull_loop-Shrinks fuel (reverse refs ++ pending) (unit ∷ seen) (added || pulled) g1
                  result (rw (new, pull_loop) at h) in
              (
                omega (arith, le, less),
                λ p q. elim (Bool-cases (pull_unit outside scope unit g).0) [
                  | inl yes_added ↦ omega (arith, le, shrinks yes_added)
                  | inr nothing ↦ omega (arith, less, lt p (rw (nothing, q) refl))
                ],
              )
        ]
