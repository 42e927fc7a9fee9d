-- ===== src/Ghdl/Library/Best.antt =====
-- Which files `VhdlLibrary.find` (plugins/svhier-ghdl/src/svhier_ghdl/__init__.py) chooses.
use svhier.Base.{
  ℕ, suc, String, Bool, true, List, [], ◌∷◌, ◌≡◌, refl, sym, ap, ◌∙◌, arith, ◌⊎◌, inl, inr,
  Bool-cases,
}
use svhier.Base.{◌==◌, ==_iff, ==_refl, contains, string_eq, list_eq}
use svhier.Base.Dict.{get_or}
use svhier.Base.Lists.{All, length, filter, List-cases}
use svhier.Base.Order.{
  by_test, by_number, IsOrder, IsSorted, by_test-IsOrder, by_number-IsOrder, string_le-IsOrder,
  sort-IsSorted, length-sort,
}
use svhier.Base.Text.{lower, sort, contains-sort}
use svhier.Libsearch.Paths.{FilePath, path_text}
use svhier.Ghdl.Library.{
  VhdlLibrary, is_elsewhere, is_other_stem, is_no_start, text_le, vhdl_rank_le, is_beside,
  candidates_of, find_units,
}

vhdl_rank_le-IsOrder : (name scope : String) → IsOrder (vhdl_rank_le name scope)
vhdl_rank_le-IsOrder name scope =
    let text : IsOrder text_le = (
      λ p q. string_le-IsOrder.0 (path_text p) (path_text q),
      λ p q r. string_le-IsOrder.1 (path_text p) (path_text q) (path_text r),
    ) in
    let by_length = by_number-IsOrder length text_le text in
    let by_start = by_test-IsOrder (is_no_start name) (by_number length text_le) by_length in
    let by_stem =
      by_test-IsOrder (is_other_stem name) (by_test (is_no_start name) (by_number length text_le))
        by_start in
    by_test-IsOrder (is_elsewhere scope)
      (by_test (is_other_stem name) (by_test (is_no_start name) (by_number length text_le))) by_stem

IsOrder-refl : (le : FilePath → FilePath → Bool) (p : FilePath) → IsOrder le → le p p ≡ true
IsOrder-refl le p o = elim (Bool-cases (le p p)) [ inl h ↦ h | inr h ↦ o.0 p p h ]

All-contains :
    (P : FilePath → Type 0) (ps : List FilePath)
    → All P ps
    → (p : FilePath) → contains ps p ≡ true
    → P p
All-contains P [] a p h = absurd (cc)
All-contains P (q ∷ ps) (here, a) p h = elim (Bool-cases (p == q)) [
  | inl same ↦ let e : p ≡ q = (==_iff p q).0 same in rw e here
  | inr other ↦ All-contains P ps a p (ground (arith, other))
]

length-nil : (ps : List FilePath) → length ps ≡ 0 → ps ≡ []
length-nil [] h = refl
length-nil (p ∷ ps) h = absurd (omega (arith, h))

head-contains : (p : FilePath) (ps : List FilePath) → contains (p ∷ ps) p ≡ true
head-contains p ps = ground (arith, ==_refl p)

IsSorted-head :
    (le : FilePath → FilePath → Bool) (best : FilePath) (others : List FilePath)
    → IsOrder le
    → IsSorted le (best ∷ others)
    → All (λ q. le best q ≡ true) (best ∷ others)
unfolding IsSorted
IsSorted-head le best others o s = (IsOrder-refl le best o, s.0)

-- The chosen files of a unit.
abbrev pub IsChosen : VhdlLibrary → String → String → List FilePath × ℕ → Type 0
IsChosen library name scope (files, others) =
    ((files ≡ []) × (candidates_of library name ≡ []))
    ⊎ ((best : FilePath) × (contains (candidates_of library name) best ≡ true)
        × ((p : FilePath)
            → contains (candidates_of library name) p ≡ true
            → vhdl_rank_le (lower name) scope best p ≡ true)
        × (files ≡ best ∷ filter (is_beside best) (get_or (lower name) [] library.secondary))
        × (suc others ≡ length (candidates_of library name)))

-- `find` returns nothing if no file defines the unit. Otherwise its first file is a candidate of the least
-- rank, the others are those of the unit's architectures and bodies in the same directory, and
-- the number is how many candidates were not chosen.
pub find_units-IsChosen :
    (library : VhdlLibrary) (name scope : String)
    → IsChosen library name scope (find_units library name scope)
unfolding find_units
find_units-IsChosen library name scope =
    let candidates = candidates_of library name in
    let le = vhdl_rank_le (lower name) scope in
    let o = vhdl_rank_le-IsOrder (lower name) scope in
    let sorted = sort-IsSorted le candidates o in
    let count = length-sort le candidates in
    elim (List-cases (sort le candidates)) [
      | inl nothing ↦ rw nothing (inl (refl, length-nil candidates (sym count ∙ ap length nothing)))
      | inr (best, others, e) ↦
          let order : IsSorted le (best ∷ others) = rw e at sorted in
          let least = IsSorted-head le best others o order in
          let there : contains candidates best ≡ true =
            sym (contains-sort le candidates best)
            ∙ ap (λ ps. contains ps best) e
            ∙ head-contains best others in
          rw e (
            inr (
              best,
              there,
              λ p h.
                  All-contains (λ q. le best q ≡ true) (best ∷ others) least p
                    (sym (ap (λ ps. contains ps p) e) ∙ contains-sort le candidates p ∙ h),
              refl,
              sym (ap length e) ∙ count,
            ))
    ]
