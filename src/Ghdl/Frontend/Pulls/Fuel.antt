-- ===== src/Ghdl/Frontend/Pulls/Fuel.antt =====
-- That `_pull_needed` (plugins/svhier-ghdl/src/svhier_ghdl/__init__.py) ends where the files name
-- finitely many units.
use mathlib.Core.List.{reverse}
use svhier.Base.{
  ℕ, zero, suc, ◌≤◌, ◌<◌, String, Bool, true, false, not, ◌||◌, Option, none, some, List, [], ◌∷◌,
  ◌++◌, map, ◌≡◌, inl, inr, refl, sym, ◌∙◌, arith, Bool-cases, Option-cases,
}
use svhier.Base.{◌==◌, ==_refl, contains, string_eq, pair_eq}
use svhier.Base.Dict.{Dict, keys, values, insert}
use svhier.Base.Lists.{All, filter, flat_map, List-cases}
use svhier.Base.Left.{left, left_lt}
use svhier.Base.Text.{lower}
use svhier.Libsearch.Paths.{FilePath}
use svhier.Ghdl.Frontend.{
  FileScan, Outside, Ghdl, search_pull, refs_for, is_scanned, is_local, after_pull, pull_unit,
  pull_loop, pending_of, pull_needed, scan_new, choose_libraries, read_units, add_scans, by_abs_of,
}
use svhier.Ghdl.Instances.Linked.{or_true}
use svhier.Ghdl.Frontend.Pulls.{wanted, wanted-append, wanted-spread, wanted-pending_of}

-- How many of the names are not in the list, and that a new one of them makes it fewer.
abbrev unseen : List String → List String → ℕ
unseen names seen = left (λ n. n) names seen

unseen_lt :
    (names seen : List String) (u : String)
    → contains names u ≡ true
    → contains seen u ≡ false
    → unseen names (u ∷ seen) < unseen names seen
unseen_lt names seen u c new =
    left_lt (λ n. n) names seen (u ∷ seen) u (λ v there. ground (arith, there)) c new
      (ground (arith, ==_refl u))

values-insert {ℓ κ} :
    {V : Type ℓ} (P : V → Type κ) (k : String) (v : V) (d : Dict String V)
    → P v
    → All P (values d)
    → All P (values (insert k v d))
unfolding values insert
values-insert P k v [] p a = (p, tt)
values-insert P k v ((j, w) ∷ d) p a = elim (Bool-cases (k == j)) [
  | inl same ↦ rw same (p, a.1)
  | inr other ↦ rw other (a.0, values-insert P k v d p a.1)
]

pub pull_needed-some :
    {W : Type 0} (outside : Outside W) (find : String → String → List FilePath × ℕ) (fuel : ℕ)
    (wants : List String) (g : Ghdl W)
    → outside.find ≡ some find
    → pull_needed outside fuel wants g ≡ pull_loop outside fuel (pending_of wants) [] false g
unfolding pull_needed
pull_needed-some outside find fuel wants g e = ground (arith, e)

module _ (names : List String) where
  -- All that a file refers to is among the names.
  abbrev pub Names : FileScan → Type 0
  Names entry = (u : String) → contains (wanted entry.named) u ≡ true → contains names u ≡ true

  wanted-filter :
      (p : String × String → Bool) (refs : List (String × String)) (u : String)
      → contains (wanted (filter p refs)) u ≡ true
      → contains (wanted refs) u ≡ true
  unfolding filter
  wanted-filter p [] u h = h
  wanted-filter p (r ∷ refs) u h = elim (Bool-cases (p r)) [
    | inl kept ↦ ground (arith, wanted-filter p refs u)
    | inr dropped ↦ ground (arith, wanted-filter p refs u)
  ]

  refs_for-Names :
      (entry : FileScan) (unit u : String)
      → Names entry
      → contains (wanted (refs_for unit entry)) u ≡ true
      → contains names u ≡ true
  refs_for-Names entry unit u n h =
      elim (Bool-cases (contains entry.units unit || contains entry.arch_of unit)) [
        | inl has ↦ n u (wanted-filter (λ ref. is_local entry ref.0) entry.named u (rw has at h))
        | inr lacks ↦ absurd (cc (rw lacks at h))
      ]

  refs-Names :
      (entries : List FileScan) (unit u : String)
      → All Names entries
      → contains (wanted (flat_map (refs_for unit) entries)) u ≡ true
      → contains names u ≡ true
  unfolding flat_map
  refs-Names [] unit u a h = absurd (cc)
  refs-Names (entry ∷ entries) unit u a h =
      elim (or_true _ _
        (sym (wanted-append (refs_for unit entry) (flat_map (refs_for unit) entries) u) ∙ h)) [
          | inl here ↦ refs_for-Names entry unit u a.0 here
          | inr there ↦ refs-Names entries unit u a.1 there
        ]

  add_scans-Names :
      (answer : String → Option FileScan) (by_abs : Dict String String)
      (scan : Dict String FileScan)
      → ((path : String) (entry : FileScan) → answer path ≡ some entry → Names entry)
      → All Names (values scan)
      → All Names (values (add_scans answer by_abs scan))
  unfolding add_scans
  add_scans-Names answer [] scan n a = a
  add_scans-Names answer ((path, f) ∷ by_abs) scan n a = elim (Option-cases (answer path)) [
    | inl failed ↦ rw failed (add_scans-Names answer by_abs scan n a)
    | inr (entry, e) ↦ rw e (
        add_scans-Names answer by_abs (insert f entry scan) n
          (values-insert Names f entry scan (n path entry e) a))
  ]

  module _ {W : Type 0} (outside : Outside W)
      (answers : (files : List String) (w : W) (path : String) (entry : FileScan)
        → (outside.scan files w).0 path ≡ some entry
        → Names entry) where
    pub scan_new-Names :
        (g : Ghdl W) → All Names (values g.scan) → All Names (values (scan_new outside g).scan)
    unfolding scan_new
    scan_new-Names g a =
        let new = filter (λ f. not (contains (keys g.scan) f)) g.files in
        elim (List-cases (by_abs_of outside.resolve new)) [
          | inl e ↦ rw (e, scan_new) a
          | inr (first, more, e) ↦
              rw (e, scan_new)
                (add_scans-Names _ (first ∷ more) g.scan (answers (keys (first ∷ more)) g.world) a)
        ]

    pub read_units-Names :
        (g : Ghdl W) → All Names (values g.scan) → All Names (values (read_units outside g).scan)
    unfolding read_units choose_libraries
    read_units-Names g a = elim (Option-cases g.units) [
      | inl unread ↦ rw (unread, read_units) (scan_new-Names g a)
      | inr (units, known) ↦ rw (known, read_units) a
    ]

    after_pull-Names :
        (g : Ghdl W) → All Names (values g.scan) → All Names (values (after_pull outside g).scan)
    unfolding read_units choose_libraries
    after_pull-Names g a = scan_new-Names (record g { units = none; cache = [] }) a

    pub pull_unit-Names :
        (library unit : String) (g : Ghdl W)
        → All Names (values g.scan)
        → All Names (values (pull_unit outside library unit g).1.scan)
    unfolding pull_unit search_pull
    pull_unit-Names library unit g a = elim (Bool-cases (is_scanned unit g.scan)) [
      | inl scanned ↦ rw (scanned, pull_unit) a
      | inr new ↦ elim (Bool-cases (search_pull outside unit library g).0) [
        | inl added ↦
            rw (new, pull_unit)
              (rw (added, pull_unit) (after_pull-Names (search_pull outside unit library g).1 a))
        | inr nothing ↦ rw (new, pull_unit) (rw (nothing, pull_unit) a)
      ]
    ]

    pull_loop_total :
        (bound : ℕ) (pending : List (String × String)) (seen : List String) (pulled : Bool)
        (g : Ghdl W)
        → unseen names seen ≤ bound
        → ((u : String) → contains (wanted pending) u ≡ true → contains names u ≡ true)
        → All Names (values g.scan)
        → (fuel : ℕ) × (result : Bool × Ghdl W) × (pull_loop outside fuel pending seen pulled g
            ≡ some result)
    unfolding pull_loop
    pull_loop_total bound [] seen pulled g le n a = (1, (pulled, g), refl)
    pull_loop_total zero ((library, unit) ∷ pending) seen pulled g le n a =
        elim (Bool-cases (contains seen unit)) [
          | inl old ↦
              let (fuel, r, e) =
                pull_loop_total zero pending seen pulled g le (λ u h. n u (ground arith)) a in
              (suc fuel, r, rw (old, pull_loop) e)
          | inr new ↦ absurd (omega (arith, unseen_lt names seen unit (n unit (ground arith)) new))
        ]
    pull_loop_total (suc bound) ((library, unit) ∷ pending) seen pulled g le n a =
        elim (Bool-cases (contains seen unit)) [
          | inl old ↦
              let (fuel, r, e) =
                pull_loop_total (suc bound) pending seen pulled g le (λ u h. n u (ground arith))
                  a in
              (suc fuel, r, rw (old, pull_loop) e)
          | inr new ↦
              let (added, g1) = pull_unit outside library unit g in
              let a1 = pull_unit-Names library unit g a in
              let refs = flat_map (refs_for unit) (values g1.scan) in
              let (fuel, r, e) =
                pull_loop_total bound (reverse refs ++ pending) (unit ∷ seen) (added || pulled) g1
                  (omega (arith, unseen_lt names seen unit (n unit (ground arith)) new))
                  (λ u h. elim (or_true _ _ (sym (wanted-spread refs pending u) ∙ h)) [
                    | inl ref ↦ refs-Names (values g1.scan) unit u a1 ref
                    | inr before ↦ n u (ground arith)
                  ])
                  a1 in
              (suc fuel, r, rw (new, pull_loop) e)
        ]

    -- If the files that are or may be scanned name finitely many units, `_pull_needed` ends: with
    -- enough fuel it has a result.
    pub pull_needed_total :
        (wants : List String) (g : Ghdl W)
        → ((u : String) → contains (map lower wants) u ≡ true → contains names u ≡ true)
        → All Names (values g.scan)
        → (fuel : ℕ) × (result : Bool × Ghdl W) × (pull_needed outside fuel wants g ≡ some result)
    unfolding pull_needed
    pull_needed_total wants g n a = elim (Option-cases outside.find) [
      | inl no_library ↦ (0, (false, g), rw (no_library, pull_needed) refl)
      | inr (find, some_library) ↦
          let (fuel, r, e) =
            pull_loop_total (unseen names []) (pending_of wants) [] false g (omega arith)
              (λ u h. n u (sym (wanted-pending_of wants u) ∙ h)) a in
          (fuel, r, pull_needed-some outside find fuel wants g some_library ∙ e)
    ]
