-- ===== src/Ghdl/Elaborate/Cache.antt =====
-- That what is cached (plugins/svhier-ghdl/src/svhier_ghdl/__init__.py) keeps to some names while files are
-- pulled: a pull empties the cache.
use mathlib.Core.List.{reverse}
use svhier.Base.{
  ℕ, zero, suc, String, Bool, false, not, ◌||◌, none, some, List, [], ◌∷◌, ◌++◌, ◌≡◌, inl, inr, sym,
  ◌∙◌, Bool-cases, Option-cases,
}
use svhier.Base.{contains, string_eq, list_eq, pair_eq}
use svhier.Base.Dict.{keys, values, lookup}
use svhier.Base.Lists.{filter, flat_map, List-cases}
use svhier.Ghdl.Frontend.{
  Outside, Ghdl, search_pull, refs_for, is_scanned, after_pull, pull_unit, pull_loop, pending_of,
  pull_needed, scan_new, choose_libraries, read_units, by_abs_of,
}
use svhier.Ghdl.Frontend.Pulls.Fuel.{pull_needed-some}
use svhier.Ghdl.Collect.Within.{CacheIn}

module _ (names : List String) {W : Type 0} (outside : Outside W) where
  scan_new-CacheIn : (g : Ghdl W) → CacheIn names g → CacheIn names (scan_new outside g)
  unfolding scan_new
  scan_new-CacheIn g inside =
      elim (List-cases
        (by_abs_of outside.resolve (filter (λ f. not (contains (keys g.scan) f)) g.files))) [
          | inl nothing ↦ rw (nothing, scan_new) inside
          | inr (f, fs, new) ↦ rw (new, scan_new) inside
        ]

  pub read_units-CacheIn : (g : Ghdl W) → CacheIn names g → CacheIn names (read_units outside g)
  unfolding read_units choose_libraries
  read_units-CacheIn g inside = elim (Option-cases g.units) [
    | inl unread ↦ rw (unread, read_units) (scan_new-CacheIn g inside)
    | inr (units, known) ↦ rw (known, read_units) inside
  ]

  after_pull-CacheIn : (g : Ghdl W) → CacheIn names (after_pull outside g)
  unfolding lookup
  after_pull-CacheIn g =
      read_units-CacheIn (record g { units = none; cache = [] }) (λ k r h. absurd (cc))

  pull_unit-CacheIn :
      (scope unit : String) (g : Ghdl W)
      → CacheIn names g
      → CacheIn names (pull_unit outside scope unit g).1
  unfolding pull_unit search_pull
  pull_unit-CacheIn scope unit g inside = elim (Bool-cases (is_scanned unit g.scan)) [
    | inl scanned ↦ rw (scanned, pull_unit) inside
    | inr new ↦ elim (Bool-cases (search_pull outside unit scope g).0) [
      | inl added ↦
          rw (new, pull_unit)
            (rw (added, pull_unit) (after_pull-CacheIn (search_pull outside unit scope g).1))
      | inr nothing ↦ rw (new, pull_unit) (rw (nothing, pull_unit) inside)
    ]
  ]

  pull_loop-CacheIn :
      (fuel : ℕ) (pending : List (String × String)) (seen : List String) (pulled : Bool)
      (g : Ghdl W) (result : Bool × Ghdl W)
      → CacheIn names g
      → pull_loop outside fuel pending seen pulled g ≡ some result
      → CacheIn names result.1
  unfolding pull_loop
  pull_loop-CacheIn zero pending seen pulled g result inside h = absurd (cc)
  pull_loop-CacheIn (suc fuel) [] seen pulled g result inside h =
      let e : ◌≡◌ {A = Bool × Ghdl W} (pulled, g) result = cc in rw (← e) inside
  pull_loop-CacheIn (suc fuel) ((scope, unit) ∷ pending) seen pulled g result inside h =
      elim (Bool-cases (contains seen unit)) [
        | inl old ↦
            pull_loop-CacheIn fuel pending seen pulled g result inside (rw (old, pull_loop) at h)
        | inr new ↦
            let (added, g1) = pull_unit outside scope unit g in
            let refs = flat_map (refs_for unit) (values g1.scan) in
            pull_loop-CacheIn fuel (reverse refs ++ pending) (unit ∷ seen) (added || pulled) g1
              result (pull_unit-CacheIn scope unit g inside) (rw (new, pull_loop) at h)
      ]

  pub pull_needed-CacheIn :
      (fuel : ℕ) (wants : List String) (g : Ghdl W) (result : Bool × Ghdl W)
      → CacheIn names g
      → pull_needed outside fuel wants g ≡ some result
      → CacheIn names result.1
  unfolding pull_needed
  pull_needed-CacheIn fuel wants g result inside h = elim (Option-cases outside.find) [
    | inl no_library ↦
        let e : ◌≡◌ {A = Bool × Ghdl W} (false, g) result =
          cc (rw (no_library, pull_needed) at h) in
        rw (← e) inside
    | inr (find, e) ↦
        pull_loop-CacheIn fuel (pending_of wants) [] false g result inside
          (sym (pull_needed-some outside find fuel wants g e) ∙ h)
  ]
