-- ===== src/Ghdl/Worker/Dates.antt =====
-- The order of what `_load` (plugins/svhier-ghdl/src/svhier_ghdl/worker.py) puts into the libraries.
use svhier.Base.{
  ℕ, zero, suc, ◌+◌, ◌≤◌, ◌<◌, String, Bool, true, false, none, some, List, [], ◌∷◌, ◌++◌, map, ◌≡◌,
  refl, sym, ap, ◌∙◌, arith, inl, inr, Bool-cases,
}
use svhier.Base.{string_eq}
use svhier.Base.Dict.{Dict, get_or}
use svhier.Base.Lists.{All, flat_map}
use svhier.Ghdl.Worker.{DesignUnit, Loaded, is_architecture, load_units, load_files, load}

-- The dates that are set, in load order.
unfoldable pub dates_of : List Loaded → List ℕ
dates_of [] = []
dates_of (l ∷ loaded) = elim l.date [ none ↦ dates_of loaded | some d ↦ d ∷ dates_of loaded ]

abbrev pub add_weight : Bool → ℕ → ℕ
add_weight true n = suc n
add_weight false n = n

abbrev pub architectures : List DesignUnit → ℕ
architectures [] = 0
architectures (u ∷ units) = add_weight (is_architecture u.library_unit) (architectures units)

-- The next so many numbers after one.
abbrev pub count_from : ℕ → ℕ → List ℕ
count_from d zero = []
count_from d (suc n) = (d + 1) ∷ count_from (d + 1) n

abbrev pub place : String → DesignUnit → String × DesignUnit
place library u = (library, u)

abbrev pub is_dated : Loaded → Bool
is_dated l = elim l.date [ none ↦ false | some d ↦ true ]

abbrev pub loads_architecture : Loaded → Bool
loads_architecture l = is_architecture l.unit.library_unit

-- Exactly the architectures have a date.
abbrev pub OnlyArchitectures : List Loaded → Type 0
OnlyArchitectures loaded = map is_dated loaded ≡ map loads_architecture loaded

abbrev pub placed : List Loaded → List (String × DesignUnit)
placed loaded = map (λ (l : Loaded). (l.library, l.unit)) loaded

architectures-append :
    (xs ys : List DesignUnit) → architectures (xs ++ ys) ≡ architectures xs + architectures ys
architectures-append [] ys = omega arith
architectures-append (x ∷ xs) ys = elim (Bool-cases (is_architecture x.library_unit)) [
  | inl arch ↦ rw arch (omega (arith, architectures-append xs ys))
  | inr other ↦ rw other (architectures-append xs ys)
]

dates_of-append : (xs ys : List Loaded) → dates_of (xs ++ ys) ≡ dates_of xs ++ dates_of ys
unfolding dates_of
dates_of-append [] ys = refl
dates_of-append (x ∷ xs) ys = ground (arith, dates_of-append xs ys)

placed-append : (xs ys : List Loaded) → placed (xs ++ ys) ≡ placed xs ++ placed ys
placed-append [] ys = refl
placed-append (x ∷ xs) ys = ap (◌∷◌ (x.library, x.unit)) (placed-append xs ys)

map-append : (f : Loaded → Bool) (xs ys : List Loaded) → map f (xs ++ ys) ≡ map f xs ++ map f ys
map-append f [] ys = refl
map-append f (x ∷ xs) ys = ap (◌∷◌ (f x)) (map-append f xs ys)

OnlyArchitectures-append :
    (xs ys : List Loaded)
    → OnlyArchitectures xs
    → OnlyArchitectures ys
    → OnlyArchitectures (xs ++ ys)
OnlyArchitectures-append xs ys h k =
    map-append is_dated xs ys ∙ (rw (h, k) (sym (map-append loads_architecture xs ys)))

count_from-add : (d m n : ℕ) → count_from d (m + n) ≡ count_from d m ++ count_from (d + m) n
count_from-add d zero n =
    let a : 0 + n ≡ n = omega arith in
    let b : d ≡ d + 0 = omega arith in ap (count_from d) a ∙ ap (λ k. count_from k n) b
count_from-add d (suc m) n =
    let a : suc m + n ≡ suc (m + n) = omega arith in
    let b : d + 1 + m ≡ d + suc m = omega arith in
    ap (count_from d) a
    ∙ ap (◌∷◌ (d + 1))
        (count_from-add (d + 1) m n ∙ ap (λ k. count_from (d + 1) m ++ count_from k n) b)

count_from-bounds :
    (low high d n : ℕ) → low ≤ d → d + n ≤ high → All (λ k. (low < k) × (k ≤ high)) (count_from d n)
count_from-bounds low high d zero l h = tt
count_from-bounds low high d (suc n) l h =
    ((omega arith, omega arith), count_from-bounds low high (d + 1) n (omega arith) (omega arith))

load_units_lem :
    (library : String) (date : ℕ) (units : List DesignUnit)
    → ((load_units library date units).1 ≡ date + architectures units)
      × (dates_of (load_units library date units).0 ≡ count_from date (architectures units))
      × (placed (load_units library date units).0 ≡ map (place library) units)
      × OnlyArchitectures (load_units library date units).0
unfolding load_units dates_of
load_units_lem library date [] = (omega arith, refl, refl, refl)
load_units_lem library date (u ∷ units) = elim (Bool-cases (is_architecture u.library_unit)) [
  | inl arch ↦
      let (last, dates, all, only) = load_units_lem library (date + 1) units in
      rw (arch, load_units)
        (
          omega (arith, last),
          ap (◌∷◌ (date + 1)) dates,
          ap (◌∷◌ (library, u)) all,
          (λ i. sym arch i ∷ only i),
        )
  | inr other ↦
      let (last, dates, all, only) = load_units_lem library date units in
      rw (other, load_units) (last, dates, ap (◌∷◌ (library, u)) all, (λ i. sym other i ∷ only i))
]

module _ (design_units : String → List DesignUnit) (assigned : Dict String String)
    (work : String) where
  load_files_lem :
      (date : ℕ) (files : List String)
      → (dates_of (load_files design_units assigned work date files)
          ≡ count_from date (architectures (flat_map design_units files)))
        × (placed (load_files design_units assigned work date files)
            ≡ flat_map (λ path. map (place (get_or path work assigned)) (design_units path)) files)
        × OnlyArchitectures (load_files design_units assigned work date files)
  unfolding load_files flat_map dates_of
  load_files_lem date [] = (refl, refl, refl)
  load_files_lem date (path ∷ files) =
      let library = get_or path work assigned in
      let units = design_units path in
      let (last, dates, all, only) = load_units_lem library date units in
      let (more_dates, more, more_only) = load_files_lem (load_units library date units).1 files in
      let (loaded, after) = load_units library date units in
      (
        dates_of-append loaded (load_files design_units assigned work after files)
            ∙ rw (dates, more_dates, last, architectures-append units (flat_map design_units files))
                (sym (
                  count_from-add date (architectures units)
                    (architectures (flat_map design_units files)))),
        placed-append loaded (load_files design_units assigned work after files)
            ∙ rw (all, more) refl,
        OnlyArchitectures-append loaded (load_files design_units assigned work after files) only
            more_only,
      )

  -- `_load` puts each unit into the library assigned to its file, or else `work`, in the order of the
  -- files and of the units in each. Exactly the architectures are dated, with consecutive numbers in
  -- that order: 11 is the first, and none is above 10 plus the number of architectures.
  pub load-dates :
      (files : List String)
      → (placed (load design_units assigned work files)
          ≡ flat_map (λ path. map (place (get_or path work assigned)) (design_units path)) files)
        × (dates_of (load design_units assigned work files)
            ≡ count_from 10 (architectures (flat_map design_units files)))
        × OnlyArchitectures (load design_units assigned work files)
        × All
            (λ d. (10 < d) × (d ≤ 10 + architectures (flat_map design_units files)))
            (dates_of (load design_units assigned work files))
  load-dates files =
      let (dates, all, only) = load_files_lem 10 files in
      let n = architectures (flat_map design_units files) in
      (all, dates, only, rw dates (count_from-bounds 10 (10 + n) 10 n (omega arith) (omega arith)))
