-- ===== src/Ghdl/Libraries/Spread.antt =====
-- `assign_libraries` (plugins/svhier-ghdl/src/svhier_ghdl/__init__.py) ends: each round of
-- `_spread_local` that goes on has placed a file.
use svhier.Base.{
  ℕ, zero, suc, ◌≤◌, ◌<◌, String, true, false, ◌||◌, Option, some, List, [], ◌∷◌, ◌++◌, map,
}
use svhier.Base.{
  ◌≡◌, refl, sym, ◌∙◌, inl, inr, arith, Bool-cases, Option-cases, ◌==◌, contains, string_eq,
  list_eq, option_eq,
}
use svhier.Base.Dict.{Dict, keys, lookup, update, lookup-update, get_or}
use svhier.Base.Lists.{length, filter, List-cases, contains-filter, contains-append}
use svhier.Base.Text.{lower, sort, string_le, contains-sort}
use svhier.Ghdl.Libraries.{
  Scan, spread_unit, spread_units, spread_files, spread_local, find_placed, pick_near, pick_local,
  only_one, parent_of, place_files, define_units, units_in, define_files, linked, assign_libraries,
}
use svhier.Ghdl.Libraries.Placed.{unplaced, Grows, Grows-none, Grows-or, share-Grows}

find_placed-mem :
    (cs : List String) (library : Option String) (placed : Dict String String) (c : String)
    → find_placed cs library placed ≡ some c
    → contains cs c ≡ true
unfolding find_placed
find_placed-mem [] library placed c h = absurd (cc)
find_placed-mem (x ∷ cs) library placed c h = elim (Option-cases (lookup x placed)) [
  | inl e ↦
      let rest = find_placed-mem cs library placed c (rw (e, find_placed) at h) in ground arith
  | inr (place, e) ↦ elim (Bool-cases (some place == library)) [
    | inl same ↦
        let q : some x ≡ some c = rw (e, same, find_placed) at h in
        let q' : x ≡ c = cc in ground arith
    | inr differs ↦
        let rest = find_placed-mem cs library placed c (rw (e, differs, find_placed) at h) in
        ground arith
  ]
]

pick_near-mem :
    (path : String) (cs : List String) (placed : Dict String String) (c : String)
    → pick_near path cs placed ≡ some c
    → contains cs c ≡ true
unfolding pick_near
pick_near-mem path cs placed c h =
    let near = filter (λ x. parent_of x == parent_of path) cs in
    elim (List-cases near) [
      | inl e ↦ find_placed-mem cs (lookup path placed) placed c (rw (e, pick_near) at h)
      | inr (first, more, e) ↦
          let q : some first ≡ some c = rw (e, pick_near) at h in
          let q' : c ≡ first = cc in
          ((contains-filter (λ x. parent_of x == parent_of path) cs c).0 (rw e (ground arith))).0
    ]

only_one-mem : (cs : List String) (c : String) → only_one cs ≡ some c → contains cs c ≡ true
only_one-mem [] c h = absurd (cc)
only_one-mem (x ∷ []) c h = let q : x ≡ c = cc in ground arith
only_one-mem (x ∷ y ∷ cs) c h = absurd (cc)

pick_local-mem :
    (path : String) (cs : List String) (placed : Dict String String) (c : String)
    → pick_local path cs placed ≡ some c
    → contains cs c ≡ true
unfolding pick_local
pick_local-mem path cs placed c h = elim (Bool-cases (contains cs path)) [
  | inl own ↦
      let q : some path ≡ some c = rw (own, pick_local) at h in
      let q' : path ≡ c = cc in rw (← q') own
  | inr foreign ↦ elim (Option-cases (only_one cs)) [
    | inl e ↦ pick_near-mem path cs placed c (rw (foreign, e, pick_local) at h)
    | inr (only, e) ↦
        let q : some only ≡ some c = rw (foreign, e, pick_local) at h in
        let q' : only ≡ c = cc in rw (← q') (only_one-mem cs only e)
  ]
]

-- The candidates for a unit are files.
abbrev IsClosed : List String → Dict String (List String) → Type 0
IsClosed files definers =
    (unit c : String) → contains (get_or unit [] definers) c ≡ true → contains files c ≡ true

spread_unit-Grows :
    (files : List String) (definers : Dict String (List String)) (path unit : String)
    (placed : Dict String String)
    → IsClosed files definers
    → contains files path ≡ true
    → Grows files placed (spread_unit definers path unit placed)
unfolding spread_unit
spread_unit-Grows files definers path unit placed closed p =
    elim (Option-cases (lookup unit definers)) [
      | inl e ↦ rw (e, spread_unit) (Grows-none files placed)
      | inr (cs, e) ↦ elim (Option-cases (pick_local path cs placed)) [
        | inl e' ↦ rw (e, e', spread_unit) (Grows-none files placed)
        | inr (target, e') ↦ elim (Bool-cases (target == path)) [
          | inl own ↦ rw (e, e', own, spread_unit) (Grows-none files placed)
          | inr other ↦
              let there = pick_local-mem path cs placed target e' in
              rw (e, e', other, spread_unit)
                (share-Grows files path target placed p (closed unit target (rw e there)))
        ]
      ]
    ]

spread_units-Grows :
    (files : List String) (definers : Dict String (List String)) (path : String)
    (units : List String) (placed : Dict String String)
    → IsClosed files definers
    → contains files path ≡ true
    → Grows files placed (spread_units definers path units placed)
unfolding spread_units
spread_units-Grows files definers path [] placed closed p = Grows-none files placed
spread_units-Grows files definers path (unit ∷ units) placed closed p =
    let (here, placed1) = spread_unit definers path unit placed in
    Grows-or files placed placed1 (spread_units definers path units placed1).1 here
      (spread_units definers path units placed1).0
      (spread_unit-Grows files definers path unit placed closed p)
      (spread_units-Grows files definers path units placed1 closed p)

spread_files-Grows :
    (files : List String) (scan : Dict String Scan) (definers : Dict String (List String))
    (paths : List String) (placed : Dict String String)
    → IsClosed files definers
    → ((p : String) → contains paths p ≡ true → contains files p ≡ true)
    → Grows files placed (spread_files scan definers paths placed)
unfolding spread_files
spread_files-Grows files scan definers [] placed closed sub = Grows-none files placed
spread_files-Grows files scan definers (path ∷ paths) placed closed sub =
    let (here, placed1) = spread_units definers path (linked scan path) placed in
    Grows-or files placed placed1 (spread_files scan definers paths placed1).1 here
      (spread_files scan definers paths placed1).0
      (spread_units-Grows files definers path (linked scan path) placed closed
        (sub path (ground arith)))
      (spread_files-Grows files scan definers paths placed1 closed (λ p c. sub p (ground arith)))

spread_local_total :
    (fuel : ℕ) (scan : Dict String Scan) (definers : Dict String (List String))
    (placed : Dict String String)
    → IsClosed (keys scan) definers
    → unplaced (keys scan) placed < fuel
    → (spread : Dict String String) × (spread_local fuel scan definers placed ≡ some spread)
      × ((f library : String) → lookup f placed ≡ some library → lookup f spread ≡ some library)
      × ((spread_files scan definers (sort string_le (keys scan)) spread).0 ≡ false)
unfolding spread_local
spread_local_total zero scan definers placed closed le = absurd (omega arith)
spread_local_total (suc fuel) scan definers placed closed le =
    let paths = sort string_le (keys scan) in
    let out = spread_files scan definers paths placed in
    let (fewer, less, keep, same) =
      spread_files-Grows (keys scan) scan definers paths placed closed
        (λ p c. sym (contains-sort string_le (keys scan) p) ∙ c) in
    elim (Bool-cases out.0) [
      | inl changed ↦
          let (spread, e, keep', stable) =
            spread_local_total fuel scan definers out.1 closed (omega (arith, le, less changed)) in
          (spread, rw (changed, spread_local) e, λ f l h. keep' f l (keep f l h), stable)
      | inr unchanged ↦
          (out.1, rw (unchanged, spread_local) refl, keep, rw (same unchanged) unchanged)
    ]

unplaced_le :
    (files : List String) (placed : Dict String String) → unplaced files placed ≤ length files
unplaced_le [] placed = omega arith
unplaced_le (f ∷ files) placed = ground (arith, unplaced_le files placed)

define_units-mem :
    (path : String) (units : List String) (definers : Dict String (List String)) (unit c : String)
    → contains (get_or unit [] (define_units path units definers)) c ≡ true
    → (contains (get_or unit [] definers) c || c == path) ≡ true
unfolding define_units
define_units-mem path [] definers unit c h = ground arith
define_units-mem path (u ∷ units) definers unit c h = ground (
  arith,
  define_units-mem path units (update (lower u) [] (λ paths. paths ++ path ∷ []) definers) unit c h,
  lookup-update unit (lower u) [] (λ paths. paths ++ path ∷ []) definers,
  contains-append (get_or (lower u) [] definers) (path ∷ []) c,
)

define_files-mem :
    (scan : Dict String Scan) (paths : List String) (definers : Dict String (List String))
    (unit c : String)
    → contains (get_or unit [] (define_files scan paths definers)) c ≡ true
    → (contains (get_or unit [] definers) c || contains paths c) ≡ true
unfolding define_files
define_files-mem scan [] definers unit c h = ground arith
define_files-mem scan (path ∷ paths) definers unit c h =
    let rest =
      define_files-mem scan paths (define_units path (units_in scan path) definers) unit c h in
    elim (Bool-cases (contains paths c)) [
      | inl there ↦ ground arith
      | inr gone ↦
          let here =
            define_units-mem path (units_in scan path) definers unit c (ground (arith, rest)) in
          ground arith
    ]

-- `assign_libraries` returns with more fuel than there are files. The table has a library for each
-- file; a file that a `library.unit` reference placed keeps that library; and another round of
-- `_spread_local` would place no further file.
pub assign_libraries_total :
    (fuel : ℕ) (scan : Dict String Scan) (default : String)
    → length (keys scan) < fuel
    → let paths = sort string_le (keys scan) in
      let definers = define_files scan paths [] in
      let (placed, notes) = place_files scan definers paths ([], []) in
      (spread : Dict String String) × (assign_libraries fuel scan default
        ≡ some (map (λ path. (path, get_or path default spread)) (keys scan), notes))
      × ((f library : String) → lookup f placed ≡ some library → lookup f spread ≡ some library)
      × ((spread_files scan definers paths spread).0 ≡ false)
unfolding assign_libraries lookup
assign_libraries_total fuel scan default le =
    let paths = sort string_le (keys scan) in
    let definers = define_files scan paths [] in
    let placed = (place_files scan definers paths ([], [])).0 in
    let (spread, e, keep, stable) =
      spread_local_total fuel scan definers placed
        (λ unit c h.
          sym (contains-sort string_le (keys scan) c) ∙ define_files-mem scan paths [] unit c h)
        (omega (arith, unplaced_le (keys scan) placed)) in
    (spread, rw (e, assign_libraries) refl, keep, stable)
