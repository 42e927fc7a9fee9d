-- ===== src/Ghdl/Errors/Duplicated.antt =====
-- Which units `_duplicates` (plugins/svhier-ghdl/src/svhier_ghdl/__init__.py) reports.
use mathlib.Core.List.{append_assoc, append-nil}
use svhier.Base.{
  String, Bool, true, false, ◌&&◌, some, List, [], ◌∷◌, ◌++◌, ◌≡◌, ◌↔◌, ◌⊎◌, refl, sym, ap, ◌∙◌,
  inl, inr, Bool-cases, ==-pair,
}
use svhier.Base.{◌==◌, ==_iff, contains, string_eq, pair_eq, if◌then◌else◌}
use svhier.Base.Dict.{
  Dict, keys, lookup, update, get_or, get_or-update, NodupKeys, update-NodupKeys, or_default,
}
use svhier.Base.Lists.{Nodup, dedupe, contains-add_unique, Nodup-add_unique}
use svhier.Parser.Tables.{last_of}
use svhier.Result.{Duplicate}
use svhier.Ghdl.Frontend.{FileScan}
use svhier.Ghdl.Errors.{library_of, note_units, note_scans, report_units, duplicates}

-- The files of a library that have a unit, as they were scanned.
unfoldable pub files_with :
    Dict String String → String → String → String → Dict String FileScan → List String
files_with libraries work library name [] = []
files_with libraries work library name ((path, entry) ∷ scan) =
    (if library == library_of libraries work path && contains entry.units name
      then path ∷ []
      else [])
    ++ files_with libraries work library name scan

and_false : (b : Bool) → (b && false) ≡ false
and_false true = refl
and_false false = refl

note_units-files :
    (path library : String) (names : List String) (known : Dict (String × String) (List String))
    (l n : String)
    → Nodup names
    → get_or (l, n) [] (note_units path library names known)
      ≡ get_or (l, n) [] known ++ (if l == library && contains names n then path ∷ [] else [])
unfolding note_units
note_units-files path library [] known l n u =
    rw (and_false (l == library)) (sym (append-nil (get_or (l, n) [] known)))
note_units-files path library (name ∷ names) known l n (fresh, u) =
    let step : get_or (l, n) [] (update (library, name) [] (λ ps. ps ++ path ∷ []) known) ≡ (
        if l == library && n == name
        then get_or (library, name) [] known ++ path ∷ []
        else get_or (l, n) [] known) =
      get_or-update (l, n) (library, name) [] (λ ps. ps ++ path ∷ []) known
      ∙ ap (λ b. if b then get_or (library, name) [] known ++ path ∷ [] else get_or (l, n) [] known)
          (==-pair l library n name) in
    note_units-files path library names (update (library, name) [] (λ ps. ps ++ path ∷ []) known) l
      n u
    ∙ ap (λ g. g ++ (if l == library && contains names n then path ∷ [] else [])) step
    ∙ elim (Bool-cases (l == library)) [
      | inr other ↦ rw other refl
      | inl here ↦ elim (Bool-cases (n == name)) [
        | inr differ ↦ rw (here, differ) refl
        | inl same ↦
            let p = (==_iff l library).0 here in
            let q = (==_iff n name).0 same in
            let absent : contains names n ≡ false = rw q fresh in
            let known_same : get_or (library, name) [] known ≡ get_or (l, n) [] known =
              λ i. get_or (sym p i, sym q i) [] known in
            rw (here, same, absent)
              (append-nil (get_or (library, name) [] known ++ path ∷ [])
                ∙ ap (λ g. g ++ path ∷ []) known_same)
      ]
    ]

note_scans-files :
    (libraries : Dict String String) (work : String) (scan : Dict String FileScan)
    (known : Dict (String × String) (List String)) (l n : String)
    → get_or (l, n) [] (note_scans libraries work scan known)
      ≡ get_or (l, n) [] known ++ files_with libraries work l n scan
unfolding note_scans files_with dedupe
note_scans-files libraries work [] known l n = sym (append-nil (get_or (l, n) [] known))
note_scans-files libraries work ((path, entry) ∷ scan) known l n =
    let library = library_of libraries work path in
    let names = dedupe entry.units in
    let next = note_units path library names known in
    let here = note_units-files path library names known l n (Nodup-add_unique [] entry.units tt) in
    let units : contains names n ≡ contains entry.units n = contains-add_unique [] entry.units n in
    note_scans-files libraries work scan next l n
    ∙ ap (λ g. g ++ files_with libraries work l n scan)
        (here
          ∙ ap (λ b. get_or (l, n) [] known ++ (if l == library && b then path ∷ [] else [])) units)
    ∙ append_assoc (get_or (l, n) [] known) _ _

note_units-NodupKeys :
    (path library : String) (names : List String) (known : Dict (String × String) (List String))
    → NodupKeys known
    → NodupKeys (note_units path library names known)
unfolding note_units
note_units-NodupKeys path library [] known u = u
note_units-NodupKeys path library (name ∷ names) known u =
    note_units-NodupKeys path library names _
      (update-NodupKeys (library, name) [] (λ ps. ps ++ path ∷ []) known u)

note_scans-NodupKeys :
    (libraries : Dict String String) (work : String) (scan : Dict String FileScan)
    (known : Dict (String × String) (List String))
    → NodupKeys known
    → NodupKeys (note_scans libraries work scan known)
unfolding note_scans
note_scans-NodupKeys libraries work [] known u = u
note_scans-NodupKeys libraries work ((path, entry) ∷ scan) known u =
    note_scans-NodupKeys libraries work scan _
      (note_units-NodupKeys path (library_of libraries work path) (dedupe entry.units) known u)

abbrev pub Has : {A : Type 0} → List A → A → Type 0
Has [] a = ⊥
Has (x ∷ xs) a = (a ≡ x) ⊎ Has xs a

-- A report of a unit that these files define.
abbrev pub dup_of : List String → String → String → String → List String → Duplicate
dup_of entities name first second more = record {
  name = name;
  kind = if contains entities name then "entity" else "unit";
  files = first ∷ second ∷ more;
  used = last_of second more;
}

-- That the unit of the library has these files, as far as the table goes.
Listed-lookup :
    (known : Dict (String × String) (List String)) (key : String × String) (paths : List String)
    → NodupKeys known
    → Has known (key, paths)
    → lookup key known ≡ some paths
unfolding lookup
Listed-lookup [] key paths u h = absurd h
Listed-lookup ((k, ps) ∷ known) key paths (fresh, u) (inl e) =
    let test : (key == k) ≡ true = (==_iff key k).1 (ap (λ x. x.0) e) in
    rw test (ap (λ x. some x.1) (sym e))
Listed-lookup ((k, ps) ∷ known) key paths (fresh, u) (inr h) =
    let later = Listed-lookup known key paths u h in
    elim (Bool-cases (key == k)) [
      | inl same ↦
          let e = (==_iff key k).0 same in
          absurd (cc (sym later ∙ ap (λ x. lookup x known) e ∙ fresh))
      | inr other ↦ rw other later
    ]

Has-report :
    (entities : List String) (known : Dict (String × String) (List String)) (dup : Duplicate)
    → Has (report_units entities known) dup
    → (library name first second : String) × (more : List String) × Has known
        ((library, name), first ∷ second ∷ more)
      × (dup ≡ dup_of entities name first second more)
unfolding report_units
Has-report entities [] dup h = absurd h
Has-report entities (((l, n), []) ∷ known) dup h =
    let (library, name, first, second, more, there, e) = Has-report entities known dup h in
    (library, name, first, second, more, inr there, e)
Has-report entities (((l, n), f ∷ []) ∷ known) dup h =
    let (library, name, first, second, more, there, e) = Has-report entities known dup h in
    (library, name, first, second, more, inr there, e)
Has-report entities (((l, n), f ∷ s ∷ more) ∷ known) dup (inl e) = (l, n, f, s, more, inl refl, e)
Has-report entities (((l, n), f ∷ s ∷ more) ∷ known) dup (inr h) =
    let (library, name, first, second, rest, there, e) = Has-report entities known dup h in
    (library, name, first, second, rest, inr there, e)

report-Has :
    (entities : List String) (known : Dict (String × String) (List String))
    (library name first second : String) (more : List String)
    → get_or (library, name) [] known ≡ first ∷ second ∷ more
    → Has (report_units entities known) (dup_of entities name first second more)
unfolding report_units lookup
report-Has entities [] library name first second more h = absurd (cc)
report-Has entities (((l, n), []) ∷ known) library name first second more h =
    elim (Bool-cases (◌==◌ {A = String × String} (library, name) (l, n))) [
      | inl same ↦ absurd (cc (rw same at h))
      | inr other ↦ report-Has entities known library name first second more (rw other at h)
    ]
report-Has entities (((l, n), f ∷ []) ∷ known) library name first second more h =
    elim (Bool-cases (◌==◌ {A = String × String} (library, name) (l, n))) [
      | inl same ↦ absurd (cc (rw same at h))
      | inr other ↦ report-Has entities known library name first second more (rw other at h)
    ]
report-Has entities (((l, n), f ∷ s ∷ rest) ∷ known) library name first second more h =
    elim (Bool-cases (◌==◌ {A = String × String} (library, name) (l, n))) [
      | inl same ↦
          let key : ◌≡◌ {A = String × String} (library, name) (l, n) =
            (==_iff {A = String × String} (library, name) (l, n)).0 same in
          let files : f ∷ s ∷ rest ≡ first ∷ second ∷ more = rw same at h in
          let a : f ≡ first = cc in
          let b : s ≡ second = cc in
          let c : rest ≡ more = cc in
          inl (λ i. dup_of entities (key i).1 (sym a i) (sym b i) (sym c i))
      | inr other ↦ inr (report-Has entities known library name first second more (rw other at h))
    ]

-- `_duplicates` reports a unit exactly where at least two scanned files of one library have it, with
-- those files in their order and the last of them as the one that is used.
pub duplicates-files_with :
    (libraries : Dict String String) (work : String) (scan : Dict String FileScan)
    (definers : Dict String (List String)) (dup : Duplicate)
    → Has (duplicates libraries work scan definers) dup ↔ (
        (library name first second : String) × (more : List String) × (files_with libraries work
            library name scan
          ≡ first ∷ second ∷ more)
        × (dup ≡ dup_of (keys definers) name first second more))
unfolding duplicates lookup
duplicates-files_with libraries work scan definers dup =
    let known = note_scans libraries work scan [] in
    (
      (λ h.
          let (library, name, first, second, more, there, e) =
            Has-report (keys definers) known dup h in
          let unique = note_scans-NodupKeys libraries work scan [] tt in
          let found = Listed-lookup known (library, name) (first ∷ second ∷ more) unique there in
          let files = note_scans-files libraries work scan [] library name in
          (library, name, first, second, more, sym files ∙ ap (λ o. or_default o []) found, e)),
      λ (library, name, first, second, more, files, e). rw e (
          report-Has (keys definers) known library name first second more
            (note_scans-files libraries work scan [] library name ∙ files)),
    )
