-- ===== src/Libsearch/Pull.antt =====
-- What `LibrarySearch.pull` and `resolve_missing` (src/svhier/libsearch.py) add.
use mathlib.Core.List.{append-nil}
use svhier.Base.{ℕ, String, true, false, Option, none, some, List, [], ◌∷◌, ◌++◌, map}
use svhier.Base.{
  ◌≡◌, ◌↔◌, inl, inr, refl, sym, ap, ◌∙◌, arith, Bool-cases, ◌==◌, contains, string_eq, list_eq,
  pair_eq, if◌then◌else◌,
}
use svhier.Base.Dict.{Dict, lookup, insert, lookup-insert, lookup-nil}
use svhier.Base.Lists.{length, filter, List-cases, contains-filter, contains-append}
use svhier.Result.{Missing}
use svhier.Libsearch.Paths.{FilePath, path_of, path_text}
use svhier.Libsearch.{
  LibraryIndex, find_definition, resolved, is_had, resolve_names, wanted_names, resolve_missing,
  is_new, pull,
}

module _ (resolve : FilePath → FilePath) where
  -- What `resolve_missing` has for one name.
  abbrev offered : List FilePath → List FilePath → Option (FilePath × ℕ)
  offered had [] = none
  offered had (best ∷ others) =
      if is_had resolve had (best ∷ others) then none else some (best, length others)

  abbrev first_some : Option (FilePath × ℕ) → Option (FilePath × ℕ) → Option (FilePath × ℕ)
  first_some none y = y
  first_some (some x) y = some x

  first_some-none : (x : Option (FilePath × ℕ)) → first_some x none ≡ x
  first_some-none none = refl
  first_some-none (some x) = refl

  offered_lem :
      (had candidates : List FilePath) (best : FilePath) (count : ℕ)
      → (offered had candidates ≡ some (best, count)) ↔ (
          (others : List FilePath) × (candidates ≡ best ∷ others)
          × (length others ≡ count)
          × (is_had resolve had (best ∷ others) ≡ false))
  offered_lem had [] best count = (λ h. absurd (cc), λ (others, e, l, n). absurd (cc))
  offered_lem had (first ∷ more) best count =
      elim (Bool-cases (is_had resolve had (first ∷ more))) [
        | inl c ↦ rw c (
          λ h. absurd (cc),
          λ (others, e, l, n).
              let n' : is_had resolve had (first ∷ more) ≡ false = rw e n in absurd (cc),
        )
        | inr c ↦ rw c (
          λ h.
              let q : first ≡ best = cc in
              let l : length more ≡ count = cc in (more, rw q refl, l, rw (← q) c),
          λ (others, e, l, n).
              let q : first ≡ best = cc in let r : more ≡ others = cc in rw (q, r, l) refl,
        )
      ]

  resolve_names-lookup :
      (index : LibraryIndex) (had : List FilePath) (names : List String)
      (files : Dict String (FilePath × ℕ)) (n : String)
      → lookup n (resolve_names resolve index had names files) ≡ (
          if contains names n
          then first_some (offered had (find_definition index n)) (lookup n files)
          else lookup n files)
  unfolding resolve_names
  resolve_names-lookup index had [] files n = refl
  resolve_names-lookup index had (name ∷ names) files n =
      elim (List-cases (find_definition index name)) [
        | inl e ↦
            rw (e, resolve_names)
              (resolve_names-lookup index had names files n ∙ elim (Bool-cases (n == name)) [
                | inl same ↦
                    let here : n ≡ name = ground arith in
                    let found : find_definition index n ≡ [] = rw here e in rw found (ground arith)
                | inr differs ↦ rw differs refl
              ])
        | inr (best, others, e) ↦
            rw (e, resolve_names)
              (resolve_names-lookup index had names
                  (if is_had resolve had (best ∷ others)
                    then files
                    else insert name (best, length others) files)
                  n
                ∙ elim (Bool-cases (n == name)) [
                  | inl same ↦
                      let here : n ≡ name = ground arith in
                      let found : find_definition index n ≡ best ∷ others = rw here e in
                      rw found (ground (arith, lookup-insert n name (best, length others) files))
                  | inr differs ↦ ground (arith, lookup-insert n name (best, length others) files)
                ])
      ]

  -- `resolve_missing` offers a file for a name, with a count of the other candidates, exactly if
  -- the name is a missing module, interface or package, the file is the first candidate of the
  -- index for it, the others are as many, and none of the candidates is compiled already.
  pub resolve_missing-files :
      (missing : Missing) (index : LibraryIndex) (files_named : String → List FilePath)
      (have_files have_inc_dirs : List String) (name : String) (best : FilePath) (count : ℕ)
      → (lookup name (resolve_missing resolve missing index files_named have_files have_inc_dirs).0
          ≡ some (best, count))
        ↔ ((contains (wanted_names resolve missing) name ≡ true)
            × ((others : List FilePath) × (find_definition index name ≡ best ∷ others)
                × (length others ≡ count)
                × (is_had resolve (resolved resolve have_files) (best ∷ others) ≡ false)))
  unfolding resolve_missing
  resolve_missing-files missing index files_named have_files have_inc_dirs name best count =
      let had = resolved resolve have_files in
      let names = wanted_names resolve missing in
      rw (resolve_names-lookup index had names [] name, lookup-nil {V = FilePath × ℕ} name)
        (elim (Bool-cases (contains names name)) [
          | inl c ↦
              let (down, up) = offered_lem had (find_definition index name) best count in
              rw c (
                λ h. (refl, down (sym (first_some-none _) ∙ h)),
                λ (there, offer). first_some-none _ ∙ up offer,
              )
          | inr c ↦ rw c (λ h. absurd (cc), λ (there, offer). absurd (cc))
        ])

  resolved-append :
      (xs ys : List String)
      → resolved resolve (xs ++ ys) ≡ resolved resolve xs ++ resolved resolve ys
  resolved-append [] ys = refl
  resolved-append (x ∷ xs) ys = ap (resolve (path_of x) ∷◌) (resolved-append xs ys)

  -- Paths that are read back from their text.
  abbrev pub AreReadBack : List FilePath → Type 0
  AreReadBack ps = (p : FilePath) → contains ps p ≡ true → path_of (path_text p) ≡ p

  resolved-new :
      (ps : List FilePath) (p : FilePath)
      → AreReadBack ps
      → contains ps p ≡ true
      → contains (resolved resolve (map path_text ps)) (resolve p) ≡ true
  resolved-new [] p back h = absurd (cc)
  resolved-new (q ∷ ps) p back h = elim (Bool-cases (p == q)) [
    | inl same ↦
        let e : path_of (path_text q) ≡ p = back q (ground arith) ∙ ground arith in
        rw e (ground arith)
    | inr differs ↦
        let rest = resolved-new ps p (λ r c. back r (ground arith)) (ground arith) in ground arith
  ]

  -- After a pull, every file that the library found for the name is compiled: it was before, up
  -- to `resolve`, or it has been added at the end. The pull reports whether it added any.
  pub pull-found :
      (name : String) (found : List FilePath) (others : ℕ) (files : List String)
      (pulled : List (String × (FilePath × ℕ))) (p : FilePath)
      → AreReadBack found
      → contains found p ≡ true
      → let out = pull resolve name found others files pulled in
        (contains (resolved resolve out.1.0) (resolve p) ≡ true)
        × ((out.0 ≡ false) ↔ (filter (is_new resolve files) found ≡ []))
        × ((more : List String) × (out.1.0 ≡ files ++ more))
  unfolding pull
  pull-found name [] others files pulled p back h = absurd (cc)
  pull-found name (best ∷ more) others files pulled p back h =
      let found = best ∷ more in
      elim (List-cases (filter (is_new resolve files) found)) [
        | inl e ↦
            rw (e, pull)
              (
                elim (Bool-cases (contains (resolved resolve files) (resolve p))) [
                  | inl had ↦ had
                  | inr new ↦ let c = rw e at (listed new) in absurd (cc)
                ],
                (λ q. refl, λ q. refl),
                ([], sym (append-nil files)),
              )
        | inr (new, news, e) ↦
            let back' : AreReadBack (new ∷ news) =
              λ r c. back r ((contains-filter (is_new resolve files) found r).0 (rw e c)).0 in
            rw (e, pull)
              (
                rw
                    (
                      resolved-append files (map path_text (new ∷ news)),
                      contains-append (resolved resolve files)
                          (resolved resolve (map path_text (new ∷ news))) (resolve p),
                    )
                    (elim (Bool-cases (contains (resolved resolve files) (resolve p))) [
                      | inl had ↦ rw had refl
                      | inr fresh ↦
                          let c : contains (new ∷ news) p ≡ true = rw e at (listed fresh) in
                          rw (fresh, resolved-new (new ∷ news) p back' c) refl
                    ]),
                (λ q. absurd (cc), λ q. absurd (cc)),
                (map path_text (new ∷ news), refl),
              )
      ]
    where
      listed :
          contains (resolved resolve files) (resolve p) ≡ false
          → contains (filter (is_new resolve files) (best ∷ more)) p ≡ true
      listed new = (contains-filter (is_new resolve files) (best ∷ more) p).1 (h, rw new refl)
