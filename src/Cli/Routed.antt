-- ===== src/Cli/Routed.antt =====
-- Which frontend `_route_files` (src/svhier/cli.py) hands a file to.
use mathlib.Core.List.{append-nil, append_assoc}
use svhier.Base.{
  ℕ, String, Bool, true, false, none, some, List, [], ◌∷◌, ◌++◌, ◌≡◌, ◌≢◌, ◌↔◌, refl, sym, ap, ◌∙◌,
  arith, inl, inr, Bool-cases, Option-cases,
}
use svhier.Base.{◌==◌, contains, string_eq, nat_eq, list_eq}
use svhier.Base.Dict.{Dict, update, get_or, lookup-update}
use svhier.Base.Lists.{any, filter}
use svhier.Cli.{Reader, known_suffixes, suffix_of, first_reader, reader_of, route_loop}

-- The first frontend for which a test holds.
abbrev IsFirst : (Reader → Bool) → List Reader → Reader → Type 0
IsFirst p usable f =
    (before after : List Reader) × (usable ≡ before ++ f ∷ after)
    × (p f ≡ true)
    × (any p before ≡ false)

abbrev has_suffix : String → Reader → Bool
has_suffix fname f = contains f.suffixes (suffix_of fname)

abbrev takes_all : Reader → Bool
takes_all f = f.catch_all

-- A frontend reads a file if it is the first with the file's suffix, or if no frontend has the
-- suffix, it is not a known one, and the frontend is the first that takes all.
pub data Reads (usable : List Reader) (fname : String) (f : Reader) : Type 0 where
  owns : IsFirst (has_suffix fname) usable f → Reads usable fname f
  falls_back :
      any (has_suffix fname) usable ≡ false
      → contains known_suffixes (suffix_of fname) ≡ false
      → IsFirst takes_all usable f
      → Reads usable fname f

-- Of some files, in their order, those that a frontend of this key reads.
pub data Hands (usable : List Reader) (key : ℕ) : List String → List String → Type 0 where
  no_files : Hands usable key [] []
  handed :
      {fname : String} {files got : List String} (f : Reader)
      → Reads usable fname f
      → f.key ≡ key
      → Hands usable key files got
      → Hands usable key (fname ∷ files) (fname ∷ got)
  skipped :
      {fname : String} {files got : List String}
      → ((f : Reader) → Reads usable fname f → f.key ≢ key)
      → Hands usable key files got
      → Hands usable key (fname ∷ files) got

first_reader-IsFirst :
    (p : Reader → Bool) (usable : List Reader) (f : Reader)
    → first_reader p usable ≡ some f
    → IsFirst p usable f
unfolding first_reader any
first_reader-IsFirst p [] f h = absurd (cc)
first_reader-IsFirst p (r ∷ usable) f h = elim (Bool-cases (p r)) [
  | inl holds_here ↦
      let e : some r ≡ some f = rw (holds_here, first_reader) at h in
      let same : r ≡ f = cc in ([], usable, ap (◌∷ usable) same, rw (← same) holds_here, refl)
  | inr fails ↦
      let (before, after, e, holds, none_before) =
        first_reader-IsFirst p usable f (rw (fails, first_reader) at h) in
      (r ∷ before, after, ap (r ∷◌) e, holds, rw fails none_before)
]

IsFirst-first_reader :
    (p : Reader → Bool) (before after : List Reader) (f : Reader)
    → p f ≡ true
    → any p before ≡ false
    → first_reader p (before ++ f ∷ after) ≡ some f
unfolding first_reader any
IsFirst-first_reader p [] after f holds none_before = rw (holds, first_reader) refl
IsFirst-first_reader p (r ∷ before) after f holds none_before = elim (Bool-cases (p r)) [
  | inl holds_here ↦ absurd (cc (rw (holds_here, any) at none_before))
  | inr fails ↦
      rw (fails, first_reader)
        (IsFirst-first_reader p before after f holds (rw (fails, any) at none_before))
]

first_reader-any :
    (p : Reader → Bool) (usable : List Reader)
    → (first_reader p usable ≡ none) ↔ (any p usable ≡ false)
unfolding first_reader any
first_reader-any p [] = (λ h. refl, λ h. refl)
first_reader-any p (r ∷ usable) = ground (arith, first_reader-any p usable)

reader_of-Reads :
    (usable : List Reader) (fname : String) (f : Reader)
    → reader_of usable fname ≡ some f
    → Reads usable fname f
unfolding reader_of
reader_of-Reads usable fname f h = elim (Option-cases (first_reader (has_suffix fname) usable)) [
  | inr (owner, e) ↦
      let same : some owner ≡ some f = rw (e, reader_of) at h in
      owns (first_reader-IsFirst (has_suffix fname) usable f (e ∙ same))
  | inl e ↦ elim (Bool-cases (contains known_suffixes (suffix_of fname))) [
    | inl known ↦ absurd (cc (rw (known, reader_of) at (rw (e, reader_of) at h)))
    | inr unknown ↦ falls_back ((first_reader-any (has_suffix fname) usable).0 e) unknown (
        first_reader-IsFirst takes_all usable f
          (rw (unknown, reader_of) at (rw (e, reader_of) at h)))
  ]
]

Reads-reader_of :
    (usable : List Reader) (fname : String) (f : Reader)
    → Reads usable fname f
    → reader_of usable fname ≡ some f
unfolding reader_of
Reads-reader_of usable fname f (owns (before, after, e, holds, none_before)) =
    let found : first_reader (has_suffix fname) usable ≡ some f =
      ap (first_reader (has_suffix fname)) e
      ∙ IsFirst-first_reader (has_suffix fname) before after f holds none_before in
    rw (found, reader_of) refl
Reads-reader_of usable fname f
      (falls_back no_owner unknown (before, after, e, holds, none_before)) =
    let missing = (first_reader-any (has_suffix fname) usable).1 no_owner in
    let found : first_reader takes_all usable ≡ some f =
      ap (first_reader takes_all) e
      ∙ IsFirst-first_reader takes_all before after f holds none_before in
    rw (missing, reader_of) (rw (unknown, reader_of) found)

abbrev reads : List Reader → ℕ → String → Bool
reads usable key fname = elim (reader_of usable fname) [ none ↦ false | some f ↦ key == f.key ]

filter-Hands :
    (usable : List Reader) (key : ℕ) (files : List String)
    → Hands usable key files (filter (reads usable key) files)
unfolding filter
filter-Hands usable key [] = no_files
filter-Hands usable key (fname ∷ files) =
    let rest = filter-Hands usable key files in
    elim (Option-cases (reader_of usable fname)) [
      | inl e ↦
          let no : reads usable key fname ≡ false = rw (e, reads) refl in
          rw no (skipped (λ f r. absurd (cc (sym e ∙ Reads-reader_of usable fname f r))) rest)
      | inr (f, e) ↦
          let read : reads usable key fname ≡ (key == f.key) = rw (e, reads) refl in
          elim (Bool-cases (key == f.key)) [
            | inl same ↦
                let own : f.key ≡ key = ground arith in
                rw (read, same) (handed f (reader_of-Reads usable fname f e) own rest)
            | inr other ↦
                rw (read, other)
                  (skipped
                    (λ f2 r own.
                      let e2 : some f ≡ some f2 = sym e ∙ Reads-reader_of usable fname f2 r in
                      let same : f ≡ f2 = cc in
                      let k : f.key ≡ key = ap (λ (x : Reader). x.key) same ∙ own in
                      absurd (ground arith))
                    rest)
          ]
    ]

route_loop-filter :
    (usable : List Reader) (files : List String) (routed : Dict ℕ (List String)) (key : ℕ)
    → get_or key [] (route_loop usable files routed)
      ≡ get_or key [] routed ++ filter (reads usable key) files
unfolding route_loop filter
route_loop-filter usable [] routed key = sym (append-nil (get_or key [] routed))
route_loop-filter usable (fname ∷ files) routed key = elim (Option-cases (reader_of usable fname)) [
  | inl e ↦
      rw (e, route_loop)
        (route_loop-filter usable files routed key
          ∙ (let skipped : reads usable key fname ≡ false = rw (e, reads) refl in rw skipped refl))
  | inr (f, e) ↦
      let put = lookup-update key f.key [] (λ names. names ++ fname ∷ []) routed in
      let read : reads usable key fname ≡ (key == f.key) = rw (e, reads) refl in
      rw (e, route_loop)
        (route_loop-filter usable files (update f.key [] (λ names. names ++ fname ∷ []) routed) key
          ∙ elim (Bool-cases (key == f.key)) [
            | inl same ↦
                let own : f.key ≡ key = ground arith in
                let now : get_or key [] (update f.key [] (λ names. names ++ fname ∷ []) routed)
                    ≡ get_or key [] routed ++ fname ∷ [] =
                  rw (put, same) (ap (λ k. get_or k [] routed ++ fname ∷ []) own) in
                rw (now, read, same)
                  (append_assoc (get_or key [] routed) (fname ∷ [])
                    (filter (reads usable key) files))
            | inr other ↦ rw (put, read, other) refl
          ])
]

-- Each frontend gets, behind the files that it has, exactly those that it reads, in their order. It
-- reads a file if it is the first frontend with the file's suffix, or the first that takes all where no
-- frontend has the suffix and it is not one that a plugin is known for.
pub route_loop-Hands :
    (usable : List Reader) (files : List String) (routed : Dict ℕ (List String)) (key : ℕ)
    → (got : List String) × (get_or key [] (route_loop usable files routed)
        ≡ get_or key [] routed ++ got)
      × Hands usable key files got
route_loop-Hands usable files routed key = (
  filter (reads usable key) files,
  route_loop-filter usable files routed key,
  filter-Hands usable key files,
)
