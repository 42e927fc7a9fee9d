-- ===== src/Ghdl/Errors.antt =====
-- `_report_errors` and `_duplicates` of plugins/svhier-ghdl/src/svhier_ghdl/__init__.py, with the
-- regular expressions that read GHDL's messages. `Path.resolve` is a parameter.
pub mod Duplicated
use Prim.Native.Char.{code}
use Prim.Native.String.{slice, len}
use text.Mathlib.Text.{starts_with}
use svhier.Base.{
  ℕ, zero, suc, String, ◌<>◌, Bool, true, false, not, ◌||◌, ◌&&◌, Option, none, some, List, [], ◌∷◌,
  ◌++◌, map, foldl,
}
use svhier.Base.{◌==◌, contains, string_eq, nat_eq, pair_eq, if◌then◌else◌}
use svhier.Base.Dict.{Dict, keys, values, lookup, insert, set_default, update, get_or}
use svhier.Base.Lists.{any, dedupe, add_if_new}
use svhier.Base.Text.{lower, leb}
use svhier.Libsearch.Paths.{FilePath, path_of, path_text, last_part}
use svhier.Parser.Tables.{last_of}
use svhier.Result.{Duplicate, Missing}
use svhier.Ghdl.Frontend.{FileScan}

-- What stands after a text, where it is there.
abbrev pub after : String → String → Option String
after start s = if starts_with s start then some (slice s (len start) (len s)) else none

-- `[^:]+: `, which ends at the first colon.
unfoldable pub skip_to_colon : String → Option String
skip_to_colon String.[] = none
skip_to_colon (String.◌∷◌ c s) =
    let rest = skip_to_colon s in if code c == 58 then after " " s else rest

abbrev pub without_colon_first : String → Option String
without_colon_first s = if starts_with s ":" then none else skip_to_colon s

-- `_ERROR_TOP.sub("", error)`
unfoldable pub strip_top : String → String
unfolding skip_to_colon
strip_top error = elim (after "ghdl: " error) [
  | none ↦ error
  | some text ↦ elim (without_colon_first text) [ none ↦ error | some rest ↦ rest ]
]

abbrev pub is_digit : ℕ → Bool
is_digit c = leb 48 c && leb c 57

-- `\w`, in ASCII
abbrev pub is_word : ℕ → Bool
is_word c = is_digit c || (leb 65 c && leb c 90) || (leb 97 c && leb c 122) || c == 95

-- The characters for which a test holds, and what follows them.
unfoldable pub span : (ℕ → Bool) → String → String × String
span p String.[] = ("", "")
span p (String.◌∷◌ c s) =
    let (taken, rest) = span p s in
    if p (code c) then (String.◌∷◌ c taken, rest) else ("", String.◌∷◌ c s)

abbrev pub some_of : (ℕ → Bool) → String → Option (String × String)
some_of p s = let (taken, rest) = span p s in if taken == "" then none else some (taken, rest)

abbrev pub bind {ℓ κ} : {A : Type ℓ} {B : Type κ} → Option A → (A → Option B) → Option B
bind none f = none
bind (some a) f = f a

-- `:\d+:\d+:error:`, and what follows it.
unfoldable pub after_position : String → Option String
unfolding span
after_position s = bind (after ":" s) (λ s1.
    bind (some_of is_digit s1)
      (λ d1. bind (after ":" d1.1) (λ s2. bind (some_of is_digit s2) (λ d2. after ":error:" d2.1))))

abbrev pub is_some {ℓ} : {A : Type ℓ} → Option A → Bool
is_some none = false
is_some (some a) = true

-- Whether the test holds at some place behind the first character; lines are one line.
unfoldable pub at_some_place : (String → Bool) → String → Bool
at_some_place p String.[] = false
at_some_place p (String.◌∷◌ c s) = p s || at_some_place p s

-- `_ERROR_LOCATION.match(text)`
unfoldable pub has_location : String → Bool
unfolding after_position at_some_place
has_location text = at_some_place (λ s. is_some (after_position s)) text

-- ` unit "(\w+)" not found in library "(\w+)"` behind a position.
unfoldable pub unit_not_found : String → Option (String × String)
unfolding after_position span
unit_not_found s = bind (after_position s) (λ s1. bind (after " unit \"" s1) (λ s2.
    bind (some_of is_word s2) (λ u.
      bind (after "\" not found in library \"" u.1)
        (λ s3. bind (some_of is_word s3) (λ l. bind (after "\"" l.1) (λ rest. some (u.0, l.0)))))))

-- `_UNIT_NOT_FOUND.match(text).groups()`: the path is as long as it can be.
unfoldable pub match_not_found : String → Option (String × (String × String))
unfolding unit_not_found
match_not_found String.[] = none
match_not_found (String.◌∷◌ c s) = elim (match_not_found s) [
  | some (path, names) ↦ some (String.◌∷◌ c path, names)
  | none ↦ elim (unit_not_found s) [ none ↦ none | some names ↦ some (String.◌∷◌ c "", names) ]
]

-- `unique`: each text once, with the first error that has it.
abbrev pub text_of : String → String
text_of error = if has_location (strip_top error) then strip_top error else error

unfoldable pub unique_errors : List String → Dict String String → Dict String String
unfolding strip_top has_location
unique_errors [] unique = unique
unique_errors (error ∷ errors) unique =
    unique_errors errors (set_default (text_of error) error unique)

abbrev pub unit_key : String → String → String → String
unit_key work unit library = if library == lower work then unit else library <> "." <> unit

-- The units that errors say are not found, with the files that want them.
unfoldable pub add_not_found :
    String
    → Dict String String
    → List String
    → Dict String (List String)
    → Dict String (List String)
unfolding match_not_found
add_not_found work names [] users = users
add_not_found work names (text ∷ texts) users =
    add_not_found work names texts (elim (match_not_found text) [
      | none ↦ users
      | some (path, (unit, library)) ↦
          update (unit_key work unit library) [] (λ fs. add_if_new fs (get_or path path names))
            users
    ])

abbrev pub used_note : Duplicate → String
used_note dup =
    let used = path_of dup.used in
    dup.name
    <> ": "
    <> path_text used
    <> " has errors and other files define it too; -x "
    <> last_part used
    <> " would use another one"

unfoldable pub blame : (FilePath → FilePath) → List Duplicate → List String → List String
blame resolve [] texts = []
blame resolve (dup ∷ dups) texts =
    let rest = blame resolve dups texts in
    if any (λ text. starts_with text (path_text (resolve (path_of dup.used)) <> ":")) texts
    then used_note dup ∷ rest
    else rest

-- `_duplicates`: the files of each unit of each library.
unfoldable pub note_units :
    String
    → String
    → List String
    → Dict (String × String) (List String)
    → Dict (String × String) (List String)
note_units path library [] known = known
note_units path library (name ∷ names) known =
    note_units path library names (update (library, name) [] (λ paths. paths ++ path ∷ []) known)

abbrev pub library_of : Dict String String → String → String → String
library_of libraries work path = get_or path (lower work) libraries

unfoldable pub note_scans :
    Dict String String
    → String
    → Dict String FileScan
    → Dict (String × String) (List String)
    → Dict (String × String) (List String)
unfolding note_units
note_scans libraries work [] known = known
note_scans libraries work ((path, entry) ∷ scan) known =
    note_scans libraries work scan
      (note_units path (library_of libraries work path) (dedupe entry.units) known)

unfoldable pub report_units : List String → Dict (String × String) (List String) → List Duplicate
unfolding last_of
report_units entities [] = []
report_units entities (((library, name), first ∷ second ∷ more) ∷ known) =
    record {
      name = name;
      kind = if contains entities name then "entity" else "unit";
      files = first ∷ second ∷ more;
      used = last_of second more;
    }
    ∷ report_units entities known
report_units entities ((key, paths) ∷ known) = report_units entities known

unfoldable pub duplicates :
    Dict String String → String → Dict String FileScan → Dict String (List String) → List Duplicate
unfolding note_scans report_units
duplicates libraries work scan definers =
    report_units (keys definers) (note_scans libraries work scan [])
