-- ===== src/Ghdl/Runs.antt =====
-- `_read_output` and `elaborate_one` of plugins/svhier-ghdl/src/svhier_ghdl/__init__.py: what one run of
-- the worker reports. The worker is a parameter; its lines have been parsed.
use text.Mathlib.Text.{starts_with}
use svhier.Base.{
  zero, suc, String, ◌<>◌, Bool, true, false, ◌||◌, ◌&&◌, Option, none, some, List, [], ◌∷◌, ◌++◌,
  map,
}
use svhier.Base.{contains, string_eq, list_eq, pair_eq, if◌then◌else◌}
use svhier.Base.Dict.{Dict, keys, lookup, insert, get_or, or_default}
use svhier.Base.Int.{ℤ, pos, negsuc, int_text}
use svhier.Base.Lists.{filter, any}
use svhier.Base.Text.{lower}
use svhier.Ghdl.Hierarchy.{Line, parse_tree}
use svhier.Ghdl.Instances.{ForeignDef, tree_to_defs}
use svhier.Ghdl.Instances.Depth.{depth}
use svhier.Ghdl.Tool.{Sources, Top}
use svhier.Ghdl.Frontend.{Elaboration, Outside, Ghdl, by_abs_of, units_of}

-- A line of the worker's output: the dependencies of the files or the generics without a value,
-- behind their markers, or a line of the hierarchy.
pub data OutputLine : Type 0 where
  file_deps_line : Dict String (List String) → OutputLine
  unset_line : List String → OutputLine
  printed : Line → OutputLine

pub record Process : Type 0 where
  pub returncode : ℤ
  pub stdout : List OutputLine
  pub stderr : List String

-- `none` is that the worker timed out.
abbrev pub Worker : Type 0 → Type 0
Worker W = Sources → Top → W → Option Process × W

-- `[by_abs[n] for n in needs]`, where `none` is a `KeyError`.
unfoldable pub all_known : Dict String String → List String → Option (List String)
all_known by_abs [] = some []
all_known by_abs (n ∷ needs) = elim (lookup n by_abs) [
  | none ↦ none
  | some f ↦ elim (all_known by_abs needs) [ none ↦ none | some fs ↦ some (f ∷ fs) ]
]

unfoldable pub known_deps :
    Dict String String
    → Dict String (List String)
    → Dict String (List String)
    → Option (Dict String (List String))
unfolding all_known
known_deps by_abs [] deps = some deps
known_deps by_abs ((f, needs) ∷ raw) deps = elim (all_known by_abs (f ∷ needs)) [
  | some (known ∷ fs) ↦ known_deps by_abs raw (insert known fs deps)
  | _ ↦ none
]

pub record Output : Type 0 where
  pub file_deps : Dict String (List String)
  pub unset : List String
  pub body : List Line

-- The loop of `_read_output`.
unfoldable pub read_output : Dict String String → List OutputLine → Output → Option Output
unfolding known_deps
read_output by_abs [] out = some out
read_output by_abs (file_deps_line raw ∷ lines) out = elim (known_deps by_abs raw []) [
  | none ↦ none
  | some deps ↦ read_output by_abs lines (record out { file_deps = deps })
]
read_output by_abs (unset_line unset ∷ lines) out =
    read_output by_abs lines (record out { unset = unset })
read_output by_abs (printed line ∷ lines) out =
    read_output by_abs lines (record out { body = out.body ++ line ∷ [] })

abbrev pub no_output : Output
no_output = record { file_deps = []; unset = []; body = [] }

-- `part in s`
unfoldable pub has_part : String → String → Bool
has_part part String.[] = starts_with "" part
has_part part (String.◌∷◌ c s) = starts_with (String.◌∷◌ c s) part || has_part part s

abbrev pub is_failure : ℤ → Bool
is_failure (pos zero) = false
is_failure (pos (suc n)) = true
is_failure (negsuc n) = true

abbrev pub raised : List String → Bool
raised stderr = any (has_part "raised ") stderr

abbrev pub is_detail : String → Bool
is_detail line = has_part ":error:" line || (starts_with line "error:" || has_part "raised " line)

abbrev pub or_else {ℓ} : {A : Type ℓ} → List A → List A → List A
or_else [] ys = ys
or_else (x ∷ xs) ys = x ∷ xs

abbrev pub errors_of : String → Process → List String
errors_of top proc =
    or_else (map (λ d. "ghdl: " <> top <> ": " <> d) (filter is_detail proc.stderr))
      (("ghdl: " <> top <> ": worker exited with code " <> int_text proc.returncode) ∷ [])

abbrev pub failed : List String → List String → Elaboration
failed errors unset = record {
  defs = [];
  file_deps = [];
  errors = errors;
  notes = [];
  unset = unset;
}

abbrev pub timed_out : String → Elaboration
timed_out top = failed (("ghdl: elaborating " <> top <> " timed out after 120 s") ∷ []) []

-- `next((p for p in paths if p in file_deps), paths[0])`
unfoldable pub first_used : String → List String → Dict String (List String) → String
first_used first [] deps = first
first_used first (p ∷ paths) deps =
    let rest = first_used first paths deps in if contains (keys deps) p then p else rest

unfoldable pub locate : Dict String (List String) → Dict String (List String) → Dict String String
unfolding first_used
locate [] deps = []
locate ((name, []) ∷ definers) deps = locate definers deps
locate ((name, path ∷ paths) ∷ definers) deps =
    (name, first_used path (path ∷ paths) deps) ∷ locate definers deps

-- As much fuel as the tree has levels is enough.
abbrev pub flatten : Dict String String → List Line → List ForeignDef
flatten files body =
    let tree = parse_tree body in or_default (tree_to_defs files (depth tree) tree) []

-- What is made of a run that was not stopped; `none` is a `KeyError`.
unfoldable pub read_run :
    Dict String String
    → Dict String (List String)
    → String
    → Process
    → List String
    → Option Elaboration
unfolding read_output
read_run by_abs definers top proc notes = elim (read_output by_abs proc.stdout no_output) [
  | none ↦ none
  | some out ↦ some (
      if is_failure proc.returncode then failed (errors_of top proc) out.unset else record {
        defs = flatten (locate definers out.file_deps) out.body;
        file_deps = out.file_deps;
        errors = [];
        notes = notes;
        unset = [];
      })
]

abbrev pub generics_note : String → String
generics_note top = top <> ": couldn't read generics, so SV modules below it use their defaults"

-- `{path: libraries[name] for path, name in by_abs.items() if name in libraries}`
unfoldable pub libraries_by_abs : Dict String String → Dict String String → Dict String String
libraries_by_abs libraries [] = []
libraries_by_abs libraries ((path, name) ∷ by_abs) = elim (lookup name libraries) [
  | none ↦ libraries_by_abs libraries by_abs
  | some library ↦ (path, library) ∷ libraries_by_abs libraries by_abs
]

module _ {W : Type 0} (outside : Outside W) (std : String) (worker : Worker W) where
  abbrev pub sources_of : Ghdl W → Dict String String → Sources
  sources_of g by_abs = record {
    std = std;
    work = g.work;
    files = keys by_abs;
    libraries = libraries_by_abs g.libraries by_abs;
  }

  abbrev pub top_of : Ghdl W → String → Dict String String → Bool → Top
  top_of g top generics objects = record {
    top = top;
    generics = generics;
    top_library = get_or (get_or (lower top) "" (units_of g)) g.work g.libraries;
    objects = objects;
  }

  -- The run to use, with the notes about it; a crash while printing objects is tried again without.
  unfoldable pub run_worker :
      Ghdl W → Dict String String → String → Dict String String → Option (Process × List String) × W
  run_worker g by_abs top generics =
      let sources = sources_of g by_abs in
      let (first, w) = worker sources (top_of g top generics true) g.world in
      elim first [
        | none ↦ (none, w)
        | some proc ↦ elim (is_failure proc.returncode && raised proc.stderr) [
          | false ↦ (some (proc, []), w)
          | true ↦
              let (second, w1) = worker sources (top_of g top generics false) w in
              elim second [
                | none ↦ (none, w1)
                | some retry ↦ (
                  some (
                      if is_failure retry.returncode
                      then (proc, [])
                      else (retry, generics_note top ∷ [])),
                  w1,
                )
              ]
        ]
      ]

  -- `elaborate_one`
  unfoldable pub elaborate_one : String → Dict String String → Ghdl W → Option Elaboration × Ghdl W
  unfolding run_worker read_run
  elaborate_one top generics g =
      let by_abs = by_abs_of outside.resolve g.files in
      let (ran, w) = run_worker g by_abs top generics in
      (
        elim ran [
          | none ↦ some (timed_out top)
          | some (proc, notes) ↦ read_run by_abs g.definers top proc notes
        ],
        record g { world = w },
      )
