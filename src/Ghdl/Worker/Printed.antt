-- ===== src/Ghdl/Worker/Printed.antt =====
-- How `_read_output` (plugins/svhier-ghdl/src/svhier_ghdl/__init__.py) reads what `_elaborate`
-- (plugins/svhier-ghdl/src/svhier_ghdl/worker.py) prints.
use mathlib.Core.List.{append_assoc, append-nil}
use svhier.Base.{
  ℕ, String, Bool, true, not, ◌&&◌, Option, none, some, List, [], ◌∷◌, ◌++◌, map, ◌≡◌, ◌≢◌, ◌⊎◌,
  refl, sym, ap, ◌∙◌, arith, inl, inr, Bool-cases, Option-cases,
}
use svhier.Base.{◌==◌, contains, string_eq, nat_eq, if◌then◌else◌}
use svhier.Base.Dict.{Dict, keys, lookup, insert, update, contains-keys}
use svhier.Base.Lists.{All}
use svhier.Base.Text.{lower}
use svhier.Ghdl.Hierarchy.{Line}
use svhier.Ghdl.Tool.{Top}
use svhier.Ghdl.Runs.{
  OutputLine, file_deps_line, unset_line, printed, all_known, known_deps, Output, read_output,
  no_output,
}
use svhier.Ghdl.Worker.{
  TableUnit, add_needs, file_deps, Libghdl, is_stopped, override_all, print_design,
  elaborate_config, elaborate, unset_generics,
}

abbrev Among : List String → List String → Type 0
Among known names = All (λ n. contains known n ≡ true) names

-- A file and what it needs are known.
abbrev AllAmong : List String → Dict String (List String) → Type 0
AllAmong known deps = All (λ (entry : String × List String). Among known (entry.0 ∷ entry.1)) deps

Among-concat :
    (known names : List String) (n : String)
    → contains known n ≡ true
    → Among known names
    → Among known (names ++ n ∷ [])
Among-concat known [] n k a = (k, tt)
Among-concat known (m ∷ names) n k a = (a.0, Among-concat known names n k a.1)

add_needs-Among :
    (known : List String) (name : String) (deps : List (Option String)) (needs : List String)
    → Among known needs
    → Among known (add_needs known name deps needs)
unfolding add_needs
add_needs-Among known name [] needs a = a
add_needs-Among known name (none ∷ deps) needs a = add_needs-Among known name deps needs a
add_needs-Among known name (some dep ∷ deps) needs a = elim (Bool-cases (contains known dep)) [
  | inl here ↦ elim (Bool-cases (not (dep == name) && not (contains needs dep))) [
    | inl new ↦
        rw (here, new) (add_needs-Among known name deps _ (Among-concat known needs dep here a))
    | inr old ↦ rw (here, old) (add_needs-Among known name deps needs a)
  ]
  | inr unknown ↦ rw unknown (add_needs-Among known name deps needs a)
]

update-AllAmong :
    (known : List String) (f : String) (change : List String → List String)
    (deps : Dict String (List String))
    → contains known f ≡ true
    → ((needs : List String) → Among known needs → Among known (change needs))
    → AllAmong known deps
    → AllAmong known (update f [] change deps)
unfolding update
update-AllAmong known f change [] k keep a = ((k, keep [] tt), tt)
update-AllAmong known f change ((g, needs) ∷ deps) k keep ((h, old), a) =
    elim (Bool-cases (f == g)) [
      | inl same ↦ rw same ((h, keep needs old), a)
      | inr other ↦ rw other ((h, old), update-AllAmong known f change deps k keep a)
    ]

file_deps-AllAmong :
    (known : List String) (table : List TableUnit) (deps : Dict String (List String))
    → AllAmong known deps
    → AllAmong known (file_deps known table deps)
unfolding file_deps
file_deps-AllAmong known [] deps a = a
file_deps-AllAmong known (u ∷ table) deps a = elim (Bool-cases (contains known u.file)) [
  | inl here ↦ rw here (
      file_deps-AllAmong known table _ (
        update-AllAmong known u.file (add_needs known u.file u.dependences) deps here
          (add_needs-Among known u.file u.dependences) a))
  | inr unknown ↦ rw unknown (file_deps-AllAmong known table deps a)
]

all_known_total :
    (by_abs : Dict String String) (names : List String)
    → Among (keys by_abs) names
    → (fs : List String) × (all_known by_abs names ≡ some fs)
unfolding all_known
all_known_total by_abs [] a = ([], refl)
all_known_total by_abs (n ∷ names) a =
    let (fs, e) = all_known_total by_abs names a.1 in
    elim (Option-cases (lookup n by_abs)) [
      | inl missing ↦ absurd ((contains-keys by_abs n).0 a.0 missing)
      | inr (f, found) ↦ (f ∷ fs, rw (found, all_known) (rw e refl))
    ]

known_deps_total :
    (by_abs : Dict String String) (raw deps : Dict String (List String))
    → AllAmong (keys by_abs) raw
    → (result : Dict String (List String)) × (known_deps by_abs raw deps ≡ some result)
unfolding known_deps all_known
known_deps_total by_abs [] deps a = (deps, refl)
known_deps_total by_abs ((f, needs) ∷ raw) deps a =
    let (fs, e) = all_known_total by_abs needs a.0.1 in
    elim (Option-cases (lookup f by_abs)) [
      | inl missing ↦ absurd ((contains-keys by_abs f).0 a.0.0 missing)
      | inr (g, found) ↦
          let (result, r) = known_deps_total by_abs raw (insert g fs deps) a.1 in
          (result, rw (found, known_deps) (rw e r))
    ]

read_output-printed :
    (by_abs : Dict String String) (body : List Line) (out : Output)
    → read_output by_abs (map printed body) out ≡ some (record out { body = out.body ++ body })
unfolding read_output
read_output-printed by_abs [] out =
    ap (λ b. some (record out { body = b })) (sym (append-nil out.body))
read_output-printed by_abs (line ∷ body) out =
    read_output-printed by_abs body (record out { body = out.body ++ line ∷ [] })
    ∙ ap (λ b. some (record out { body = b })) (append_assoc out.body (line ∷ []) body)

-- What has been read of a run that printed a design, or of one that stopped before.
abbrev pub IsRead : Dict String String → ℕ × List OutputLine → Output → Type 0
IsRead by_abs (code, lines) out =
    ((code ≡ 0)
      × (raw : Dict String (List String)) × (lines
          ≡ unset_line out.unset ∷ file_deps_line raw ∷ map printed out.body)
      × (known_deps by_abs raw [] ≡ some out.file_deps))
    ⊎ ((code ≢ 0) × (out.file_deps ≡ []) × (out.body ≡ []))

module _ {W : Type 0} (lib : Libghdl W) (by_abs : Dict String String) where
  print_design-IsRead :
      (objects : Bool) (top : ℕ) (w : W) (unset : List String)
      → (out : Output) × (read_output by_abs
            (unset_line unset ∷ print_design lib (keys by_abs) objects top w)
            no_output
          ≡ some out)
        × IsRead by_abs (0, unset_line unset ∷ print_design lib (keys by_abs) objects top w) out
  unfolding print_design read_output
  print_design-IsRead objects top w unset =
      let raw = file_deps (keys by_abs) (lib.design_units w) [] in
      let (deps, e) =
        known_deps_total by_abs raw []
          (file_deps-AllAmong (keys by_abs) (lib.design_units w) [] tt) in
      let body = lib.disp_hierarchy top objects (if objects then lib.strip_declarations w else w) in
      (
        record { file_deps = deps; unset = unset; body = body },
        rw (e, read_output) (read_output-printed by_abs body _),
        inl (refl, raw, refl, e),
      )

  elaborate_config-IsRead :
      (objects : Bool) (config : ℕ) (w : W)
      → (out : Output) × (read_output by_abs
            (elaborate_config lib (keys by_abs) objects config w).1
            no_output
          ≡ some out)
        × IsRead by_abs (elaborate_config lib (keys by_abs) objects config w) out
  unfolding elaborate_config read_output
  elaborate_config-IsRead objects config w =
      let entity = lib.entity_of config w in
      let w1 = lib.apply_generic_override entity w in
      let unset = unset_generics (lib.generic_chain entity w1) in
      let w2 = lib.check_entity_declaration_top entity w1 in
      let stopped : Output = record no_output { unset = unset } in
      let (top, w3) = lib.elab_top_unit config w2 in
      elim (Bool-cases (not (lib.error_count w2 == 0))) [
        | inl errors ↦
            rw (errors, elaborate_config) (stopped, refl, inr (λ h. omega (arith, h), refl, refl))
        | inr checked ↦ elim (Bool-cases (is_stopped lib top w3)) [
          | inl failed ↦
              rw (checked, elaborate_config)
                (rw (failed, elaborate_config)
                  (stopped, refl, inr (λ h. omega (arith, h), refl, refl)))
          | inr works ↦
              rw (checked, elaborate_config)
                (rw (works, elaborate_config) (print_design-IsRead objects top w3 unset))
        ]
      ]

  -- `_read_output` reads whatever `_elaborate` prints for the files that were asked for, without a missing
  -- key: when the exit code is 0, the generics without a value, the dependencies in the names of
  -- the files and the lines of the hierarchy, and otherwise no dependencies and no lines.
  pub read_output-elaborate :
      (request : Top) (w : W)
      → (out : Output) × (read_output by_abs (elaborate lib (keys by_abs) request w).1 no_output
          ≡ some out)
        × IsRead by_abs (elaborate lib (keys by_abs) request w) out
  unfolding elaborate read_output
  read_output-elaborate request w =
      let (config, w1) =
        lib.configure (lower request.top_library) (lower request.top)
          (override_all lib request.generics w) in
      elim (Bool-cases (is_stopped lib config w1)) [
        | inl failed ↦
            rw (failed, elaborate) (no_output, refl, inr (λ h. omega (arith, h), refl, refl))
        | inr works ↦ rw (works, elaborate) (elaborate_config-IsRead request.objects config w1)
      ]
