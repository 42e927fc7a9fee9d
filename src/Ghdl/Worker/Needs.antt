-- ===== src/Ghdl/Worker/Needs.antt =====
-- What `_file_deps` (plugins/svhier-ghdl/src/svhier_ghdl/worker.py) says that each file needs.
use svhier.Base.{
  String, Bool, true, false, not, ◌||◌, ◌&&◌, Option, none, some, List, [], ◌∷◌, ◌++◌, ◌≡◌, refl,
  ◌∙◌, arith, inl, inr, Bool-cases,
}
use svhier.Base.{◌==◌, ==_iff, contains, string_eq, if◌then◌else◌}
use svhier.Base.Dict.{Dict, lookup, get_or, get_or-update}
use svhier.Base.Lists.{any, contains-append}
use svhier.Ghdl.Worker.{TableUnit, add_needs, file_deps}

abbrev pub is_file : String → Option String → Bool
is_file n none = false
is_file n (some dep) = n == dep

-- Whether a unit of one file depends on a unit of another.
abbrev pub depends : String → String → TableUnit → Bool
depends path n u = path == u.file && any (is_file n) u.dependences

-- What one dependence adds.
contains-add_need :
    (known : List String) (name dep : String) (needs : List String) (n : String)
    → contains
        (if contains known dep && not (dep == name) && not (contains needs dep)
          then needs ++ dep ∷ []
          else needs)
        n
      ≡ (contains needs n || (contains known n && (not (n == name) && n == dep)))
contains-add_need known name dep needs n = elim (Bool-cases (n == dep)) [
  | inl same ↦
      let e = (==_iff n dep).0 same in
      let self : (n == n) ≡ true = rw (← e) at same in
      rw (← e) (ground (arith, self, contains-append needs (n ∷ []) n))
  | inr other ↦ ground (arith, other, contains-append needs (dep ∷ []) n)
]

contains-add_needs :
    (known : List String) (name : String) (deps : List (Option String)) (needs : List String)
    (n : String)
    → contains (add_needs known name deps needs) n
      ≡ (contains needs n || (contains known n && (not (n == name) && any (is_file n) deps)))
unfolding add_needs any
contains-add_needs known name [] needs n = ground arith
contains-add_needs known name (none ∷ deps) needs n = contains-add_needs known name deps needs n
contains-add_needs known name (some dep ∷ deps) needs n =
    contains-add_needs known name deps _ n
    ∙ rw (contains-add_need known name dep needs n) (ground arith)

file_deps_lem :
    (known : List String) (table : List TableUnit) (deps : Dict String (List String))
    (path n : String)
    → contains (get_or path [] (file_deps known table deps)) n ≡ (
        contains (get_or path [] deps) n
        || (contains known path
            && (contains known n && (not (n == path) && any (depends path n) table))))
unfolding file_deps any
file_deps_lem known [] deps path n = ground arith
file_deps_lem known (u ∷ table) deps path n =
    file_deps_lem known table _ path n ∙ elim (Bool-cases (contains known u.file)) [
      | inl is_known ↦ rw is_known (
          rw (get_or-update path u.file [] (add_needs known u.file u.dependences) deps)
            (elim (Bool-cases (path == u.file)) [
              | inl same ↦
                  let e = (==_iff path u.file).0 same in
                  let self : (path == path) ≡ true = rw (← e) at same in
                  let there : contains known path ≡ true = rw (← e) at is_known in
                  rw same (
                    rw (← e) (
                      rw (contains-add_needs known path u.dependences (get_or path [] deps) n)
                        (ground (arith, self, there))))
              | inr other ↦ rw other refl
            ]))
      | inr unknown ↦ elim (Bool-cases (path == u.file)) [
        | inl same ↦
            let e = (==_iff path u.file).0 same in
            let absent : contains known path ≡ false = rw (← e) at unknown in
            rw (unknown, absent) refl
        | inr other ↦ rw (unknown, other) refl
      ]
    ]

-- In what `_file_deps` prints, one file needs another exactly if both are among the request's files, they
-- are different, and some unit of the first depends on a unit of the second.
pub file_deps-depends :
    (known : List String) (table : List TableUnit) (path n : String)
    → contains (get_or path [] (file_deps known table [])) n ≡ (
        contains known path
        && (contains known n && (not (n == path) && any (depends path n) table)))
unfolding lookup
file_deps-depends known table path n = file_deps_lem known table [] path n
