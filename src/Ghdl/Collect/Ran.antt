-- ===== src/Ghdl/Collect/Ran.antt =====
-- That what `_elaborate_all` (plugins/svhier-ghdl/src/svhier_ghdl/__init__.py) collects for a root is
-- what its own run reported, although runs are cached.
use svhier.Base.{
  String, Bool, true, false, Option, some, List, [], ◌∷◌, ◌≡◌, sym, ap, ◌∙◌, inl, inr, Bool-cases,
  Option-cases,
}
use svhier.Base.{◌==◌, ==_iff, contains, string_eq, list_eq, pair_eq, if◌then◌else◌}
use svhier.Base.Dict.{Dict, lookup, insert, lookup-insert}
use svhier.Base.Lists.{All}
use svhier.Base.Text.{lower, sort, pair_le}
use svhier.Frontends.{Root}
use svhier.Ghdl.Frontend.{Elaboration, Ghdl}
use svhier.Ghdl.Collect.{Collected, cache_key, dict_of, cached, run, run_roots}
use svhier.Ghdl.Collect.Merged.{insts_of, reports, Reported, root_key, run_roots-Reported}

module _ {W : Type 0}
    (elaborate_one : String → Dict String String → Ghdl W → Option Elaboration × Ghdl W)
    (files : List String) where
  -- A run over these files reported the result: for a top of this name up to its case, with these
  -- generics in some order.
  abbrev pub IsFromRun : String → List (String × String) → Elaboration → Type 0
  IsFromRun name generics result =
      (top : String) × (passed : Dict String String) × (g : Ghdl W) × (g.files ≡ files)
      × ((elaborate_one top passed g).0 ≡ some result)
      × (lower top ≡ name)
      × (sort pair_le passed ≡ generics)

  -- The files are these, and the cache only holds results of runs over them.
  abbrev pub IsCurrent : Ghdl W → Type 0
  IsCurrent g =
      (g.files ≡ files)
      × ((name : String) (generics : List (String × String)) (result : Elaboration)
          → lookup (name, generics) g.cache ≡ some result
          → IsFromRun name generics result)

  module _
      (keeps : (top : String) (generics : Dict String String) (g : Ghdl W)
        → (elaborate_one top generics g).1.cache ≡ g.cache)
      (keeps_files : (top : String) (generics : Dict String String) (g : Ghdl W)
        → (elaborate_one top generics g).1.files ≡ g.files) where
    cached-IsCurrent :
        (top : String) (generics : Dict String String) (g : Ghdl W)
        → IsCurrent g
        → IsCurrent (cached elaborate_one top generics g).1
    unfolding cached
    cached-IsCurrent top generics g (same, all) =
        let key = cache_key top generics in
        elim (Option-cases (lookup key g.cache)) [
          | inr (r, there) ↦ rw (there, cached) (same, all)
          | inl missing ↦
              let made_by = (elaborate_one top generics g).1 in
              let old : made_by.cache ≡ g.cache = keeps top generics g in
              let still : made_by.files ≡ files = keeps_files top generics g ∙ same in
              elim (Option-cases (elaborate_one top generics g).0) [
                | inl failed ↦
                    rw (missing, cached)
                      (rw (failed, cached)
                        (still, λ n gs r h. all n gs r (ap (λ c. lookup (n, gs) c) (sym old) ∙ h)))
                | inr (r, made) ↦
                    rw (missing, cached)
                      (rw (made, cached)
                        (
                          still,
                          λ n gs r2 h.
                              let at : lookup (n, gs) (insert key r made_by.cache)
                                  ≡ (if (n, gs) == key then some r else lookup (n, gs) g.cache) =
                                lookup-insert (n, gs) key r made_by.cache
                                ∙ ap (λ c. if (n, gs) == key then some r else lookup (n, gs) c)
                                    old in
                              elim (Bool-cases ((n, gs) == key)) [
                                | inl here ↦
                                    let e : (n, gs) ≡ key = (==_iff (n, gs) key).0 here in
                                    let it : some r ≡ some r2 =
                                      sym (
                                        at
                                        ∙ ap (λ b. if b then some r else lookup (n, gs) g.cache)
                                            here)
                                      ∙ h in
                                    (
                                      top,
                                      generics,
                                      g,
                                      same,
                                      made ∙ it,
                                      sym (ap (λ x. x.0) e),
                                      sym (ap (λ x. x.1) e),
                                    )
                                | inr other ↦ all n gs r2 (
                                    sym (
                                      at
                                      ∙ ap (λ b. if b then some r else lookup (n, gs) g.cache)
                                          other)
                                    ∙ h)
                              ],
                        ))
              ]
        ]

    run-IsCurrent :
        (top : String) (generics : Dict String String) (is_soft : Bool) (c : Collected) (g : Ghdl W)
        → IsCurrent g
        → IsCurrent (run elaborate_one top generics is_soft c g).1
    unfolding run
    run-IsCurrent top generics is_soft c g current =
        let after = cached-IsCurrent top generics g current in
        elim (Option-cases (cached elaborate_one top generics g).0) [
          | inl failed ↦ rw (failed, run) after
          | inr (r, made) ↦ rw (made, run) after
        ]

    run_roots-IsCurrent :
        (roots : List Root) (c : Collected) (g : Ghdl W)
        → IsCurrent g
        → IsCurrent (run_roots elaborate_one roots c g).1
    unfolding run_roots
    run_roots-IsCurrent [] c g current = current
    run_roots-IsCurrent (root ∷ roots) c g current =
        let generics = dict_of root.generics in
        let made = run elaborate_one root.name generics false c g in
        let after = run-IsCurrent root.name generics false c g current in
        elim (Option-cases made.0) [
          | inl failed ↦ rw (failed, run_roots) after
          | inr (c2, ok) ↦ rw (ok, run_roots) (run_roots-IsCurrent roots c2 made.1 after)
        ]

    -- All instances that a run for this root reported have been collected.
    abbrev pub IsCollected : Collected → Root → Type 0
    IsCollected c root =
        (result : Elaboration) × IsFromRun (lower root.name) (sort pair_le (dict_of root.generics))
          result
        × ((name : String) (inst : String × String)
            → reports name inst result.defs ≡ true
            → contains (insts_of name c.defs) inst ≡ true)

    All-IsCollected :
        (roots : List Root) (c : Collected) (g : Ghdl W)
        → IsCurrent g
        → All (λ root. Reported elaborate_one keeps c g (root_key elaborate_one keeps root)) roots
        → All (IsCollected c) roots
    All-IsCollected [] c g current a = tt
    All-IsCollected (root ∷ roots) c g current ((result, there, all), rest) =
        ((result, current.1 _ _ result there, all), All-IsCollected roots c g current rest)

    -- Once every root has been run, if a run leaves the cache and the files as they are and the cache
    -- held only results of runs over these files, then for each root `elaborate_one` has reported a
    -- result over these files, for that name up to its case and with exactly that root's generics in some order, and
    -- each instance in it is among those collected for the definition of its name.
    pub run_roots-IsCollected :
        (roots : List Root) (c c1 : Collected) (g g1 : Ghdl W)
        → IsCurrent g
        → run_roots elaborate_one roots c g ≡ (some c1, g1)
        → All (IsCollected c1) roots
    run_roots-IsCollected roots c c1 g g1 current h =
        let after : IsCurrent g1 =
          rw (ap (λ x. x.1) h) at (run_roots-IsCurrent roots c g current) in
        All-IsCollected roots c1 g1 after (run_roots-Reported elaborate_one keeps roots c c1 g g1 h)
