-- ===== src/Ghdl/Collect/Within.antt =====
-- That `_elaborate_all` (plugins/svhier-ghdl/src/svhier_ghdl/__init__.py) ends if the runs do, and only
-- names what they name, also when their results come from the cache.
use svhier.Base.{
  String, Bool, true, false, Option, none, some, List, [], ◌∷◌, ◌++◌, ◌≡◌, refl, sym, ap, ◌∙◌, inl,
  inr, Bool-cases, Option-cases,
}
use svhier.Base.{◌==◌, contains, string_eq, list_eq, pair_eq, if◌then◌else◌}
use svhier.Base.Dict.{Dict, keys, values, lookup, insert, set_default, update, lookup-insert}
use svhier.Base.Lists.{All, add_unique}
use svhier.Base.All.{All-add_unique, values-update, values-set_default}
use svhier.Base.Text.{lower}
use svhier.Frontends.{Root, Request}
use svhier.Ghdl.Instances.{ForeignDef, Defs}
use svhier.Ghdl.Frontend.{Elaboration, Ghdl, units_of}
use svhier.Ghdl.Collect.{
  Collected, nothing_collected, empty_def, merge_def, merge_defs, collect, cache_key, dict_of,
  cached, run, run_roots, run_units, reached_by, is_blamed, judge_soft, alone_note, elaborate_all,
}

module _ (names : List String) where
  -- What the definition instantiates is among the names.
  abbrev pub NamesIn : ForeignDef → Type 0
  NamesIn d = All (λ (i : String × String). contains names (lower i.0) ≡ true) d.insts

  merge_defs-NamesIn :
      (defs : Defs) (news : List ForeignDef)
      → All NamesIn (values defs)
      → All NamesIn news
      → All NamesIn (values (merge_defs defs news))
  unfolding merge_defs
  merge_defs-NamesIn defs [] a b = a
  merge_defs-NamesIn defs (new ∷ news) a (n, b) =
      merge_defs-NamesIn (update new.name (empty_def new.name new.file) (merge_def new) defs) news
        (values-update NamesIn new.name (empty_def new.name new.file) (merge_def new) defs tt
          (λ v inside.
            All-add_unique (λ i. contains names (lower i.0) ≡ true) v.insts new.insts inside n)
          a)
        b

  judge_soft-NamesIn :
      (units : Dict String String) (reached : List String) (soft : Dict String Elaboration)
      (c : Collected) (notes : List String)
      → All NamesIn (values c.defs)
      → All NamesIn (values (judge_soft units reached soft (c, notes)).0.defs)
  unfolding judge_soft
  judge_soft-NamesIn units reached [] c notes a = a
  judge_soft-NamesIn units reached ((unit, result) ∷ soft) c notes a =
      elim (Bool-cases (is_blamed reached unit result)) [
        | inr fine ↦ rw (fine, judge_soft) (judge_soft-NamesIn units reached soft c notes a)
        | inl blamed ↦ elim (Bool-cases (result.unset == [])) [
          | inl set ↦
              rw (blamed, judge_soft)
                (rw (set, judge_soft)
                  (judge_soft-NamesIn units reached soft
                    (record c { errors = add_unique c.errors result.errors }) notes a))
          | inr unset ↦
              rw (blamed, judge_soft)
                (rw (unset, judge_soft)
                  (judge_soft-NamesIn units reached soft
                    (record c {
                      defs = set_default unit (empty_def unit (lookup unit units)) c.defs;
                    })
                    (notes ++ alone_note unit result.unset ∷ [])
                    (values-set_default NamesIn unit (empty_def unit (lookup unit units)) c.defs tt
                      a)))
        ]
      ]

  -- The results in the cache keep to the names.
  abbrev pub CacheIn : {W : Type 0} → Ghdl W → Type 0
  CacheIn g =
      (k : String × List (String × String)) (r : Elaboration)
      → lookup k g.cache ≡ some r
      → All NamesIn r.defs

  module _ {W : Type 0}
      (elaborate_one : String → Dict String String → Ghdl W → Option Elaboration × Ghdl W) where
    -- A run ends with a result, which keeps to the names, and leaves the cache, the files and scans.
    abbrev pub RunIn : Type 0
    RunIn =
        (top : String) (generics : Dict String String) (g : Ghdl W)
        → (r : Elaboration) × ((elaborate_one top generics g).0 ≡ some r)
          × All NamesIn r.defs
          × ((elaborate_one top generics g).1.cache ≡ g.cache)
          × ((elaborate_one top generics g).1.files ≡ g.files)
          × ((elaborate_one top generics g).1.scan ≡ g.scan)

    -- There is a result that keeps to the names, as the cache does, over the same files and scans.
    abbrev pub EndsIn : Ghdl W → Option Collected × Ghdl W → Type 0
    EndsIn g result =
        (c : Collected) × (result.0 ≡ some c)
        × All NamesIn (values c.defs)
        × (result.1.files ≡ g.files)
        × (result.1.scan ≡ g.scan)
        × CacheIn result.1

    module _ (runs : RunIn) where
      cached-CacheIn :
          (top : String) (generics : Dict String String) (g : Ghdl W)
          → CacheIn g
          → (r : Elaboration) × ((cached elaborate_one top generics g).0 ≡ some r)
            × All NamesIn r.defs
            × ((cached elaborate_one top generics g).1.files ≡ g.files)
            × ((cached elaborate_one top generics g).1.scan ≡ g.scan)
            × CacheIn (cached elaborate_one top generics g).1
      unfolding cached
      cached-CacheIn top generics g inside =
          let key = cache_key top generics in
          elim (Option-cases (lookup key g.cache)) [
            | inr (r, there) ↦ rw (there, cached) (r, refl, inside key r there, refl, refl, inside)
            | inl missing ↦
                let made_by = (elaborate_one top generics g).1 in
                let (r, made, a, old, files, scan) = runs top generics g in
                rw (missing, cached)
                  (rw (made, cached)
                    (
                      r,
                      refl,
                      a,
                      files,
                      scan,
                      λ k r2 h.
                          let at : lookup k (insert key r made_by.cache)
                              ≡ (if k == key then some r else lookup k g.cache) =
                            lookup-insert k key r made_by.cache
                            ∙ ap (λ c. if k == key then some r else lookup k c) old in
                          elim (Bool-cases (k == key)) [
                            | inl here ↦
                                let it : some r ≡ some r2 =
                                  sym (at ∙ ap (λ b. if b then some r else lookup k g.cache) here)
                                  ∙ h in
                                let same : r ≡ r2 = cc in rw (← same) a
                            | inr other ↦ inside k r2 (
                                sym (at ∙ ap (λ b. if b then some r else lookup k g.cache) other)
                                ∙ h)
                          ],
                    ))
          ]

      run-EndsIn :
          (top : String) (generics : Dict String String) (is_soft : Bool) (c : Collected)
          (g : Ghdl W)
          → CacheIn g
          → All NamesIn (values c.defs)
          → EndsIn g (run elaborate_one top generics is_soft c g)
      unfolding run collect
      run-EndsIn top generics is_soft c g inside a =
          let (r, made, b, files, scan, after) = cached-CacheIn top generics g inside in
          rw (made, run)
            (
              collect top is_soft r c,
              refl,
              merge_defs-NamesIn c.defs r.defs a b,
              files,
              scan,
              after,
            )

      -- What is run next may be put behind what has ended.
      EndsIn-then :
          (g g1 : Ghdl W) (result : Option Collected × Ghdl W)
          → g1.files ≡ g.files
          → g1.scan ≡ g.scan
          → EndsIn g1 result
          → EndsIn g result
      EndsIn-then g g1 result files scan (c, made, a, files1, scan1, after) =
          (c, made, a, files1 ∙ files, scan1 ∙ scan, after)

      run_roots-EndsIn :
          (roots : List Root) (c : Collected) (g : Ghdl W)
          → CacheIn g
          → All NamesIn (values c.defs)
          → EndsIn g (run_roots elaborate_one roots c g)
      unfolding run_roots
      run_roots-EndsIn [] c g inside a = (c, refl, a, refl, refl, inside)
      run_roots-EndsIn (root ∷ roots) c g inside a =
          let generics = dict_of root.generics in
          let made = run elaborate_one root.name generics false c g in
          let (c1, ok, a1, files, scan, after) = run-EndsIn root.name generics false c g inside a in
          rw (ok, run_roots)
            (EndsIn-then g made.1 (run_roots elaborate_one roots c1 made.1) files scan
              (run_roots-EndsIn roots c1 made.1 after a1))

      run_units-EndsIn :
          (units : List String) (c : Collected) (g : Ghdl W)
          → CacheIn g
          → All NamesIn (values c.defs)
          → EndsIn g (run_units elaborate_one units c g)
      unfolding run_units
      run_units-EndsIn [] c g inside a = (c, refl, a, refl, refl, inside)
      run_units-EndsIn (unit ∷ units) c g inside a =
          elim (Bool-cases (contains (keys c.defs) unit)) [
            | inl known ↦ rw (known, run_units) (run_units-EndsIn units c g inside a)
            | inr unknown ↦
                let made = run elaborate_one unit [] true c g in
                let (c1, ok, a1, files, scan, after) = run-EndsIn unit [] true c g inside a in
                rw (unknown, run_units)
                  (rw (ok, run_units)
                    (EndsIn-then g made.1 (run_units elaborate_one units c1 made.1) files scan
                      (run_units-EndsIn units c1 made.1 after a1)))
          ]

      judged-EndsIn :
          (g : Ghdl W) (made : Option Collected × Ghdl W)
          → EndsIn g made
          → EndsIn g (elim made.0 [
            | none ↦ (none, made.1)
            | some c2 ↦
                let (c3, notes) =
                  judge_soft (units_of made.1) (reached_by c2.defs) c2.soft (c2, []) in
                (some c3, record made.1 { alone_notes = notes })
          ])
      judged-EndsIn g made (c, ok, a, files, scan, after) = rw ok (
        (judge_soft (units_of made.1) (reached_by c.defs) c.soft (c, [])).0,
        refl,
        judge_soft-NamesIn (units_of made.1) (reached_by c.defs) c.soft c [] a,
        files,
        scan,
        after,
      )

      auto-EndsIn :
          (auto : Bool) (units : List String) (c : Collected) (g : Ghdl W)
          → CacheIn g
          → All NamesIn (values c.defs)
          → EndsIn g (if auto then run_units elaborate_one units c g else (some c, g))
      auto-EndsIn true units c g inside a = run_units-EndsIn units c g inside a
      auto-EndsIn false units c g inside a = (c, refl, a, refl, refl, inside)

      -- All roots, and with `auto` all other entities, are run.
      pub elaborate_all-EndsIn :
          (request : Request) (g : Ghdl W)
          → CacheIn g
          → EndsIn g (elaborate_all elaborate_one request g)
      unfolding elaborate_all values
      elaborate_all-EndsIn request g inside =
          let made = run_roots elaborate_one request.roots nothing_collected g in
          let (c, ok, a, files, scan, after) =
            run_roots-EndsIn request.roots nothing_collected g inside tt in
          let units = keys (units_of made.1) in
          let all =
            if request.auto then run_units elaborate_one units c made.1 else (some c, made.1) in
          rw (ok, elaborate_all)
            (judged-EndsIn g all (
              EndsIn-then g made.1 all files scan
                (auto-EndsIn request.auto units c made.1 after a)))
