-- ===== src/Ghdl/Elaborate/Ends.antt =====
-- That `elaborate` (plugins/svhier-ghdl/src/svhier_ghdl/__init__.py) ends when it elaborates all roots as
-- `_elaborate_all` does, with its cache of results.
use svhier.Base.{
  ℕ, String, true, Option, some, List, [], ◌∷◌, map, ◌≡◌, inl, inr, sym, ap, ◌∙◌, arith, Bool-cases,
}
use svhier.Base.{◌==◌, ==_iff, contains, string_eq}
use svhier.Base.Dict.{Dict, values}
use svhier.Base.Lists.{
  All, flat_map, filter, dedupe, contains-append, contains-filter, contains-add_unique,
}
use svhier.Base.Text.{lower, string_le, contains-sort}
use svhier.Frontends.{Request}
use svhier.Result.{Fragment}
use svhier.Libsearch.Paths.{FilePath}
use svhier.Ghdl.Instances.{ForeignDef, Defs}
use svhier.Ghdl.Frontend.{FileScan, Elaboration, Outside, Ghdl, found_by, read_units}
use svhier.Ghdl.Frontend.Pulls.Fuel.{Names}
use svhier.Ghdl.Frontend.Pulls.Growth.{IsFrom}
use svhier.Ghdl.Collect.{elaborate_all}
use svhier.Ghdl.Collect.Within.{NamesIn, CacheIn, RunIn, elaborate_all-EndsIn}
use svhier.Ghdl.Elaborate.{child_names, is_unbound, unbound_of, first_names, elaborate}
use svhier.Ghdl.Elaborate.Total.{RunsWithin, elaborate_total}

module _ (names : List String) where
  insts-names :
      (insts : List (String × String)) (m : String)
      → All (λ (i : String × String). contains names (lower i.0) ≡ true) insts
      → contains (map (λ (i : String × String). i.0) insts) m ≡ true
      → contains names (lower m) ≡ true
  insts-names [] m a h = absurd (cc)
  insts-names (i ∷ insts) m (p, a) h = elim (Bool-cases (m == i.0)) [
    | inl same ↦ ap (λ n. contains names (lower n)) ((==_iff m i.0).0 same) ∙ p
    | inr other ↦ insts-names insts m a (rw other at h)
  ]

  children-names :
      (ds : List ForeignDef) (m : String)
      → All (NamesIn names) ds
      → contains (flat_map (λ (d : ForeignDef). map (λ (i : String × String). i.0) d.insts) ds) m
        ≡ true
      → contains names (lower m) ≡ true
  unfolding flat_map
  children-names [] m a h = absurd (cc)
  children-names (d ∷ ds) m (p, a) h =
      let here = map (λ (i : String × String). i.0) d.insts in
      elim (Bool-cases (contains here m)) [
        | inl there ↦ insts-names d.insts m p there
        | inr gone ↦ children-names ds m a (rw gone at (sym (contains-append here _ m) ∙ h))
      ]

  lowered-names :
      (xs : List String) (u : String)
      → ((m : String) → contains xs m ≡ true → contains names (lower m) ≡ true)
      → contains (map lower xs) u ≡ true
      → contains names u ≡ true
  lowered-names [] u all h = absurd (cc)
  lowered-names (x ∷ xs) u all h = elim (Bool-cases (u == lower x)) [
    | inl same ↦ ap (contains names) ((==_iff u (lower x)).0 same) ∙ all x (ground arith)
    | inr other ↦ lowered-names xs u (λ m there. all m (ground arith)) (rw other at h)
  ]

  -- What is left unbound is instantiated.
  unbound_of-names :
      (defs : Defs) (elsewhere : List String) (u : String)
      → All (NamesIn names) (values defs)
      → contains (map lower (unbound_of defs elsewhere)) u ≡ true
      → contains names u ≡ true
  unfolding unbound_of dedupe
  unbound_of-names defs elsewhere u a h =
      let open_names = filter (is_unbound defs elsewhere) (dedupe (child_names defs)) in
      lowered-names (unbound_of defs elsewhere) u
        (λ m there.
          let kept =
            (contains-filter (is_unbound defs elsewhere) (dedupe (child_names defs)) m).0
              (sym (contains-sort string_le open_names m) ∙ there) in
          children-names (values defs) m a
            (sym (contains-add_unique [] (child_names defs) m) ∙ kept.0))
        h

module _ {W : Type 0} (outside : Outside W)
    (elaborate_one : String → Dict String String → Ghdl W → Option Elaboration × Ghdl W)
    (names : List String) (library : List FilePath)
    (answers : (files : List String) (w : W) (path : String) (entry : FileScan)
      → (outside.scan files w).0 path ≡ some entry
      → Names names entry)
    (offers : (name scope : String)
      → IsFrom outside.resolve library (found_by outside name scope).0)
    (runs : RunIn names elaborate_one) where
  elaborate_all-RunsWithin : RunsWithin outside (elaborate_all elaborate_one) names
  elaborate_all-RunsWithin request g scanned inside =
      let (c, made, a, files, scan, after) =
        elaborate_all-EndsIn names elaborate_one runs request g inside in
      (
        c,
        made,
        files,
        scan,
        after,
        λ u h. unbound_of-names names c.defs request.defined_elsewhere u a h,
      )

  -- If each run of the worker ends with a result that instantiates only some finitely many names, and
  -- leaves the cache, the files and the scans; if the cached results name no others, nor do the roots
  -- and what is or may be scanned; and if the library under `-y` only offers some finitely many files,
  -- with paths as pathlib writes them; then `elaborate` over `_elaborate_all` ends: with enough fuel
  -- for its loop and for each pull, it has a result.
  pub elaborate_ends :
      (request : Request) (g : Ghdl W)
      → All (Names names) (values g.scan)
      → CacheIn names g
      → ((u : String)
          → contains (map lower (first_names request (read_units outside g))) u ≡ true
          → contains names u ≡ true)
      → (pull_fuel : ℕ) × (fuel : ℕ) × (result : Fragment × Ghdl W) × (elaborate outside
            (elaborate_all elaborate_one)
            pull_fuel
            fuel
            request
            g
          ≡ some result)
  elaborate_ends request g scanned inside roots =
      elaborate_total outside (elaborate_all elaborate_one) names library answers offers
        elaborate_all-RunsWithin request g scanned inside roots
