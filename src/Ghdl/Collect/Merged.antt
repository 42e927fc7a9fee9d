-- ===== src/Ghdl/Collect/Merged.antt =====
-- That `_elaborate_all` (plugins/svhier-ghdl/src/svhier_ghdl/__init__.py) keeps what the runs report.
use svhier.Base.{
  String, Bool, true, false, ◌||◌, ◌&&◌, Option, none, some, List, [], ◌∷◌, ◌≡◌, refl, sym, ap, ◌∙◌,
  inl, inr, Bool-cases, Option-cases,
}
use svhier.Base.{◌==◌, ==_iff, ==_refl, contains, string_eq, list_eq, pair_eq, if◌then◌else◌}
use svhier.Base.Dict.{or_default, Dict, lookup, insert, update, lookup-update, lookup-insert}
use svhier.Base.Lists.{All, any, add_unique, contains-add_unique}
use svhier.Frontends.{Root}
use svhier.Ghdl.Instances.{ForeignDef, Defs}
use svhier.Ghdl.Frontend.{Elaboration, Ghdl}
use svhier.Ghdl.Collect.{
  Collected, empty_def, merge_def, merge_defs, collect, cache_key, dict_of, cached, run, run_roots,
}

abbrev pub insts_in : Option ForeignDef → List (String × String)
insts_in none = []
insts_in (some d) = d.insts

-- The instances in a definition, if it is there.
abbrev pub insts_of : String → Defs → List (String × String)
insts_of name defs = insts_in (lookup name defs)

abbrev pub reports : String → String × String → List ForeignDef → Bool
reports name inst news = any (λ (d : ForeignDef). name == d.name && contains d.insts inst) news

or_false_right : (b : Bool) → (b || false) ≡ b
or_false_right true = refl
or_false_right false = refl

or_assoc : (a b c : Bool) → ((a || b) || c) ≡ (a || (b || c))
or_assoc true b c = refl
or_assoc false b c = refl

or_true_right : (b : Bool) → (b || true) ≡ true
or_true_right true = refl
or_true_right false = refl

merge_def-insts :
    (new : ForeignDef) (o : Option ForeignDef) (inst : String × String)
    → contains (add_unique (or_default o (empty_def new.name new.file)).insts new.insts) inst
      ≡ (contains (insts_in o) inst || contains new.insts inst)
merge_def-insts new none inst = contains-add_unique [] new.insts inst
merge_def-insts new (some d) inst = contains-add_unique d.insts new.insts inst

insts_of-update :
    (name : String) (inst : String × String) (new : ForeignDef) (defs : Defs)
    → contains
        (insts_of name (update new.name (empty_def new.name new.file) (merge_def new) defs))
        inst
      ≡ (contains (insts_of name defs) inst || (name == new.name && contains new.insts inst))
insts_of-update name inst new defs =
    let found = lookup-update name new.name (empty_def new.name new.file) (merge_def new) defs in
    elim (Bool-cases (name == new.name)) [
      | inl same ↦
          let e : name ≡ new.name = (==_iff name new.name).0 same in
          rw (found, same)
            (merge_def-insts new (lookup new.name defs) inst
              ∙ ap (λ n. contains (insts_of n defs) inst || contains new.insts inst) (sym e))
      | inr other ↦ rw (found, other) (sym (or_false_right (contains (insts_of name defs) inst)))
    ]

-- Merging adds to the instances of a definition those that are reported of its name, and no others.
pub merge_defs-insts :
    (name : String) (inst : String × String) (defs : Defs) (news : List ForeignDef)
    → contains (insts_of name (merge_defs defs news)) inst
      ≡ (contains (insts_of name defs) inst || reports name inst news)
unfolding merge_defs any
merge_defs-insts name inst defs [] = sym (or_false_right (contains (insts_of name defs) inst))
merge_defs-insts name inst defs (new ∷ news) =
    merge_defs-insts name inst (update new.name (empty_def new.name new.file) (merge_def new) defs)
      news
    ∙ ap (λ b. b || reports name inst news) (insts_of-update name inst new defs)
    ∙ or_assoc (contains (insts_of name defs) inst) _ _

abbrev pub Kept : {W : Type 0} → Ghdl W → Ghdl W → Type 0
Kept g g1 =
    (k : String × List (String × String)) (r : Elaboration)
    → lookup k g.cache ≡ some r
    → lookup k g1.cache ≡ some r

module _ {W : Type 0}
    (elaborate_one : String → Dict String String → Ghdl W → Option Elaboration × Ghdl W)
    (keeps : (top : String) (generics : Dict String String) (g : Ghdl W)
      → (elaborate_one top generics g).1.cache ≡ g.cache) where
  -- A run's result is in the cache afterwards, and what was in the cache stays.
  pub cached-lookup :
      (top : String) (generics : Dict String String) (g g1 : Ghdl W) (result : Elaboration)
      → cached elaborate_one top generics g ≡ (some result, g1)
      → (lookup (cache_key top generics) g1.cache ≡ some result) × Kept g g1
  unfolding cached
  cached-lookup top generics g g1 result h =
      elim (Option-cases (lookup (cache_key top generics) g.cache)) [
        | inr (r, there) ↦
            let h1 : (some r, g) ≡ (some result, g1) = rw (there, cached) at h in
            let same : g ≡ g1 = ap (λ x. x.1) h1 in
            let it : some r ≡ some result = ap (λ x. x.0) h1 in
            (
              ap (λ (x : Ghdl W). lookup (cache_key top generics) x.cache) (sym same) ∙ there ∙ it,
              λ k r2 before. ap (λ (x : Ghdl W). lookup k x.cache) (sym same) ∙ before,
            )
        | inl missing ↦ elim (Option-cases (elaborate_one top generics g).0) [
          | inl failed ↦ absurd (cc (rw (failed, cached) at (rw (missing, cached) at h)))
          | inr (r, made) ↦
              let made_by = (elaborate_one top generics g).1 in
              let key = cache_key top generics in
              let h1 : ◌≡◌ {A = Option Elaboration × Ghdl W}
                  (some r, record made_by { cache = insert key r made_by.cache })
                  (some result, g1) =
                rw (made, cached) at (rw (missing, cached) at h) in
              let it : some r ≡ some result = ap (λ x. x.0) h1 in
              let cache : insert key r made_by.cache ≡ g1.cache = ap (λ x. x.1.cache) h1 in
              let old : made_by.cache ≡ g.cache = keeps top generics g in
              let at : (k : String × List (String × String))
                  → lookup k g1.cache ≡ (if k == key then some r else lookup k g.cache) =
                λ k.
                  ap (λ c. lookup k c) (sym cache)
                  ∙ lookup-insert k key r made_by.cache
                  ∙ ap (λ c. if k == key then some r else lookup k c) old in
              (
                at key ∙ ap (λ b. if b then some r else lookup key g.cache) (==_refl key) ∙ it,
                λ k r2 before. elim (Bool-cases (k == key)) [
                  | inl same ↦
                      let e = (==_iff k key).0 same in
                      absurd (cc (sym before ∙ ap (λ x. lookup x g.cache) e ∙ missing))
                  | inr other ↦
                      at k ∙ ap (λ b. if b then some r else lookup k g.cache) other ∙ before
                ],
              )
        ]
      ]

  -- Nothing that has been collected is lost.
  abbrev Grows : Collected → Collected → Type 0
  Grows c c1 =
      (name : String) (inst : String × String)
      → contains (insts_of name c.defs) inst ≡ true
      → contains (insts_of name c1.defs) inst ≡ true

  -- The run with this key has a result in the cache, and its instances have been collected.
  abbrev pub Reported : Collected → Ghdl W → String × List (String × String) → Type 0
  Reported c g key =
      (result : Elaboration) × (lookup key g.cache ≡ some result)
      × ((name : String) (inst : String × String)
          → reports name inst result.defs ≡ true
          → contains (insts_of name c.defs) inst ≡ true)

  run-Grows :
      (top : String) (generics : Dict String String) (is_soft : Bool) (c c1 : Collected)
      (g g1 : Ghdl W)
      → run elaborate_one top generics is_soft c g ≡ (some c1, g1)
      → Kept g g1 × Grows c c1 × Reported c1 g1 (cache_key top generics)
  unfolding run collect
  run-Grows top generics is_soft c c1 g g1 h =
      elim (Option-cases (cached elaborate_one top generics g).0) [
        | inl failed ↦ absurd (cc (rw (failed, run) at h))
        | inr (r, made) ↦
            let g2 = (cached elaborate_one top generics g).1 in
            let h1 : ◌≡◌ {A = Option Collected × Ghdl W}
                (some (collect top is_soft r c), record g2 { notes = add_unique g2.notes r.notes })
                (some c1, g1) =
              rw (made, run) at h in
            let cache : g2.cache ≡ g1.cache = ap (λ x. x.1.cache) h1 in
            let it : some (collect top is_soft r c) ≡ some c1 = ap (λ x. x.0) h1 in
            let same : collect top is_soft r c ≡ c1 = cc in
            let both : cached elaborate_one top generics g ≡ (some r, g2) = λ i. (made i, g2) in
            let (there, kept) = cached-lookup top generics g g2 r both in
            let merged : (name : String) (inst : String × String)
                → contains (insts_of name c1.defs) inst
                  ≡ (contains (insts_of name c.defs) inst || reports name inst r.defs) =
              λ name inst.
                ap (λ (x : Collected). contains (insts_of name x.defs) inst) (sym same)
                ∙ merge_defs-insts name inst c.defs r.defs in
            (
              (λ k r2 before. ap (λ x. lookup k x) (sym cache) ∙ kept k r2 before),
              (λ name inst before.
                  merged name inst ∙ ap (λ b. b || reports name inst r.defs) before),
              (
                r,
                ap (λ x. lookup (cache_key top generics) x) (sym cache) ∙ there,
                λ name inst new.
                    merged name inst
                    ∙ ap (λ b. contains (insts_of name c.defs) inst || b) new
                    ∙ or_true_right _,
              ),
            )
      ]

  abbrev pub root_key : Root → String × List (String × String)
  root_key root = cache_key root.name (dict_of root.generics)

  run_roots-Grows :
      (roots : List Root) (c c1 : Collected) (g g1 : Ghdl W)
      → run_roots elaborate_one roots c g ≡ (some c1, g1)
      → Kept g g1 × Grows c c1 × All (λ root. Reported c1 g1 (root_key root)) roots
  unfolding run_roots
  run_roots-Grows [] c c1 g g1 h =
      let same : g ≡ g1 = ap (λ x. x.1) h in
      let it : some c ≡ some c1 = ap (λ x. x.0) h in
      let kept : c ≡ c1 = cc in
      (
        (λ k r before. ap (λ (x : Ghdl W). lookup k x.cache) (sym same) ∙ before),
        (λ name inst before.
            ap (λ (x : Collected). contains (insts_of name x.defs) inst) (sym kept) ∙ before),
        tt,
      )
  run_roots-Grows (root ∷ roots) c c1 g g1 h =
      let made = run elaborate_one root.name (dict_of root.generics) false c g in
      elim (Option-cases made.0) [
        | inl failed ↦ absurd (cc (rw (failed, run_roots) at h))
        | inr (c2, ok) ↦
            let step : made ≡ (some c2, made.1) = λ i. (ok i, made.1) in
            let (kept, grows, (result, there, all)) =
              run-Grows root.name (dict_of root.generics) false c c2 g made.1 step in
            let (kept1, grows1, rest) =
              run_roots-Grows roots c2 c1 made.1 g1 (rw (ok, run_roots) at h) in
            (
              (λ k r before. kept1 k r (kept k r before)),
              (λ name inst before. grows1 name inst (grows name inst before)),
              (
                (
                  result,
                  kept1 _ result there,
                  λ name inst new. grows1 name inst (all name inst new),
                ),
                rest,
              ),
            )
      ]

  -- Each root's result is in the cache at the end, and has been collected.
  pub run_roots-Reported :
      (roots : List Root) (c c1 : Collected) (g g1 : Ghdl W)
      → run_roots elaborate_one roots c g ≡ (some c1, g1)
      → All (λ root. Reported c1 g1 (root_key root)) roots
  run_roots-Reported roots c c1 g g1 h = (run_roots-Grows roots c c1 g g1 h).2
