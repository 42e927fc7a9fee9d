-- ===== src/Ghdl/Instances/Linked.antt =====
-- What `tree_to_defs` (plugins/svhier-ghdl/src/svhier_ghdl/__init__.py) returns: definitions whose
-- instances lead to each other.
use svhier.Base.{
  String, Bool, true, false, ◌||◌, none, some, [], ◌≡◌, ◌≢◌, sym, ◌∙◌, ap, ◌⊎◌, refl, arith, inl,
  inr, Bool-cases, Option-cases,
}
use svhier.Base.{◌==◌, ==_iff, contains, string_eq, pair_eq}
use svhier.Base.Dict.{Dict, lookup, set_default, get_or, lookup-set_default, lookup-update}
use svhier.Base.Lists.{Nodup, contains-add_if_new, Nodup-add_if_new}
use svhier.Result.{UnitUse, add_use_if_new}
use svhier.Ghdl.Instances.{ForeignDef, Defs, new_def, add_inst, add_use, change}

-- One definition: what it instantiates is defined too, or is known to be unbound.
pub record Fine (defs : Defs) (entity : String) (d : ForeignDef) : Type 0 where
  pub named : d.name ≡ entity
  pub differ : Nodup d.insts
  pub linked :
      (child path : String)
      → contains d.insts (child, path) ≡ true
      → (lookup child defs ≢ none) ⊎ (lookup child d.uses ≢ none)

abbrev pub IsLinked : Defs → Type 0
IsLinked defs =
    (entity : String) (d : ForeignDef) → lookup entity defs ≡ some d → Fine defs entity d

-- No definition is lost.
abbrev pub Keeps : Defs → Defs → Type 0
Keeps defs later = (entity : String) → lookup entity defs ≢ none → lookup entity later ≢ none

pub Fine-Keeps :
    (defs later : Defs) (entity : String) (d : ForeignDef)
    → Keeps defs later
    → Fine defs entity d
    → Fine later entity d
Fine-Keeps defs later entity d k f = record {
  named = f.named;
  differ = f.differ;
  linked = λ child path there. elim (f.linked child path there) [
    | inl defined ↦ inl (k child defined)
    | inr unbound ↦ inr unbound
  ];
}

pub or_true : (a b : Bool) → (a || b) ≡ true → (a ≡ true) ⊎ (b ≡ true)
or_true true b h = inl refl
or_true false b h = inr h

module _ (files : Dict String String) where
  pub change-Keeps :
      (entity : String) (f : ForeignDef → ForeignDef) (defs : Defs)
      → Keeps defs (change files entity f defs)
  change-Keeps entity f defs e h =
      ground (arith, lookup-update e entity (new_def files entity) f defs)

  pub change-here :
      (entity : String) (f : ForeignDef → ForeignDef) (defs : Defs)
      → lookup entity (change files entity f defs) ≢ none
  change-here entity f defs =
      ground (arith, lookup-update entity entity (new_def files entity) f defs)

  pub change-IsLinked :
      (entity : String) (f : ForeignDef → ForeignDef) (defs : Defs)
      → IsLinked defs
      → Fine defs entity (f (get_or entity (new_def files entity) defs))
      → IsLinked (change files entity f defs)
  change-IsLinked entity f defs l here e d at =
      let later = change files entity f defs in
      let k = change-Keeps entity f defs in
      let found = lookup-update e entity (new_def files entity) f defs in
      elim (Bool-cases (e == entity)) [
        | inl same ↦
            let entity_is : e ≡ entity = (==_iff e entity).0 same in
            let value : some (f (get_or entity (new_def files entity) defs)) ≡ some d =
              ground (arith, found) in
            let it : f (get_or entity (new_def files entity) defs) ≡ d = cc in
            rw (← it) (rw entity_is (Fine-Keeps defs later entity _ k here))
        | inr other ↦ Fine-Keeps defs later e d k (l e d (ground (arith, found)))
      ]

  new_def-Fine : (defs : Defs) (entity : String) → Fine defs entity (new_def files entity)
  new_def-Fine defs entity = record {
    named = refl;
    differ = tt;
    linked = λ child path h. absurd (cc);
  }

  pub get_or-Fine :
      (entity : String) (defs : Defs)
      → IsLinked defs
      → Fine defs entity (get_or entity (new_def files entity) defs)
  get_or-Fine entity defs l = elim (Option-cases (lookup entity defs)) [
    | inl missing ↦ rw missing (new_def-Fine defs entity)
    | inr (d, there) ↦ rw there (l entity d there)
  ]

  pub set_default-Keeps :
      (entity : String) (d : ForeignDef) (defs : Defs) → Keeps defs (set_default entity d defs)
  set_default-Keeps entity d defs e h = ground (arith, lookup-set_default e entity d defs)

  pub set_default-IsLinked :
      (entity : String) (defs : Defs)
      → IsLinked defs
      → IsLinked (set_default entity (new_def files entity) defs)
  set_default-IsLinked entity defs l e d at =
      let fresh = new_def files entity in
      let found = lookup-set_default e entity fresh defs in
      let old : Fine defs e d = elim (Bool-cases (e == entity)) [
        | inl same ↦
            let entity_is : e ≡ entity = (==_iff e entity).0 same in
            let value : some (get_or entity fresh defs) ≡ some d = ground (arith, found) in
            let it : get_or entity fresh defs ≡ d = cc in
            rw (← it) (rw entity_is (get_or-Fine entity defs l))
        | inr other ↦ l e d (ground (arith, found))
      ] in
      Fine-Keeps defs (set_default entity fresh defs) e d (set_default-Keeps entity fresh defs) old

  -- An instance that is there is one of before, or the new one.
  inst_cases :
      (d : ForeignDef) (child path c p : String)
      → contains (add_inst (child, path) d).insts (c, p) ≡ true
      → (contains d.insts (c, p) ≡ true) ⊎ (c ≡ child)
  inst_cases d child path c p there =
      elim (or_true _ _ (sym (contains-add_if_new d.insts (child, path) (c, p)) ∙ there)) [
        | inl before ↦ inl before
        | inr new ↦
            let same : ◌≡◌ {A = String × String} (c, p) (child, path) =
              (==_iff {A = String × String} (c, p) (child, path)).0 new in
            inr (ap (λ (i : String × String). i.0) same)
      ]

  pub add_inst-Fine :
      (defs : Defs) (entity child path : String) (d : ForeignDef)
      → lookup child defs ≢ none
      → Fine defs entity d
      → Fine defs entity (add_inst (child, path) d)
  add_inst-Fine defs entity child path d h f = record {
    named = f.named;
    differ = Nodup-add_if_new d.insts (child, path) f.differ;
    linked = λ c p there. elim (inst_cases d child path c p there) [
      | inl before ↦ f.linked c p before
      | inr new ↦ inl (rw new h)
    ];
  }

  pub add_use-Fine :
      (defs : Defs) (entity child path : String) (u : UnitUse) (d : ForeignDef)
      → Fine defs entity d
      → Fine defs entity (add_use child u (add_inst (child, path) d))
  add_use-Fine defs entity child path u d f = record {
    named = f.named;
    differ = Nodup-add_if_new d.insts (child, path) f.differ;
    linked = λ c p there.
        let found = lookup-update c child [] (λ us. add_use_if_new us u) d.uses in
        elim (inst_cases d child path c p there) [
          | inl before ↦ elim (f.linked c p before) [
            | inl defined ↦ inl defined
            | inr unbound ↦ inr (ground (arith, found))
          ]
          | inr new ↦ inr (let same = (==_iff c child).1 new in ground (arith, found))
        ];
  }
