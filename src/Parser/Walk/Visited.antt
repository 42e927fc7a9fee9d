-- ===== src/Parser/Walk/Visited.antt =====
-- The invariant of the loop of `_walk_instances` (src/svhier/parser.py): what is stored for a
-- setting, and that nothing is forgotten.
use mathlib.Core.List.{Memᴰ}
use mathlib.Core.List.Memᴰ
use mathlib.Core.Path.{subst}
use svhier.Base.{ℕ, zero, suc, String, true, ◌||◌, Option, none, some, List, [], ◌∷◌, ◌++◌}
use svhier.Base.{
  ◌≡◌, ◌≢◌, ◌⊎◌, refl, sym, ap, ◌∙◌, arith, Bool-cases, inl, inr, ◌==◌, string_eq, nat_eq, list_eq,
  pair_eq, if◌then◌else◌,
}
use svhier.Base.Dict.{
  lookup, insert, lookup-insert, lookup-update, or_default, NodupKeys, insert-NodupKeys,
}
use svhier.Parser.Symbols.{Location, Instance, sig_of, iter_module_instances}
use svhier.Parser.Walk.{
  Walk, DefKey, Setting, key_of, setting_of, children_of, pushed, visit, is_seen, walk_stack,
  start_walk,
}

module _ (canon : Location → String) where
  -- The module instances directly below one.
  abbrev pub kids : Instance → List Instance
  kids inst = pushed canon (iter_module_instances true inst.body)

  -- The instances of the elaborated tree.
  pub data Reach (tops : List Instance) : Instance → Type 0 where
    top : {inst : Instance} → Memᴰ inst tops → Reach tops inst
    below : {parent inst : Instance} → Reach tops parent → Memᴰ inst (kids parent) → Reach tops inst

  -- `walk.insts[key][sig]`
  abbrev pub inst_at : Walk → Setting → Option Instance
  inst_at walk (key, sig) = lookup sig (or_default (lookup key walk.insts) [])

  -- The setting has been visited, or an instance with it is on the stack.
  abbrev pub Due : Walk → List Instance → Setting → Type 0
  Due walk stack s =
      (is_seen canon walk s ≡ true)
      ⊎ ((inst : Instance) × Memᴰ inst stack × (setting_of canon inst ≡ s))

  -- The instance that stands for a visited setting.
  pub record Stored (tops stack : List Instance) (walk : Walk) (s : Setting) : Type 0 where
    pub inst : Instance
    pub same : setting_of canon inst ≡ s
    pub at : inst_at walk s ≡ some inst
    pub children : lookup s walk.children ≡ some (children_of canon inst)
    pub reached : Reach tops inst
    pub due : (child : Instance) → Memᴰ child (kids inst) → Due walk stack (setting_of canon child)

  pub record Inv (tops stack : List Instance) (walk : Walk) : Type 0 where
    pub stored : (s : Setting) → is_seen canon walk s ≡ true → Stored tops stack walk s
    pub waiting : (inst : Instance) → Memᴰ inst stack → Reach tops inst
    pub tops_due : (inst : Instance) → Memᴰ inst tops → Due walk stack (setting_of canon inst)
    pub known : (s : Setting) → inst_at walk s ≢ none → is_seen canon walk s ≡ true
    pub keyed : (key : DefKey) → NodupKeys (or_default (lookup key walk.insts) [])

  is_seen-visit :
      (walk : Walk) (inst : Instance) (s : Setting)
      → is_seen canon (visit canon walk inst) s
        ≡ (s == setting_of canon inst || is_seen canon walk s)
  unfolding visit is_seen
  is_seen-visit walk inst s =
      ground (arith, lookup-insert s (setting_of canon inst) (children_of canon inst) walk.children)

  children-visit :
      (walk : Walk) (inst : Instance) (s : Setting)
      → lookup s (visit canon walk inst).children ≡ (
          if s == setting_of canon inst
          then some (children_of canon inst)
          else lookup s walk.children)
  unfolding visit
  children-visit walk inst s =
      lookup-insert s (setting_of canon inst) (children_of canon inst) walk.children

  inst_at-visit :
      (walk : Walk) (inst : Instance) (s : Setting)
      → inst_at (visit canon walk inst) s
        ≡ (if s == setting_of canon inst then some inst else inst_at walk s)
  unfolding visit
  inst_at-visit walk inst (k, g) =
      let key = key_of canon inst.info.definition in
      ground (
        arith,
        lookup-update k key [] (insert (sig_of inst) inst) walk.insts,
        lookup-insert g (sig_of inst) inst (or_default (lookup key walk.insts) []),
      )

  Due-skip :
      (walk : Walk) (inst : Instance) (stack : List Instance) (s : Setting)
      → is_seen canon walk (setting_of canon inst) ≡ true
      → Due walk (inst ∷ stack) s
      → Due walk stack s
  Due-skip walk inst stack s seen (inl h) = inl h
  Due-skip walk inst stack s seen (inr (c, Memᴰ.head q, e)) =
      inl (subst (λ x. is_seen canon walk x ≡ true) (sym (ap (setting_of canon) q) ∙ e) seen)
  Due-skip walk inst stack s seen (inr (c, Memᴰ.tail i, e)) = inr (c, i, e)

  Due-visit :
      (walk : Walk) (inst : Instance) (stack more : List Instance) (s : Setting)
      → Due walk (inst ∷ stack) s
      → Due (visit canon walk inst) (more ++ stack) s
  Due-visit walk inst stack more s (inl h) = inl (ground (arith, is_seen-visit walk inst s))
  Due-visit walk inst stack more s (inr (c, Memᴰ.head q, e)) =
      let now : s ≡ setting_of canon inst = sym e ∙ ap (setting_of canon) q in
      inl (ground (arith, is_seen-visit walk inst s))
  Due-visit walk inst stack more s (inr (c, Memᴰ.tail i, e)) = inr (c, Memᴰ.append_right more i, e)

  Inv-skip :
      (tops stack : List Instance) (walk : Walk) (inst : Instance)
      → is_seen canon walk (setting_of canon inst) ≡ true
      → Inv tops (inst ∷ stack) walk
      → Inv tops stack walk
  Inv-skip tops stack walk inst seen v = record {
    stored = λ s h.
        let x = v.stored s h in
        record {
          inst = x.inst;
          same = x.same;
          at = x.at;
          children = x.children;
          reached = x.reached;
          due = λ c i. Due-skip walk inst stack _ seen (x.due c i);
        };
    waiting = λ i m. v.waiting i (Memᴰ.tail m);
    tops_due = λ i m. Due-skip walk inst stack _ seen (v.tops_due i m);
    known = v.known;
    keyed = v.keyed;
  }

  Stored-visit :
      (tops stack : List Instance) (walk : Walk) (inst : Instance)
      → Inv tops (inst ∷ stack) walk
      → (s : Setting) → is_seen canon (visit canon walk inst) s ≡ true
      → Stored tops (kids inst ++ stack) (visit canon walk inst) s
  Stored-visit tops stack walk inst v s h = elim (Bool-cases (s == setting_of canon inst)) [
    | inl now ↦ record {
      inst = inst;
      same = ground arith;
      at = inst_at-visit walk inst s ∙ rw now;
      children = children-visit walk inst s ∙ rw now;
      reached = v.waiting inst (Memᴰ.head refl);
      due = λ c i. inr (c, Memᴰ.append_left stack i, refl);
    }
    | inr old ↦
        let x = v.stored s (ground (arith, is_seen-visit walk inst s)) in
        record {
          inst = x.inst;
          same = x.same;
          at = inst_at-visit walk inst s ∙ rw old x.at;
          children = children-visit walk inst s ∙ rw old x.children;
          reached = x.reached;
          due = λ c i. Due-visit walk inst stack (kids inst) _ (x.due c i);
        }
  ]

  keyed-visit :
      (walk : Walk) (inst : Instance)
      → ((key : DefKey) → NodupKeys (or_default (lookup key walk.insts) []))
      → (key : DefKey) → NodupKeys (or_default (lookup key (visit canon walk inst).insts) [])
  unfolding visit
  keyed-visit walk inst keyed k =
      let key = key_of canon inst.info.definition in
      rw (lookup-update k key [] (insert (sig_of inst) inst) walk.insts)
        (elim (Bool-cases (k == key)) [
          | inl now ↦ rw now (
              insert-NodupKeys (sig_of inst) inst (or_default (lookup key walk.insts) [])
                (keyed key))
          | inr old ↦ rw old (keyed k)
        ])

  Inv-visit :
      (tops stack : List Instance) (walk : Walk) (inst : Instance)
      → Inv tops (inst ∷ stack) walk
      → Inv tops (kids inst ++ stack) (visit canon walk inst)
  Inv-visit tops stack walk inst v = record {
    stored = Stored-visit tops stack walk inst v;
    waiting = λ i m. elim (Memᴰ.append_cases (kids inst) m) [
      | inl new ↦ below (v.waiting inst (Memᴰ.head refl)) new
      | inr old ↦ v.waiting i (Memᴰ.tail old)
    ];
    tops_due = λ i m. Due-visit walk inst stack (kids inst) _ (v.tops_due i m);
    known = λ s h. elim (Bool-cases (s == setting_of canon inst)) [
      | inl now ↦ ground (arith, is_seen-visit walk inst s)
      | inr old ↦
          let before = v.known s (λ e. h (inst_at-visit walk inst s ∙ rw old e)) in
          ground (arith, before, is_seen-visit walk inst s)
    ];
    keyed = keyed-visit walk inst v.keyed;
  }

  -- The loop keeps the invariant.
  pub Inv-walk_stack :
      (tops : List Instance) (fuel : ℕ) (stack : List Instance) (walk final : Walk)
      → Inv tops stack walk
      → walk_stack canon fuel stack walk ≡ some final
      → Inv tops [] final
  unfolding walk_stack
  Inv-walk_stack tops fuel [] walk final v h = let e : walk ≡ final = cc in rw e at v
  Inv-walk_stack tops zero (inst ∷ stack) walk final v h = absurd (cc)
  Inv-walk_stack tops (suc fuel) (inst ∷ stack) walk final v h =
      elim (Bool-cases (is_seen canon walk (setting_of canon inst))) [
        | inl seen ↦
            Inv-walk_stack tops fuel stack walk final (Inv-skip tops stack walk inst seen v)
              (rw (seen, walk_stack) at h)
        | inr new ↦
            Inv-walk_stack tops fuel (kids inst ++ stack) (visit canon walk inst) final
              (Inv-visit tops stack walk inst v) (rw (new, walk_stack) at h)
      ]

  pub Inv-start_walk : (tops : List Instance) → Inv tops tops (start_walk canon tops)
  unfolding is_seen lookup
  Inv-start_walk tops = record {
    stored = λ s h. absurd (cc);
    waiting = λ i m. top m;
    tops_due = λ i m. inr (i, m, refl);
    known = λ s h. absurd (h refl);
    keyed = λ key. tt;
  }
