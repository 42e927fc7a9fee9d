-- ===== src/Parser/Walk/Reach.antt =====
-- `_walk_instances` (src/svhier/parser.py) ends, and visits exactly the settings of the elaborated
-- tree.
use mathlib.Core.List.{Memᴰ}
use mathlib.Core.List.Memᴰ
use mathlib.Core.Path.{subst}
use mathlib.Core.Logic.{∥∥₁_elim}
use mathlib.Core.Bool.{So-prop}
use svhier.Base.{ℕ, zero, suc, ◌+◌, ◌≤◌, String, Bool, true, some, List, [], ◌∷◌, ◌++◌, map}
use svhier.Base.{
  ◌≡◌, ◌↔◌, refl, sym, ap, arith, Bool-cases, inl, inr, string_eq, nat_eq, list_eq, pair_eq,
}
use svhier.Parser.Symbols.{
  Location, Instance, Child, instantiated, undefined, iter_module_instances, iter_symbol, Symbol,
  Scope, empty, member, module_instance, interface_instance, uninstantiated_def, container,
  import_symbol, other,
}
use svhier.Parser.Walk.{
  Walk, Setting, setting_of, pushed, visit, is_seen, walk_stack, start_walk, walk_instances,
}
use svhier.Parser.Walk.Visited.{kids, Reach, top, below, Due, Inv, Inv-walk_stack, Inv-start_walk}

-- The module instances of a scope, at any depth.
unfoldable mutual
  pub count_symbol : Symbol → ℕ
  count_symbol (module_instance info body) = suc (count_scope body)
  count_symbol (interface_instance info body) = 0
  count_symbol (uninstantiated_def box) = 0
  count_symbol (container kind uninstantiated scope) = count_scope scope
  count_symbol (import_symbol pkg) = 0
  count_symbol other = 0

  pub count_scope : Scope → ℕ
  count_scope empty = 0
  count_scope (member symbol scope) = count_symbol symbol + count_scope scope

unfoldable pub count_all : List Instance → ℕ
unfolding count_symbol
count_all [] = 0
count_all (inst ∷ insts) = suc (count_scope inst.body) + count_all insts

count_all-append : (xs ys : List Instance) → count_all (xs ++ ys) ≡ count_all xs + count_all ys
unfolding count_all
count_all-append [] ys = omega arith
count_all-append (x ∷ xs) ys = omega (arith, count_all-append xs ys)

module _ (canon : Location → String) where
  pushed-append :
      (xs ys : List Child) → pushed canon (xs ++ ys) ≡ pushed canon xs ++ pushed canon ys
  unfolding pushed
  pushed-append [] ys = refl
  pushed-append (instantiated inst ∷ xs) ys = ap (inst ∷◌) (pushed-append xs ys)
  pushed-append (undefined box ∷ xs) ys = pushed-append xs ys

  mutual
    unfolding count_all iter_module_instances pushed

    count-iter_symbol :
        (b : Bool) (symbol : Symbol)
        → count_all (pushed canon (iter_symbol b symbol)) ≤ count_symbol symbol
    count-iter_symbol b (module_instance info body) = omega arith
    count-iter_symbol b (interface_instance info body) = omega arith
    count-iter_symbol b (uninstantiated_def box) = ground arith
    count-iter_symbol b (container kind uninstantiated scope) = ground (arith, count-iter b scope)
    count-iter_symbol b (import_symbol pkg) = omega arith
    count-iter_symbol b other = omega arith

    count-iter :
        (b : Bool) (scope : Scope)
        → count_all (pushed canon (iter_module_instances b scope)) ≤ count_scope scope
    count-iter b empty = omega arith
    count-iter b (member symbol scope) = omega (
      arith,
      ap count_all (pushed-append (iter_symbol b symbol) (iter_module_instances b scope)),
      count_all-append (pushed canon (iter_symbol b symbol))
          (pushed canon (iter_module_instances b scope)),
      count-iter_symbol b symbol,
      count-iter b scope,
    )

  -- As much fuel as there are instances below the stack is enough.
  walk_stack_total :
      (fuel : ℕ) (stack : List Instance) (walk : Walk)
      → count_all stack ≤ fuel
      → (final : Walk) × (walk_stack canon fuel stack walk ≡ some final)
  unfolding walk_stack count_all
  walk_stack_total fuel [] walk h = (walk, refl)
  walk_stack_total zero (inst ∷ stack) walk h = absurd (omega arith)
  walk_stack_total (suc fuel) (inst ∷ stack) walk h =
      elim (Bool-cases (is_seen canon walk (setting_of canon inst))) [
        | inl seen ↦
            let (final, e) = walk_stack_total fuel stack walk (omega arith) in
            (final, rw (seen, walk_stack) e)
        | inr new ↦
            let (final, e) =
              walk_stack_total fuel (kids canon inst ++ stack) (visit canon walk inst) (
                omega
                  (arith, count_all-append (kids canon inst) stack, count-iter true inst.body)) in
            (final, rw (new, walk_stack) e)
      ]

  -- With at least as much fuel as the tree below the tops has module instances, the walk returns,
  -- and in what it returns every top has been visited, and every visited setting has, under
  -- `insts` and under `children`, an instance of the tree with that definition and those parameter
  -- values and that instance's own children, each of which has been visited in turn.
  pub walk_instances_total :
      (fuel : ℕ) (tops : List Instance)
      → count_all tops ≤ fuel
      → (walk : Walk) × (walk_instances canon fuel tops ≡ some walk) × Inv canon tops [] walk
  unfolding walk_instances
  walk_instances_total fuel tops h =
      let (walk, e) = walk_stack_total fuel tops (start_walk canon tops) h in
      (walk, e, Inv-walk_stack canon tops fuel tops _ walk (Inv-start_walk canon tops) e)

  pub Inv-walk_instances :
      (fuel : ℕ) (tops : List Instance) (walk : Walk)
      → walk_instances canon fuel tops ≡ some walk
      → Inv canon tops [] walk
  unfolding walk_instances
  Inv-walk_instances fuel tops walk h =
      Inv-walk_stack canon tops fuel tops _ walk (Inv-start_walk canon tops) h

  -- What the code relies on: instances of one definition with the same parameter values elaborate
  -- the same way, so below them are the same settings.
  abbrev pub Uniform : List Instance → Type 0
  Uniform tops =
      (a b : Instance)
      → Reach canon tops a
      → Reach canon tops b
      → setting_of canon a ≡ setting_of canon b
      → map (setting_of canon) (kids canon a) ≡ map (setting_of canon) (kids canon b)

  Due-nil : (walk : Walk) (s : Setting) → Due canon walk [] s → is_seen canon walk s ≡ true
  Due-nil walk s (inl h) = h
  Due-nil walk s (inr (i, m, e)) = absurd (Memᴰ.not-nil m)

  reached-is_seen :
      (tops : List Instance) (walk : Walk) (inst : Instance)
      → Uniform tops
      → Inv canon tops [] walk
      → Reach canon tops inst
      → is_seen canon walk (setting_of canon inst) ≡ true
  reached-is_seen tops walk inst uniform v (top m) = Due-nil walk _ (v.tops_due inst m)
  reached-is_seen tops walk inst uniform v (below {parent} r m) =
      let s = v.stored (setting_of canon parent) (reached-is_seen tops walk parent uniform v r) in
      let listed =
        subst (Memᴰ (setting_of canon inst)) (sym (uniform s.inst parent s.reached r s.same))
          (Memᴰ.map (setting_of canon) m) in
      let (twin, i, e) = Memᴰ.of_map (setting_of canon) (kids canon s.inst) listed in
      subst (λ x. is_seen canon walk x ≡ true) e (Due-nil walk _ (s.due twin i))

  -- If instances with equal settings have children with the same settings, then a walk that
  -- returns has visited a setting exactly if some instance of the elaborated tree has it.
  pub walk_instances-Reach :
      (fuel : ℕ) (tops : List Instance) (walk : Walk) (s : Setting)
      → Uniform tops
      → walk_instances canon fuel tops ≡ some walk
      → (is_seen canon walk s ≡ true)
        ↔ ∥ ((inst : Instance) × Reach canon tops inst × (setting_of canon inst ≡ s)) ∥₁
  unfolding walk_instances
  walk_instances-Reach fuel tops walk s uniform h =
      let v = Inv-walk_stack canon tops fuel tops _ walk (Inv-start_walk canon tops) h in
      (
        λ seen. let x = v.stored s seen in ∣ (x.inst, x.reached, x.same) ∣₁,
        λ found. ∥∥₁_elim found (So-prop _) (λ (inst, r, e).
            subst (λ x. is_seen canon walk x ≡ true) e
              (reached-is_seen tops walk inst uniform v r)),
      )
