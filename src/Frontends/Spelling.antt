-- ===== src/Frontends/Spelling.antt =====
-- Names across languages: what `_Stitcher._merge` (src/svhier/frontends.py) leaves for the tree of
-- src/svhier/cli.py to look up.
pub mod Finished
use svhier.Base.{
  String, true, false, Option, none, some, List, [], ◌∷◌, ◌++◌, map, ◌≡◌, ◌↔◌, ◌⊎◌, inl, inr, refl,
  sym, ap, ◌∙◌, arith, Bool-cases, Option-cases,
}
use svhier.Base.{◌==◌, contains, string_eq}
use svhier.Base.Dict.{Dict, lookup, insert, lookup-insert, lookup-nil}
use svhier.Base.Lists.{All, flat_map}
use svhier.Base.Text.{lower}
use svhier.Result.{ParamSig, Inst, Definition, FileEntry, Fragment}
use svhier.Tree.{collect_units, collect_defs}
use svhier.Frontends.Merge.{
  spell_units, spellings, spelled, spell_inst, spell_unit, spell_file, finish,
}

abbrev unit_name : Definition → String
unit_name d = d.mod_name

abbrev pub lowered : Definition → String
lowered d = lower d.mod_name

abbrev pub units_in : List FileEntry → List Definition
units_in files = flat_map (λ (f : FileEntry). f.defs) files

-- A spelling is that of a definition, or was there before.
spell_units-lookup :
    (ds : List Definition) (names : Dict String String) (k v : String)
    → lookup k (spell_units ds names) ≡ some v
    → ((contains (map unit_name ds) v ≡ true) × (lower v ≡ k)) ⊎ (lookup k names ≡ some v)
unfolding spell_units
spell_units-lookup [] names k v h = inr h
spell_units-lookup (d ∷ ds) names k v h =
    let put = lookup-insert k (lower d.mod_name) d.mod_name names in
    elim (spell_units-lookup ds (insert (lower d.mod_name) d.mod_name names) k v h) [
      | inl (c, e) ↦ inl (ground (arith, c), e)
      | inr l ↦ elim (Bool-cases (k == lower d.mod_name)) [
        | inl same ↦
            let name : d.mod_name ≡ v = ground (arith, put) in
            inl (ground arith, rw (← name) (ground arith))
        | inr differs ↦ inr (ground (arith, put))
      ]
    ]

spell_units-none :
    (ds : List Definition) (names : Dict String String) (k : String)
    → (lookup k (spell_units ds names) ≡ none)
      ↔ ((contains (map lowered ds) k ≡ false) × (lookup k names ≡ none))
unfolding spell_units
spell_units-none [] names k = (λ h. (refl, h), λ (c, h). h)
spell_units-none (d ∷ ds) names k = ground (
  arith,
  lookup-insert k (lower d.mod_name) d.mod_name names,
  spell_units-none ds (insert (lower d.mod_name) d.mod_name names) k,
)

collect_units-none :
    (ds : List Definition) (defs : Dict String Definition) (n : String)
    → (lookup n (collect_units ds defs) ≡ none)
      ↔ ((contains (map unit_name ds) n ≡ false) × (lookup n defs ≡ none))
unfolding collect_units
collect_units-none [] defs n = (λ h. (refl, h), λ (c, h). h)
collect_units-none (d ∷ ds) defs n =
    ground
      (arith, lookup-insert n d.mod_name d defs, collect_units-none ds (insert d.mod_name d defs) n)

map-unit_name :
    (names : Dict String String) (ds : List Definition)
    → map unit_name (map (spell_unit names) ds) ≡ map unit_name ds
map-unit_name names [] = refl
map-unit_name names (d ∷ ds) = ap (d.mod_name ∷◌) (map-unit_name names ds)

pub map-append {ℓ κ} :
    {A : Type ℓ} {B : Type κ} (f : A → B) (xs ys : List A) → map f (xs ++ ys) ≡ map f xs ++ map f ys
map-append f [] ys = refl
map-append f (x ∷ xs) ys = ap (f x ∷◌) (map-append f xs ys)

pub units_in-spell_file :
    (names : Dict String String) (files : List FileEntry)
    → units_in (map (spell_file names) files) ≡ map (spell_unit names) (units_in files)
unfolding flat_map
units_in-spell_file names [] = refl
units_in-spell_file names (f ∷ files) =
    ap (map (spell_unit names) f.defs ++◌) (units_in-spell_file names files)
    ∙ sym (map-append (spell_unit names) f.defs (units_in files))

lower-mem :
    (ds : List Definition) (v : String)
    → contains (map unit_name ds) v ≡ true
    → contains (map lowered ds) (lower v) ≡ true
lower-mem [] v h = absurd (cc)
lower-mem (d ∷ ds) v h = elim (Bool-cases (v == d.mod_name)) [
  | inl same ↦ let e : v ≡ d.mod_name = ground arith in rw e (ground arith)
  | inr differs ↦ let rest = lower-mem ds v (ground arith) in ground arith
]

collect_defs-spell_file :
    (names : Dict String String) (files : List FileEntry) (n : String)
    → (lookup n (collect_defs (map (spell_file names) files)) ≡ none)
      ↔ (contains (map unit_name (units_in files)) n ≡ false)
unfolding collect_defs
collect_defs-spell_file names files n =
    let ds = units_in files in
    let (down, up) = collect_units-none (map (spell_unit names) ds) [] n in
    rw (units_in-spell_file names files) (
      λ h. rw (map-unit_name names ds) at (down h).0,
      λ c. up (rw (map-unit_name names ds) c, lookup-nil n),
    )

-- A spelled name finds a definition exactly if some language defines the name in any case.
pub spelled-collect_defs :
    (tops notes : List String) (merged : Fragment) (name : String)
    → (lookup
          (spelled (spellings merged.files) name)
          (collect_defs (finish tops notes merged).files)
        ≡ none)
      ↔ (contains (map lowered (units_in merged.files)) (lower name) ≡ false)
unfolding finish spellings
spelled-collect_defs tops notes merged name =
    let ds = units_in merged.files in
    let names = spell_units ds [] in
    let (down, up) = spell_units-none ds [] (lower name) in
    elim (Option-cases (lookup (lower name) names)) [
      | inl e ↦
          let found = collect_defs-spell_file names merged.files name in
          rw e (
            λ h. (down e).0,
            λ c. found.1 (elim (Bool-cases (contains (map unit_name ds) name)) [
              | inl there ↦ let l = lower-mem ds name there in absurd (cc)
              | inr gone ↦ gone
            ]),
          )
      | inr (v, e) ↦
          let found = collect_defs-spell_file names merged.files v in
          elim (spell_units-lookup ds [] (lower name) v e) [
            | inl (there, same) ↦
                let l = lower-mem ds v there in
                rw e (
                  λ h. let gone = found.0 h in absurd (cc),
                  λ c. let l' = rw same at l in absurd (cc),
                )
            | inr l ↦ let n = lookup-nil {V = String} (lower name) in absurd (cc)
          ]
    ]

-- A name is only spelled in another case.
pub lower-spelled :
    (files : List FileEntry) (name : String) → lower (spelled (spellings files) name) ≡ lower name
unfolding spellings
lower-spelled files name =
    let names = spell_units (units_in files) [] in
    elim (Option-cases (lookup (lower name) names)) [
      | inl e ↦ rw e refl
      | inr (v, e) ↦ elim (spell_units-lookup (units_in files) [] (lower name) v e) [
        | inl (there, same) ↦ rw e same
        | inr l ↦ let n = lookup-nil {V = String} (lower name) in absurd (cc)
      ]
    ]
