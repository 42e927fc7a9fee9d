-- ===== src/Frontends/Spelling/Finished.antt =====
-- What `_Stitcher._merge` (src/svhier/frontends.py) leaves of the instances in the finished files.
use svhier.Base.{
  String, false, Option, none, List, [], ◌∷◌, ◌++◌, map, ◌≡◌, ◌↔◌, refl, sym, ap, ◌∙◌,
}
use svhier.Base.{contains, string_eq}
use svhier.Base.Dict.{Dict, lookup}
use svhier.Base.Lists.{All, flat_map}
use svhier.Base.Text.{lower}
use svhier.Result.{ParamSig, Inst, Definition, FileEntry, Fragment}
use svhier.Tree.{collect_defs}
use svhier.Frontends.Merge.{spellings, spell_inst, spell_unit, spell_file, finish}
use svhier.Frontends.Spelling.{
  lowered, units_in, map-append, units_in-spell_file, lower-spelled, spelled-collect_defs,
}

-- The instances in a definition and in each of its settings.
abbrev setting_insts : ParamSig × List Inst → List Inst
setting_insts (sig, children) = children

abbrev all_insts : Definition → List Inst
all_insts d = d.insts ++ flat_map setting_insts d.variants

abbrev pub insts_in : List FileEntry → List Inst
insts_in files = flat_map all_insts (units_in files)

setting_insts-spell_inst :
    (names : Dict String String) (variants : Dict ParamSig (List Inst))
    → flat_map setting_insts
        (map (λ (sig, children). (sig, map (spell_inst names) children)) variants)
      ≡ map (spell_inst names) (flat_map setting_insts variants)
unfolding flat_map
setting_insts-spell_inst names [] = refl
setting_insts-spell_inst names ((sig, children) ∷ variants) =
    ap (map (spell_inst names) children ++◌) (setting_insts-spell_inst names variants)
    ∙ sym (map-append (spell_inst names) children (flat_map setting_insts variants))

all_insts-spell_unit :
    (names : Dict String String) (d : Definition)
    → all_insts (spell_unit names d) ≡ map (spell_inst names) (all_insts d)
all_insts-spell_unit names d =
    ap (map (spell_inst names) d.insts ++◌) (setting_insts-spell_inst names d.variants)
    ∙ sym (map-append (spell_inst names) d.insts (flat_map setting_insts d.variants))

units-spell_unit :
    (names : Dict String String) (ds : List Definition)
    → flat_map all_insts (map (spell_unit names) ds)
      ≡ map (spell_inst names) (flat_map all_insts ds)
unfolding flat_map
units-spell_unit names [] = refl
units-spell_unit names (d ∷ ds) =
    rw (all_insts-spell_unit names d, units-spell_unit names ds)
      (sym (map-append (spell_inst names) (all_insts d) (flat_map all_insts ds)))

insts_in-spell_file :
    (names : Dict String String) (files : List FileEntry)
    → insts_in (map (spell_file names) files) ≡ map (spell_inst names) (insts_in files)
insts_in-spell_file names files =
    ap (flat_map all_insts) (units_in-spell_file names files)
    ∙ units-spell_unit names (units_in files)

-- Where an instance is named, and what it instantiates but for case.
abbrev pub caseless : Inst → String × (String × Option ParamSig)
caseless i = (lower i.mod_name, (i.inst_name, i.variant))

All-map :
    (P : Inst → Type 0) (f : Inst → Inst) (is : List Inst)
    → ((i : Inst) → P (f i))
    → All P (map f is)
All-map P f [] h = tt
All-map P f (i ∷ is) h = (h i, All-map P f is h)

caseless-spell_inst :
    (files : List FileEntry) (is : List Inst)
    → map caseless (map (spell_inst (spellings files)) is) ≡ map caseless is
caseless-spell_inst files [] = refl
caseless-spell_inst files (i ∷ is) =
    rw (lower-spelled files i.mod_name, caseless-spell_inst files is) refl

-- The name of each instance in the finished files, those in the settings of a definition included,
-- finds a definition there exactly if some language defines that name in any case. The instances
-- are the merged ones in their order, with their names and settings, and only the case of what
-- they instantiate may differ.
pub finish-insts_in :
    (tops notes : List String) (merged : Fragment)
    → All
        (λ (i : Inst).
          (lookup i.mod_name (collect_defs (finish tops notes merged).files) ≡ none)
          ↔ (contains (map lowered (units_in merged.files)) (lower i.mod_name) ≡ false))
        (insts_in (finish tops notes merged).files)
      × (map caseless (insts_in (finish tops notes merged).files)
          ≡ map caseless (insts_in merged.files))
unfolding finish
finish-insts_in tops notes merged =
    let names = spellings merged.files in
    let spelt = insts_in-spell_file names merged.files in
    (
      rw spelt (
          All-map
            (λ (i : Inst).
              (lookup i.mod_name (collect_defs (finish tops notes merged).files) ≡ none)
              ↔ (contains (map lowered (units_in merged.files)) (lower i.mod_name) ≡ false))
            (spell_inst names) (insts_in merged.files)
            (λ i.
              rw (lower-spelled merged.files i.mod_name)
                (spelled-collect_defs tops notes merged i.mod_name))),
      ap (map caseless) spelt ∙ caseless-spell_inst merged.files (insts_in merged.files),
    )
