-- ===== src/Ghdl/Fragments/Unresolved.antt =====
-- Which modules `_fragment` (plugins/svhier-ghdl/src/svhier_ghdl/__init__.py) reports as missing.
use svhier.Base.{
  String, Bool, true, false, not, ◌||◌, ◌&&◌, some, List, [], ◌∷◌, map, ◌≡◌, sym, ap, ◌∙◌, arith,
  inl, inr, Bool-cases,
}
use svhier.Base.{◌==◌, ==_iff, ==_refl, contains, string_eq, if◌then◌else◌}
use svhier.Libsearch.Paths.{FilePath, path_of, path_text}
use svhier.Base.Dict.{
  or_default, Dict, keys, lookup, insert, get_or, get_or-update, lookup-insert, lookup-nil,
}
use svhier.Base.Lists.{any, add_if_new, contains-add_if_new}
use svhier.Result.{Inst, Definition, FileEntry, empty_fragment}
use svhier.Ghdl.Instances.{Defs}
use svhier.Ghdl.Collect.{Collected}
use svhier.Ghdl.Frontend.{Ghdl}
use svhier.Ghdl.Errors.{unique_errors, add_not_found}
use svhier.Ghdl.Errors.{library_of}
use svhier.Ghdl.Fragments.{
  Lacking, lack, lack_insts, lack_defs, lack_entries, entries_of, to_fragment,
}

abbrev pub wants : String → List Inst → Bool
wants m insts = any (λ (i : Inst). m == i.mod_name) insts

abbrev pub def_wants : String → List Definition → Bool
def_wants m ds = any (λ (d : Definition). wants m d.insts) ds

-- Some entry of this file has an instance of the module.
abbrev pub entry_wants : String → String → List FileEntry → Bool
entry_wants f m entries = any (λ (e : FileEntry). f == e.file_name && def_wants m e.defs) entries

abbrev users : String → Lacking → List String
users m l = get_or m [] l.modules

lack-users :
    (f g m n : String) (l : Lacking)
    → contains (users m (lack f n l)) g ≡ (contains (users m l) g || (m == n && g == f))
lack-users f g m n l =
    ap (λ us. contains us g) (get_or-update m n [] (λ us. add_if_new us f) l.modules)
    ∙ elim (Bool-cases (m == n)) [
      | inl same ↦ rw same (
          contains-add_if_new (get_or n [] l.modules) f g
          ∙ ap (λ k. contains (users k l) g || g == f) (sym ((==_iff m n).0 same)))
      | inr other ↦ rw other (ground arith)
    ]

spread_or :
    (a x k p q : Bool) → ((a || (x && (k && p))) || (x && (k && q))) ≡ (a || (x && (k && (p || q))))
spread_or a x k p q = ground arith

spread_or2 :
    (a x k p q : Bool) → ((a || (x && (k && p))) || (k && q)) ≡ (a || (k && ((x && p) || q)))
spread_or2 a x k p q = ground arith

none_wanted : (a x k : Bool) → a ≡ (a || (x && (k && false)))
none_wanted a x k = ground arith

lack_step-users :
    (defs : Defs) (f g m n : String) (l : Lacking)
    → contains (users m (if contains (keys defs) n then l else lack f n l)) g
      ≡ (contains (users m l) g || (g == f && (not (contains (keys defs) m) && m == n)))
lack_step-users defs f g m n l = elim (Bool-cases (m == n)) [
  | inl same ↦
      let e = (==_iff m n).0 same in
      elim (Bool-cases (contains (keys defs) n)) [
        | inl defined ↦
            let d : contains (keys defs) m ≡ true = rw e defined in rw (defined, d) (ground arith)
        | inr lacking ↦
            let d : contains (keys defs) m ≡ false = rw e lacking in
            rw (lacking, d, same) (lack-users f g m n l ∙ rw same (ground arith))
      ]
  | inr other ↦ elim (Bool-cases (contains (keys defs) n)) [
    | inl defined ↦
        rw (defined, other)
          (none_wanted (contains (users m l) g) (g == f) (not (contains (keys defs) m)))
    | inr lacking ↦ rw (lacking, other) (lack-users f g m n l ∙ rw other (ground arith))
  ]
]

lack_insts-users :
    (defs : Defs) (f g m : String) (insts : List Inst) (l : Lacking)
    → contains (users m (lack_insts defs f insts l)) g
      ≡ (contains (users m l) g || (g == f && (not (contains (keys defs) m) && wants m insts)))
unfolding lack_insts any
lack_insts-users defs f g m [] l =
    none_wanted (contains (users m l) g) (g == f) (not (contains (keys defs) m))
lack_insts-users defs f g m (i ∷ insts) l =
    lack_insts-users defs f g m insts
      (if contains (keys defs) i.mod_name then l else lack f i.mod_name l)
    ∙ ap (λ b. b || (g == f && (not (contains (keys defs) m) && wants m insts)))
        (lack_step-users defs f g m i.mod_name l)
    ∙ spread_or (contains (users m l) g) (g == f) (not (contains (keys defs) m)) (m == i.mod_name)
        (wants m insts)

lack_defs-users :
    (defs : Defs) (f g m : String) (ds : List Definition) (l : Lacking)
    → contains (users m (lack_defs defs f ds l)) g
      ≡ (contains (users m l) g || (g == f && (not (contains (keys defs) m) && def_wants m ds)))
unfolding lack_defs any
lack_defs-users defs f g m [] l =
    none_wanted (contains (users m l) g) (g == f) (not (contains (keys defs) m))
lack_defs-users defs f g m (d ∷ ds) l =
    lack_defs-users defs f g m ds (lack_insts defs f d.insts l)
    ∙ ap (λ b. b || (g == f && (not (contains (keys defs) m) && def_wants m ds)))
        (lack_insts-users defs f g m d.insts l)
    ∙ spread_or (contains (users m l) g) (g == f) (not (contains (keys defs) m)) (wants m d.insts)
        (def_wants m ds)

lack_entries-users :
    (defs : Defs) (g m : String) (entries : List FileEntry) (l : Lacking)
    → contains (users m (lack_entries defs entries l)) g
      ≡ (contains (users m l) g || (not (contains (keys defs) m) && entry_wants g m entries))
unfolding lack_entries any
lack_entries-users defs g m [] l = ground arith
lack_entries-users defs g m (e ∷ entries) l =
    lack_entries-users defs g m entries (lack_defs defs e.file_name e.defs l)
    ∙ ap (λ b. b || (not (contains (keys defs) m) && entry_wants g m entries))
        (lack_defs-users defs e.file_name g m e.defs l)
    ∙ spread_or2 (contains (users m l) g) (g == e.file_name) (not (contains (keys defs) m))
        (def_wants m e.defs) (entry_wants g m entries)

-- In the result, a file is reported to want a module exactly if nothing of that name is defined and
-- a definition in an entry of the file has an instance of it.
pub to_fragment-missing :
    {W : Type 0} (resolve : FilePath → FilePath) (auto : Bool) (c : Collected) (state : Ghdl W)
    (file m : String)
    → let fragment = to_fragment resolve auto c state in
      contains (get_or m [] (get_or "modules" [] fragment.missing)) file
      ≡ (not (contains (keys c.defs) m) && entry_wants file m fragment.files)
unfolding to_fragment
to_fragment-missing resolve auto c state file m =
    let l =
      lack_entries c.defs (entries_of (library_of state.libraries state.work) c)
        (record { unresolved = []; modules = [] }) in
    let unique = unique_errors c.errors [] in
    let names : Dict String String =
      map (λ f. (path_text (resolve (path_of f)), f)) (keys state.scan) in
    let others =
      insert "units" (add_not_found state.work names (keys unique) []) empty_fragment.missing in
    ap (λ o. contains (get_or m [] (or_default o [])) file)
      (lookup-insert "modules" "modules" l.modules others)
    ∙ ap
        (λ b.
          contains
            (get_or m [] (or_default (if b then some l.modules else lookup "modules" others) []))
            file)
        (==_refl {A = String} "modules")
    ∙ lack_entries-users c.defs file m (entries_of (library_of state.libraries state.work) c)
        (record { unresolved = []; modules = [] })
    ∙ ap
        (λ o.
          contains (or_default o []) file
          || (not (contains (keys c.defs) m)
              && entry_wants file m (entries_of (library_of state.libraries state.work) c)))
        (lookup-nil {V = List String} m)
