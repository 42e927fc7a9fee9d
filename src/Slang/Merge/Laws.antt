-- ===== src/Slang/Merge/Laws.antt =====
-- What merging another compilation of a unit keeps (`_merge_files` and `_merge_variants` of
-- src/svhier/slang_frontend.py).
use mathlib.Core.List.{append-nil, append_assoc}
use svhier.Base.{
  String, ◌||◌, Option, none, some, List, [], ◌∷◌, ◌++◌, map, ◌≡◌, refl, arith, ◌∙◌, ap, sym, inl,
  inr, Bool-cases,
}
use svhier.Base.{contains, string_eq, list_eq, if◌then◌else◌}
use svhier.Base.Dict.{Dict, lookup, set_default, lookup-set_default, lookup-cons}
use svhier.Base.Lists.{Nodup, contains-add_unique, Nodup-add_unique}
use svhier.Result.{ParamSig, Inst, inst_eq, Definition, FileEntry}
use svhier.Slang.Merge.{
  update_last, merge_settings, merge_unit, merge_entry, merge_entries, merge_files, entry_name,
  first_of,
}

abbrev pub first_some {ℓ} : {A : Type ℓ} → Option A → Option A → Option A
first_some none y = y
first_some (some x) y = some x

merge_settings-lookup :
    (base other : Dict ParamSig (List Inst)) (sig : ParamSig)
    → lookup sig (merge_settings base other) ≡ first_some (lookup sig base) (lookup sig other)
unfolding merge_settings lookup
merge_settings-lookup base [] sig = go (lookup sig base)
  where
    go : (x : Option (List Inst)) → x ≡ first_some x (lookup sig [])
    go none = refl
    go (some x) = refl
merge_settings-lookup base ((s, children) ∷ other) sig =
    merge_settings-lookup (set_default s children base) other sig
    ∙ ground (arith, lookup-set_default sig s children base, lookup-cons sig s children other)

-- A merged unit has the instances of both, without repeats if there were none; a setting has the
-- children of the first compilation that found it, and so has the top its setting.
pub merge_unit_lem :
    (other base : Definition)
    → let unit = merge_unit other base in
      ((i : Inst) → contains unit.insts i ≡ (contains base.insts i || contains other.insts i))
      × (Nodup base.insts → Nodup unit.insts)
      × ((p : String)
          → contains unit.pkg_imports p
            ≡ (contains base.pkg_imports p || contains other.pkg_imports p))
      × ((sig : ParamSig)
          → lookup sig unit.variants
            ≡ first_some (lookup sig base.variants) (lookup sig other.variants))
      × (unit.top_variant ≡ first_some base.top_variant other.top_variant)
unfolding merge_unit
merge_unit_lem other base = (
  contains-add_unique base.insts other.insts,
  Nodup-add_unique base.insts other.insts,
  contains-add_unique base.pkg_imports other.pkg_imports,
  merge_settings-lookup base.variants other.variants,
  top base.top_variant,
)
  where
    top : (x : Option ParamSig) → first_of x other.top_variant ≡ first_some x other.top_variant
    top none = refl
    top (some sig) = refl

update_last-names {ℓ} :
    {A : Type ℓ} (name_of : A → String) (name : String) (f : A → A) (xs : List A)
    → ((x : A) → name_of (f x) ≡ name_of x)
    → map name_of (update_last name_of name f xs) ≡ map name_of xs
unfolding update_last
update_last-names name_of name f [] same = refl
update_last-names name_of name f (x ∷ xs) same =
    ground (arith, update_last-names name_of name f xs same, same x)

-- The names that are not there yet.
abbrev pub new_names : List String → List FileEntry → List String
new_names known [] = []
new_names known (entry ∷ other) =
    let rest = new_names known other in
    if contains known entry.file_name then rest else entry.file_name ∷ rest

map-append {ℓ κ} :
    {A : Type ℓ} {B : Type κ} (f : A → B) (xs ys : List A) → map f (xs ++ ys) ≡ map f xs ++ map f ys
map-append f [] ys = refl
map-append f (x ∷ xs) ys = ap (f x ∷◌) (map-append f xs ys)

merge_entries-names :
    (known : List String) (base other : List FileEntry)
    → map entry_name (merge_entries known base other) ≡ map entry_name base ++ new_names known other
unfolding merge_entries merge_entry
merge_entries-names known base [] = sym (append-nil (map entry_name base))
merge_entries-names known base (entry ∷ other) =
    elim (Bool-cases (contains known entry.file_name)) [
      | inl there ↦
          rw (there, merge_entries)
            (merge_entries-names known
                (update_last entry_name entry.file_name (merge_entry entry) base) other
              ∙ ap (◌++ new_names known other) (
                  update_last-names entry_name entry.file_name (merge_entry entry) base
                    (λ x. refl)))
      | inr new ↦
          rw (new, merge_entries)
            (merge_entries-names known (base ++ entry ∷ []) other
              ∙ ap (◌++ new_names known other) (map-append entry_name base (entry ∷ []))
              ∙ append_assoc (map entry_name base) (entry.file_name ∷ []) (new_names known other))
    ]

-- Merging keeps the files and their order, and the files that only the other compilation has come
-- behind them, in its order.
pub merge_files-names :
    (base other : List FileEntry)
    → map entry_name (merge_files base other)
      ≡ map entry_name base ++ new_names (map entry_name base) other
unfolding merge_files
merge_files-names base other = merge_entries-names (map entry_name base) base other
