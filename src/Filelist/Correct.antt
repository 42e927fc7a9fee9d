-- ===== src/Filelist/Correct.antt =====
-- The lists that `compute_filelist` (src/svhier/filelist.py) returns, over a lawful
-- `nx.topological_sort`.
use Prim.Native.Nat.{ℕ, ◌<◌}
use mathlib.Core.List.{Memᴰ}
use svhier.Base.{String, Option, none, some, List, []}
use svhier.Base.{◌≡◌, ◌≢◌, ◌⊎◌, inl, inr, string_eq, pair_eq}
use svhier.Base.{arith, Option-cases}
use svhier.Base.Dict.{keys}
use svhier.Base.Lists.{Nodup}
use svhier.Result.{FileEntry}
use svhier.Filelist.{Sorter}
use svhier.Filelist.{keep_needed, order_files, compute_filelist, all_deps}
use svhier.Filelist.{file_names, edges}
use svhier.Filelist.Edges.{edges-collect_deps}
use svhier.Filelist.Order.{
  Before, Before-asymm, Before-trans, Depends, directly, through, IsTopologicalSort, Needs,
  Needs-edge, mod_table, pkg_table,
}
use svhier.Filelist.Order.{Acyclic}

module _ (sort : Sorter) (law : IsTopologicalSort sort) (files : List FileEntry) where
  abbrev sorted : Option (List String)
  sorted = sort (keys (all_deps files)) (edges (all_deps files))

  order_files-cases :
      ((sorted ≡ none) × (order_files sort files ≡ file_names files))
      ⊎ ((out : List String) × (sorted ≡ some out) × (order_files sort files ≡ out))
  unfolding order_files
  order_files-cases = elim (Option-cases sorted) [
    | inl e ↦ inl (e, ground arith)
    | inr (out, e) ↦ inr (out, e, ground arith)
  ]

  feasible_of_Acyclic : (rank : String → ℕ) → Acyclic files rank → sorted ≢ none
  unfolding all_deps edges
  feasible_of_Acyclic rank acyclic =
      law.feasible (keys (all_deps files)) (edges (all_deps files)) rank (
        edges-collect_deps (λ d g. rank d < rank g) (mod_table files) (pkg_table files) files []
          (λ d g h. absurd (cc)) (λ e d i h. acyclic e d i h))

  order_files-Before :
      (user definer : FileEntry)
      → Nodup (file_names files)
      → Memᴰ user files
      → Memᴰ definer files
      → definer.file_name ≢ user.file_name
      → Needs files user definer
      → sorted ≢ none
      → Before definer.file_name user.file_name (order_files sort files)
  order_files-Before user definer u i j other needs ok = elim order_files-cases [
    | inl (e, q) ↦ absurd (ok e)
    | inr (out, e, q) ↦ rw q (
        law.before _ _ out definer.file_name user.file_name e
          (Needs-edge files user definer u i j other needs))
  ]

  -- In a sorted list, what is depended on stands in front.
  Depends-Before :
      (user definer : FileEntry) (out : List String)
      → Nodup (file_names files)
      → sorted ≡ some out
      → Depends files user definer
      → Before definer.file_name user.file_name out
  Depends-Before user definer out u e (directly (i, j, other, needs)) =
      law.before _ _ out definer.file_name user.file_name e
        (Needs-edge files user definer u i j other needs)
  Depends-Before user definer out u e (through {middle = middle} (i, j, other, needs) rest) =
      Before-trans definer.file_name middle.file_name user.file_name out (law.nodup _ _ out e)
        (Depends-Before middle definer out u e rest)
        (law.before _ _ out middle.file_name user.file_name e
          (Needs-edge files user middle u i j other needs))

  order_files_cycle :
      (a : FileEntry)
      → Nodup (file_names files)
      → Depends files a a
      → order_files sort files ≡ file_names files
  order_files_cycle a u loop = elim order_files-cases [
    | inl (e, q) ↦ q
    | inr (out, e, q) ↦
        let before = Depends-Before a a out u e loop in
        absurd (Before-asymm a.file_name a.file_name out (law.nodup _ _ out e) before before)
  ]

module _ (sort : Sorter) (law : IsTopologicalSort sort) where
  -- Over a lawful topological sort, if the kept files have distinct names and no file
  -- transitively depends on itself (each has a higher rank than what it depends on), every file
  -- stands behind each other kept file that it needs: by an instance of a module, a reference to
  -- a package or interface, that one kept file alone supplies unshadowed, or by `depends_on`.
  pub compute_filelist-Before :
      (files : List FileEntry) (needed : Option (List String)) (rank : String → ℕ)
      (user definer : FileEntry)
      → Nodup (file_names (keep_needed files needed))
      → Acyclic (keep_needed files needed) rank
      → Memᴰ user (keep_needed files needed)
      → Memᴰ definer (keep_needed files needed)
      → definer.file_name ≢ user.file_name
      → Needs (keep_needed files needed) user definer
      → Before definer.file_name user.file_name (compute_filelist sort files needed)
  unfolding compute_filelist
  compute_filelist-Before files needed rank user definer u acyclic i j other needs =
      let kept = keep_needed files needed in
      order_files-Before sort law kept user definer u i j other needs
        (feasible_of_Acyclic sort law kept rank acyclic)

  -- Over a lawful topological sort, if the kept files have distinct names and some kept file depends
  -- on itself through a chain of kept files, of any length, each of which needs the next, then the
  -- kept files come back in their input order.
  pub compute_filelist_cycle :
      (files : List FileEntry) (needed : Option (List String)) (a : FileEntry)
      → Nodup (file_names (keep_needed files needed))
      → Depends (keep_needed files needed) a a
      → compute_filelist sort files needed ≡ file_names (keep_needed files needed)
  unfolding compute_filelist
  compute_filelist_cycle files needed = order_files_cycle sort law (keep_needed files needed)
