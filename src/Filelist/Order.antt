-- ===== src/Filelist/Order.antt =====
-- `compute_filelist` (src/svhier/filelist.py) against the documented behaviour of
-- `nx.topological_sort`.
use Prim.Native.Nat.{ℕ, ◌<◌}
use mathlib.Core.List.{Memᴰ}
use mathlib.Core.List.Memᴰ
use svhier.Base.{String, true, ◌||◌, none, some, List, [], ◌∷◌, ◌++◌}
use svhier.Base.{◌≡◌, ◌≢◌, ◌⊎◌, inl, inr, contains, string_eq, pair_eq}
use svhier.Base.{arith}
use svhier.Base.Dict.{Dict}
use svhier.Base.Lists.{Nodup}
use svhier.Result.{FileEntry}
use svhier.Filelist.{Edge, Sorter, inst_names, import_names, file_deps, index_files}
use svhier.Filelist.{mod_names, pkg_names, all_deps}
use svhier.Filelist.{file_names, edges}
use svhier.Filelist.Tables.{Supplies, contains-file_deps, lookup-index_files}
use svhier.Filelist.Tables.{lookup-collect_deps, Provides-file}
use svhier.Filelist.Edges.{contains-edges, endpoints}

-- `a` stands in front of `b`.
abbrev pub Before : String → String → List String → Type 0
Before a b [] = ⊥
Before a b (x ∷ xs) = (a ≡ x) × (contains xs b ≡ true) ⊎ Before a b xs

-- What networkx documents: the order has every node of the graph once, an edge's source first, and
-- only a graph with a cycle has none.
pub record IsTopologicalSort (topological_sort : Sorter) : Type 0 where
  pub mem :
      (nodes : List String) (es : List Edge) (out : List String) (f : String)
      → topological_sort nodes es ≡ some out
      → contains out f ≡ (contains nodes f || contains (endpoints es) f)
  pub nodup :
      (nodes : List String) (es : List Edge) (out : List String)
      → topological_sort nodes es ≡ some out
      → Nodup out
  pub before :
      (nodes : List String) (es : List Edge) (out : List String) (d f : String)
      → topological_sort nodes es ≡ some out
      → contains {A = Edge} es (d, f) ≡ true
      → Before d f out
  pub feasible :
      (nodes : List String) (es : List Edge) (rank : String → ℕ)
      → ((d f : String) → contains {A = Edge} es (d, f) ≡ true → rank d < rank f)
      → topological_sort nodes es ≢ none

Before-contains : (a b : String) (xs : List String) → Before a b xs → contains xs b ≡ true
Before-contains a b [] h = absurd h
Before-contains a b (x ∷ xs) (inl h) = ground arith
Before-contains a b (x ∷ xs) (inr h) = ground (arith, Before-contains a b xs h)

pub Before-asymm : (a b : String) (xs : List String) → Nodup xs → Before a b xs → Before b a xs → ⊥
Before-asymm a b [] u h k = h
Before-asymm a b (x ∷ xs) u (inl h) (inl k) = ground arith
Before-asymm a b (x ∷ xs) u (inl h) (inr k) = ground (arith, Before-contains b a xs k)
Before-asymm a b (x ∷ xs) u (inr h) (inl k) = ground (arith, Before-contains a b xs h)
Before-asymm a b (x ∷ xs) u (inr h) (inr k) = Before-asymm a b xs u.1 h k

pub Before-trans :
    (a b c : String) (xs : List String) → Nodup xs → Before a b xs → Before b c xs → Before a c xs
Before-trans a b c [] u h k = h
Before-trans a b c (x ∷ xs) u (inl (e, h)) (inl (d, k)) = inl (e, k)
Before-trans a b c (x ∷ xs) u (inl (e, h)) (inr k) = inl (e, Before-contains b c xs k)
Before-trans a b c (x ∷ xs) u (inr h) (inl k) = absurd (ground (arith, Before-contains a b xs h))
Before-trans a b c (x ∷ xs) u (inr h) (inr k) = inr (Before-trans a b c xs u.1 h k)

-- Of the files, only `definer` supplies the name.
abbrev pub OnlySupplier : (FileEntry → List String) → List FileEntry → FileEntry → String → Type 0
OnlySupplier names files definer m =
    Supplies names definer m
    × ((e : FileEntry) → Memᴰ e files → Supplies names e m → e.file_name ≡ definer.file_name)

-- The ways in which a file depends on another one.
pub data Needs (files : List FileEntry) (user definer : FileEntry) : Type 0 where
  instantiates :
      (m : String)
      → contains (inst_names user) m ≡ true
      → OnlySupplier mod_names files definer m
      → Needs files user definer
  refers :
      (p : String)
      → contains (import_names user ++ user.refs) p ≡ true
      → OnlySupplier pkg_names files definer p
      → Needs files user definer
  declares : contains user.depends_on definer.file_name ≡ true → Needs files user definer

-- One of the files needs another one of them, with another name.
abbrev pub NeedsOther : List FileEntry → FileEntry → FileEntry → Type 0
NeedsOther files user definer =
    Memᴰ user files
    × Memᴰ definer files
    × (definer.file_name ≢ user.file_name)
    × Needs files user definer

-- A chain of at least one need leads from one file to another.
pub data Depends (files : List FileEntry) : FileEntry → FileEntry → Type 0 where
  directly : {user definer : FileEntry} → NeedsOther files user definer → Depends files user definer
  through :
      {user middle definer : FileEntry}
      → NeedsOther files user middle
      → Depends files middle definer
      → Depends files user definer

abbrev pub mod_table : List FileEntry → Dict String String
mod_table files = index_files mod_names files []

abbrev pub pkg_table : List FileEntry → Dict String String
pkg_table files = index_files pkg_names files []

abbrev pub deps_of : List FileEntry → FileEntry → List String
deps_of files e = file_deps e (mod_table files) (pkg_table files)

Needs-contains :
    (files : List FileEntry) (user definer : FileEntry)
    → Memᴰ definer files
    → definer.file_name ≢ user.file_name
    → Needs files user definer
    → contains (deps_of files user) definer.file_name ≡ true
Needs-contains files user definer i other (instantiates m h (s, only)) =
    (contains-file_deps user (mod_table files) (pkg_table files) definer.file_name).1
      (other, inl (m, h, lookup-index_files mod_names files [] m definer i s only))
Needs-contains files user definer i other (refers p h (s, only)) =
    (contains-file_deps user (mod_table files) (pkg_table files) definer.file_name).1
      (other, inr (inl (p, h, lookup-index_files pkg_names files [] p definer i s only)))
Needs-contains files user definer i other (declares h) =
    (contains-file_deps user (mod_table files) (pkg_table files) definer.file_name).1
      (other, inr (inr h))

-- An edge leads from a file that another one needs to that one.
pub Needs-edge :
    (files : List FileEntry) (user definer : FileEntry)
    → Nodup (file_names files)
    → Memᴰ user files
    → Memᴰ definer files
    → definer.file_name ≢ user.file_name
    → Needs files user definer
    → contains {A = Edge} (edges (all_deps files)) (definer.file_name, user.file_name) ≡ true
unfolding all_deps
Needs-edge files user definer u i j other needs =
    contains-edges (all_deps files) definer.file_name user.file_name (deps_of files user)
      (lookup-collect_deps (mod_table files) (pkg_table files) files [] user u i)
      (Needs-contains files user definer j other needs)

abbrev pub Acyclic : List FileEntry → (String → ℕ) → Type 0
Acyclic files rank =
    (e : FileEntry) (d : String)
    → Memᴰ e files
    → contains (deps_of files e) d ≡ true
    → rank d < rank e.file_name

-- The files that `depends_on` names are among the files.
abbrev pub ClosedDeps : List FileEntry → Type 0
ClosedDeps files =
    (e : FileEntry) (d : String)
    → Memᴰ e files
    → contains e.depends_on d ≡ true
    → contains (file_names files) d ≡ true

pub contains-file_names :
    (files : List FileEntry) (e : FileEntry)
    → Memᴰ e files
    → contains (file_names files) e.file_name ≡ true
contains-file_names [] e i = absurd (Memᴰ.not-nil i)
contains-file_names (x ∷ files) e (Memᴰ.head q) = rw q (ground arith)
contains-file_names (x ∷ files) e (Memᴰ.tail i) = ground (arith, contains-file_names files e i)

pub deps_of-file :
    (files : List FileEntry) (e : FileEntry) (d : String)
    → ClosedDeps files
    → Memᴰ e files
    → contains (deps_of files e) d ≡ true
    → contains (file_names files) d ≡ true
deps_of-file files e d closed i h =
    elim ((contains-file_deps e (mod_table files) (pkg_table files) d).0 h).1 [
      | inl p ↦ Provides-file mod_names files (inst_names e) d p
      | inr (inl p) ↦ Provides-file pkg_names files (import_names e ++ e.refs) d p
      | inr (inr c) ↦ closed e d i c
    ]
