-- ===== src/Filelist/Edges.antt =====
-- The graph that `compute_filelist` (src/svhier/filelist.py) builds: its nodes and edges.
use mathlib.Core.List.{Memᴰ}
use svhier.Base.{String, Bool, true, ◌||◌, some, List, [], ◌∷◌, map}
use svhier.Base.{◌≡◌, refl, ◌↔◌, ◌⊎◌, inl, inr, ◌==◌, contains, string_eq, pair_eq}
use svhier.Base.{arith}
use svhier.Base.Dict.{Dict, keys, lookup, insert}
use svhier.Base.Lists.{contains-append}
use svhier.Result.{FileEntry}
use svhier.Filelist.{Edge, file_deps, file_names, collect_deps, edges, all_deps}

contains-map_edge :
    (ds : List String) (x d f : String)
    → (contains {A = Edge} (map (λ y. (y, x)) ds) (d, f) ≡ true)
      ↔ ((f ≡ x) × (contains ds d ≡ true))
contains-map_edge [] x d f = (λ h. cc, λ h. cc)
contains-map_edge (y ∷ ds) x d f = ground (arith, contains-map_edge ds x d f)

pub contains-edges :
    (deps : Dict String (List String)) (d f : String) (fdeps : List String)
    → lookup f deps ≡ some fdeps
    → contains fdeps d ≡ true
    → contains {A = Edge} (edges deps) (d, f) ≡ true
unfolding edges lookup
contains-edges [] d f fdeps e h = cc
contains-edges ((g, gdeps) ∷ deps) d f fdeps e h = ground (
  arith,
  contains-edges deps d f fdeps,
  contains-append {A = Edge} (map (λ x. (x, g)) gdeps) (edges deps) (d, f),
  contains-map_edge gdeps g d f,
)

edges-insert :
    (deps : Dict String (List String)) (f : String) (fdeps : List String) (d g : String)
    → contains {A = Edge} (edges (insert f fdeps deps)) (d, g) ≡ true
    → ((g ≡ f) × (contains fdeps d ≡ true)) ⊎ (contains {A = Edge} (edges deps) (d, g) ≡ true)
unfolding edges insert
edges-insert [] f fdeps d g h = ground (
  arith,
  contains-append {A = Edge} (map (λ x. (x, f)) fdeps) [] (d, g),
  contains-map_edge fdeps f d g,
)
edges-insert ((x, xs) ∷ deps) f fdeps d g h = ground (
  arith,
  edges-insert deps f fdeps d g,
  contains-append {A = Edge} (map (λ y. (y, x)) fdeps) (edges deps) (d, g),
  contains-append {A = Edge} (map (λ y. (y, x)) xs) (edges deps) (d, g),
  contains-append {A = Edge} (map (λ y. (y, x)) xs) (edges (insert f fdeps deps)) (d, g),
  contains-map_edge xs x d g,
  contains-map_edge fdeps x d g,
)

-- Every edge comes from the dependencies of one of the files.
pub edges-collect_deps :
    (P : String → String → Type 0) (mods pkgs : Dict String String) (files : List FileEntry)
    (deps : Dict String (List String))
    → ((d g : String) → contains {A = Edge} (edges deps) (d, g) ≡ true → P d g)
    → ((e : FileEntry) (d : String)
        → Memᴰ e files
        → contains (file_deps e mods pkgs) d ≡ true
        → P d e.file_name)
    → (d g : String) → contains {A = Edge} (edges (collect_deps mods pkgs files deps)) (d, g) ≡ true
    → P d g
unfolding collect_deps
edges-collect_deps P mods pkgs [] deps old new d g h = old d g h
edges-collect_deps P mods pkgs (e ∷ files) deps old new d g h =
    edges-collect_deps P mods pkgs files (insert e.file_name (file_deps e mods pkgs) deps)
      (λ x y k. elim (edges-insert deps e.file_name (file_deps e mods pkgs) x y k) [
        | inl (q, c) ↦ rw q (new e x (Memᴰ.head refl) c)
        | inr c ↦ old x y c
      ])
      (λ x y i k. new x y (Memᴰ.tail i) k) d g h

abbrev pub endpoints : List Edge → List String
endpoints [] = []
endpoints ((d, f) ∷ es) = d ∷ f ∷ endpoints es

contains-keys-insert :
    (deps : Dict String (List String)) (f g : String) (fdeps : List String)
    → contains (keys (insert f fdeps deps)) g ≡ (g == f || contains (keys deps) g)
unfolding keys insert
contains-keys-insert [] f g fdeps = refl
contains-keys-insert ((x, xs) ∷ deps) f g fdeps =
    ground (arith, contains-keys-insert deps f g fdeps)

contains-keys-collect_deps :
    (mods pkgs : Dict String String) (files : List FileEntry) (deps : Dict String (List String))
    (g : String)
    → contains (keys (collect_deps mods pkgs files deps)) g
      ≡ (contains (keys deps) g || contains (file_names files) g)
unfolding collect_deps
contains-keys-collect_deps mods pkgs [] deps g = ground arith
contains-keys-collect_deps mods pkgs (e ∷ files) deps g = ground (
  arith,
  contains-keys-collect_deps mods pkgs files (insert e.file_name (file_deps e mods pkgs) deps) g,
  contains-keys-insert deps e.file_name g (file_deps e mods pkgs),
)

-- The nodes are the files' names.
pub contains-keys-all_deps :
    (files : List FileEntry) (g : String)
    → contains (keys (all_deps files)) g ≡ contains (file_names files) g
unfolding all_deps keys
contains-keys-all_deps files g = contains-keys-collect_deps _ _ files [] g

-- What holds of both ends of every edge holds of every node that an edge names.
pub contains-endpoints :
    (es : List Edge) (p : String → Bool)
    → ((d f : String) → contains {A = Edge} es (d, f) ≡ true → (p d ≡ true) × (p f ≡ true))
    → (g : String) → contains (endpoints es) g ≡ true
    → p g ≡ true
contains-endpoints [] p each g h = cc
contains-endpoints ((d, f) ∷ es) p each g h =
    let both = each d f (ground arith) in
    let rest = contains-endpoints es p (λ x y k. each x y (ground arith)) g in
    ground (arith, both, rest)
