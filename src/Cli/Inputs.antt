-- ===== src/Cli/Inputs.antt =====
-- The paths that the command line of src/svhier/cli.py collects.
use svhier.Base.{true, false, ◌||◌, List, [], ◌∷◌, map, ◌≡◌, refl, arith, inl, inr, Bool-cases}
use svhier.Base.{contains, string_eq, nat_eq, list_eq}
use svhier.Base.Lists.{Nodup}
use svhier.Libsearch.Paths.{FilePath}
use svhier.Cli.{unique_paths}

module _ (resolve : FilePath → FilePath) where
  unique_paths-seen :
      (seen ps : List FilePath) (r : FilePath)
      → contains seen r ≡ true
      → contains (map resolve (unique_paths resolve seen ps)) r ≡ false
  unfolding unique_paths
  unique_paths-seen seen [] r h = refl
  unique_paths-seen seen (p ∷ ps) r h = elim (Bool-cases (contains seen (resolve p))) [
    | inl old ↦ rw (old, unique_paths) (unique_paths-seen seen ps r h)
    | inr new ↦
        let rest = unique_paths-seen (resolve p ∷ seen) ps r (ground arith) in
        rw (new, unique_paths) (ground arith)
  ]

  -- The collected paths are pairwise different once resolved, and every path that was found, and
  -- has not been seen before, resolves like one of them.
  unique_paths-resolve :
      (seen ps : List FilePath)
      → Nodup (map resolve (unique_paths resolve seen ps))
        × ((r : FilePath)
            → (contains (map resolve (unique_paths resolve seen ps)) r || contains seen r)
              ≡ (contains (map resolve ps) r || contains seen r))
  unfolding unique_paths
  unique_paths-resolve seen [] = (tt, λ r. refl)
  unique_paths-resolve seen (p ∷ ps) = elim (Bool-cases (contains seen (resolve p))) [
    | inl old ↦
        let (u, same) = unique_paths-resolve seen ps in
        rw (old, unique_paths) (u, λ r. ground (arith, same r))
    | inr new ↦
        let (u, same) = unique_paths-resolve (resolve p ∷ seen) ps in
        let fresh = unique_paths-seen (resolve p ∷ seen) ps (resolve p) (ground arith) in
        rw (new, unique_paths) ((fresh, u), λ r. ground (arith, same r))
  ]
