-- ===== src/Libsearch/Includes.antt =====
-- Where `LibraryIndex.find_include_dir` (src/svhier/libsearch.py) finds an include.
use svhier.Base.{String, true, false, ◌||◌, none, some, List, [], ◌∷◌, ◌++◌}
use svhier.Base.{
  ◌≡◌, ◌≢◌, inl, inr, sym, ap, ◌∙◌, arith, Bool-cases, ◌==◌, contains, string_eq, list_eq, pair_eq,
}
use svhier.Base.Lists.{length, filter, List-cases, contains-filter}
use svhier.Base.Text.{leb}
use svhier.Libsearch.Paths.{
  FilePath, path_of, last_part, is_absolute, drop_end, take_end, drop_end-take_end,
}
use svhier.Libsearch.{is_match, header_le, min_header, find_include_dir}

min_header-mem :
    (best : FilePath) (hs : List FilePath) → contains (best ∷ hs) (min_header best hs) ≡ true
unfolding min_header
min_header-mem best [] = ground arith
min_header-mem best (h ∷ hs) = elim (Bool-cases (header_le best h)) [
  | inl e ↦ let m = min_header-mem best hs in rw e (ground arith)
  | inr e ↦ let m = min_header-mem h hs in rw e (ground arith)
]

-- The directory that is found for an include, followed by the include's own parts, is the path of
-- a file of that name below the library directories, and longer than the include; and no
-- directory is found for an include that is empty, absolute or goes up by `..`.
pub find_include_dir-path :
    (files_named : String → List FilePath) (include : String) (d : FilePath)
    → find_include_dir files_named include ≡ some d
    → (contains (files_named (last_part (path_of include))) (d ++ path_of include) ≡ true)
      × (leb (length (d ++ path_of include)) (length (path_of include)) ≡ false)
      × (path_of include ≢ [])
      × (is_absolute (path_of include) ≡ false)
      × (contains (path_of include) ".." ≡ false)
unfolding find_include_dir
find_include_dir-path files_named include d h =
    let parts = path_of include in
    elim (Bool-cases (parts == [] || (is_absolute parts || contains parts ".."))) [
      | inl refused ↦ let wrong : none ≡ some d = rw (refused, find_include_dir) at h in absurd (cc)
      | inr plain ↦
          let named = files_named (last_part parts) in
          elim (List-cases (filter (is_match parts) named)) [
            | inl e ↦
                let wrong : none ≡ some d = rw (plain, e, find_include_dir) at h in absurd (cc)
            | inr (b, hs, e) ↦
                let best = min_header b hs in
                let found : drop_end (length parts) best ≡ d =
                  let h' = rw (plain, e, find_include_dir) at h in cc in
                let m : contains (filter (is_match parts) named) best ≡ true =
                  rw e (min_header-mem b hs) in
                let (there, fits) = (contains-filter (is_match parts) named best).0 m in
                let tail : take_end (length parts) best ≡ parts = ground arith in
                let whole : d ++ parts ≡ best =
                  ap (◌++ parts) (sym found)
                  ∙ ap (drop_end (length parts) best ++◌) (sym tail)
                  ∙ drop_end-take_end (length parts) best in
                (
                  rw whole there,
                  rw whole (ground arith),
                  λ empty. ground arith,
                  ground arith,
                  ground arith,
                )
          ]
    ]
