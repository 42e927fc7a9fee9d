-- ===== src/Slang/Search.antt =====
-- `_pull_missing` and `provide` of src/svhier/slang_frontend.py: what `-y` adds to the files and the
-- include directories. `Path.resolve` and the search of the directories are arguments.
use svhier.Base.{ℕ, String, Bool, true, false, not, ◌||◌, List, [], ◌∷◌, ◌++◌}
use svhier.Base.{contains, string_eq}
use svhier.Base.Dict.{Dict, insert, get_or}
use svhier.Base.Lists.{filter, add_if_new}
use svhier.Base.Text.{lower}
use svhier.Result.{Missing}
use svhier.Libsearch.{LibraryIndex, resolve_missing, find, pull}
use svhier.Libsearch.Paths.{FilePath, path_text}

-- What a search changes: the lists that grow in place, and what is recorded as pulled.
pub record Searched : Type 0 where
  pub files : List String
  pub inc_dirs : List String
  pub pulled : List (String × (FilePath × ℕ))

-- What is missing, without the modules that another language defines.
abbrev pub wanted : List String → Missing → Missing
wanted elsewhere missing =
    insert "modules"
      (filter (λ (entry : String × List String). not (contains elsewhere (lower entry.0)))
        (get_or "modules" [] missing))
      missing

unfoldable pub add_found : Dict String (FilePath × ℕ) → Searched → Searched
add_found [] st = st
add_found ((name, (path, others)) ∷ found) st = add_found found (record st {
  files = add_if_new st.files (path_text path);
  pulled = st.pulled ++ (name, (path, others)) ∷ [];
})

unfoldable pub add_incs : Dict String FilePath → Searched → Searched
add_incs [] st = st
add_incs ((include, directory) ∷ incs) st = add_incs incs (record st {
  inc_dirs = add_if_new st.inc_dirs (path_text directory);
  pulled = st.pulled ++ (include, (directory, 0)) ∷ [];
})

-- `bool(d)`
abbrev pub has_any {ℓ} : {V : Type ℓ} → Dict String V → Bool
has_any [] = false
has_any (entry ∷ d) = true

module _ (resolve : FilePath → FilePath) (library : LibraryIndex)
    (files_named : String → List FilePath) where
  -- `_pull_missing`, for the files that were loaded.
  unfoldable pub pull_missing : List String → Missing → List String → Searched → Bool × Searched
  unfolding resolve_missing filter add_found add_incs
  pull_missing elsewhere missing loaded st =
      let (found, incs) =
        resolve_missing resolve (wanted elsewhere missing) library files_named loaded st.inc_dirs in
      (has_any found || has_any incs, add_incs incs (add_found found st))

  -- `provide`, after which the units are read again where it returns true.
  unfoldable pub provide : String → Searched → Bool × Searched
  unfolding find pull
  provide name st =
      let (found, others) = find library name in
      elim found [
        | [] ↦ (false, st)
        | best ∷ more ↦
            let (added, (files, pulled)) =
              pull resolve name (best ∷ more) others st.files st.pulled in
            (true, record st { files = files; pulled = pulled })
      ]
