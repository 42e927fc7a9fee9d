-- ===== src/Slang/CommandFiles/Ends.antt =====
-- That reading command files (src/svhier/slang_frontend.py) ends, also where they read each other.
use svhier.Base.{
  ℕ, zero, suc, ◌≤◌, ◌<◌, String, true, not, ◌&&◌, Option, none, some, List, [], ◌∷◌, ◌≡◌, ◌≢◌,
  refl, arith, inl, inr, Bool-cases, Option-cases,
}
use svhier.Base.{◌==◌, ==_refl, contains, string_eq, list_eq, if◌then◌else◌}
use svhier.Base.Left.{left, left-length, left_le, left_lt}
use svhier.Base.Lists.{length}
use svhier.Cli.{suffix_of}
use svhier.Libsearch.Paths.{FilePath, path_of, drop_end}
use svhier.Slang.CommandFiles.{
  Entries, below, flag_of, is_option, add_entry, Reader, and_then, read_tokens, read,
  read_command_files, files_in_command_files,
}

module _ (readable : List FilePath) where
  -- How many files there are to read.
  abbrev unread : Entries → ℕ
  unread (found, seen) = left (λ p. p) readable seen

  -- A reading that ends, with no more to read than before.
  abbrev Returns : Entries → Option Entries → Type 0
  Returns st reading = (st1 : Entries) × (reading ≡ some st1) × (unread st1 ≤ unread st)

  abbrev ReadsBelow : ℕ → Reader → Type 0
  ReadsBelow bound reader =
      (path base : FilePath) (st : Entries) → unread st ≤ bound → Returns st (reader path base st)

  and_then-Returns :
      (bound : ℕ) (st : Entries) (reading : Option Entries) (rest : Entries → Option Entries)
      → unread st ≤ bound
      → Returns st reading
      → ((st1 : Entries) → unread st1 ≤ bound → Returns st1 (rest st1))
      → Returns st (and_then reading rest)
  and_then-Returns bound st reading rest le (st1, e, less) more =
      let (st2, e2, less2) = more st1 (omega (arith, le, less)) in
      (st2, rw e e2, omega (arith, less, less2))

  module _ (suffixes : List String) where
    unread-add_entry :
        (token : String) (base : FilePath) (st : Entries)
        → unread (add_entry suffixes token base st) ≡ unread st
    unread-add_entry token base (found, seen) =
        elim (Bool-cases (not (is_option token) && contains suffixes (suffix_of token))) [
          | inl entry ↦ rw entry refl
          | inr other ↦ rw other refl
        ]

    read_tokens-Returns :
        (bound : ℕ) (reader : Reader) (tokens : List String) (base : FilePath) (st : Entries)
        → ReadsBelow bound reader
        → unread st ≤ bound
        → Returns st (read_tokens suffixes reader tokens base st)
    unfolding read_tokens
    read_tokens-Returns bound reader [] base st ends le = (st, refl, omega arith)
    read_tokens-Returns bound reader (token ∷ []) base st ends le =
        elim (Option-cases (flag_of token)) [
          | inl plain ↦
              rw (plain, read_tokens)
                (
                  add_entry suffixes token base st,
                  refl,
                  omega (arith, unread-add_entry token base st),
                )
          | inr ((is_up, rest), flag) ↦
              let nested = below base rest in
              rw (flag, read_tokens) (ends nested (if is_up then drop_end 1 nested else base) st le)
        ]
    read_tokens-Returns bound reader (token ∷ next ∷ tokens) base st ends le =
        elim (Option-cases (flag_of token)) [
          | inl plain ↦
              let same = unread-add_entry token base st in
              let (st1, e, less) =
                read_tokens-Returns bound reader (next ∷ tokens) base
                  (add_entry suffixes token base st) ends (omega (arith, same, le)) in
              rw (plain, read_tokens) (st1, e, omega (arith, same, less))
          | inr ((is_up, rest), flag) ↦ elim (Bool-cases (rest == "")) [
            | inl empty ↦
                let nested = below base next in
                rw (flag, read_tokens)
                  (rw (empty, read_tokens)
                    (and_then-Returns bound st _ _ le
                      (ends nested (if is_up then drop_end 1 nested else base) st le)
                      (λ st1 le1. read_tokens-Returns bound reader tokens base st1 ends le1)))
            | inr given ↦
                let nested = below base rest in
                rw (flag, read_tokens)
                  (rw (given, read_tokens)
                    (and_then-Returns bound st _ _ le
                      (ends nested (if is_up then drop_end 1 nested else base) st le)
                      (λ st1 le1.
                        read_tokens-Returns bound reader (next ∷ tokens) base st1 ends le1)))
          ]
        ]

    module _ (resolve : FilePath → FilePath) (tokens_of : FilePath → Option (List String))
        (all : (path : FilePath)
          → tokens_of path ≢ none
          → contains readable (resolve path) ≡ true) where
      unread_le :
          (found : List String) (seen : List FilePath) (p : FilePath)
          → unread (found, p ∷ seen) ≤ unread (found, seen)
      unread_le found seen p =
          left_le (λ q. q) readable seen (p ∷ seen) (λ q there. ground (arith, there))

      -- A file that is read for the first time leaves one less.
      read-Returns :
          (fuel : ℕ) (path base : FilePath) (found : List String) (seen : List FilePath)
          → ((tokens : List String)
              → unread (found, resolve path ∷ seen) < unread (found, seen)
              → Returns
                  (found, resolve path ∷ seen)
                  (read_tokens suffixes
                    (read suffixes resolve tokens_of fuel)
                    tokens
                    base
                    (found, resolve path ∷ seen)))
          → Returns
              (found, seen)
              (read suffixes resolve tokens_of (suc fuel) path base (found, seen))
      unfolding read
      read-Returns fuel path base found seen inner =
          elim (Bool-cases (contains seen (resolve path))) [
            | inl old ↦ rw (old, read) ((found, seen), refl, omega arith)
            | inr new ↦ elim (Option-cases (tokens_of path)) [
              | inl missing ↦
                  rw (new, read)
                    (rw (missing, read)
                      ((found, resolve path ∷ seen), refl, unread_le found seen (resolve path)))
              | inr (tokens, there) ↦
                  let listed = all path (λ h. cc) in
                  let lt : unread (found, resolve path ∷ seen) < unread (found, seen) =
                    left_lt (λ q. q) readable seen (resolve path ∷ seen) (resolve path)
                      (λ q h. ground (arith, h)) listed new
                      (ground (arith, ==_refl (resolve path))) in
                  let (st1, e, less) = inner tokens lt in
                  rw (new, read) (rw (there, read) (st1, e, omega (arith, lt, less)))
            ]
          ]

      read-ReadsBelow : (bound : ℕ) → ReadsBelow bound (read suffixes resolve tokens_of (suc bound))
      read-ReadsBelow zero path base (found, seen) le =
          read-Returns zero path base found seen (λ tokens lt. absurd (omega (arith, lt, le)))
      read-ReadsBelow (suc bound) path base (found, seen) le =
          read-Returns (suc bound) path base found seen (λ tokens lt.
            read_tokens-Returns bound (read suffixes resolve tokens_of (suc bound)) tokens base
              (found, resolve path ∷ seen) (read-ReadsBelow bound) (omega (arith, lt, le)))

      read_command_files-Returns :
          (bound : ℕ) (files : List (String × String)) (st : Entries)
          → unread st ≤ bound
          → Returns st (read_command_files suffixes resolve tokens_of (suc bound) files st)
      unfolding read_command_files
      read_command_files-Returns bound [] st le = (st, refl, omega arith)
      read_command_files-Returns bound ((flag, name) ∷ files) st le =
          let path = path_of name in
          and_then-Returns bound st _ _ le
            (read-ReadsBelow bound path (if flag == "-F" then drop_end 1 path else []) st le)
            (λ st1 le1. read_command_files-Returns bound files st1 le1)

      -- If the files that can be read resolve to finitely many paths, reading command files ends, also where
      -- they name each other or themselves: nesting one deeper than there are such paths is enough.
      pub files_in_command_files_total :
          (files : List (String × String))
          → (found : List String) × (files_in_command_files suffixes resolve tokens_of
                (suc (length readable))
                files
              ≡ some found)
      files_in_command_files_total files =
          let (st, e, _) =
            read_command_files-Returns (length readable) files ([], [])
              (left-length (λ p. p) readable []) in
          (st.0, rw (e, files_in_command_files) refl)
