-- ===== src/Slang/CommandFiles.antt =====
-- `files_in_command_files` of src/svhier/slang_frontend.py: the entries of command files, which may
-- read each other. The words of a file, once comments, quotes and variables are read, are an
-- argument; they hold no newline.
pub mod Ends
use text.Mathlib.Text.{starts_with}
use Prim.Native.String.{slice, len}
use svhier.Base.{
  ℕ, zero, suc, String, Bool, true, false, not, ◌||◌, ◌&&◌, Option, none, some, List, [], ◌∷◌, ◌++◌,
}
use svhier.Base.{◌==◌, contains, string_eq, list_eq, if◌then◌else◌}
use svhier.Cli.{suffix_of}
use svhier.Libsearch.Paths.{FilePath, path_of, path_text, is_absolute, drop_end}

-- What has been found, and the files that have been read, as they resolve.
abbrev pub Entries : Type 0
Entries = List String × List FilePath

-- `base / text`
abbrev pub below : FilePath → String → FilePath
below base text = if is_absolute (path_of text) then path_of text else base ++ path_of text

-- `_COMMAND_FILE_FLAG`: whether the flag is `-F`, and what follows it.
abbrev pub after_flag : String → String
after_flag token =
    let rest = slice token 2 (len token) in
    if starts_with rest "=" then slice rest 1 (len rest) else rest

unfoldable pub flag_of : String → Option (Bool × String)
flag_of token =
    if starts_with token "-F"
    then some (true, after_flag token)
    else (if starts_with token "-f" then some (false, after_flag token) else none)

abbrev pub is_option : String → Bool
is_option token = starts_with token "+" || starts_with token "-"

-- What reads another file, with the directory that its entries are relative to.
abbrev pub Reader : Type 0
Reader = FilePath → FilePath → Entries → Option Entries

abbrev pub read_nested : Reader → Bool → FilePath → FilePath → Entries → Option Entries
read_nested read is_up nested base st = read nested (if is_up then drop_end 1 nested else base) st

abbrev pub and_then : Option Entries → (Entries → Option Entries) → Option Entries
and_then none rest = none
and_then (some st) rest = rest st

module _ (suffixes : List String) where
  -- A token that is no flag.
  abbrev pub add_entry : String → FilePath → Entries → Entries
  add_entry token base (found, seen) =
      if not (is_option token) && contains suffixes (suffix_of token)
      then (found ++ path_text (below base token) ∷ [], seen)
      else (found, seen)

  -- The loop over the tokens.
  unfoldable pub read_tokens : Reader → List String → FilePath → Entries → Option Entries
  unfolding flag_of
  read_tokens read [] base st = some st
  read_tokens read (token ∷ []) base st = elim (flag_of token) [
    | none ↦ some (add_entry token base st)
    | some (is_up, rest) ↦ read_nested read is_up (below base rest) base st
  ]
  read_tokens read (token ∷ next ∷ tokens) base st = elim (flag_of token) [
    | none ↦ read_tokens read (next ∷ tokens) base (add_entry token base st)
    | some (is_up, rest) ↦ elim (rest == "") [
      | true ↦
          and_then (read_nested read is_up (below base next) base st)
            (λ st1. read_tokens read tokens base st1)
      | false ↦
          and_then (read_nested read is_up (below base rest) base st)
            (λ st1. read_tokens read (next ∷ tokens) base st1)
    ]
  ]

  module _ (resolve : FilePath → FilePath) (tokens_of : FilePath → Option (List String)) where
    -- `read`, on fuel for the depth of nesting.
    unfoldable pub read : ℕ → FilePath → FilePath → Entries → Option Entries
    unfolding read_tokens
    read zero path base st = none
    read (suc fuel) path base (found, seen) = elim (contains seen (resolve path)) [
      | true ↦ some (found, seen)
      | false ↦ elim (tokens_of path) [
        | none ↦ some (found, resolve path ∷ seen)
        | some tokens ↦ read_tokens (read fuel) tokens base (found, resolve path ∷ seen)
      ]
    ]

    unfoldable pub read_command_files : ℕ → List (String × String) → Entries → Option Entries
    unfolding read
    read_command_files fuel [] st = some st
    read_command_files fuel ((flag, name) ∷ files) st =
        let path = path_of name in
        and_then (read fuel path (if flag == "-F" then drop_end 1 path else []) st)
          (λ st1. read_command_files fuel files st1)

    -- `files_in_command_files`
    abbrev pub files_in_command_files : ℕ → List (String × String) → Option (List String)
    files_in_command_files fuel files = elim (read_command_files fuel files ([], [])) [
      | none ↦ none
      | some (found, seen) ↦ some found
    ]
