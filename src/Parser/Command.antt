-- ===== src/Parser/Command.antt =====
-- `_quote`, `_Inputs.args` and the rounds of `_elaborate`, src/svhier/parser.py: slang's command
-- line, and loading again while library directories have something to add.
pub mod Quote
use Prim.Native.Char.{Char, char, code}
use svhier.Base.{
  ℕ, zero, suc, String, ◌<>◌, Bool, true, false, not, ◌||◌, Option, none, some, List, [], ◌∷◌, ◌++◌,
  map,
}
use svhier.Base.{◌==◌, contains, string_eq, nat_eq, if◌then◌else◌}
use svhier.Base.Dict.{Dict}
use svhier.Base.Lists.{filter, flat_map, any}
use svhier.Result.{FileEntry, Duplicate, Diagnostic, Missing}
use svhier.Parser.Symbols.{DefinitionSymbol}
use svhier.Parser.Walk.{Walk}
use svhier.Parser.Tables.{Tables, Loaded, find_duplicates}

abbrev pub backslash : Char
backslash = char 92 tt

-- `s.replace(c, "\\" + c)` for the character with this code
unfoldable pub escape : ℕ → String → String
escape n String.[] = String.[]
escape n (String.◌∷◌ c s) =
    let rest = escape n s in
    if code c == n then String.◌∷◌ backslash (String.◌∷◌ c rest) else String.◌∷◌ c rest

-- What stands between the quotes: first backslashes, then quotes.
unfoldable pub escape_all : String → String
unfolding escape
escape_all arg = escape 34 (escape 92 arg)

unfoldable pub quote : String → String
unfolding escape_all
quote arg = "\"" <> escape_all arg <> "\""

-- `_Inputs`
pub record Inputs : Type 0 where
  pub files : List String
  pub inc_dirs : List String
  pub defines : List String
  pub tops : List String
  pub command_files : List (String × String)
  pub params : Dict String String
  pub exclude_exts : List String

abbrev pub flagged : String → List String → List String
flagged flag values = flat_map (λ value. flag ∷ value ∷ []) values

abbrev pub is_bad_flag : String × String → Bool
is_bad_flag (flag, path) = not (contains ("-f" ∷ "-F" ∷ []) flag)

-- `none` is a `ValueError`.
unfoldable pub args : Inputs → Option (List String)
args inputs =
    if any is_bad_flag inputs.command_files
    then none
    else some (
        flagged "--exclude-ext" inputs.exclude_exts
        ++ ("--timescale" ∷ "1ns/1ns" ∷ "--allow-toplevel-iface-ports" ∷ inputs.files)
        ++ flagged "-I" inputs.inc_dirs
        ++ flagged "-D" inputs.defines
        ++ flagged "--top" inputs.tops
        ++ flagged "-G" (map (λ (name, value). name <> "=" <> value) inputs.params)
        ++ flat_map (λ (flag, path). flag ∷ path ∷ []) inputs.command_files)

-- Loading the sources, and asking whether there is more to load; both may change the world, in
-- which the lists of files and directories are.
pub record Loader (L : Type 0) (W : Type 0) : Type 0 where
  pub load : W → L × W
  pub pull : L → W → Bool × W

module _ {L W : Type 0} (loader : Loader L W) where
  -- The loop of `_elaborate`, with the pulls that are left at its end. Without a callback, `pull`
  -- always answers that there is nothing more.
  unfoldable pub pull_rounds : ℕ → L → W → ℕ × (L × W)
  pull_rounds zero loaded w = (0, (loaded, w))
  pull_rounds (suc left) loaded w =
      let (more, w1) = loader.pull loaded w in
      elim more [
        | true ↦ pull_rounds left (loader.load w1).0 (loader.load w1).1
        | false ↦ (suc left, (loaded, w1))
      ]

  unfoldable pub elaborate : ℕ → W → ℕ × (L × W)
  unfolding pull_rounds
  elaborate max_pulls w = pull_rounds max_pulls (loader.load w).0 (loader.load w).1
