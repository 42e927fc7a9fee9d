-- ===== src/Tests/Commands.antt =====
-- Slang's command line and the rounds of loading, src/svhier/parser.py, and command files,
-- src/svhier/slang_frontend.py.
use svhier.Base.{
  ℕ, ◌+◌, String, ◌<>◌, true, false, Option, none, some, List, [], ◌∷◌, ◌≡◌, ◌≢◌, refl, arith,
}
use svhier.Base.{string_eq, list_eq, contains, nat_eq, if◌then◌else◌, ◌==◌}
use svhier.Base.Lists.{filter, flat_map, any}
use svhier.Base.Text.{lower}
use svhier.Cli.{suffix_of}
use svhier.Libsearch.Paths.{FilePath, path_of, is_absolute, drop_end, path_text}
use svhier.Slang.CommandFiles.{
  flag_of, read_tokens, read, read_command_files, files_in_command_files,
}
use svhier.Slang.CommandFiles.Ends.{files_in_command_files_total}
use svhier.Parser.Command.{Inputs, Loader, escape, escape_all, quote, args, pull_rounds, elaborate}
use svhier.Parser.Command.Quote.{
  read_quoted, read_quoted-quote, IsLoadedLast, elaborate-IsLoadedLast,
}

quoted : quote "a\\b \"c\"" ≡ "\"a\\\\b \\\"c\\\"\""
unfolding quote escape_all escape nat_eq
quoted = refl

read_quoted-quote_example :
    read_quoted (quote "a\\b \"c\"" <> " \"top.sv\"") ≡ some ("a\\b \"c\"", " \"top.sv\"")
read_quoted-quote_example = read_quoted-quote "a\\b \"c\"" " \"top.sv\""

abbrev inputs : Inputs
inputs = record {
  files = "a.sv" ∷ [];
  inc_dirs = "inc" ∷ [];
  defines = [];
  tops = "top" ∷ [];
  command_files = ("-f", "all.f") ∷ [];
  params = ("W", "8") ∷ [];
  exclude_exts = "vhd" ∷ [];
}

command_line :
    args inputs
    ≡ some (
        "--exclude-ext" ∷ "vhd" ∷ "--timescale" ∷ "1ns/1ns" ∷ "--allow-toplevel-iface-ports"
        ∷ "a.sv" ∷ "-I" ∷ "inc" ∷ "--top" ∷ "top" ∷ "-G" ∷ "W=8" ∷ "-f" ∷ "all.f" ∷ [])
unfolding args flat_map any string_eq
command_line = refl

-- Each load finds one file more, and two loads find everything.
abbrev loader : Loader ℕ ℕ
loader = record {
  load = λ files. (files, files);
  pull = λ loaded files. if loaded == 2 then (false, files) else (true, files + 1);
}

two_pulls : elaborate loader 20 0 ≡ (18, (2, 2))
unfolding elaborate pull_rounds nat_eq
two_pulls = refl

elaborate-IsLoadedLast_example : IsLoadedLast loader 20 0 (elaborate loader 20 0)
elaborate-IsLoadedLast_example = elaborate-IsLoadedLast loader 20 0

-- A command file that names another one and itself, with an entry of each.
abbrev words_of : FilePath → Option (List String)
words_of path =
    if path == "flow" ∷ "all.f" ∷ []
    then some ("+incdir+inc" ∷ "top.vhd" ∷ "-F" ∷ "sub/more.f" ∷ "-f=all.f" ∷ "top.sv" ∷ [])
    else (if path == "flow" ∷ "sub" ∷ "more.f" ∷ [] then some ("core.VHD" ∷ "-f" ∷ []) else none)

abbrev readable_files : List FilePath
readable_files = ("flow" ∷ "all.f" ∷ []) ∷ ("flow" ∷ "sub" ∷ "more.f" ∷ []) ∷ []

vhdl_entries :
    files_in_command_files (".vhd" ∷ []) (λ p. p) words_of 3 (("-F", "flow/all.f") ∷ [])
    ≡ some ("flow/top.vhd" ∷ "flow/sub/core.VHD" ∷ [])
unfolding read_command_files read read_tokens flag_of list_eq path_of nat_eq filter string_eq
    suffix_of lower is_absolute drop_end path_text
vhdl_entries = refl

words_readable : (path : FilePath) → words_of path ≢ none → contains readable_files path ≡ true
words_readable path h = ground arith

files_in_command_files_total_example :
    (found : List String) × (files_in_command_files
        (".vhd" ∷ [])
        (λ p. p)
        words_of
        3
        (("-F", "flow/all.f") ∷ [])
      ≡ some found)
files_in_command_files_total_example =
    files_in_command_files_total readable_files (".vhd" ∷ []) (λ p. p) words_of words_readable
      (("-F", "flow/all.f") ∷ [])
