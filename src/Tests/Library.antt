-- ===== src/Tests/Library.antt =====
-- src/svhier/libsearch.py on a small library.
use svhier.Base.{String, true, false, some, List, [], ◌∷◌, ◌++◌, ◌≡◌, ◌≢◌, ◌↔◌, refl, arith}
use svhier.Base.{contains, string_eq, nat_eq, list_eq}
use svhier.Base.Dict.{lookup, update}
use svhier.Base.Lists.{length, filter, dedupe, add_unique, add_if_new}
use svhier.Base.Text.{leb, sort, insert_sorted}
use svhier.Result.{Missing}
use svhier.Libsearch.Paths.{
  FilePath, path_of, path_text, last_part, is_absolute, drop_end, take_end, stem, cut_last_dot, cut,
  split_parts, is_rooted, join_parts,
}
use svhier.Libsearch.{
  LibraryIndex, add_names, add_sources, build_index, rank_le, find_definition, min_header,
  find_include_dir, resolved, is_had, wanted_names, resolve_missing, is_new, pull,
}
use svhier.Libsearch.Includes.{find_include_dir-path}
use svhier.Libsearch.Pull.{resolve_missing-files, AreReadBack, pull-found}

abbrev resolve : FilePath → FilePath
resolve p = p

abbrev fifo_path : FilePath
fifo_path = "ip" ∷ "fifo.sv" ∷ []

abbrev pack_path : FilePath
pack_path = "ip" ∷ "all.sv" ∷ []

abbrev index : LibraryIndex
index =
    build_index ((pack_path, some ("fifo" ∷ "ram" ∷ [])) ∷ (fifo_path, some ("fifo" ∷ [])) ∷ []) []

-- A file named after the module comes first.
fifo_files : find_definition index "fifo" ≡ fifo_path ∷ pack_path ∷ []
unfolding build_index add_sources add_names find_definition rank_le stem cut_last_dot last_part
    path_text join_parts sort insert_sorted lookup update dedupe add_unique add_if_new string_eq
    nat_eq
fifo_files = refl

abbrev missing : Missing
missing = ("modules", ("fifo", []) ∷ []) ∷ []

abbrev no_headers : String → List FilePath
no_headers name = []

resolve_missing-files_example :
    (lookup "fifo" (resolve_missing resolve missing index no_headers ("top.sv" ∷ []) []).0
      ≡ some (fifo_path, 1))
    ↔ ((contains (wanted_names resolve missing) "fifo" ≡ true)
        × ((others : List FilePath) × (find_definition index "fifo" ≡ fifo_path ∷ others)
            × (length others ≡ 1)
            × (is_had resolve (resolved resolve ("top.sv" ∷ [])) (fifo_path ∷ others) ≡ false)))
resolve_missing-files_example =
    resolve_missing-files resolve missing index no_headers ("top.sv" ∷ []) [] "fifo" fifo_path 1

abbrev headers : String → List FilePath
headers name = ("ip" ∷ "inc" ∷ "sub" ∷ "regs.svh" ∷ []) ∷ ("regs.svh" ∷ []) ∷ []

include_dir : find_include_dir headers "sub/regs.svh" ≡ some ("ip" ∷ "inc" ∷ [])
unfolding find_include_dir path_of split_parts cut is_rooted is_absolute last_part filter min_header
    drop_end take_end string_eq list_eq nat_eq
include_dir = refl

find_include_dir-path_example :
    (contains
        (headers (last_part (path_of "sub/regs.svh")))
        (("ip" ∷ "inc" ∷ []) ++ path_of "sub/regs.svh")
      ≡ true)
    × (leb
          (length (("ip" ∷ "inc" ∷ []) ++ path_of "sub/regs.svh"))
          (length (path_of "sub/regs.svh"))
        ≡ false)
    × (path_of "sub/regs.svh" ≢ [])
    × (is_absolute (path_of "sub/regs.svh") ≡ false)
    × (contains (path_of "sub/regs.svh") ".." ≡ false)
find_include_dir-path_example =
    find_include_dir-path headers "sub/regs.svh" ("ip" ∷ "inc" ∷ []) include_dir

fifo-back : path_of (path_text fifo_path) ≡ fifo_path
unfolding path_of path_text split_parts cut is_rooted join_parts filter string_eq nat_eq
fifo-back = refl

fifo-AreReadBack : AreReadBack resolve (fifo_path ∷ [])
fifo-AreReadBack p c = let e : p ≡ fifo_path = ground arith in rw e fifo-back

pull-found_example :
    let out = pull resolve "fifo" (fifo_path ∷ []) 1 ("top.sv" ∷ []) [] in
    (contains (resolved resolve out.1.0) (resolve fifo_path) ≡ true)
    × ((out.0 ≡ false) ↔ (filter (is_new resolve ("top.sv" ∷ [])) (fifo_path ∷ []) ≡ []))
    × ((more : List String) × (out.1.0 ≡ ("top.sv" ∷ []) ++ more))
pull-found_example =
    pull-found resolve "fifo" (fifo_path ∷ []) 1 ("top.sv" ∷ []) [] fifo_path fifo-AreReadBack
      (ground arith)
