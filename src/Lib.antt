-- ===== src/Lib.antt =====
-- svhier prints the module hierarchy of a hardware design and the files that it needs, in order.
-- Its parts, all under src/svhier, and how they meet:
--   * frontends.py runs one frontend per language and stitches what they find into one result:
--     what a language cannot resolve becomes a root of the language that defines it.
--   * slang_frontend.py is the SystemVerilog frontend: it compiles once per parameter setting
--     and merges the results. parser.py turns one elaborated design into a result, and
--     libsearch.py finds what is missing in library directories.
--   * cli.py shows the merged result as a tree, and filelist.py puts its files in order.
--
-- The files of this library:
--   * Base and its children: Python dicts in insertion order, lists, `==` and `in`, lowercase and
--     sorting.
--   * Result: the dicts of a result (`parse_files`, `empty_fragment`) as records. A key that may
--     be missing is an `Option`, or empty where the code reads it with that default.
--   * Filelist: `_file_deps` and `compute_filelist`. `nx.topological_sort` is an argument;
--     Filelist/Order states what its documentation promises, and Tests/Kahn has a sorter that
--     keeps it.
--   * Tree: `_select_children`, `_iter_subtree`, `iter_tree`, `render_tree_line` of cli.py. The
--     generator is a step function on its stack, and Tree/Shows says which lines a tree has.
--   * Parser: the elaborated tree of slang as data (Symbols), `_walk_instances` (Walk),
--     `_build_def_entry` (Entries), and the tables of `_find_duplicates`, `_build_file_entries`
--     and `_collect_missing` (Tables). `_canon`, which asks slang and the file system for the
--     file of a location, is an argument. Command holds `_quote`, `_Inputs.args` and the rounds
--     of `_elaborate`.
--   * Libsearch: `LibraryIndex`, `resolve_missing` and `LibrarySearch.pull`; pathlib paths are
--     lists of parts (Paths). `Path.resolve` and the search of directories are arguments.
--   * Frontends: `_Stitcher` and `stitch`. The frontends are an interface, `Plugins`, over a
--     world that they may change, in which the lists of files are; Routed, Frozen and Current
--     hold the lemmas about a round, Merge the merging.
--   * Slang: `_merge_results` and what it calls (Merge), and `SlangFrontend.elaborate` (Elaborate)
--     over one compilation per setting (Compile), with the tool that runs slang as an argument;
--     `_pull_missing` and `provide` (Search), `collect_inc_dirs` (Headers) and
--     `files_in_command_files` (CommandFiles).
--   * Cli: the inputs and outputs of cli.py that are computed: which files there are and which
--     frontend reads them, the lines of the filelist, the YAML.
--   * Ghdl: the VHDL frontend, plugins/svhier-ghdl/src/svhier_ghdl/__init__.py, and worker.py
--     beside it. `assign_libraries` chooses a library for each file
--     (Libraries); `to_literal` and `parse_tree` read the hierarchy that GHDL prints (Hierarchy),
--     and `_scan` and `tree_to_defs` make definitions of it (Instances). `_WorkerServer` and
--     `_serve` talk in lines and counted bytes (Server), and `GhdlWorkerTool` uses a server or a
--     process per request (Tool). `GhdlFrontend` is a state (Frontend, with `units`, `provide`
--     and `_pull_needed`) that `elaborate_one` (Runs), `_elaborate_all` (Collect),
--     `_report_errors` and `_duplicates` (Errors), `_fragment` (Fragments) and `elaborate`
--     (Elaborate) work on; the worker's answers, `Path.resolve` and the library's `find` are
--     arguments of it. `VhdlLibrary` has such a `find` (Library). Of worker.py, `_scan`, `_load`,
--     `_file_deps` and `_elaborate` work on nodes that are data (Worker), with libghdl as an
--     argument.
--   * Tests: runs on concrete data, and each theorem at an input that meets its hypotheses.
--
-- Loops are recursion on fuel where the code is not structural. `iter_tree` needs as much as there
-- are instances to show, which is finite since a module is expanded inside of itself only with
-- another setting; `_walk_instances` needs the number of module instances of the tree;
-- `_elaborate_plain` needs the number of roots that may be dropped, and `_spread_local` one more
-- than there are files. `_scan` and `tree_to_defs` need the depth of the tree, and `_pull_needed`
-- has enough fuel if the files name finitely many units. The loop of `elaborate` goes on only after
-- the library has added a file. Reading command files nests no deeper than there are files to
-- read. `_Stitcher.run` itself makes at most 20 rounds, and the model makes as many. Numbers are
-- unbounded in Python and here.
--
-- `str.lower` is modelled on ASCII, of which the names in the languages consist. What pyslang, the
-- file system, regular expressions, networkx and the terminal do is not modelled, and what only
-- passes their answers on is left out: loading sources, diagnostics, the words of command files,
-- argument parsing and tables. Of the GHDL plugin, the bindings of libghdl, and what starts, polls,
-- forks and stops processes, is left out, as are its options.

pub mod Base
pub mod Result
pub mod Filelist
pub mod Tree
pub mod Parser
pub mod Frontends
pub mod Libsearch
pub mod Slang
pub mod Ghdl
pub mod Cli
mod Tests
