-- ===== src/Tests/Tool.antt =====
-- `GhdlWorkerTool` of plugins/svhier-ghdl/src/svhier_ghdl/__init__.py, with servers that start from
-- the second attempt on.
use svhier.Base.{ℕ, ◌+◌, String, true, none, some, List, [], ◌∷◌, ◌≡◌, refl, sym, ap, ◌∙◌}
use svhier.Base.{◌==◌, ==_iff, nat_eq, string_eq, list_eq, if◌then◌else◌, of_and_true}
use svhier.Base.Int.{pos}
use svhier.Base.Lists.{length}
use svhier.Ghdl.Server.{Answer, completed}
use svhier.Ghdl.Tool.{
  Sources, sources_eq, Top, WorkerRequest, scan, elaborate, Processes, Tool, close, ask,
  start_server, serve, run_served, run,
}
use svhier.Ghdl.Tool.Fallback.{IsFaithful, IsLoaded, run-IsLoaded}

-- The answer to an elaboration is how many files there are.
abbrev count : List String → Answer
count files = completed (pos (length files)) [] []

abbrev answer : WorkerRequest → Answer
answer (scan std work files) = count files
answer (elaborate sources top) = count sources.files

-- The world counts the servers that were asked for; a server holds its files.
abbrev system : Processes (List String) ℕ
system = record {
  can_serve = true;
  run_once = λ req w. (answer req, w);
  start = λ w. (if w == 0 then none else some [], w + 1);
  load = λ s sources w. (true, sources.files, w);
  request = λ s sources top w. (some (count s), s, w);
  stop = λ s w. w;
}

abbrev Holds : List String → Sources → Type 0
Holds s sources = s ≡ sources.files

same_files : (a b : Sources) → sources_eq a b ≡ true → a.files ≡ b.files
unfolding sources_eq
same_files a b h =
    let (std, rest) = of_and_true (a.std == b.std) _ h in
    let (work, rest1) = of_and_true (a.work == b.work) _ rest in
    let (files, libraries) = of_and_true (a.files == b.files) _ rest1 in
    (==_iff a.files b.files).0 files

faithful : IsFaithful system Holds answer
faithful = record {
  once_lem = λ req w. refl;
  load_lem = λ s sources w h. refl;
  request_lem = λ s sources top w a holds h. let it : count s ≡ a = cc in sym it ∙ ap count holds;
  request_keeps = λ s sources top w holds. holds;
  same = λ s a b h. (λ p. p ∙ same_files a b h, λ p. p ∙ sym (same_files a b h));
}

abbrev sources : Sources
sources = record { std = "08"; work = "work"; files = "a.vhd" ∷ "b.vhd" ∷ []; libraries = [] }

abbrev top : Top
top = record { top = "core"; generics = []; top_library = "work"; objects = true }

abbrev idle : Tool (List String)
idle = record { server = none; sources = none; failed_sources = none }

-- The first attempt fails, after which these sources get no server.
no_server :
    run system (elaborate sources top) idle 0
    ≡ (count sources.files, record idle { failed_sources = some sources }, 1)
unfolding run run_served serve start_server ask close nat_eq
no_server = refl

one_server :
    run system (elaborate sources top) idle 1
    ≡ (count sources.files, record idle { server = some sources.files; sources = some sources }, 2)
unfolding run run_served serve start_server ask close nat_eq
one_server = refl

abbrev busy : Tool (List String)
busy = record { server = some sources.files; sources = some sources; failed_sources = none }

busy-IsLoaded : IsLoaded Holds busy
busy-IsLoaded s e = let same : sources.files ≡ s = cc in (sources, refl, sym same)

run-IsLoaded_example :
    ((run system (elaborate sources top) busy 2).0 ≡ count sources.files)
    × IsLoaded Holds (run system (elaborate sources top) busy 2).1
run-IsLoaded_example =
    run-IsLoaded system Holds answer faithful (elaborate sources top) busy 2 busy-IsLoaded
