-- ===== src/Ghdl/Tool/Fallback.antt =====
-- That `GhdlWorkerTool.run` (plugins/svhier-ghdl/src/svhier_ghdl/__init__.py) gives the answer of a
-- process of its own, whatever its server does.
use svhier.Base.{
  true, not, ◌||◌, Option, none, some, ◌≡◌, ◌↔◌, refl, inl, inr, Bool-cases, Option-cases,
}
use svhier.Ghdl.Server.{Answer}
use svhier.Ghdl.Tool.{
  Sources, sources_eq, is_for, Top, WorkerRequest, scan, elaborate, Processes, Tool, close, ask,
  start_server, serve, run_served, run,
}

-- What running a request does not depend on: `answer` is what a process of its own gives, and a
-- server, as long as it answers, gives the same for the sources that it holds.
pub record IsFaithful {S : Type 0} {W : Type 0} (system : Processes S W)
    (Holds : S → Sources → Type 0) (answer : WorkerRequest → Answer) : Type 0 where
  pub once_lem : (req : WorkerRequest) (w : W) → (system.run_once req w).0 ≡ answer req
  pub load_lem :
      (s : S) (sources : Sources) (w : W)
      → (system.load s sources w).0 ≡ true
      → Holds (system.load s sources w).1 sources
  pub request_lem :
      (s : S) (sources : Sources) (top : Top) (w : W) (a : Answer)
      → Holds s sources
      → (system.request s sources top w).0 ≡ some a
      → a ≡ answer (elaborate sources top)
  pub request_keeps :
      (s : S) (sources : Sources) (top : Top) (w : W)
      → Holds s sources
      → Holds (system.request s sources top w).1 sources
  -- Sources that Python takes to be equal, whatever the order of their dicts.
  pub same : (s : S) (a b : Sources) → sources_eq a b ≡ true → Holds s a ↔ Holds s b

-- If there is a server, it holds the sources that the tool remembers.
abbrev pub IsLoaded : {S : Type 0} → (S → Sources → Type 0) → Tool S → Type 0
IsLoaded {S} Holds tool =
    (s : S)
    → tool.server ≡ some s
    → (sources : Sources) × (tool.sources ≡ some sources) × Holds s sources

-- An exception is no wrong answer.
abbrev pub IsRight :
    {S W : Type 0} → (S → Sources → Type 0) → Answer → Option Answer × Tool S × W → Type 0
IsRight Holds expected (served, tool, w) =
    (a : Answer) → served ≡ some a → (a ≡ expected) × IsLoaded Holds tool

module _ {S W : Type 0} (system : Processes S W) (Holds : S → Sources → Type 0)
    (answer : WorkerRequest → Answer) (laws : IsFaithful system Holds answer) where
  ask-IsRight :
      (s : S) (sources : Sources) (top : Top) (tool : Tool S) (w : W) (known : Sources)
      → tool.sources ≡ some known
      → Holds s sources
      → ((t : S) → Holds t sources → Holds t known)
      → IsRight Holds (answer (elaborate sources top)) (ask system s sources top tool w)
  unfolding ask
  ask-IsRight s sources top tool w known k h back a r = (
    laws.request_lem s sources top w a h r,
    λ t e.
        let same : (system.request s sources top w).1 ≡ t = cc in
        (known, k, rw (← same) (back _ (laws.request_keeps s sources top w h))),
  )

  close-server : (tool : Tool S) (w : W) → (close system tool w).0.server ≡ none
  unfolding close
  close-server tool w = elim (Option-cases tool.server) [
    | inl no_server ↦ rw (no_server, close) no_server
    | inr (s, there) ↦ rw (there, close) refl
  ]

  start_server-IsRight :
      (sources : Sources) (top : Top) (tool : Tool S) (w : W)
      → IsRight Holds (answer (elaborate sources top)) (start_server system sources top tool w)
  unfolding start_server
  start_server-IsRight sources top tool w =
      let w1 = (close system tool w).1 in
      let w2 = (system.start w1).1 in
      let closed = (close system tool w).0 in
      elim (Option-cases (system.start w1).0) [
        | inl failed ↦ rw (failed, start_server) (λ a r. absurd (cc))
        | inr (s, started) ↦ elim (Bool-cases (system.load s sources w2).0) [
          | inl loaded ↦
              let holds = laws.load_lem s sources w2 loaded in
              rw (started, start_server)
                (rw (loaded, start_server)
                  (ask-IsRight (system.load s sources w2).1 sources top
                    (record closed { sources = some sources }) (system.load s sources w2).2 sources
                    refl holds (λ t h. h)))
          | inr failed ↦ rw (started, start_server) (rw (failed, start_server) (λ a r. absurd (cc)))
        ]
      ]

  serve-IsRight :
      (sources : Sources) (top : Top) (tool : Tool S) (w : W)
      → IsLoaded Holds tool
      → IsRight Holds (answer (elaborate sources top)) (serve system sources top tool w)
  unfolding serve
  serve-IsRight sources top tool w ready = elim (Option-cases tool.server) [
    | inl no_server ↦ rw (no_server, serve) (start_server-IsRight sources top tool w)
    | inr (s, there) ↦ elim (Bool-cases (is_for sources tool.sources)) [
      | inl same ↦
          let (known, k, holds) = ready s there in
          let fits : sources_eq sources known ≡ true = rw k at same in
          rw (there, serve)
            (rw (same, serve)
              (ask-IsRight s sources top tool w known k ((laws.same s sources known fits).1 holds)
                (λ t. (laws.same t sources known fits).0)))
      | inr others ↦
          rw (there, serve) (rw (others, serve) (start_server-IsRight sources top tool w))
    ]
  ]

  run_served-IsLoaded :
      (sources : Sources) (top : Top) (tool : Tool S) (w : W)
      → IsLoaded Holds tool
      → ((run_served system sources top tool w).0 ≡ answer (elaborate sources top))
        × IsLoaded Holds (run_served system sources top tool w).1
  unfolding run_served
  run_served-IsLoaded sources top tool w ready =
      let (served, tool1, w1) = serve system sources top tool w in
      let right = serve-IsRight sources top tool w ready in
      elim (Option-cases (serve system sources top tool w).0) [
        | inl failed ↦
            let marked = record tool1 { failed_sources = some sources } in
            rw (failed, run_served)
              (
                laws.once_lem (elaborate sources top) (close system marked w1).1,
                λ s e. absurd (cc (close-server marked w1)),
              )
        | inr (a, found) ↦ rw (found, run_served) (right a found)
      ]

  -- Whatever the tool has run before and whatever stops its server, a request is answered as a
  -- process of its own answers it, and a server that the tool keeps holds the sources that the tool
  -- remembers.
  pub run-IsLoaded :
      (req : WorkerRequest) (tool : Tool S) (w : W)
      → IsLoaded Holds tool
      → ((run system req tool w).0 ≡ answer req) × IsLoaded Holds (run system req tool w).1
  unfolding run run_served
  run-IsLoaded (scan std work files) tool w ready = (laws.once_lem (scan std work files) w, ready)
  run-IsLoaded (elaborate sources top) tool w ready =
      elim (Bool-cases (not system.can_serve || is_for sources tool.failed_sources)) [
        | inl alone ↦ rw (alone, run) (laws.once_lem (elaborate sources top) w, ready)
        | inr served ↦ rw (served, run) (run_served-IsLoaded sources top tool w ready)
      ]
