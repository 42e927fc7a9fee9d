-- ===== src/Ghdl/Tool.antt =====
-- `GhdlWorkerTool` of plugins/svhier-ghdl/src/svhier_ghdl/__init__.py: which requests go to a server
-- and which to a process of their own. Processes are a parameter, `Processes`.
pub mod Fallback
use svhier.Base.{
  ℕ, String, Bool, true, false, not, ◌||◌, ◌&&◌, Option, none, some, List, [], ◌∷◌, ◌≡◌,
}
use svhier.Base.{◌==◌, string_eq, list_eq, if◌then◌else◌}
use svhier.Base.Dict.{Dict, dict_eq}
use svhier.Ghdl.Server.{Answer}

-- The keys of a request that a server has loaded.
pub record Sources : Type 0 where
  pub std : String
  pub work : String
  pub files : List String
  pub libraries : Dict String String

unfoldable pub sources_eq : Sources → Sources → Bool
unfolding dict_eq string_eq list_eq
sources_eq a b =
    a.std == b.std && (a.work == b.work && (a.files == b.files && dict_eq a.libraries b.libraries))

-- `sources == self._sources`, which may be `None`
abbrev pub is_for : Sources → Option Sources → Bool
is_for sources none = false
is_for sources (some known) = sources_eq sources known

pub record Top : Type 0 where
  pub top : String
  pub generics : Dict String String
  pub top_library : String
  pub objects : Bool

-- A request, by its `op`.
pub data WorkerRequest : Type 0 where
  scan : String → String → List String → WorkerRequest
  elaborate : Sources → Top → WorkerRequest

-- What starts and ends processes, over the state of the system. `start` may fail with an
-- `OSError`, `load` and `request` with that or with `_ServerFailed`.
pub record Processes (S : Type 0) (W : Type 0) : Type 0 where
  pub can_serve : Bool
  pub run_once : WorkerRequest → W → Answer × W
  pub start : W → Option S × W
  pub load : S → Sources → W → Bool × S × W
  pub request : S → Sources → Top → W → Option Answer × S × W
  pub stop : S → W → W

-- `GhdlWorkerTool`
pub record Tool (S : Type 0) : Type 0 where
  pub server : Option S
  pub sources : Option Sources
  pub failed_sources : Option Sources

module _ {S W : Type 0} (system : Processes S W) where
  unfoldable pub close : Tool S → W → Tool S × W
  close tool w = elim tool.server [
    | none ↦ (tool, w)
    | some s ↦ (record tool { server = none }, system.stop s w)
  ]

  -- The last line of `_serve`.
  unfoldable pub ask : S → Sources → Top → Tool S → W → Option Answer × Tool S × W
  ask s sources top tool w =
      let (answer, s1, w1) = system.request s sources top w in
      (answer, record tool { server = some s1 }, w1)

  -- A new server for other sources; `none` is an exception.
  unfoldable pub start_server : Sources → Top → Tool S → W → Option Answer × Tool S × W
  unfolding ask close
  start_server sources top tool w =
      let (closed, w1) = close tool w in
      let (started, w2) = system.start w1 in
      elim started [
        | none ↦ (none, closed, w2)
        | some s ↦
            let (loaded, s1, w3) = system.load s sources w2 in
            elim loaded [
              | false ↦ (none, record closed { server = some s1 }, w3)
              | true ↦ ask s1 sources top (record closed { sources = some sources }) w3
            ]
      ]

  -- `_serve`
  unfoldable pub serve : Sources → Top → Tool S → W → Option Answer × Tool S × W
  unfolding start_server ask
  serve sources top tool w = elim tool.server [
    | none ↦ start_server sources top tool w
    | some s ↦ elim (is_for sources tool.sources) [
      | true ↦ ask s sources top tool w
      | false ↦ start_server sources top tool w
    ]
  ]

  abbrev pub once : WorkerRequest → Tool S → W → Answer × Tool S × W
  once req tool w = let (answer, w1) = system.run_once req w in (answer, tool, w1)

  -- The part of `run` for an elaboration that a server may answer.
  unfoldable pub run_served : Sources → Top → Tool S → W → Answer × Tool S × W
  unfolding serve close
  run_served sources top tool w =
      let (served, tool1, w1) = serve sources top tool w in
      elim served [
        | some answer ↦ (answer, tool1, w1)
        | none ↦
            let (closed, w2) = close (record tool1 { failed_sources = some sources }) w1 in
            once (elaborate sources top) closed w2
      ]

  unfoldable pub run : WorkerRequest → Tool S → W → Answer × Tool S × W
  unfolding run_served
  run (scan std work files) tool w = once (scan std work files) tool w
  run (elaborate sources top) tool w =
      elim (not system.can_serve || is_for sources tool.failed_sources) [
        | true ↦ once (elaborate sources top) tool w
        | false ↦ run_served sources top tool w
      ]
