-- ===== src/Ghdl/Server.antt =====
-- `_WorkerServer` of plugins/svhier-ghdl/src/svhier_ghdl/__init__.py and `_serve` of
-- plugins/svhier-ghdl/src/svhier_ghdl/worker.py: requests and replies on two pipes. A byte is its
-- number; JSON, processes and the clock are parameters.
pub mod Framing
pub mod Sending
use svhier.Base.{
  ℕ, zero, suc, ◌+◌, ◌-◌, Bool, true, false, Option, none, some, List, [], ◌∷◌, ◌++◌, map,
}
use svhier.Base.{◌==◌, nat_eq, if◌then◌else◌}
use svhier.Base.Int.{ℤ}
use svhier.Base.Lists.{length, take, drop}
use svhier.Base.Text.{leb}

abbrev pub Bytes : Type 0
Bytes = List ℕ

-- What a child answers to one request: a process that has ended, or one that was killed.
pub record Outcome : Type 0 where
  pub returncode : ℤ
  pub timed_out : Bool
  pub stdout : Bytes
  pub stderr : Bytes

-- The line before a reply's output, with the sizes of the output.
pub record Header : Type 0 where
  pub returncode : ℤ
  pub timed_out : Bool
  pub stdout : ℕ
  pub stderr : ℕ

-- `subprocess.CompletedProcess`, or `TimeoutExpired`
pub data Answer : Type 0 where
  completed : ℤ → Bytes → Bytes → Answer
  expired : Answer

-- `find(b"\n")`: what stands before the first newline and after it.
unfoldable pub find_line : Bytes → Option (Bytes × Bytes)
find_line [] = none
find_line (c ∷ cs) = elim (c == 10) [
  | true ↦ some ([], cs)
  | false ↦ elim (find_line cs) [ none ↦ none | some (line, rest) ↦ some (c ∷ line, rest) ]
]

-- The client's buffer, and what its reads return from now on: `none` where nothing comes before
-- the deadline, and no bytes when the pipe is closed.
pub record Pipe : Type 0 where
  pub buffer : Bytes
  pub incoming : List (Option Bytes)

-- `_read_more` and the rest of the loop after it; `none` is `_ServerFailed`.
abbrev pub read_more {ℓ} : {A : Type ℓ} → Option Bytes → (Bytes → Option A) → Option A
read_more none more = none
read_more (some []) more = none
read_more (some (c ∷ cs)) more = more (c ∷ cs)

unfoldable pub read_line : Bytes → List (Option Bytes) → Option (Bytes × Pipe)
unfolding find_line
read_line buffer [] = elim (find_line buffer) [
  | none ↦ none
  | some (line, rest) ↦ some (line, record { buffer = rest; incoming = [] })
]
read_line buffer (event ∷ events) = elim (find_line buffer) [
  | none ↦ read_more event (λ data_read. read_line (buffer ++ data_read) events)
  | some (line, rest) ↦ some (line, record { buffer = rest; incoming = event ∷ events })
]

unfoldable pub read_bytes : ℕ → Bytes → List (Option Bytes) → Option (Bytes × Pipe)
read_bytes size buffer [] = elim (leb size (length buffer)) [
  | true ↦ some (take size buffer, record { buffer = drop size buffer; incoming = [] })
  | false ↦ none
]
read_bytes size buffer (event ∷ events) = elim (leb size (length buffer)) [
  | true ↦ some (take size buffer, record { buffer = drop size buffer; incoming = event ∷ events })
  | false ↦ read_more event (λ data_read. read_bytes size (buffer ++ data_read) events)
]

-- `json.dumps(...).encode()` and `json.loads`, which raises on anything else.
pub record Json (A : Type 0) : Type 0 where
  pub encode : A → Bytes
  pub decode : Bytes → Option A

-- The loop of `_send`, where each `os.write` says how much it took: what has been written, and
-- what is left when no more writes are made.
unfoldable pub send : List ℕ → Bytes → Bytes × Bytes
send [] unsent = ([], unsent)
send (n ∷ taken) [] = ([], [])
send (n ∷ taken) (c ∷ cs) =
    let (sent, left) = send taken (drop n (c ∷ cs)) in (take n (c ∷ cs) ++ sent, left)

abbrev pub answer_of : Header → Bytes → Bytes → Answer
answer_of header stdout stderr =
    if header.timed_out then expired else completed header.returncode stdout stderr

-- The worker's reply, where the output starts with what loading printed.
abbrev pub with_loaded : Bytes × Bytes → Outcome → Outcome
with_loaded (stdout, stderr) o = record o {
  stdout = stdout ++ o.stdout;
  stderr = stderr ++ o.stderr;
}

abbrev pub header_of : Outcome → Header
header_of o = record {
  returncode = o.returncode;
  timed_out = o.timed_out;
  stdout = length o.stdout;
  stderr = length o.stderr;
}

abbrev pub ready : Bytes
ready = 114 ∷ 101 ∷ 97 ∷ 100 ∷ 121 ∷ []

module _ (json : Json Header) where
  -- `_WorkerServer.request`, once the request is sent.
  unfoldable pub request : Pipe → Option (Answer × Pipe)
  unfolding read_line read_bytes
  request pipe = elim (read_line pipe.buffer pipe.incoming) [
    | none ↦ none
    | some (line, pipe1) ↦ elim (json.decode line) [
      | none ↦ none
      | some header ↦ elim (read_bytes header.stdout pipe1.buffer pipe1.incoming) [
        | none ↦ none
        | some (stdout, pipe2) ↦ elim (read_bytes header.stderr pipe2.buffer pipe2.incoming) [
          | none ↦ none
          | some (stderr, pipe3) ↦ some (answer_of header stdout stderr, pipe3)
        ]
      ]
    ]
  ]

  -- As many requests, one after the other.
  unfoldable pub request_all : ℕ → Pipe → Option (List Answer × Pipe)
  unfolding request
  request_all zero pipe = some ([], pipe)
  request_all (suc n) pipe = elim (request pipe) [
    | none ↦ none
    | some (answer, pipe1) ↦ elim (request_all n pipe1) [
      | none ↦ none
      | some (answers, pipe2) ↦ some (answer ∷ answers, pipe2)
    ]
  ]

  -- `load`, after which the requests come.
  unfoldable pub session : ℕ → List (Option Bytes) → Option (List Answer × Pipe)
  unfolding read_line request_all
  session n incoming = elim (read_line [] incoming) [
    | none ↦ none
    | some (_, pipe) ↦ request_all n pipe
  ]

  unfoldable pub reply : Outcome → Bytes
  reply o = json.encode (header_of o) ++ 10 ∷ (o.stdout ++ o.stderr)

  unfoldable pub replies : Bytes × Bytes → List Outcome → Bytes
  unfolding reply
  replies loaded [] = []
  replies loaded (o ∷ outcomes) = reply (with_loaded loaded o) ++ replies loaded outcomes

  -- `_serve`, for what the children of the requests answer.
  unfoldable pub serve : Bytes × Bytes → List Outcome → Bytes
  unfolding replies
  serve loaded outcomes = ready ++ 10 ∷ replies loaded outcomes
