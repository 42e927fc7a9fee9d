-- ===== src/Ghdl/Server/Framing.antt =====
-- What the two ends of the pipes (plugins/svhier-ghdl/src/svhier_ghdl/) make of each other's bytes.
use mathlib.Core.List.{append_assoc, append-nil}
use svhier.Base.{
  ℕ, ◌≤◌, true, false, Option, none, some, List, [], ◌∷◌, ◌++◌, map, ◌≡◌, inl, inr, refl, sym, ap,
  ◌∙◌, arith, Bool-cases, Option-cases,
}
use svhier.Base.{contains, nat_eq, if◌then◌else◌}
use svhier.Base.Lists.{
  length, take, drop, take-append, drop-append, take-length, drop-length, length-append,
}
use svhier.Base.Text.{leb}
use svhier.Ghdl.Server.{
  Bytes, Outcome, Header, Answer, completed, expired, find_line, Pipe, read_line, read_bytes, Json,
  answer_of, header_of, with_loaded, ready, request, request_all, session, reply, replies, serve,
}

-- All that is still to be read, if no read fails.
unfoldable pub arriving : List (Option Bytes) → Bytes
arriving [] = []
arriving (none ∷ events) = arriving events
arriving (some cs ∷ events) = cs ++ arriving events

abbrev pub stream : Pipe → Bytes
stream pipe = pipe.buffer ++ arriving pipe.incoming

-- Each read returns some bytes.
abbrev pub IsAlive : List (Option Bytes) → Type 0
IsAlive [] = Unit
IsAlive (none ∷ events) = ⊥
IsAlive (some [] ∷ events) = ⊥
IsAlive (some (c ∷ cs) ∷ events) = IsAlive events

find_line-append :
    (b c line rest : Bytes)
    → find_line b ≡ some (line, rest)
    → find_line (b ++ c) ≡ some (line, rest ++ c)
unfolding find_line
find_line-append [] c line rest h = absurd (cc)
find_line-append (x ∷ b) c line rest h = elim (Option-cases (find_line b)) [
  | inl stuck ↦ ground (arith, stuck)
  | inr ((l, r), found) ↦ ground (arith, found, find_line-append b c l r found)
]

find_line-newline :
    (line rest : Bytes)
    → contains line 10 ≡ false
    → find_line (line ++ 10 ∷ rest) ≡ some (line, rest)
unfolding find_line nat_eq
find_line-newline [] rest h = refl
find_line-newline (c ∷ line) rest h = ground (arith, find_line-newline line rest)

read_line_lem :
    (events : List (Option Bytes)) (buffer line rest : Bytes)
    → IsAlive events
    → find_line (buffer ++ arriving events) ≡ some (line, rest)
    → (pipe : Pipe) × (read_line buffer events ≡ some (line, pipe))
      × (stream pipe ≡ rest)
      × IsAlive pipe.incoming
unfolding read_line arriving
read_line_lem [] buffer line rest alive h =
    let h' : find_line buffer ≡ some (line, rest) = rw append-nil at h in
    (record { buffer = rest; incoming = [] }, rw (h', read_line) refl, append-nil rest, tt)
read_line_lem (none ∷ events) buffer line rest alive h = absurd alive
read_line_lem (some [] ∷ events) buffer line rest alive h = absurd alive
read_line_lem (some (c ∷ cs) ∷ events) buffer line rest alive h =
    elim (Option-cases (find_line buffer)) [
      | inl stuck ↦
          let h' : find_line ((buffer ++ (c ∷ cs)) ++ arriving events) ≡ some (line, rest) =
            rw (append_assoc buffer (c ∷ cs) (arriving events)) h in
          rw (stuck, read_line) (read_line_lem events (buffer ++ (c ∷ cs)) line rest alive h')
      | inr ((l, r), found) ↦
          let more = arriving (some (c ∷ cs) ∷ events) in
          let both = find_line-append buffer more l r found in
          let same : ◌≡◌ {A = Option (Bytes × Bytes)} (some (l, r ++ more)) (some (line, rest)) =
            sym both ∙ h in
          let first : l ≡ line = cc in
          let second : r ++ more ≡ rest = cc in
          (
            record { buffer = r; incoming = some (c ∷ cs) ∷ events },
            rw (found, read_line) (rw first refl),
            second,
            alive,
          )
    ]

read_bytes_lem :
    (size : ℕ) (events : List (Option Bytes)) (buffer : Bytes)
    → IsAlive events
    → size ≤ length (buffer ++ arriving events)
    → (pipe : Pipe) × (read_bytes size buffer events
        ≡ some (take size (buffer ++ arriving events), pipe))
      × (stream pipe ≡ drop size (buffer ++ arriving events))
      × IsAlive pipe.incoming
unfolding read_bytes arriving
read_bytes_lem size [] buffer alive h =
    let h' : size ≤ length buffer = rw append-nil at h in
    let full : leb size (length buffer) ≡ true = ground arith in
    rw (append-nil buffer) (
      record { buffer = drop size buffer; incoming = [] },
      rw (full, read_bytes) refl,
      append-nil (drop size buffer),
      tt,
    )
read_bytes_lem size (none ∷ events) buffer alive h = absurd alive
read_bytes_lem size (some [] ∷ events) buffer alive h = absurd alive
read_bytes_lem size (some (c ∷ cs) ∷ events) buffer alive h =
    let more = arriving (some (c ∷ cs) ∷ events) in
    elim (Bool-cases (leb size (length buffer))) [
      | inl full ↦
          let within : size ≤ length buffer = ground arith in
          (
            record { buffer = drop size buffer; incoming = some (c ∷ cs) ∷ events },
            rw (full, read_bytes) (rw (take-append size buffer more within) refl),
            sym (drop-append size buffer more within),
            alive,
          )
      | inr short ↦
          let whole = append_assoc buffer (c ∷ cs) (arriving events) in
          let h' : size ≤ length ((buffer ++ (c ∷ cs)) ++ arriving events) = rw whole h in
          rw (short, read_bytes)
            (rw whole at (read_bytes_lem size events (buffer ++ (c ∷ cs)) alive h'))
    ]

-- What is read next, by its size.
read_bytes-block :
    (block rest : Bytes) (pipe : Pipe)
    → IsAlive pipe.incoming
    → stream pipe ≡ block ++ rest
    → (pipe1 : Pipe) × (read_bytes (length block) pipe.buffer pipe.incoming ≡ some (block, pipe1))
      × (stream pipe1 ≡ rest)
      × IsAlive pipe1.incoming
read_bytes-block block rest pipe alive h =
    let enough : length block ≤ length (stream pipe) =
      rw h (omega (arith, length-append {0} block rest)) in
    let (pipe1, r, s, a) = read_bytes_lem (length block) pipe.incoming pipe.buffer alive enough in
    let taken : take (length block) (stream pipe) ≡ block = rw h (take-length block rest) in
    let left : drop (length block) (stream pipe) ≡ rest = rw h (drop-length block rest) in
    (pipe1, r ∙ ap (λ b. some (b, pipe1)) taken, s ∙ left, a)

-- What of a JSON library the protocol relies on: a text is read back, and stands on one line.
pub record IsJson {A : Type 0} (json : Json A) : Type 0 where
  pub decode-encode : (a : A) → json.decode (json.encode a) ≡ some a
  pub one_line : (a : A) → contains (json.encode a) 10 ≡ false

-- What the caller is to get for what a child answered.
abbrev pub answer_for : Bytes × Bytes → Outcome → Answer
answer_for loaded o =
    if o.timed_out
    then expired
    else completed o.returncode (loaded.0 ++ o.stdout) (loaded.1 ++ o.stderr)

request-parts :
    (json : Json Header) (header : Header) (line stdout stderr : Bytes)
    (pipe pipe1 pipe2 pipe3 : Pipe)
    → read_line pipe.buffer pipe.incoming ≡ some (line, pipe1)
    → json.decode line ≡ some header
    → read_bytes header.stdout pipe1.buffer pipe1.incoming ≡ some (stdout, pipe2)
    → read_bytes header.stderr pipe2.buffer pipe2.incoming ≡ some (stderr, pipe3)
    → request json pipe ≡ some (answer_of header stdout stderr, pipe3)
unfolding request
request-parts json header line stdout stderr pipe pipe1 pipe2 pipe3 l d o e =
    rw (l, request) (rw (d, request) (rw (o, request) (rw (e, request) refl)))

module _ (json : Json Header) (laws : IsJson json) where
  request-reply :
      (o : Outcome) (pipe : Pipe) (tail : Bytes)
      → IsAlive pipe.incoming
      → stream pipe ≡ reply json o ++ tail
      → (pipe1 : Pipe) × (request json pipe
          ≡ some (answer_of (header_of o) o.stdout o.stderr, pipe1))
        × (stream pipe1 ≡ tail)
        × IsAlive pipe1.incoming
  unfolding reply
  request-reply o pipe tail alive h =
      let rest = (o.stdout ++ o.stderr) ++ tail in
      let line = json.encode (header_of o) in
      let whole = append_assoc line (10 ∷ (o.stdout ++ o.stderr)) tail in
      let first : find_line (stream pipe) ≡ some (line, rest) =
        rw (h, whole) (find_line-newline line rest (laws.one_line (header_of o))) in
      let (pipe1, r1, s1, a1) = read_line_lem pipe.incoming pipe.buffer line rest alive first in
      let split : stream pipe1 ≡ o.stdout ++ (o.stderr ++ tail) =
        s1 ∙ append_assoc o.stdout o.stderr tail in
      let (pipe2, r2, s2, a2) = read_bytes-block o.stdout (o.stderr ++ tail) pipe1 a1 split in
      let (pipe3, r3, s3, a3) = read_bytes-block o.stderr tail pipe2 a2 s2 in
      let parsed = laws.decode-encode (header_of o) in
      (
        pipe3,
        request-parts json (header_of o) line o.stdout o.stderr pipe pipe1 pipe2 pipe3 r1 parsed r2
            r3,
        s3,
        a3,
      )

  request_all-replies :
      (loaded : Bytes × Bytes) (outcomes : List Outcome) (pipe : Pipe) (tail : Bytes)
      → IsAlive pipe.incoming
      → stream pipe ≡ replies json loaded outcomes ++ tail
      → (pipe1 : Pipe) × (request_all json (length outcomes) pipe
          ≡ some (map (answer_for loaded) outcomes, pipe1))
        × (stream pipe1 ≡ tail)
  unfolding request_all replies
  request_all-replies loaded [] pipe tail alive h = (pipe, refl, h)
  request_all-replies loaded (o ∷ outcomes) pipe tail alive h =
      let more = replies json loaded outcomes in
      let now = with_loaded loaded o in
      let (pipe1, r1, s1, a1) =
        request-reply now pipe (more ++ tail) alive (h ∙ append_assoc (reply json now) more tail) in
      let (pipe2, r2, s2) = request_all-replies loaded outcomes pipe1 tail a1 s1 in
      (pipe2, rw (r1, request_all) (rw (r2, request_all) refl), s2)

  -- However the worker's bytes are cut into reads, as long as no read fails, each request is
  -- answered with what the child of that request answered, behind what loading printed.
  pub session-serve :
      (loaded : Bytes × Bytes) (outcomes : List Outcome) (events : List (Option Bytes))
      → IsAlive events
      → arriving events ≡ serve json loaded outcomes
      → (pipe : Pipe) × (session json (length outcomes) events
          ≡ some (map (answer_for loaded) outcomes, pipe))
        × (stream pipe ≡ [])
  unfolding session serve nat_eq
  session-serve loaded outcomes events alive h =
      let more = replies json loaded outcomes in
      let first : find_line (arriving events) ≡ some (ready, more) =
        rw h (find_line-newline ready more refl) in
      let (pipe, r, s, a) = read_line_lem events [] ready more alive first in
      let (pipe1, r1, s1) =
        request_all-replies loaded outcomes pipe [] a (s ∙ sym (append-nil more)) in
      (pipe1, rw (r, session) r1, s1)
