-- ===== src/Tests/Server.antt =====
-- The server of the GHDL plugin, plugins/svhier-ghdl/src/svhier_ghdl/__init__.py and worker.py.
use svhier.Base.{
  ℕ, ◌+◌, ◌-◌, Bool, true, false, Option, none, some, List, [], ◌∷◌, map, ◌≡◌, refl, arith,
}
use svhier.Base.{◌==◌, contains, nat_eq, string_eq, list_eq, if◌then◌else◌}
use svhier.Base.Int.{ℤ, pos, negsuc}
use svhier.Base.Lists.{length}
use svhier.Ghdl.Server.{
  Bytes, Outcome, Header, completed, expired, Json, Pipe, find_line, read_line, read_bytes, request,
  request_all, session, reply, replies, serve, send,
}
use svhier.Ghdl.Server.Framing.{IsJson, arriving, stream, answer_for, session-serve}
use svhier.Ghdl.Server.Sending.{send_lem}

-- A header as five numbers, none of which is a newline.
abbrev encode_flag : Bool → ℕ
encode_flag true = 21
encode_flag false = 20

abbrev encode_header : Header → Bytes
encode_header h = elim h.returncode [
  | pos n ↦ 20 ∷ (n + 20) ∷ encode_flag h.timed_out ∷ (h.stdout + 20) ∷ (h.stderr + 20) ∷ []
  | negsuc n ↦ 21 ∷ (n + 20) ∷ encode_flag h.timed_out ∷ (h.stdout + 20) ∷ (h.stderr + 20) ∷ []
]

abbrev decode_header : Bytes → Option Header
decode_header (s ∷ n ∷ t ∷ o ∷ e ∷ []) = some (record {
  returncode = if s == 20 then pos (n - 20) else negsuc (n - 20);
  timed_out = t == 21;
  stdout = o - 20;
  stderr = e - 20;
})
decode_header _ = none

abbrev json : Json Header
json = record { encode = encode_header; decode = decode_header }

add-sub : (n : ℕ) → n + 20 - 20 ≡ n
add-sub n = omega arith

flag_back : (b : Bool) → (encode_flag b == 21) ≡ b
unfolding nat_eq
flag_back true = refl
flag_back false = refl

abbrev header_with : ℤ → Bool → ℕ → ℕ → Header
header_with r t o e = record { returncode = r; timed_out = t; stdout = o; stderr = e }

decode-encode : (h : Header) → decode_header (encode_header h) ≡ some h
unfolding nat_eq
decode-encode h = go h.returncode h.timed_out h.stdout h.stderr
  where
    go :
        (r : ℤ) (t : Bool) (o e : ℕ)
        → decode_header (encode_header (header_with r t o e)) ≡ some (header_with r t o e)
    go (pos n) t o e =
        λ i. some (header_with (pos (add-sub n i)) (flag_back t i) (add-sub o i) (add-sub e i))
    go (negsuc n) t o e =
        λ i. some (header_with (negsuc (add-sub n i)) (flag_back t i) (add-sub o i) (add-sub e i))

flag_one_line : (b : Bool) → (10 == encode_flag b) ≡ false
unfolding nat_eq
flag_one_line true = refl
flag_one_line false = refl

number_one_line : (n : ℕ) → (10 == n + 20) ≡ false
number_one_line n = ground arith

one_line : (h : Header) → contains (encode_header h) 10 ≡ false
one_line h = go h.returncode h.timed_out h.stdout h.stderr
  where
    go : (r : ℤ) (t : Bool) (o e : ℕ) → contains (encode_header (header_with r t o e)) 10 ≡ false
    go (pos n) t o e =
        rw (number_one_line n, flag_one_line t, number_one_line o, number_one_line e) (ground arith)
    go (negsuc n) t o e =
        rw (number_one_line n, flag_one_line t, number_one_line o, number_one_line e) (ground arith)

json_laws : IsJson json
json_laws = record { decode-encode = decode-encode; one_line = one_line }

-- What loading printed, and the two requests' outcomes; the second was killed.
abbrev loaded : Bytes × Bytes
loaded = (7 ∷ [], [])

abbrev outcomes : List Outcome
outcomes =
    record { returncode = pos 0; timed_out = false; stdout = 1 ∷ 10 ∷ []; stderr = 3 ∷ [] }
    ∷ record { returncode = negsuc 8; timed_out = true; stdout = []; stderr = [] }
    ∷ []

-- The worker's bytes, cut within the first line and within the first output.
abbrev reads : List (Option Bytes)
reads =
    some (114 ∷ 101 ∷ [])
    ∷ some (97 ∷ 100 ∷ 121 ∷ 10 ∷ 20 ∷ 20 ∷ 20 ∷ [])
    ∷ some (23 ∷ 21 ∷ 10 ∷ 7 ∷ 1 ∷ [])
    ∷ some (10 ∷ 3 ∷ [])
    ∷ some (21 ∷ 28 ∷ 21 ∷ 21 ∷ 20 ∷ 10 ∷ 7 ∷ [])
    ∷ []

reads_arrive : arriving reads ≡ serve json loaded outcomes
unfolding arriving serve replies reply
reads_arrive = refl

two_answers :
    session json 2 reads
    ≡ some (
      completed (pos 0) (7 ∷ 1 ∷ 10 ∷ []) (3 ∷ []) ∷ expired ∷ [],
      record { buffer = []; incoming = [] },
    )
unfolding session request_all request read_line read_bytes find_line nat_eq
two_answers = refl

session-serve_example :
    (pipe : Pipe) × (session json (length outcomes) reads
      ≡ some (map (answer_for loaded) outcomes, pipe))
    × (stream pipe ≡ [])
session-serve_example =
    session-serve json json_laws loaded outcomes reads (omega arith) reads_arrive

send_lem_example : send (2 ∷ 1 ∷ 5 ∷ []) (1 ∷ 2 ∷ 3 ∷ []) ≡ (1 ∷ 2 ∷ 3 ∷ [], [])
send_lem_example = send_lem (2 ∷ 1 ∷ 5 ∷ []) (1 ∷ 2 ∷ 3 ∷ []) (omega arith) (omega arith)
