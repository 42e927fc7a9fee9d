-- ===== src/Tests/Kahn.antt =====
-- A topological sort that meets what src/svhier/filelist.py takes from networkx: rounds that each
-- move one node with no source left to the end of the order.
use svhier.Base.{
  ℕ, zero, suc, ◌≤◌, ◌<◌, String, Bool, true, false, not, ◌&&◌, ◌||◌, Option, none, some,
}
use svhier.Base.{List, [], ◌∷◌, ◌++◌, ◌≡◌, ap, ◌∙◌, ◌≢◌, ◌⊎◌, inl, inr, ◌==◌, contains}
use svhier.Base.{string_eq, pair_eq, if◌then◌else◌, arith, Bool-cases, Option-cases}
use svhier.Base.Lists.{
  length, filter, dedupe, Nodup, contains-filter, contains-add_unique, Nodup-add_unique,
  contains-append,
}
use svhier.Filelist.{Edge, Sorter}
use svhier.Filelist.Edges.{endpoints}
use svhier.Filelist.Order.{Before, IsTopologicalSort}

-- A source of `r` is left.
waits : List Edge → List String → String → Bool
waits [] left r = false
waits ((d, f) ∷ es) left r = (f == r && contains left d) || waits es left r

pick : List Edge → List String → List String → Option String
pick es left [] = none
pick es left (r ∷ rs) = if waits es left r then pick es left rs else some r

without : String → List String → List String
without r = filter (λ x. not (x == r))

rounds : List Edge → ℕ → List String → Option (List String)
rounds es zero [] = some []
rounds es zero (x ∷ xs) = none
rounds es (suc n) [] = some []
rounds es (suc n) (x ∷ xs) = elim (pick es (x ∷ xs) (x ∷ xs)) [
  | none ↦ none
  | some r ↦ elim (rounds es n (without r (x ∷ xs))) [ none ↦ none | some out ↦ some (r ∷ out) ]
]

unfoldable pub kahn : Sorter
unfolding dedupe rounds pick waits without
kahn nodes es = let all = dedupe (nodes ++ endpoints es) in rounds es (length all) all

waits-edge :
    (es : List Edge) (left : List String) (d f : String)
    → contains {A = Edge} es (d, f) ≡ true
    → contains left d ≡ true
    → waits es left f ≡ true
unfolding waits
waits-edge [] left d f h k = cc
waits-edge ((x, y) ∷ es) left d f h k = ground (arith, waits-edge es left d f)

waits-elim :
    (es : List Edge) (left : List String) (f : String)
    → waits es left f ≡ true
    → (d : String) × (contains {A = Edge} es (d, f) ≡ true) × (contains left d ≡ true)
unfolding waits
waits-elim [] left f h = absurd (cc)
waits-elim ((x, y) ∷ es) left f h = elim (Bool-cases (y == f && contains left x)) [
  | inl now ↦ (x, ground arith, ground arith)
  | inr later ↦ let (d, e, l) = waits-elim es left f (ground arith) in (d, ground arith, l)
]

pick-some :
    (es : List Edge) (left rs : List String) (r : String)
    → pick es left rs ≡ some r
    → (contains rs r ≡ true) × (waits es left r ≡ false)
unfolding pick
pick-some es left [] r h = absurd (cc)
pick-some es left (x ∷ rs) r h = ground (arith, pick-some es left rs r)

pick-none :
    (es : List Edge) (left rs : List String) (r : String)
    → pick es left rs ≡ none
    → contains rs r ≡ true
    → waits es left r ≡ true
unfolding pick
pick-none es left [] r h k = cc
pick-none es left (x ∷ rs) r h k = ground (arith, pick-none es left rs r)

-- One round.
rounds-suc :
    (es : List Edge) (n : ℕ) (left out : List String)
    → rounds es (suc n) left ≡ some out
    → ((left ≡ []) × (out ≡ []))
      ⊎ ((r : String) × (rest : List String) × (out ≡ r ∷ rest)
          × (rounds es n (without r left) ≡ some rest)
          × (contains left r ≡ true)
          × (waits es left r ≡ false))
unfolding rounds
rounds-suc es n [] out h = ground arith
rounds-suc es n (x ∷ xs) out h = elim (Option-cases (pick es (x ∷ xs) (x ∷ xs))) [
  | inl stuck ↦ absurd (ground arith)
  | inr (r, e) ↦ elim (Option-cases (rounds es n (without r (x ∷ xs)))) [
    | inl fails ↦ absurd (ground arith)
    | inr (rest, k) ↦
        let (i, w) = pick-some es (x ∷ xs) (x ∷ xs) r e in inr (r, rest, ground arith, k, i, w)
  ]
]

rounds-mem :
    (es : List Edge) (n : ℕ) (left out : List String) (f : String)
    → rounds es n left ≡ some out
    → contains out f ≡ contains left f
unfolding rounds without
rounds-mem es zero [] out f h = ground arith
rounds-mem es zero (x ∷ xs) out f h = absurd (cc)
rounds-mem es (suc n) left out f h = elim (rounds-suc es n left out h) [
  | inl (a, b) ↦ rw (a, b)
  | inr (r, rest, e, k, i, w) ↦
      ground (
        arith,
        rounds-mem es n (without r left) rest f k,
        contains-filter (λ x. not (x == r)) left f,
      )
]

Nodup-without : (r : String) (xs : List String) → Nodup xs → Nodup (without r xs)
unfolding without filter
Nodup-without r [] u = tt
Nodup-without r (x ∷ xs) u =
    ground (arith, Nodup-without r xs u.1, contains-filter (λ y. not (y == r)) xs x)

rounds-Nodup :
    (es : List Edge) (n : ℕ) (left out : List String)
    → Nodup left
    → rounds es n left ≡ some out
    → Nodup out
unfolding rounds without
rounds-Nodup es zero [] out u h = ground arith
rounds-Nodup es zero (x ∷ xs) out u h = absurd (cc)
rounds-Nodup es (suc n) left out u h = elim (rounds-suc es n left out h) [
  | inl (a, b) ↦ rw b tt
  | inr (r, rest, e, k, i, w) ↦
      let fresh = rounds-mem es n (without r left) rest r k in
      let more = rounds-Nodup es n (without r left) rest (Nodup-without r left u) k in
      rw e (ground (arith, contains-filter (λ x. not (x == r)) left r), more)
]

rounds-Before :
    (es : List Edge) (n : ℕ) (left out : List String) (d f : String)
    → rounds es n left ≡ some out
    → contains {A = Edge} es (d, f) ≡ true
    → contains left d ≡ true
    → contains left f ≡ true
    → Before d f out
unfolding rounds without
rounds-Before es zero [] out d f h e i j = absurd (cc)
rounds-Before es zero (x ∷ xs) out d f h e i j = absurd (cc)
rounds-Before es (suc n) left out d f h e i j = elim (rounds-suc es n left out h) [
  | inl (a, b) ↦ absurd (cc (ap (λ l. contains l d) a))
  | inr (r, rest, q, k, c, w) ↦
      let stays = waits-edge es left d f e i in
      let mem_f = rounds-mem es n (without r left) rest f k in
      let other_f = contains-filter (λ x. not (x == r)) left f in
      let other_d = contains-filter (λ x. not (x == r)) left d in
      let later = rounds-Before es n (without r left) rest d f k e in
      rw q (ground (arith, stays, mem_f, other_f, other_d, later))
]

length-filter : (p : String → Bool) (xs : List String) → length (filter p xs) ≤ length xs
unfolding filter
length-filter p [] = omega arith
length-filter p (x ∷ xs) = ground (arith, length-filter p xs)

length-without :
    (r : String) (xs : List String) → contains xs r ≡ true → length (without r xs) < length xs
unfolding without filter
length-without r [] h = absurd (cc)
length-without r (x ∷ xs) h =
    ground (arith, length-without r xs, length-filter (λ y. not (y == r)) xs)

abbrev Ranked : List Edge → (String → ℕ) → Type 0
Ranked es rank = (d f : String) → contains {A = Edge} es (d, f) ≡ true → rank d < rank f

-- Where nothing can be picked, each node has a lower one.
pick_descends :
    (es : List Edge) (rank : String → ℕ) (left : List String)
    → Ranked es rank
    → pick es left left ≡ none
    → (k : ℕ) (r : String) → rank r < k
    → contains left r ≡ true
    → ⊥
pick_descends es rank left low stuck zero r h i = omega arith
pick_descends es rank left low stuck (suc k) r h i =
    let (d, e, j) = waits-elim es left r (pick-none es left left r stuck i) in
    let lower = low d r e in pick_descends es rank left low stuck k d (omega arith) j

rounds-feasible :
    (es : List Edge) (rank : String → ℕ)
    → Ranked es rank
    → (n : ℕ) (left : List String) → length left ≤ n
    → rounds es n left ≢ none
unfolding rounds
rounds-feasible es rank low zero [] h = cc
rounds-feasible es rank low zero (x ∷ xs) h = absurd (omega arith)
rounds-feasible es rank low (suc n) [] h = cc
rounds-feasible es rank low (suc n) (x ∷ xs) h = elim (Option-cases (pick es (x ∷ xs) (x ∷ xs))) [
  | inl stuck ↦
      absurd
        (pick_descends es rank (x ∷ xs) low stuck (suc (rank x)) x (omega arith) (ground arith))
  | inr (r, e) ↦
      let (i, w) = pick-some es (x ∷ xs) (x ∷ xs) r e in
      let smaller = length-without r (x ∷ xs) i in
      let rest = rounds-feasible es rank low n (without r (x ∷ xs)) (omega arith) in
      ground (arith, rest)
]

contains-all :
    (nodes : List String) (es : List Edge) (f : String)
    → contains (dedupe (nodes ++ endpoints es)) f ≡ (contains nodes f || contains (endpoints es) f)
unfolding dedupe
contains-all nodes es f = ground (
  arith,
  contains-add_unique [] (nodes ++ endpoints es) f,
  contains-append nodes (endpoints es) f,
)

Nodup-all : (nodes : List String) (es : List Edge) → Nodup (dedupe (nodes ++ endpoints es))
unfolding dedupe
Nodup-all nodes es = Nodup-add_unique [] (nodes ++ endpoints es) tt

edge-endpoints :
    (es : List Edge) (d f : String)
    → contains {A = Edge} es (d, f) ≡ true
    → (contains (endpoints es) d ≡ true) × (contains (endpoints es) f ≡ true)
edge-endpoints [] d f h = absurd (cc)
edge-endpoints ((x, y) ∷ es) d f h = ground (arith, edge-endpoints es d f)

pub kahn-IsTopologicalSort : IsTopologicalSort kahn
unfolding kahn
kahn-IsTopologicalSort = record {
  mem = λ nodes es out f h. rounds-mem es _ _ out f h ∙ contains-all nodes es f;
  nodup = λ nodes es out h. rounds-Nodup es _ _ out (Nodup-all nodes es) h;
  before = λ nodes es out d f h e.
      let (i, j) = edge-endpoints es d f e in
      rounds-Before es _ _ out d f h e (ground (arith, i, contains-all nodes es d))
        (ground (arith, j, contains-all nodes es f));
  feasible = λ nodes es rank low.
      let all = dedupe (nodes ++ endpoints es) in
      rounds-feasible es rank low (length all) all (omega arith);
}
