-- ===== src/Parser/Command/Quote.antt =====
-- What `_quote` and the rounds of `_elaborate` (src/svhier/parser.py) achieve.
use Prim.Native.Char.{Char, char, code}
use Prim.Native.String.append
use text.Mathlib.TextLemmas.{append_assoc}
use svhier.Base.{
  ℕ, zero, suc, ◌+◌, String, ◌<>◌, Bool, true, false, Option, none, some, ◌≡◌, ◌⊎◌, ◌∙◌, refl, ap,
  arith, inl, inr, Bool-cases,
}
use svhier.Base.{◌==◌, nat_eq, if◌then◌else◌}
use svhier.Parser.Command.{backslash, escape, escape_all, quote, Loader, pull_rounds, elaborate}

abbrev quote_mark : Char
quote_mark = char 34 tt

-- A reader of quoted arguments: between the quotes a backslash takes the next character as it is, and the
-- first quote that is not taken ends the argument. It returns the argument and what follows.
abbrev pub put_front : Char → Option (String × String) → Option (String × String)
put_front c none = none
put_front c (some (arg, rest)) = some (String.◌∷◌ c arg, rest)

unfoldable pub read_inside : Bool → String → Option (String × String)
read_inside taken String.[] = none
read_inside true (String.◌∷◌ c s) = put_front c (read_inside false s)
read_inside false (String.◌∷◌ c s) =
    let skipped = read_inside true s in
    let kept = put_front c (read_inside false s) in
    if code c == 34 then some (String.[], s) else (if code c == 92 then skipped else kept)

unfoldable pub read_quoted : String → Option (String × String)
unfolding read_inside
read_quoted String.[] = none
read_quoted (String.◌∷◌ c s) =
    let inside = read_inside false s in if code c == 34 then inside else none

quoted_front : (s : String) → "\"" <> s ≡ String.◌∷◌ quote_mark s
quoted_front s = append.cons quote_mark String.[] s ∙ ap (String.◌∷◌ quote_mark) (append.nil s)

read_inside-escape_all :
    (arg rest : String) → read_inside false (escape_all arg <> "\"" <> rest) ≡ some (arg, rest)
unfolding escape_all escape read_inside nat_eq
read_inside-escape_all String.[] rest =
    ap (read_inside false) (append.nil ("\"" <> rest) ∙ quoted_front rest)
read_inside-escape_all (String.◌∷◌ c s) rest =
    let later = ap (put_front c) (read_inside-escape_all s rest) in
    let tail = "\"" <> rest in
    let whole = String.◌∷◌ c (escape_all s) in
    let front = append.cons backslash whole tail in
    let next = append.cons c (escape_all s) tail in
    elim (Bool-cases (code c == 92)) [
      | inl slash ↦
          let plain : (code c == 34) ≡ false = ground arith in
          rw (slash, plain, escape) (rw (front, next) later)
      | inr other ↦ elim (Bool-cases (code c == 34)) [
        | inl mark ↦ rw (other, mark, escape) (rw (front, next) later)
        | inr plain ↦ rw (other, plain, escape) (rw next (rw (other, plain) later))
      ]
    ]

-- A quoted argument, whatever stands behind it, is read back as it was, up to its closing quote.
pub read_quoted-quote : (arg rest : String) → read_quoted (quote arg <> rest) ≡ some (arg, rest)
unfolding quote read_quoted nat_eq
read_quoted-quote arg rest =
    ap read_quoted (
      append_assoc "\"" (escape_all arg <> "\"") rest
      ∙ quoted_front ((escape_all arg <> "\"") <> rest)
      ∙ ap (String.◌∷◌ quote_mark) (append_assoc (escape_all arg) "\"" rest))
    ∙ read_inside-escape_all arg rest

module _ {L W : Type 0} (loader : Loader L W) where
  -- So many rounds lead from one world to another: each loads, and what it loaded had more to pull.
  pub data Rounds : ℕ → W → W → Type 0 where
    none_yet : {w : W} → Rounds 0 w w
    round :
        {n : ℕ} {w between after : W}
        → loader.pull (loader.load w).0 (loader.load w).1 ≡ (true, between)
        → Rounds n between after
        → Rounds (suc n) w after

  -- What is returned was loaded after all rounds, of which there are all that are allowed, or else
  -- a further pull said that this very load has nothing more to add.
  abbrev pub IsLoadedLast : ℕ → W → ℕ × (L × W) → Type 0
  IsLoadedLast max_pulls w result =
      (n : ℕ) × (before : W) × Rounds n w before
      × (((n ≡ max_pulls) × (result ≡ (0, loader.load before)))
          ⊎ ((left : ℕ) × (n + suc left ≡ max_pulls)
              × (after : W) × (loader.pull (loader.load before).0 (loader.load before).1
                  ≡ (false, after))
              × (result ≡ (suc left, ((loader.load before).0, after)))))

  IsLoadedLast-round :
      (k : ℕ) (w between : W) (result : ℕ × (L × W))
      → loader.pull (loader.load w).0 (loader.load w).1 ≡ (true, between)
      → IsLoadedLast k between result
      → IsLoadedLast (suc k) w result
  IsLoadedLast-round k w between result more (n, before, rounds, inl (all, same)) =
      (suc n, before, round more rounds, inl (ap suc all, same))
  IsLoadedLast-round k w between result more
        (n, before, rounds, inr (left, some_left, after, quiet, same)) =
      (suc n, before, round more rounds, inr (left, omega (arith, some_left), after, quiet, same))

  -- However the answers fall, `_elaborate` returns what the sources gave when they were last loaded, in
  -- the world that all pulls before have left: it stops at the first pull that has nothing to
  -- add to that load, or when it has pulled as often as it may, and then loads once more.
  pub elaborate-IsLoadedLast :
      (max_pulls : ℕ) (w : W) → IsLoadedLast max_pulls w (elaborate loader max_pulls w)
  unfolding elaborate pull_rounds
  elaborate-IsLoadedLast zero w = (0, w, none_yet, inl (refl, refl))
  elaborate-IsLoadedLast (suc k) w =
      let start = loader.load w in
      let w1 = (loader.pull start.0 start.1).1 in
      elim (Bool-cases (loader.pull start.0 start.1).0) [
        | inl more ↦
            let (n, before, rounds, ends) = elaborate-IsLoadedLast k w1 in
            rw (more, pull_rounds)
              (IsLoadedLast-round k w w1 (elaborate loader k w1) (λ i. (more i, w1))
                (elaborate-IsLoadedLast k w1))
        | inr enough ↦
            let quiet : loader.pull start.0 start.1 ≡ (false, w1) = λ i. (enough i, w1) in
            let same : elaborate loader (suc k) w ≡ (suc k, (start.0, w1)) =
              rw (enough, pull_rounds) refl in
            (0, w, none_yet, inr (k, omega arith, w1, quiet, same))
      ]
