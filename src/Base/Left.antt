-- ===== src/Base/Left.antt =====
-- How many elements of a list are left to be met, which bounds the loops that remember what they
-- have met.
use Prim.Native.Nat.{ℕ, ◌+◌, ◌≤◌, ◌<◌}
use mathlib.Core.Path.{◌≡◌}
use mathlib.Core.Logic.{inl, inr}
use mathlib.Core.Bool.{Bool, true, false}
use mathlib.Core.List.{List, [], ◌∷◌}
use native.Mathlib.Omega.{arith}
use svhier.Base.Equality.{Eq, ◌==◌, ==_iff, contains, Bool-cases}
use svhier.Base.Lists.{length}

abbrev weight : Bool → ℕ
weight true = 0
weight false = 1

module _ {ℓ κ} {A : Type ℓ} {B : Type κ} ⦃e : Eq A⦄ ⦃d : Eq B⦄ (resolve : A → B) where
  -- How many elements have not been met.
  unfoldable pub left : List A → List B → ℕ
  left [] had = 0
  left (p ∷ library) had = weight (contains had (resolve p)) + left library had

  pub left-length : (library : List A) (had : List B) → left library had ≤ length library
  unfolding left
  left-length [] had = omega arith
  left-length (p ∷ library) had = elim (Bool-cases (contains had (resolve p))) [
    | inl here ↦ rw here (omega (arith, left-length library had))
    | inr away ↦ rw away (omega (arith, left-length library had))
  ]

  pub left_le :
      (library : List A) (had more : List B)
      → ((p : B) → contains had p ≡ true → contains more p ≡ true)
      → left library more ≤ left library had
  unfolding left
  left_le [] had more grows = omega arith
  left_le (p ∷ library) had more grows = elim (Bool-cases (contains had (resolve p))) [
    | inl here ↦ rw (here, grows (resolve p) here) (omega (arith, left_le library had more grows))
    | inr away ↦ rw away (elim (Bool-cases (contains more (resolve p))) [
      | inl new ↦ rw new (omega (arith, left_le library had more grows))
      | inr out ↦ rw out (omega (arith, left_le library had more grows))
    ])
  ]

  pub left_lt :
      (library : List A) (had more : List B) (q : A)
      → ((p : B) → contains had p ≡ true → contains more p ≡ true)
      → contains library q ≡ true
      → contains had (resolve q) ≡ false
      → contains more (resolve q) ≡ true
      → left library more < left library had
  unfolding left
  left_lt [] had more q grows c away here = absurd (cc)
  left_lt (p ∷ library) had more q grows c away here = elim (Bool-cases (q == p)) [
    | inl same ↦
        let e = (==_iff q p).0 same in
        let before : contains had (resolve p) ≡ false = rw (← e) away in
        let after : contains more (resolve p) ≡ true = rw (← e) here in
        rw (before, after) (omega (arith, left_le library had more grows))
    | inr other ↦
        let rest = left_lt library had more q grows (ground (arith, other)) away here in
        elim (Bool-cases (contains had (resolve p))) [
          | inl had_it ↦ rw (had_it, grows (resolve p) had_it) (omega (arith, rest))
          | inr new ↦ rw new (elim (Bool-cases (contains more (resolve p))) [
            | inl now ↦ rw now (omega (arith, rest))
            | inr out ↦ rw out (omega (arith, rest))
          ])
        ]
  ]
