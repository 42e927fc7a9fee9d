-- ===== src/Base/Equality.antt =====
-- Python's `==` and `in`, for every type whose equality can be decided.
use Prim.Native.Nat.{ℕ}
use Prim.Native.String.{String}
use native.Mathlib.Decide.{ℕ_discrete}
use mathlib.Core.Path.{◌≡◌, refl, sym, ap}
use mathlib.Core.Logic.{ite, dite, ◌↔◌, ◌⊎◌, inl, inr}
use mathlib.Core.Bool.{Bool, true, false, cond, ◌&&◌, ◌||◌, Bool-discrete}
use mathlib.Core.Option.{Option, none, some}
use mathlib.Core.List.{List, [], ◌∷◌}
use native.Mathlib.Omega.{arith}
use text.Mathlib.Text
use text.Mathlib.TextEquality.{eq_iff}

infix 1 if◌then◌else◌
abbrev pub if◌then◌else◌ {ℓ} : {A : Type ℓ} → Bool → A → A → A
if b then x else y = cond b x y

pub record Eq {ℓ} (A : Type ℓ) : Type ℓ where
  pub dec : Discrete A

module _ {ℓ} {A : Type ℓ} ⦃e : Eq A⦄ where
  infix 50 ◌==◌
  abbrev pub ◌==◌ : A → A → Bool
  a == b = ite (e.dec a b) true false

  -- `a in xs`
  abbrev pub contains : List A → A → Bool
  contains [] a = false
  contains (x ∷ xs) a = a == x || contains xs a

  pub ==_iff : (a b : A) → ((a == b) ≡ true) ↔ (a ≡ b)
  ==_iff a b = ground arith

  pub ==_refl : (a : A) → (a == a) ≡ true
  ==_refl a = ground arith

-- To split on a computed test and keep the equation.
pub Bool-cases : (b : Bool) → (b ≡ true) ⊎ (b ≡ false)
Bool-cases true = inl refl
Bool-cases false = inr refl

-- Two tests that agree are equal.
pub bool_ext : (a b : Bool) → ((a ≡ true) → b ≡ true) → ((b ≡ true) → a ≡ true) → a ≡ b
bool_ext true b f g = sym (f refl)
bool_ext false true f g = g refl
bool_ext false false f g = refl

pub and_true : (a b : Bool) → a ≡ true → b ≡ true → (a && b) ≡ true
and_true a b p q = rw (p, q) refl

pub of_and_true : (a b : Bool) → (a && b) ≡ true → (a ≡ true) × (b ≡ true)
of_and_true a b h = ground arith

pub Option-cases {ℓ} : {A : Type ℓ} (o : Option A) → (o ≡ none) ⊎ ((a : A) × (o ≡ some a))
Option-cases none = inl refl
Option-cases (some a) = inr (a, refl)

unfoldable pub String-discrete : Discrete String
String-discrete s t =
    dite (Bool-discrete (Text.◌==◌ s t) true) (λ same. yes ((eq_iff s t).0 same))
      (λ differ. no (λ p. differ ((eq_iff s t).1 p)))

-- Shut in proofs, where a split on `s == t` yields the equation or its negation.
instance unfoldable pub string_eq : Eq String
unfolding String-discrete
string_eq = record { dec = String-discrete }

instance unfoldable pub nat_eq : Eq ℕ
unfolding ℕ_discrete
nat_eq = record { dec = ℕ_discrete }

module _ {ℓ} {A : Type ℓ} ⦃e : Eq A⦄ where
  List-discrete : Discrete (List A)
  List-discrete = hlevel e.dec

  Option-discrete : Discrete (Option A)
  Option-discrete = hlevel e.dec

  instance unfoldable pub list_eq : Eq (List A)
  unfolding List-discrete
  list_eq = record { dec = List-discrete }

  instance unfoldable pub option_eq : Eq (Option A)
  unfolding Option-discrete
  option_eq = record { dec = Option-discrete }

module _ {ℓ κ} {A : Type ℓ} {B : Type κ} ⦃e : Eq A⦄ ⦃f : Eq B⦄ where
  pair-discrete : Discrete (A × B)
  pair-discrete = hlevel (e.dec, f.dec)

  instance unfoldable pub pair_eq : Eq (A × B)
  unfolding pair-discrete
  pair_eq = record { dec = pair-discrete }

  pub ==-pair : (a c : A) (b d : B) → ◌==◌ {A = A × B} (a, b) (c, d) ≡ (a == c && b == d)
  ==-pair a c b d =
      bool_ext (◌==◌ {A = A × B} (a, b) (c, d)) (a == c && b == d)
        (λ h.
          let same : ◌≡◌ {A = A × B} (a, b) (c, d) = (==_iff {A = A × B} (a, b) (c, d)).0 h in
          and_true _ _ ((==_iff a c).1 (ap (λ (x : A × B). x.0) same))
            ((==_iff b d).1 (ap (λ (x : A × B). x.1) same)))
        (λ h.
          let (l, r) = of_and_true _ _ h in
          let first = (==_iff a c).0 l in
          let second = (==_iff b d).0 r in
          (==_iff {A = A × B} (a, b) (c, d)).1 (λ i. (first i, second i)))
