-- ===== src/Base/Text.antt =====
-- `str.lower`, the order of strings and `sorted`. Names in the hardware languages are ASCII: the
-- other letters stay as they are.
use Prim.Native.Nat.{ℕ, ◌-◌, Ordering, compare as compare_ℕ}
use Prim.Native.String.{String, char_at, compare}
use Prim.Native.Char.{Char, code}
use mathlib.Core.Path.{◌≡◌, refl}
use mathlib.Core.Bool.{Bool, true, false, ◌&&◌, ◌||◌}
use mathlib.Core.List.{List, [], ◌∷◌}
use native.Mathlib.Omega.{arith}
use svhier.Base.Equality.{Eq, contains, ◌==◌, if◌then◌else◌}

abbrev pub leb : ℕ → ℕ → Bool
leb a b = elim (compare_ℕ a b) [ Ordering.gt ↦ false | _ ↦ true ]

unfoldable pub lower_char : Char → Char
lower_char c =
    if leb 65 (code c) && leb (code c) 90
    then char_at "abcdefghijklmnopqrstuvwxyz" (code c - 65)
    else c

-- `s.lower()`
unfoldable pub lower : String → String
unfolding lower_char
lower String.[] = String.[]
lower (String.◌∷◌ c s) = String.◌∷◌ (lower_char c) (lower s)

-- `s <= t`
abbrev pub string_le : String → String → Bool
string_le s t = elim (compare s t) [ Ordering.gt ↦ false | _ ↦ true ]

-- `<=` on pairs of strings
abbrev pub pair_le : String × String → String × String → Bool
pair_le (a, b) (c, d) = elim (compare a c) [
  | Ordering.lt ↦ true
  | Ordering.eq ↦ string_le b d
  | Ordering.gt ↦ false
]

module _ {ℓ} {A : Type ℓ} where
  unfoldable pub insert_sorted : (A → A → Bool) → A → List A → List A
  insert_sorted le x [] = x ∷ []
  insert_sorted le x (y ∷ ys) =
      let rest = insert_sorted le x ys in if le x y then x ∷ y ∷ ys else y ∷ rest

  -- `sorted(xs)`, which is stable
  unfoldable pub sort : (A → A → Bool) → List A → List A
  unfolding insert_sorted
  sort le [] = []
  sort le (x ∷ xs) = insert_sorted le x (sort le xs)

module _ {ℓ} {A : Type ℓ} ⦃e : Eq A⦄ where
  contains-insert_sorted :
      (le : A → A → Bool) (x : A) (ys : List A) (a : A)
      → contains (insert_sorted le x ys) a ≡ (a == x || contains ys a)
  unfolding insert_sorted
  contains-insert_sorted le x [] a = refl
  contains-insert_sorted le x (y ∷ ys) a = ground (arith, contains-insert_sorted le x ys a)

  pub contains-sort :
      (le : A → A → Bool) (xs : List A) (a : A) → contains (sort le xs) a ≡ contains xs a
  unfolding sort
  contains-sort le [] a = refl
  contains-sort le (x ∷ xs) a =
      ground (arith, contains-insert_sorted le x (sort le xs) a, contains-sort le xs a)
