-- ===== src/Base/Lists.antt =====
-- Lists measured by native numbers, `_add_unique` and `list(dict.fromkeys(items))`, and orders of
-- first occurrence.
use Prim.Native.Nat.{ℕ, zero, suc, ◌+◌, ◌≤◌}
use mathlib.Core.Path.{◌≡◌, refl, ap}
use mathlib.Core.Logic.{◌↔◌, ◌⊎◌, inl, inr}
use mathlib.Core.Bool.{Bool, true, false, ◌||◌}
use mathlib.Core.List.{List, [], ◌∷◌, ◌++◌}
use native.Mathlib.Omega.{arith}
use svhier.Base.Equality.{Eq, ◌==◌, contains, if◌then◌else◌}

abbrev pub All {ℓ κ} : {A : Type ℓ} → (A → Type κ) → List A → Type κ
All P [] = Unit
All P (x ∷ xs) = P x × All P xs

module _ {ℓ} {A : Type ℓ} where
  abbrev pub length : List A → ℕ
  length [] = 0
  length (x ∷ xs) = suc (length xs)

  abbrev pub take : ℕ → List A → List A
  take zero xs = []
  take (suc n) [] = []
  take (suc n) (x ∷ xs) = x ∷ take n xs

  abbrev pub drop : ℕ → List A → List A
  drop zero xs = xs
  drop (suc n) [] = []
  drop (suc n) (x ∷ xs) = drop n xs

  -- `[x for x in xs if p(x)]`
  unfoldable pub filter : (A → Bool) → List A → List A
  filter p [] = []
  filter p (x ∷ xs) = let rest = filter p xs in if p x then x ∷ rest else rest

  unfoldable pub any : (A → Bool) → List A → Bool
  any p [] = false
  any p (x ∷ xs) = p x || any p xs

  -- `[y for x in xs for y in f(x)]`
  unfoldable pub flat_map {κ} : {B : Type κ} → (A → List B) → List A → List B
  flat_map f [] = []
  flat_map f (x ∷ xs) = f x ++ flat_map f xs

  pub length-append : (xs ys : List A) → length (xs ++ ys) ≡ length xs + length ys
  length-append [] ys = omega arith
  length-append (x ∷ xs) ys = omega (arith, length-append xs ys)

  pub take-append : (n : ℕ) (xs ys : List A) → n ≤ length xs → take n (xs ++ ys) ≡ take n xs
  take-append zero xs ys h = refl
  take-append (suc n) [] ys h = absurd (omega arith)
  take-append (suc n) (x ∷ xs) ys h = ap (◌∷◌ x) (take-append n xs ys (omega arith))

  pub drop-append : (n : ℕ) (xs ys : List A) → n ≤ length xs → drop n (xs ++ ys) ≡ drop n xs ++ ys
  drop-append zero xs ys h = refl
  drop-append (suc n) [] ys h = absurd (omega arith)
  drop-append (suc n) (x ∷ xs) ys h = drop-append n xs ys (omega arith)

  pub take-length : (xs ys : List A) → take (length xs) (xs ++ ys) ≡ xs
  take-length [] ys = refl
  take-length (x ∷ xs) ys = ap (◌∷◌ x) (take-length xs ys)

  pub drop-length : (xs ys : List A) → drop (length xs) (xs ++ ys) ≡ ys
  drop-length [] ys = refl
  drop-length (x ∷ xs) ys = drop-length xs ys

-- To split on a computed list and keep the equation.
pub List-cases {ℓ} :
    {A : Type ℓ} (xs : List A) → (xs ≡ []) ⊎ ((x : A) × (rest : List A) × (xs ≡ x ∷ rest))
List-cases [] = inl refl
List-cases (x ∷ xs) = inr (x, xs, refl)

module _ {ℓ} {A : Type ℓ} ⦃e : Eq A⦄ where
  -- `if x not in xs: xs.append(x)`
  unfoldable pub add_if_new : List A → A → List A
  add_if_new xs x = if contains xs x then xs else xs ++ x ∷ []

  -- `target.extend(item for item in items if item not in target)`: the generator is run as the
  -- target grows, so a repeat among the items is left out too.
  unfoldable pub add_unique : List A → List A → List A
  unfolding add_if_new
  add_unique target [] = target
  add_unique target (x ∷ items) = add_unique (add_if_new target x) items

  -- `list(dict.fromkeys(items))`
  unfoldable pub dedupe : List A → List A
  unfolding add_unique
  dedupe items = add_unique [] items

  abbrev pub Nodup : List A → Type 0
  Nodup [] = Unit
  Nodup (x ∷ xs) = (contains xs x ≡ false) × Nodup xs

  pub contains-append :
      (xs ys : List A) (a : A) → contains (xs ++ ys) a ≡ (contains xs a || contains ys a)
  contains-append [] ys a = refl
  contains-append (x ∷ xs) ys a = ground (arith, contains-append xs ys a)

  pub contains-filter :
      (p : A → Bool) (xs : List A) (a : A)
      → (contains (filter p xs) a ≡ true) ↔ ((contains xs a ≡ true) × (p a ≡ true))
  unfolding filter
  contains-filter p [] a = (λ h. cc, λ h. cc)
  contains-filter p (x ∷ xs) a = ground (arith, contains-filter p xs a)

  pub contains-add_if_new :
      (xs : List A) (x a : A) → contains (add_if_new xs x) a ≡ (contains xs a || a == x)
  unfolding add_if_new
  contains-add_if_new xs x a = ground (arith, contains-append xs (x ∷ []) a)

  pub contains-add_unique :
      (xs ys : List A) (a : A) → contains (add_unique xs ys) a ≡ (contains xs a || contains ys a)
  unfolding add_unique
  contains-add_unique xs [] a = ground arith
  contains-add_unique xs (y ∷ ys) a =
      ground (arith, contains-add_unique (add_if_new xs y) ys a, contains-add_if_new xs y a)

  Nodup-concat : (xs : List A) (x : A) → contains xs x ≡ false → Nodup xs → Nodup (xs ++ x ∷ [])
  Nodup-concat [] x h u = (refl, tt)
  Nodup-concat (y ∷ ys) x h u = ground (arith, contains-append ys (x ∷ []) y, Nodup-concat ys x)

  pub Nodup-add_if_new : (xs : List A) (x : A) → Nodup xs → Nodup (add_if_new xs x)
  unfolding add_if_new
  Nodup-add_if_new xs x u = ground (arith, Nodup-concat xs x)

  pub Nodup-add_unique : (xs ys : List A) → Nodup xs → Nodup (add_unique xs ys)
  unfolding add_unique
  Nodup-add_unique xs [] u = u
  Nodup-add_unique xs (y ∷ ys) u = Nodup-add_unique (add_if_new xs y) ys (Nodup-add_if_new xs y u)
