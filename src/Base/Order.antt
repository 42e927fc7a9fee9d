-- ===== src/Base/Order.antt =====
-- Orders as tests: tuples compared by their parts, and what `sorted` does with an order.
use Prim.Native.Nat.{ℕ, ◌<◌, Ordering, compare as compare_ℕ}
use Prim.Native.String.{String}
use Prim.Native.String.compare
use Prim.Native.Char.{Char, code}
use native.Mathlib.Omega.{arith, compare-lt, compare-eq, compare-gt}
use mathlib.Core.Path.{◌≡◌, refl, sym, ◌∙◌}
use mathlib.Core.Logic.{◌⊎◌, inl, inr}
use mathlib.Core.Bool.{Bool, true, false, ◌&&◌, ◌||◌}
use mathlib.Core.List.{List, [], ◌∷◌}
use svhier.Base.Equality.{Bool-cases, if◌then◌else◌}
use svhier.Base.Lists.{All, length}
use svhier.Base.Text.{string_le, insert_sorted, sort}

module _ {ℓ} {A : Type ℓ} where
  -- What `sorted` relies on.
  abbrev pub IsOrder : (A → A → Bool) → Type ℓ
  IsOrder le =
      ((a b : A) → le a b ≡ false → le b a ≡ true)
      × ((a b c : A) → le a b ≡ true → le b c ≡ true → le a c ≡ true)

Ordering-cases : (o : Ordering) → (o ≡ Ordering.lt) ⊎ ((o ≡ Ordering.eq) ⊎ (o ≡ Ordering.gt))
Ordering-cases Ordering.lt = inl refl
Ordering-cases Ordering.eq = inr (inl refl)
Ordering-cases Ordering.gt = inr (inr refl)

abbrev num_le : ℕ → ℕ → Bool → Bool
num_le a b rest = elim (compare_ℕ a b) [
  | Ordering.lt ↦ true
  | Ordering.eq ↦ rest
  | Ordering.gt ↦ false
]

num_le-lt : (a b : ℕ) (rest : Bool) → a < b → num_le a b rest ≡ true
num_le-lt a b rest h = elim (Ordering-cases (compare_ℕ a b)) [
  | inl e ↦ rw (e, num_le) refl
  | inr (inl e) ↦ absurd (omega (arith, h, compare-eq a b e))
  | inr (inr e) ↦ absurd (omega (arith, h, compare-gt a b e))
]

num_le-eq : (a b : ℕ) (rest : Bool) → a ≡ b → num_le a b rest ≡ rest
num_le-eq a b rest h = elim (Ordering-cases (compare_ℕ a b)) [
  | inl e ↦ absurd (omega (arith, h, compare-lt a b e))
  | inr (inl e) ↦ rw (e, num_le) refl
  | inr (inr e) ↦ absurd (omega (arith, h, compare-gt a b e))
]

num_le-true : (a b : ℕ) (rest : Bool) → num_le a b rest ≡ true → (a < b) ⊎ ((a ≡ b) × (rest ≡ true))
num_le-true a b rest h = elim (Ordering-cases (compare_ℕ a b)) [
  | inl e ↦ inl (compare-lt a b e)
  | inr (inl e) ↦ inr (compare-eq a b e, rw (e, num_le) at h)
  | inr (inr e) ↦ absurd (cc (rw (e, num_le) at h))
]

num_le-false :
    (a b : ℕ) (rest : Bool) → num_le a b rest ≡ false → (b < a) ⊎ ((b ≡ a) × (rest ≡ false))
num_le-false a b rest h = elim (Ordering-cases (compare_ℕ a b)) [
  | inl e ↦ absurd (cc (rw (e, num_le) at h))
  | inr (inl e) ↦ inr (sym (compare-eq a b e), rw (e, num_le) at h)
  | inr (inr e) ↦ inl (compare-gt a b e)
]

module _ {ℓ} {A : Type ℓ} where
  -- A tuple whose first part is a test, where `False` comes before `True`, or a number.
  abbrev pub by_test : (A → Bool) → (A → A → Bool) → A → A → Bool
  by_test p le a b = if p a then p b && le a b else p b || le a b

  abbrev pub by_number : (A → ℕ) → (A → A → Bool) → A → A → Bool
  by_number f le a b = num_le (f a) (f b) (le a b)

  pub by_test-IsOrder : (p : A → Bool) (le : A → A → Bool) → IsOrder le → IsOrder (by_test p le)
  by_test-IsOrder p le (total, trans) =
      (λ a b h. ground (arith, total a b), λ a b c h k. ground (arith, trans a b c))

  pub by_number-IsOrder : (f : A → ℕ) (le : A → A → Bool) → IsOrder le → IsOrder (by_number f le)
  by_number-IsOrder f le (total, trans) = (
    λ a b h. elim (num_le-false (f a) (f b) (le a b) h) [
      | inl lt ↦ num_le-lt (f b) (f a) (le b a) lt
      | inr (e, n) ↦ num_le-eq (f b) (f a) (le b a) e ∙ total a b n
    ],
    λ a b c h k. elim (num_le-true (f a) (f b) (le a b) h) [
      | inl lt ↦ elim (num_le-true (f b) (f c) (le b c) k) [
        | inl lt2 ↦ num_le-lt (f a) (f c) (le a c) (omega (arith, lt, lt2))
        | inr (e2, _) ↦ num_le-lt (f a) (f c) (le a c) (omega (arith, lt, e2))
      ]
      | inr (e, y) ↦ elim (num_le-true (f b) (f c) (le b c) k) [
        | inl lt2 ↦ num_le-lt (f a) (f c) (le a c) (omega (arith, e, lt2))
        | inr (e2, y2) ↦ num_le-eq (f a) (f c) (le a c) (e ∙ e2) ∙ trans a b c y y2
      ]
    ],
  )

  -- Ordered throughout.
  unfoldable pub IsSorted : (A → A → Bool) → List A → Type 0
  IsSorted le [] = Unit
  IsSorted le (x ∷ xs) = All (λ y. le x y ≡ true) xs × IsSorted le xs

  All-insert_sorted {κ} :
      (P : A → Type κ) (le : A → A → Bool) (x : A) (ys : List A)
      → P x
      → All P ys
      → All P (insert_sorted le x ys)
  unfolding insert_sorted
  All-insert_sorted P le x [] p a = (p, tt)
  All-insert_sorted P le x (y ∷ ys) p a = elim (Bool-cases (le x y)) [
    | inl before ↦ rw before (p, a)
    | inr after ↦ rw after (a.0, All-insert_sorted P le x ys p a.1)
  ]

  All-trans :
      (le : A → A → Bool) (x y : A) (ys : List A)
      → IsOrder le
      → le x y ≡ true
      → All (λ z. le y z ≡ true) ys
      → All (λ z. le x z ≡ true) ys
  All-trans le x y [] o h a = tt
  All-trans le x y (z ∷ ys) o h a = (o.1 x y z h a.0, All-trans le x y ys o h a.1)

  insert_sorted-IsSorted :
      (le : A → A → Bool) (x : A) (ys : List A)
      → IsOrder le
      → IsSorted le ys
      → IsSorted le (insert_sorted le x ys)
  unfolding insert_sorted IsSorted
  insert_sorted-IsSorted le x [] o s = (tt, tt)
  insert_sorted-IsSorted le x (y ∷ ys) o s = elim (Bool-cases (le x y)) [
    | inl before ↦ rw before ((before, All-trans le x y ys o before s.0), s)
    | inr after ↦ rw after (
      All-insert_sorted (λ z. le y z ≡ true) le x ys (o.0 x y after) s.0,
      insert_sorted-IsSorted le x ys o s.1,
    )
  ]

  pub sort-IsSorted : (le : A → A → Bool) (xs : List A) → IsOrder le → IsSorted le (sort le xs)
  unfolding sort IsSorted
  sort-IsSorted le [] o = tt
  sort-IsSorted le (x ∷ xs) o = insert_sorted-IsSorted le x (sort le xs) o (sort-IsSorted le xs o)

  length-insert_sorted :
      (le : A → A → Bool) (x : A) (ys : List A) → length (insert_sorted le x ys) ≡ length (x ∷ ys)
  unfolding insert_sorted
  length-insert_sorted le x [] = refl
  length-insert_sorted le x (y ∷ ys) = ground (arith, length-insert_sorted le x ys)

  pub length-sort : (le : A → A → Bool) (xs : List A) → length (sort le xs) ≡ length xs
  unfolding sort
  length-sort le [] = refl
  length-sort le (x ∷ xs) = omega (arith, length-insert_sorted le x (sort le xs), length-sort le xs)

string_le-cons :
    (c d : Char) (s t : String)
    → string_le (String.◌∷◌ c s) (String.◌∷◌ d t) ≡ num_le (code c) (code d) (string_le s t)
string_le-cons c d s t = elim (Ordering-cases (compare_ℕ (code c) (code d))) [
  | inl e ↦ rw (compare.cons-cons c d s t, string_le) (rw (e, num_le) refl)
  | inr (inl e) ↦ rw (compare.cons-cons c d s t, string_le) (rw (e, num_le) refl)
  | inr (inr e) ↦ rw (compare.cons-cons c d s t, string_le) (rw (e, num_le) refl)
]

string_le_total : (s t : String) → string_le s t ≡ false → string_le t s ≡ true
string_le_total String.[] String.[] h = refl
string_le_total String.[] (String.◌∷◌ d t) h =
    absurd (cc (rw (compare.nil-cons d t, string_le) at h))
string_le_total (String.◌∷◌ c s) String.[] h = rw (compare.nil-cons c s, string_le) refl
string_le_total (String.◌∷◌ c s) (String.◌∷◌ d t) h =
    string_le-cons d c t s
    ∙ elim (num_le-false (code c) (code d) (string_le s t) (sym (string_le-cons c d s t) ∙ h)) [
      | inl lt ↦ num_le-lt (code d) (code c) (string_le t s) lt
      | inr (e, n) ↦ num_le-eq (code d) (code c) (string_le t s) e ∙ string_le_total s t n
    ]

string_le_trans :
    (s t u : String) → string_le s t ≡ true → string_le t u ≡ true → string_le s u ≡ true
string_le_trans String.[] t String.[] h k = refl
string_le_trans String.[] t (String.◌∷◌ e u) h k = rw (compare.nil-cons e u, string_le) refl
string_le_trans (String.◌∷◌ c s) String.[] u h k =
    absurd (cc (rw (compare.cons-nil c s, string_le) at h))
string_le_trans (String.◌∷◌ c s) (String.◌∷◌ d t) String.[] h k =
    absurd (cc (rw (compare.cons-nil d t, string_le) at k))
string_le_trans (String.◌∷◌ c s) (String.◌∷◌ d t) (String.◌∷◌ e u) h k =
    let first = num_le-true (code c) (code d) (string_le s t) (sym (string_le-cons c d s t) ∙ h) in
    let second = num_le-true (code d) (code e) (string_le t u) (sym (string_le-cons d e t u) ∙ k) in
    string_le-cons c e s u ∙ elim first [
      | inl lt ↦ elim second [
        | inl lt2 ↦ num_le-lt (code c) (code e) (string_le s u) (omega (arith, lt, lt2))
        | inr (e2, _) ↦ num_le-lt (code c) (code e) (string_le s u) (omega (arith, lt, e2))
      ]
      | inr (e1, y) ↦ elim second [
        | inl lt2 ↦ num_le-lt (code c) (code e) (string_le s u) (omega (arith, e1, lt2))
        | inr (e2, y2) ↦
            num_le-eq (code c) (code e) (string_le s u) (e1 ∙ e2) ∙ string_le_trans s t u y y2
      ]
    ]

pub string_le-IsOrder : IsOrder string_le
string_le-IsOrder = (string_le_total, string_le_trans)
