-- ===== src/Base/All.antt =====
-- What holds of all items of a list, or of all values of a dict, as Python code changes them.
use svhier.Base.Equality.{Bool-cases, ◌==◌, contains, string_eq, pair_eq}
use mathlib.Core.Logic.{inl, inr}
use mathlib.Core.List.{List, [], ◌∷◌, ◌++◌}
use Prim.Native.String.{String}
use svhier.Base.Dict.{Dict, values, update, set_default}
use svhier.Base.Lists.{All, add_if_new, add_unique}

module _ {ℓ κ} {A : Type ℓ} (P : A → Type κ) where
  All-append : (xs ys : List A) → All P xs → All P ys → All P (xs ++ ys)
  All-append [] ys a b = b
  All-append (x ∷ xs) ys (p, a) b = (p, All-append xs ys a b)

module _ {κ} (P : String × String → Type κ) where
  pub All-add_unique :
      (xs ys : List (String × String)) → All P xs → All P ys → All P (add_unique xs ys)
  unfolding add_unique add_if_new
  All-add_unique xs [] a b = a
  All-add_unique xs (y ∷ ys) a (p, b) = elim (Bool-cases (contains xs y)) [
    | inl old ↦ rw (old, add_if_new) (All-add_unique xs ys a b)
    | inr new ↦
        rw (new, add_if_new)
          (All-add_unique (xs ++ y ∷ []) ys (All-append P xs (y ∷ []) a (p, tt)) b)
  ]

module _ {κ} {V : Type 0} (P : V → Type κ) where
  pub values-update :
      (k : String) (start : V) (f : V → V) (d : Dict String V)
      → P start
      → ((v : V) → P v → P (f v))
      → All P (values d)
      → All P (values (update k start f d))
  unfolding values update
  values-update k start f [] p grows a = (grows start p, tt)
  values-update k start f ((j, w) ∷ d) p grows (pw, a) = elim (Bool-cases (k == j)) [
    | inl same ↦ rw same (grows w pw, a)
    | inr other ↦ rw other (pw, values-update k start f d p grows a)
  ]

  pub values-set_default :
      (k : String) (v : V) (d : Dict String V)
      → P v
      → All P (values d)
      → All P (values (set_default k v d))
  unfolding values set_default
  values-set_default k v [] p a = (p, tt)
  values-set_default k v ((j, w) ∷ d) p (pw, a) = elim (Bool-cases (k == j)) [
    | inl same ↦ rw same (pw, a)
    | inr other ↦ rw other (pw, values-set_default k v d p a)
  ]
