-- ===== src/Base/Dict.antt =====
-- Python dicts in insertion order. Proofs elsewhere go by the laws; tests unfold the operations.
use mathlib.Core.Path.{◌≡◌, refl}
use mathlib.Core.Logic.{◌≢◌, ◌↔◌, inl, inr}
use mathlib.Core.Bool.{Bool, true, false, ◌&&◌}
use mathlib.Core.Option.{Option, none, some}
use mathlib.Core.List.{List, [], ◌∷◌}
use native.Mathlib.Omega.{arith}
use svhier.Base.Equality.{Bool-cases, Eq, ◌==◌, contains, if◌then◌else◌}

abbrev pub Dict {ℓ κ} : Type ℓ → Type κ → Type (ℓ ⊔ κ)
Dict K V = List (K × V)

-- `list(d)`
unfoldable pub keys {ℓ κ} : {K : Type ℓ} {V : Type κ} → Dict K V → List K
keys [] = []
keys ((k, _) ∷ d) = k ∷ keys d

-- `d.values()`
unfoldable pub values {ℓ κ} : {K : Type ℓ} {V : Type κ} → Dict K V → List V
values [] = []
values ((_, v) ∷ d) = v ∷ values d

abbrev pub or_default {ℓ} : {V : Type ℓ} → Option V → V → V
or_default none v = v
or_default (some w) v = w

module _ {ℓ κ} {K : Type ℓ} {V : Type κ} ⦃e : Eq K⦄ where
  -- `d.get(k)`
  unfoldable pub lookup : K → Dict K V → Option V
  lookup k [] = none
  lookup k ((j, w) ∷ d) = if k == j then some w else lookup k d

  -- `d[k] = v`: a key that is there keeps its place.
  unfoldable pub insert : K → V → Dict K V → Dict K V
  insert k v [] = (k, v) ∷ []
  insert k v ((j, w) ∷ d) = if k == j then (j, v) ∷ d else (j, w) ∷ insert k v d

  -- `d.setdefault(k, v)`
  unfoldable pub set_default : K → V → Dict K V → Dict K V
  set_default k v [] = (k, v) ∷ []
  set_default k v ((j, w) ∷ d) = if k == j then (j, w) ∷ d else (j, w) ∷ set_default k v d

  -- `d.pop(k, None)`
  unfoldable pub erase : K → Dict K V → Dict K V
  erase k [] = []
  erase k ((j, w) ∷ d) = let rest = erase k d in if k == j then rest else (j, w) ∷ rest

  -- `d.get(k, v)`
  abbrev pub get_or : K → V → Dict K V → V
  get_or k v d = or_default (lookup k d) v

  -- `d.setdefault(k, v)` and an update of the value that it returns
  unfoldable pub update : K → V → (V → V) → Dict K V → Dict K V
  update k v f [] = (k, f v) ∷ []
  update k v f ((j, w) ∷ d) = if k == j then (j, f w) ∷ d else (j, w) ∷ update k v f d

  abbrev pub NodupKeys : Dict K V → Type κ
  NodupKeys [] = Unit
  NodupKeys ((k, _) ∷ d) = (lookup k d ≡ none) × NodupKeys d

  pub lookup-nil : (k : K) → lookup k [] ≡ none
  unfolding lookup
  lookup-nil k = refl

  pub lookup-cons :
      (j k : K) (v : V) (d : Dict K V)
      → lookup j ((k, v) ∷ d) ≡ (if j == k then some v else lookup j d)
  unfolding lookup
  lookup-cons j k v d = refl

  pub lookup-insert :
      (j k : K) (v : V) (d : Dict K V)
      → lookup j (insert k v d) ≡ (if j == k then some v else lookup j d)
  unfolding insert lookup
  lookup-insert j k v [] = refl
  lookup-insert j k v (_ ∷ d) = ground (arith, lookup-insert j k v d)

  pub lookup-set_default :
      (j k : K) (v : V) (d : Dict K V)
      → lookup j (set_default k v d) ≡ (if j == k then some (get_or k v d) else lookup j d)
  unfolding set_default lookup
  lookup-set_default j k v [] = refl
  lookup-set_default j k v (_ ∷ d) = ground (arith, lookup-set_default j k v d)

  pub lookup-erase :
      (j k : K) (d : Dict K V) → lookup j (erase k d) ≡ (if j == k then none else lookup j d)
  unfolding erase lookup
  lookup-erase j k [] = ground arith
  lookup-erase j k (_ ∷ d) = ground (arith, lookup-erase j k d)

  pub lookup-update :
      (j k : K) (v : V) (f : V → V) (d : Dict K V)
      → lookup j (update k v f d) ≡ (if j == k then some (f (get_or k v d)) else lookup j d)
  unfolding update lookup
  lookup-update j k v f [] = refl
  lookup-update j k v f (_ ∷ d) = ground (arith, lookup-update j k v f d)

  pub get_or-update :
      (j k : K) (v : V) (f : V → V) (d : Dict K V)
      → get_or j v (update k v f d) ≡ (if j == k then f (get_or k v d) else get_or j v d)
  get_or-update j k v f d = elim (Bool-cases (j == k)) [
    | inl same ↦ rw (lookup-update j k v f d, same) refl
    | inr other ↦ rw (lookup-update j k v f d, other) refl
  ]

  pub contains-keys : (d : Dict K V) (k : K) → (contains (keys d) k ≡ true) ↔ (lookup k d ≢ none)
  unfolding keys lookup
  contains-keys [] k = (λ h. cc, λ h. absurd (h refl))
  contains-keys (_ ∷ d) k = ground (arith, contains-keys d k)

  pub insert-NodupKeys : (k : K) (v : V) (d : Dict K V) → NodupKeys d → NodupKeys (insert k v d)
  unfolding insert
  insert-NodupKeys k v [] u = (lookup-nil k, tt)
  insert-NodupKeys k v ((j, w) ∷ d) (fresh, u) =
      ground (arith, insert-NodupKeys k v d u, lookup-insert j k v d)

  pub update-NodupKeys :
      (k : K) (v : V) (f : V → V) (d : Dict K V) → NodupKeys d → NodupKeys (update k v f d)
  unfolding update
  update-NodupKeys k v f [] u = (lookup-nil k, tt)
  update-NodupKeys k v f ((j, w) ∷ d) (fresh, u) =
      ground (arith, update-NodupKeys k v f d u, lookup-update j k v f d)

-- `a == b` on dicts, whose order does not matter.
module _ {ℓ κ} {K : Type ℓ} {V : Type κ} ⦃e : Eq K⦄ ⦃f : Eq V⦄ where
  unfoldable pub covers : Dict K V → Dict K V → Bool
  covers [] b = true
  covers ((k, v) ∷ a) b = elim (lookup k b) [ none ↦ false | some w ↦ v == w && covers a b ]

  unfoldable pub dict_eq : Dict K V → Dict K V → Bool
  unfolding covers
  dict_eq a b = covers a b && covers b a
