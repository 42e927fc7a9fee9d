-- ===== src/Frontends/Routed.antt =====
-- The routing of a round of `_Stitcher.run` (src/svhier/frontends.py) that gives no new root.
use mathlib.Core.List.{Memᴰ}
use mathlib.Core.List.Memᴰ
use svhier.Base.{
  ℕ, String, Bool, true, false, ◌||◌, none, some, List, [], ◌∷◌, ◌≡◌, inl, inr, refl, sym, ◌∙◌,
  arith, Bool-cases, Option-cases,
}
use svhier.Base.{string_eq, nat_eq, list_eq, pair_eq}
use svhier.Base.Dict.{Dict, get_or}
use svhier.Base.Lists.{All, filter, any}
use svhier.Result.{UnitUse}
use svhier.Frontends.{
  Request, no_request, Frontend, Plugins, Stitcher, request_of, fragment_of, is_other, is_same_root,
  root_of, find_unit, route_use, route_uses, uses_or_plain, find_provider, definer, route,
  route_all,
}

or_false : (a b : Bool) → (a || b) ≡ false → (a ≡ false) × (b ≡ false)
or_false a b h = ground arith

-- The frontend has a root for this use of the name.
abbrev pub Served : Dict ℕ Request → String → Frontend → UnitUse → Type 0
Served requests name other found =
    any (is_same_root (root_of name found)) (get_or other.key no_request requests).roots ≡ true

module _ {W : Type 0} where
  -- All but the world and the notes.
  abbrev pub Kept : Stitcher W → Stitcher W → Type 0
  Kept st st' =
      (st'.units ≡ st.units)
      × (st'.requests ≡ st.requests)
      × (st'.fragments ≡ st.fragments)
      × (st'.done ≡ st.done)

  pub Kept-trans : (a b c : Stitcher W) → Kept a b → Kept b c → Kept a c
  Kept-trans a b c (u, r, f, d) (u', r', f', d') = (u' ∙ u, r' ∙ r, f' ∙ f, d' ∙ d)

  pub Kept-sym : (a b : Stitcher W) → Kept a b → Kept b a
  Kept-sym a b (u, r, f, d) = (sym u, sym r, sym f, sym d)

  route_uses-Served :
      (name : String) (other : Frontend) (uses : List UnitUse) (st : Stitcher W)
      → (route_uses name other uses st).0 ≡ false
      → Kept st (route_uses name other uses st).1 × All (Served st.requests name other) uses
  unfolding route_uses route_use
  route_uses-Served name other [] st h = ((refl, refl, refl, refl), tt)
  route_uses-Served name other (found ∷ uses) st h =
      elim (Bool-cases (any (is_same_root (root_of name found)) (request_of other.key st).roots)) [
        | inl e ↦
            rw (e, route_uses)
              (let (kept, served) = route_uses-Served name other uses _ (rw (e, route_uses) at h) in
                (kept, (refl, served)))
        | inr e ↦ let wrong : true ≡ false = rw (e, route_uses) at h in absurd (cc)
      ]

module _ {W : Type 0} (plugins : Plugins W) (inputs : List Frontend) where
  -- There are no library directories.
  abbrev pub NoLibrary : Type 0
  NoLibrary = (key : ℕ) (name : String) (w : W) → (plugins.provide key name w).0 ≡ false

  find_provider_nothing :
      (name : String) (others : List Frontend) (st : Stitcher W)
      → NoLibrary
      → ((find_provider plugins inputs name others st).0 ≡ none)
        × Kept st (find_provider plugins inputs name others st).1
  unfolding find_provider
  find_provider_nothing name [] st empty_dirs = (refl, (refl, refl, refl, refl))
  find_provider_nothing name (other ∷ others) st empty_dirs =
      rw (empty_dirs other.key name st.world, find_provider)
        (find_provider_nothing name others
          (record st { world = (plugins.provide other.key name st.world).1 }) empty_dirs)

  abbrev pub others_of : ℕ → List Frontend
  others_of source = filter (is_other (some source)) inputs

  -- Every use of the name is a root of the first other frontend that defines it.
  abbrev pub IsRouted : Stitcher W → ℕ → String × List UnitUse → Type 0
  IsRouted st source (name, uses) =
      (other : Frontend)
      → find_unit name (others_of source) st.units ≡ some other
      → All (Served st.requests name other) (uses_or_plain uses)

  definer-find_unit :
      (name : String) (source : ℕ) (fe : Frontend) (st : Stitcher W)
      → find_unit name (others_of source) st.units ≡ some fe
      → ((definer plugins inputs name (some source) st).0 ≡ some fe)
        × ((definer plugins inputs name (some source) st).1 ≡ st)
  unfolding definer
  definer-find_unit name source fe st e = rw (e, definer) (refl, refl)

  definer_nothing :
      (name : String) (source : ℕ) (st : Stitcher W)
      → NoLibrary
      → find_unit name (others_of source) st.units ≡ none
      → ((definer plugins inputs name (some source) st).0 ≡ none)
        × Kept st (definer plugins inputs name (some source) st).1
  unfolding definer
  definer_nothing name source st empty_dirs e =
      rw (e, definer) (find_provider_nothing name (others_of source) st empty_dirs)

  pub IsRouted-Kept :
      (a b : Stitcher W) (source : ℕ) (unresolved : Dict String (List UnitUse))
      → Kept a b
      → All (IsRouted b source) unresolved
      → All (IsRouted a source) unresolved
  IsRouted-Kept a b source [] k h = tt
  IsRouted-Kept a b source ((name, uses) ∷ more) (u, r, f, d) (h, hs) = (
    λ other found. rw (← r) (h other (rw u found)),
    IsRouted-Kept a b source more (u, r, f, d) hs,
  )

  route-IsRouted :
      (source : ℕ) (unresolved : Dict String (List UnitUse)) (st : Stitcher W)
      → NoLibrary
      → (route plugins inputs source unresolved st).0 ≡ false
      → Kept st (route plugins inputs source unresolved st).1 × All (IsRouted st source) unresolved
  unfolding route
  route-IsRouted source [] st empty_dirs h = ((refl, refl, refl, refl), tt)
  route-IsRouted source ((name, uses) ∷ unresolved) st empty_dirs h =
      elim (Option-cases (find_unit name (others_of source) st.units)) [
        | inl e ↦
            let st1 = (definer plugins inputs name (some source) st).1 in
            let (n, k) = definer_nothing name source st empty_dirs e in
            let h' = rw (n, route) at h in
            let (kept, routed) = route-IsRouted source unresolved st1 empty_dirs h' in
            rw (n, route)
              (
                Kept-trans st st1 (route plugins inputs source unresolved st1).1 k kept,
                (λ other found. absurd (cc), IsRouted-Kept st st1 source unresolved k routed),
              )
        | inr (fe, e) ↦
            let (d, d') = definer-find_unit name source fe st e in
            let st2 = (route_uses name fe (uses_or_plain uses) st).1 in
            let (here, later) = or_false _ _ (rw (d, d', route) at h) in
            let (k, served) = route_uses-Served name fe (uses_or_plain uses) st here in
            let (kept, routed) = route-IsRouted source unresolved st2 empty_dirs later in
            rw (d, d', route)
              (
                Kept-trans st st2 (route plugins inputs source unresolved st2).1 k kept,
                (
                  λ other found. let same : fe ≡ other = cc in rw (← same) served,
                  IsRouted-Kept st st2 source unresolved k routed,
                ),
              )
      ]

  abbrev pub AllRouted : Stitcher W → List Frontend → Type 0
  AllRouted st fes =
      (fe : Frontend) → Memᴰ fe fes → All (IsRouted st fe.key) (fragment_of fe.key st).unresolved

  AllRouted-cons :
      (a b : Stitcher W) (fe : Frontend) (fes : List Frontend)
      → Kept a b
      → All (IsRouted a fe.key) (fragment_of fe.key a).unresolved
      → AllRouted b fes
      → AllRouted a (fe ∷ fes)
  AllRouted-cons a b fe fes k routed rest f (Memᴰ.head q) = rw q routed
  AllRouted-cons a b fe fes (u, r, fr, d) routed rest f (Memᴰ.tail i) =
      IsRouted-Kept a b f.key (fragment_of f.key a).unresolved (u, r, fr, d) (rw (← fr) (rest f i))

  -- The second loop of a round, when no frontend gets a new root.
  pub route_all-AllRouted :
      (fes : List Frontend) (st : Stitcher W)
      → NoLibrary
      → (route_all plugins inputs fes st).0 ≡ false
      → Kept st (route_all plugins inputs fes st).1 × AllRouted st fes
  unfolding route_all
  route_all-AllRouted [] st empty_dirs h =
      ((refl, refl, refl, refl), λ fe m. absurd (Memᴰ.not-nil m))
  route_all-AllRouted (fe ∷ fes) st empty_dirs h =
      let (here, later) = or_false _ _ h in
      let st1 = (route plugins inputs fe.key (fragment_of fe.key st).unresolved st).1 in
      let (k, routed) =
        route-IsRouted fe.key (fragment_of fe.key st).unresolved st empty_dirs here in
      let (kept, rest) = route_all-AllRouted fes st1 empty_dirs later in
      (
        Kept-trans st st1 (route_all plugins inputs fes st1).1 k kept,
        AllRouted-cons st st1 fe fes k routed rest,
      )
