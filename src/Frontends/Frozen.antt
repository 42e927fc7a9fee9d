-- ===== src/Frontends/Frozen.antt =====
-- Routing (`_Stitcher._route`, src/svhier/frontends.py) leaves what has been elaborated alone.
use svhier.Base.{
  ℕ, String, Option, some, List, [], ◌∷◌, ◌≡◌, refl, ◌∙◌, inl, inr, Bool-cases, Option-cases,
}
use svhier.Base.Dict.{Dict}
use svhier.Base.Lists.{any, filter}
use svhier.Result.{UnitUse}
use svhier.Frontends.{
  Frontend, Plugins, Stitcher, request_of, fragment_of, is_other, is_same_root, is_unit, root_of,
  find_unit, route_use, route_uses, uses_or_plain, find_provider, reread, definer, route, route_all,
}

module _ {W : Type 0} where
  abbrev pub Frozen : Stitcher W → Stitcher W → Type 0
  Frozen st st' = (st'.fragments ≡ st.fragments) × (st'.done ≡ st.done)

  Frozen-trans : (a b c : Stitcher W) → Frozen a b → Frozen b c → Frozen a c
  Frozen-trans a b c (f, d) (f', d') = (f' ∙ f, d' ∙ d)

  Frozen-route_use :
      (name : String) (other : Frontend) (found : UnitUse) (st : Stitcher W)
      → Frozen st (route_use name other found st).1
  unfolding route_use
  Frozen-route_use name other found st =
      elim (Bool-cases (any (is_same_root (root_of name found)) (request_of other.key st).roots)) [
        | inl e ↦ rw (e, route_use) (refl, refl)
        | inr e ↦ rw (e, route_use) (refl, refl)
      ]

  Frozen-route_uses :
      (name : String) (other : Frontend) (uses : List UnitUse) (st : Stitcher W)
      → Frozen st (route_uses name other uses st).1
  unfolding route_uses
  Frozen-route_uses name other [] st = (refl, refl)
  Frozen-route_uses name other (found ∷ uses) st =
      let st1 = (route_use name other found st).1 in
      Frozen-trans st st1 (route_uses name other uses st1).1 (Frozen-route_use name other found st)
        (Frozen-route_uses name other uses st1)

module _ {W : Type 0} (plugins : Plugins W) (inputs : List Frontend) where
  Frozen-find_provider :
      (name : String) (others : List Frontend) (st : Stitcher W)
      → Frozen st (find_provider plugins inputs name others st).1
  unfolding find_provider
  Frozen-find_provider name [] st = (refl, refl)
  Frozen-find_provider name (other ∷ others) st =
      elim (Bool-cases (plugins.provide other.key name st.world).0) [
        | inr e ↦
            rw (e, find_provider)
              (Frozen-find_provider name others
                (record st { world = (plugins.provide other.key name st.world).1 }))
        | inl e ↦
            let (found, w1) = plugins.provide other.key name st.world in
            let st2 = reread plugins inputs other w1 st in
            elim (Bool-cases (is_unit name other.key st2.units)) [
              | inl u ↦ rw (e, u, find_provider) (refl, refl)
              | inr u ↦
                  rw (e, u, find_provider)
                    (Frozen-trans st st2 (find_provider plugins inputs name others st2).1
                      (refl, refl) (Frozen-find_provider name others st2))
            ]
      ]

  pub Frozen-definer :
      (name : String) (source : Option ℕ) (st : Stitcher W)
      → Frozen st (definer plugins inputs name source st).1
  unfolding definer
  Frozen-definer name source st =
      elim (Option-cases (find_unit name (filter (is_other source) inputs) st.units)) [
        | inl e ↦ rw (e, definer) (Frozen-find_provider name (filter (is_other source) inputs) st)
        | inr (fe, e) ↦ rw (e, definer) (refl, refl)
      ]

  Frozen-route :
      (source : ℕ) (unresolved : Dict String (List UnitUse)) (st : Stitcher W)
      → Frozen st (route plugins inputs source unresolved st).1
  unfolding route
  Frozen-route source [] st = (refl, refl)
  Frozen-route source ((name, uses) ∷ unresolved) st =
      let found = definer plugins inputs name (some source) st in
      let first = Frozen-definer name (some source) st in
      elim (Option-cases found.0) [
        | inl e ↦
            rw (e, route)
              (Frozen-trans st found.1 (route plugins inputs source unresolved found.1).1 first
                (Frozen-route source unresolved found.1))
        | inr (fe, e) ↦
            let st2 = (route_uses name fe (uses_or_plain uses) found.1).1 in
            rw (e, route)
              (Frozen-trans st found.1 (route plugins inputs source unresolved st2).1 first (
                Frozen-trans found.1 st2 (route plugins inputs source unresolved st2).1
                  (Frozen-route_uses name fe (uses_or_plain uses) found.1)
                  (Frozen-route source unresolved st2)))
      ]

  pub Frozen-route_all :
      (fes : List Frontend) (st : Stitcher W) → Frozen st (route_all plugins inputs fes st).1
  unfolding route_all
  Frozen-route_all [] st = (refl, refl)
  Frozen-route_all (fe ∷ fes) st =
      let unresolved = (fragment_of fe.key st).unresolved in
      let st1 = (route plugins inputs fe.key unresolved st).1 in
      Frozen-trans st st1 (route_all plugins inputs fes st1).1 (Frozen-route fe.key unresolved st)
        (Frozen-route_all fes st1)
