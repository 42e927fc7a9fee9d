-- ===== src/Frontends/Current.antt =====
-- The elaborations of a round of `_Stitcher.run` (src/svhier/frontends.py).

use svhier.Base.{
  ℕ, true, some, List, [], ◌∷◌, map, ◌≡◌, ◌⊎◌, inl, inr, refl, ap, ◌∙◌, arith, Bool-cases,
  Option-cases,
}
use svhier.Base.{◌==◌, contains, string_eq, nat_eq, list_eq, pair_eq}
use svhier.Base.Dict.{lookup, insert, lookup-insert}
use svhier.Frontends.{
  Root, root_eq, roots_eq, Request, Frontend, Plugins, Stitcher, request_of, fragment_of,
  defined_elsewhere, elaborate_one, elaborate_all,
}

root_eq_lem : (a b : Root) → root_eq a b ≡ true → a ≡ b
unfolding root_eq
root_eq_lem a b h =
    let names : a.name ≡ b.name = ground arith in
    let generics : a.generics ≡ b.generics = ground arith in
    let requested : a.requested ≡ b.requested = ground arith in
    λ i. record { name = names i; generics = generics i; requested = requested i }

roots_eq_lem : (xs ys : List Root) → roots_eq xs ys ≡ true → xs ≡ ys
unfolding roots_eq
roots_eq_lem [] [] h = refl
roots_eq_lem [] (y ∷ ys) h = absurd (cc)
roots_eq_lem (x ∷ xs) [] h = absurd (cc)
roots_eq_lem (x ∷ xs) (y ∷ ys) h =
    let same : root_eq x y ≡ true = ground arith in
    let rest : roots_eq xs ys ≡ true = ground arith in
    let e = root_eq_lem x y same in let f = roots_eq_lem xs ys rest in rw (e, f) refl

module _ {W : Type 0} (plugins : Plugins W) (inputs : List Frontend) where
  -- The fragment is what the frontend returned when it was asked for these roots.
  abbrev pub Elaborated : Stitcher W → ℕ → List Root → Type 0
  Elaborated st key roots =
      (asked : Request) × (w : W) × (asked.roots ≡ roots)
      × (fragment_of key st ≡ (plugins.elaborate key asked w).0)

  abbrev pub DoneElaborated : Stitcher W → Type 0
  DoneElaborated st =
      (key : ℕ) (roots : List Root) → lookup key st.done ≡ some roots → Elaborated st key roots

  again : Frontend → Stitcher W → Stitcher W
  again fe st =
      let request = request_of fe.key st in
      let asked = record request {
        defined_elsewhere = defined_elsewhere plugins inputs fe.key st;
      } in
      let (fragment, w) = plugins.elaborate fe.key asked st.world in
      record st {
        world = w;
        done = insert fe.key request.roots st.done;
        requests = insert fe.key asked st.requests;
        fragments = insert fe.key fragment st.fragments;
      }

  elaborate_one-cases :
      (fe : Frontend) (st : Stitcher W)
      → (elaborate_one plugins inputs fe st ≡ again fe st)
        ⊎ ((elaborate_one plugins inputs fe st ≡ st)
            × (lookup fe.key st.done ≡ some (request_of fe.key st).roots))
  unfolding elaborate_one again
  elaborate_one-cases fe st = elim (Option-cases (lookup fe.key st.done)) [
    | inl e ↦ inl (rw (e, elaborate_one) refl)
    | inr (roots, e) ↦ elim (Bool-cases (roots_eq roots (request_of fe.key st).roots)) [
      | inl same ↦ inr (rw (e, same, elaborate_one) refl, e ∙ ap some (roots_eq_lem roots _ same))
      | inr differs ↦ inl (rw (e, differs, elaborate_one) refl)
    ]
  ]

  DoneElaborated-again :
      (fe : Frontend) (st : Stitcher W) → DoneElaborated st → DoneElaborated (again fe st)
  unfolding again
  DoneElaborated-again fe st done key roots h =
      let request = request_of fe.key st in
      let asked = record request {
        defined_elsewhere = defined_elsewhere plugins inputs fe.key st;
      } in
      let fragment = (plugins.elaborate fe.key asked st.world).0 in
      let now = lookup-insert key fe.key request.roots st.done in
      let got = lookup-insert key fe.key fragment st.fragments in
      elim (Bool-cases (key == fe.key)) [
        | inl same ↦
            let here : key ≡ fe.key = ground arith in
            (asked, st.world, ground (arith, now), rw (got, same) (rw here refl))
        | inr differs ↦
            let (old, w, r, f) = done key roots (ground (arith, now)) in
            (old, w, r, rw (got, differs) f)
      ]

  -- The roots that a frontend has last elaborated are those that it has.
  abbrev pub IsCurrent : Stitcher W → ℕ → Type 0
  IsCurrent st key = lookup key st.done ≡ some (request_of key st).roots

  IsCurrent-again :
      (fe : Frontend) (st : Stitcher W) (key : ℕ)
      → (key ≡ fe.key) ⊎ IsCurrent st key
      → IsCurrent (again fe st) key
  unfolding again
  IsCurrent-again fe st key h =
      let request = request_of fe.key st in
      let asked = record request {
        defined_elsewhere = defined_elsewhere plugins inputs fe.key st;
      } in
      let now = lookup-insert key fe.key request.roots st.done in
      let req = lookup-insert key fe.key asked st.requests in
      elim (Bool-cases (key == fe.key)) [
        | inl same ↦ rw (now, req, same) refl
        | inr differs ↦ elim h [ inl e ↦ absurd (ground arith) | inr c ↦ rw (now, req, differs) c ]
      ]

  elaborate_one-IsCurrent :
      (fe : Frontend) (st : Stitcher W)
      → DoneElaborated st
      → DoneElaborated (elaborate_one plugins inputs fe st)
        × ((key : ℕ)
            → (key ≡ fe.key) ⊎ IsCurrent st key
            → IsCurrent (elaborate_one plugins inputs fe st) key)
  elaborate_one-IsCurrent fe st done = elim (elaborate_one-cases fe st) [
    | inl e ↦ rw e (DoneElaborated-again fe st done, IsCurrent-again fe st)
    | inr (e, c) ↦ rw e (done, kept c)
  ]
    where
      kept : IsCurrent st fe.key → (key : ℕ) → (key ≡ fe.key) ⊎ IsCurrent st key → IsCurrent st key
      kept c key (inl e) = rw e c
      kept c key (inr d) = d

  -- After the first loop of a round, every frontend has elaborated the roots that it has.
  pub elaborate_all-IsCurrent :
      (fes : List Frontend) (st : Stitcher W)
      → DoneElaborated st
      → DoneElaborated (elaborate_all plugins inputs fes st)
        × ((key : ℕ)
            → contains (map (λ (fe : Frontend). fe.key) fes) key ≡ true ⊎ IsCurrent st key
            → IsCurrent (elaborate_all plugins inputs fes st) key)
  unfolding elaborate_all
  elaborate_all-IsCurrent [] st done = (done, λ key h. elim h [ inl e ↦ absurd (cc) | inr c ↦ c ])
  elaborate_all-IsCurrent (fe ∷ fes) st done =
      let (done1, current1) = elaborate_one-IsCurrent fe st done in
      let (done2, current2) =
        elaborate_all-IsCurrent fes (elaborate_one plugins inputs fe st) done1 in
      (
        done2,
        λ key h. current2 key (elim h [
          | inr c ↦ inr (current1 key (inr c))
          | inl e ↦ elim (Bool-cases (key == fe.key)) [
            | inl same ↦ inr (current1 key (inl (ground arith)))
            | inr differs ↦ inl (ground arith)
          ]
        ]),
      )
