-- ===== src/Frontends/Settled.antt =====
-- What holds when the rounds of `_Stitcher.run` (src/svhier/frontends.py) change nothing more.

use svhier.Base.{
  ℕ, zero, suc, String, true, false, none, some, List, [], ◌∷◌, map, ◌≡◌, inl, inr, refl, ◌∙◌,
  Bool-cases,
}
use svhier.Base.{contains, string_eq, nat_eq, list_eq, pair_eq}
use svhier.Base.Dict.{lookup}
use svhier.Frontends.{
  Frontend, Plugins, Stitcher, request_of, fragment_of, definer, elaborate_all, route_all, rounds,
}
use svhier.Frontends.{
  init, assign_tops, read_units, add_root, reread, choose_catch_all, owner_key, requested_root,
}
use svhier.Frontends.Routed.{Kept-sym, IsRouted-Kept, NoLibrary, AllRouted, route_all-AllRouted}
use svhier.Frontends.Frozen.{Frozen-definer, Frozen-route_all}
use svhier.Frontends.Current.{Elaborated, DoneElaborated, IsCurrent, elaborate_all-IsCurrent}

module _ {W : Type 0} (plugins : Plugins W) (inputs : List Frontend) where
  abbrev frontend_keys : List ℕ
  frontend_keys = map (λ (fe : Frontend). fe.key) inputs

  -- Every frontend has elaborated the roots that it has, and what it could not resolve is routed.
  abbrev pub Settled : Stitcher W → Type 0
  Settled st =
      ((key : ℕ)
        → contains frontend_keys key ≡ true
        → Elaborated plugins inputs st key (request_of key st).roots)
      × AllRouted plugins inputs st inputs

  done_final :
      (mid : Stitcher W)
      → DoneElaborated plugins inputs mid
      → DoneElaborated plugins inputs (route_all plugins inputs inputs mid).1
  done_final mid done key roots h =
      let (f, d) = Frozen-route_all plugins inputs inputs mid in
      let (asked, w, r, e) = done key roots (rw d at h) in (asked, w, r, rw f e)

  settled :
      (mid : Stitcher W)
      → NoLibrary plugins inputs
      → DoneElaborated plugins inputs mid
      → ((key : ℕ) → contains frontend_keys key ≡ true → IsCurrent plugins inputs mid key)
      → (route_all plugins inputs inputs mid).0 ≡ false
      → Settled (route_all plugins inputs inputs mid).1
  settled mid empty_dirs done current h =
      let final = (route_all plugins inputs inputs mid).1 in
      let ((u, r, f, d), routed) = route_all-AllRouted plugins inputs inputs mid empty_dirs h in
      (
        λ key c. rw (r, f) (done key (request_of key mid).roots (current key c)),
        λ fe m.
            IsRouted-Kept plugins inputs final mid fe.key (fragment_of fe.key final).unresolved
              (Kept-sym mid final (u, r, f, d)) (rw f (routed fe m)),
      )

  rounds-Settled :
      (left : ℕ) (st : Stitcher W)
      → NoLibrary plugins inputs
      → DoneElaborated plugins inputs st
      → (rounds plugins inputs left st).0 ≡ true
      → Settled (rounds plugins inputs left st).1
  unfolding rounds
  rounds-Settled zero st empty_dirs done h = absurd (cc)
  rounds-Settled (suc left) st empty_dirs done h =
      let mid = elaborate_all plugins inputs inputs st in
      let final = (route_all plugins inputs inputs mid).1 in
      let (done1, current) = elaborate_all-IsCurrent plugins inputs inputs st done in
      elim (Bool-cases (route_all plugins inputs inputs mid).0) [
        | inl changed ↦
            rw (changed, rounds)
              (rounds-Settled left final empty_dirs (done_final mid done1)
                (rw (changed, rounds) at h))
        | inr unchanged ↦
            rw (unchanged, rounds)
              (settled mid empty_dirs done1 (λ key c. current key (inl c)) unchanged)
      ]

  assign_tops-done :
      (catch_all : Frontend) (tops : List String) (st : Stitcher W)
      → (assign_tops plugins inputs catch_all tops st).done ≡ st.done
  unfolding assign_tops
  assign_tops-done catch_all [] st = refl
  assign_tops-done catch_all (top ∷ tops) st =
      let (owner, st1) = definer plugins inputs top none st in
      assign_tops-done catch_all tops
        (add_root (owner_key owner catch_all) (requested_root top) st1)
      ∙ (Frozen-definer plugins inputs top none st).1

  read_units-done :
      (fes : List Frontend) (st : Stitcher W) → (read_units plugins inputs fes st).done ≡ st.done
  unfolding read_units
  read_units-done [] st = refl
  read_units-done (fe ∷ fes) st = read_units-done fes (reread plugins inputs fe st.world st)

  -- If there are no library directories and the rounds stop because the last one changed nothing,
  -- then every frontend's fragment is what it returned when it was asked for exactly the roots
  -- that it has, and every use of a name that it could not resolve is, up to case, a root of the
  -- first other frontend whose sources define the name.
  pub run-Settled :
      (left : ℕ) (first : Frontend) (tops : List String) (world : W)
      → NoLibrary plugins inputs
      → (rounds plugins inputs left (init plugins inputs first tops world)).0 ≡ true
      → Settled (rounds plugins inputs left (init plugins inputs first tops world)).1
  unfolding init lookup
  run-Settled left first tops world empty_dirs h =
      let fresh : (init plugins inputs first tops world).done ≡ [] =
        assign_tops-done (choose_catch_all first inputs) tops _ ∙ read_units-done inputs _ in
      rounds-Settled left (init plugins inputs first tops world) empty_dirs
        (λ key roots l. let nothing : none ≡ some roots = rw fresh at l in absurd (cc)) h
