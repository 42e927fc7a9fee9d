-- ===== src/Slang/Elaborate/Plain.antt =====
-- `_elaborate_plain` (src/svhier/slang_frontend.py) ends: each round drops a root.
use svhier.Base.{
  ℕ, zero, suc, ◌≤◌, ◌<◌, String, Bool, true, false, not, ◌&&◌, Option, none, some, List, [], ◌∷◌,
}
use svhier.Base.{◌≡◌, refl, ◌∙◌, inl, inr, arith, Bool-cases, ◌==◌, contains, string_eq}
use svhier.Base.Lists.{
  length, filter, dedupe, add_unique, List-cases, contains-filter, contains-add_unique,
}
use svhier.Frontends.{Root}
use svhier.Slang.Merge.{Parsed}
use svhier.Slang.Compile.{Tool, Slang, parse}
use svhier.Slang.Elaborate.{without, common, retry, required, elaborate_plain}

length-filter_le : (p : String → Bool) (xs : List String) → length (filter p xs) ≤ length xs
unfolding filter
length-filter_le p [] = omega arith
length-filter_le p (x ∷ xs) = ground (arith, length-filter_le p xs)

length-filter_lt :
    (p : String → Bool) (xs : List String) (x : String)
    → contains xs x ≡ true
    → p x ≡ false
    → length (filter p xs) < length xs
unfolding filter
length-filter_lt p [] x c h = absurd (cc)
length-filter_lt p (y ∷ ys) x c h =
    let most = length-filter_le p ys in
    elim (Bool-cases (x == y)) [
      | inl same ↦ let e : x ≡ y = ground arith in let h' = rw e at h in rw h' (omega (arith, most))
      | inr differs ↦
          let less = length-filter_lt p ys x (ground arith) h in
          elim (Bool-cases (p y)) [
            | inl k ↦ rw k (omega (arith, less))
            | inr k ↦ rw k (omega (arith, less))
          ]
    ]

module _ {W : Type 0} (tool : Tool W) where
  contains-without :
      (dropped names : List String) (n : String)
      → contains (without tool dropped names) n ≡ (contains names n && not (contains dropped n))
  contains-without dropped names n =
      ground (arith, contains-filter (λ m. not (contains dropped m)) names n)

  -- The result, if there is one, finds no more fault with a root that may be dropped; without a
  -- result, all roots are dropped; and only roots that may be are.
  abbrev pub IsSettled : List String → List String → Option Parsed → List String → Type 0
  IsSettled plain optional none rejected =
      ((n : String) → contains rejected n ≡ true → contains optional n ≡ true)
      × ((n : String) → contains plain n ≡ true → contains rejected n ≡ true)
  IsSettled plain optional (some result) rejected =
      ((n : String) → contains rejected n ≡ true → contains optional n ≡ true)
      × ((n : String)
          → contains optional n ≡ true
          → contains result.invalid_tops n ≡ true
          → contains rejected n ≡ true)

  -- Of the roots that may be dropped, `optional` are left.
  abbrev IsLeft : List String → List String → List String → Type 0
  IsLeft start optional rejected =
      (n : String) → contains optional n ≡ (contains start n && not (contains rejected n))

  faulty :
      (optional : List String) (result : Parsed) (bad : String) (more : List String)
      → common tool optional (dedupe result.invalid_tops) ≡ bad ∷ more
      → (n : String) → contains (bad ∷ more) n ≡ true
      → (contains optional n ≡ true) × (contains (dedupe result.invalid_tops) n ≡ true)
  faulty optional result bad more e n c =
      let (listed, there) =
        (contains-filter (contains optional) (dedupe result.invalid_tops) n).0 (rw e c) in
      (there, listed)

  empty_optional :
      (optional : List String) (n : String) → contains optional n ≡ true → length optional ≤ 0 → ⊥
  empty_optional [] n c le = cc
  empty_optional (x ∷ xs) n c le = omega arith

  settled :
      (plain start optional rejected : List String) (result : Parsed)
      → IsLeft start optional rejected
      → ((n : String) → contains rejected n ≡ true → contains start n ≡ true)
      → common tool optional (dedupe result.invalid_tops) ≡ []
      → IsSettled plain start (some result) rejected
  unfolding dedupe
  settled plain start optional rejected result left mine e = (
    mine,
    λ n opt bad. elim (Bool-cases (contains rejected n)) [
      | inl r ↦ r
      | inr kept ↦
          let there : contains optional n ≡ true = ground (arith, left n) in
          let listed : contains (dedupe result.invalid_tops) n ≡ true =
            contains-add_unique [] result.invalid_tops n ∙ bad in
          let c = rw e at (
            (contains-filter (contains optional) (dedupe result.invalid_tops) n).1
              (listed, there)) in
          absurd (cc)
    ],
  )

  mine_next :
      (start optional rejected : List String) (result : Parsed) (bad : String) (more : List String)
      → IsLeft start optional rejected
      → ((n : String) → contains rejected n ≡ true → contains start n ≡ true)
      → common tool optional (dedupe result.invalid_tops) ≡ bad ∷ more
      → (n : String) → contains (add_unique rejected (bad ∷ more)) n ≡ true
      → contains start n ≡ true
  mine_next start optional rejected result bad more left mine e n c =
      elim (Bool-cases (contains rejected n)) [
        | inl r ↦ mine n r
        | inr new ↦
            let fresh : contains (bad ∷ more) n ≡ true =
              ground (arith, contains-add_unique rejected (bad ∷ more) n) in
            let (there, listed) = faulty optional result bad more e n fresh in
            ground (arith, left n)
      ]

  IsLeft-next :
      (start optional rejected : List String) (bad : String) (more : List String)
      → IsLeft start optional rejected
      → IsLeft start
          (without tool (add_unique rejected (bad ∷ more)) optional)
          (add_unique rejected (bad ∷ more))
  IsLeft-next start optional rejected bad more left n = ground (
    arith,
    contains-without (add_unique rejected (bad ∷ more)) optional n,
    contains-add_unique rejected (bad ∷ more) n,
    left n,
  )

  dropped :
      (plain rejected : List String)
      → without tool rejected plain ≡ []
      → (n : String) → contains plain n ≡ true
      → contains rejected n ≡ true
  dropped plain rejected e n c = elim (Bool-cases (contains rejected n)) [
    | inl r ↦ r
    | inr kept ↦
        let c' =
          rw e at
            ((contains-filter (λ m. not (contains rejected m)) plain n).1 (c, rw kept refl)) in
        absurd (cc)
  ]

  retry_total :
      (fuel : ℕ) (plain start optional rejected : List String) (result : Parsed) (st : Slang W)
      → length optional ≤ fuel
      → IsLeft start optional rejected
      → ((n : String) → contains rejected n ≡ true → contains start n ≡ true)
      → (res : Option Parsed) × (rej : List String) × (st' : Slang W) × (retry tool fuel plain
            optional rejected result st
          ≡ some ((res, rej), st'))
        × IsSettled plain start res rej
  unfolding retry
  retry_total zero plain start optional rejected result st le left mine =
      elim (List-cases (common tool optional (dedupe result.invalid_tops))) [
        | inl e ↦ (
          some result,
          rejected,
          st,
          rw (e, retry) refl,
          settled plain start optional rejected result left mine e,
        )
        | inr (bad, more, e) ↦
            let (there, m) = faulty optional result bad more e bad (ground arith) in
            absurd (empty_optional optional bad there le)
      ]
  retry_total (suc fuel) plain start optional rejected result st le left mine =
      elim (List-cases (common tool optional (dedupe result.invalid_tops))) [
        | inl e ↦ (
          some result,
          rejected,
          st,
          rw (e, retry) refl,
          settled plain start optional rejected result left mine e,
        )
        | inr (bad, more, e) ↦
            let rejected1 = add_unique rejected (bad ∷ more) in
            let optional1 = without tool rejected1 optional in
            let mine1 = mine_next start optional rejected result bad more left mine e in
            elim (List-cases (without tool rejected1 plain)) [
              | inl all ↦ (
                none,
                rejected1,
                st,
                rw (e, all, retry) refl,
                (mine1, dropped plain rejected1 all),
              )
              | inr (n, names, some_left) ↦
                  let (result1, st1) = parse tool st (n ∷ names) [] true in
                  let (there, m) = faulty optional result bad more e bad (ground arith) in
                  let gone = contains-add_unique rejected (bad ∷ more) bad in
                  let less =
                    length-filter_lt (λ m. not (contains rejected1 m)) optional bad there
                      (ground (arith, gone)) in
                  let (res, rej, st', r, s) =
                    retry_total fuel plain start optional1 rejected1 result1 st1
                      (omega (arith, le, less)) (IsLeft-next start optional rejected bad more left)
                      mine1 in
                  (res, rej, st', rw (e, some_left, retry) r, s)
            ]
      ]

  -- With as much fuel as there are roots that the user did not name, `_elaborate_plain` returns.
  -- Only such roots are rejected; a result finds no fault with one that is not rejected; and if
  -- there is no result, all roots have been rejected.
  pub elaborate_plain_total :
      (fuel : ℕ) (st : Slang W) (roots : List Root) (plain : List String)
      → let optional = without tool (required tool st roots) (dedupe plain) in
        length optional ≤ fuel
        → (res : Option Parsed) × (rejected : List String) × (st' : Slang W) × (elaborate_plain tool
              fuel st roots plain
            ≡ some ((res, rejected), st'))
          × IsSettled plain optional res rejected
  unfolding elaborate_plain
  elaborate_plain_total fuel st roots plain le =
      let optional = without tool (required tool st roots) (dedupe plain) in
      retry_total fuel plain optional optional [] (parse tool st plain [] true).0
        (parse tool st plain [] true).1 le (λ n. ground arith) (λ n c. absurd (cc))
