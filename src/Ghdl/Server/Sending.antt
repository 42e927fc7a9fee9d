-- ===== src/Ghdl/Server/Sending.antt =====
-- `_send` of plugins/svhier-ghdl/src/svhier_ghdl/__init__.py writes the whole message.
use svhier.Base.{ℕ, zero, suc, ◌≤◌, List, [], ◌∷◌, ◌++◌, ◌≡◌, refl, ap, arith}
use svhier.Base.Lists.{length, take, drop}
use svhier.Ghdl.Server.{Bytes, send}

abbrev pub AllPositive : List ℕ → Type 0
AllPositive [] = Unit
AllPositive (n ∷ ns) = (1 ≤ n) × AllPositive ns

take-drop {ℓ} : {A : Type ℓ} (n : ℕ) (xs : List A) → take n xs ++ drop n xs ≡ xs
take-drop zero xs = refl
take-drop (suc n) [] = refl
take-drop (suc n) (x ∷ xs) = ap (◌∷◌ x) (take-drop n xs)

length-drop_le {ℓ} : {A : Type ℓ} (n : ℕ) (xs : List A) → length (drop n xs) ≤ length xs
length-drop_le zero xs = omega arith
length-drop_le (suc n) [] = omega arith
length-drop_le (suc n) (x ∷ xs) = omega (arith, length-drop_le n xs)

-- As many writes as the message has bytes, each of which takes at least one, write the message in
-- order and leave nothing.
pub send_lem :
    (taken : List ℕ) (message : Bytes)
    → AllPositive taken
    → length message ≤ length taken
    → send taken message ≡ (message, [])
unfolding send
send_lem [] [] p h = refl
send_lem [] (c ∷ cs) p h = absurd (omega arith)
send_lem (n ∷ taken) [] p h = refl
send_lem (zero ∷ taken) (c ∷ cs) p h = absurd (omega arith)
send_lem (suc n ∷ taken) (c ∷ cs) p h =
    let rest = send_lem taken (drop n cs) p.1 (omega (arith, length-drop_le {0} n cs)) in
    rw rest (ap (λ (x : Bytes). (c ∷ x, [])) (take-drop n cs))
