-- ===== src/Base/Int.antt =====
-- Python's integers, of which `negsuc n` is `-(n + 1)`, and `str` on them.
use Prim.Native.Nat.{ℕ, zero, suc, ◌+◌, ◌-◌, ◌/◌, ◌%◌}
use Prim.Native.String.{String, slice, ◌++◌ as ◌<>◌}
use svhier.Base.Equality.{if◌then◌else◌}
use svhier.Base.Text.{leb}

pub data ℤ : Type 0 where
  pos : ℕ → ℤ
  negsuc : ℕ → ℤ

-- `a + k` and `a - k`
unfoldable pub add_ℕ : ℤ → ℕ → ℤ
add_ℕ (pos a) k = pos (a + k)
add_ℕ (negsuc a) k = if leb k a then negsuc (a - k) else pos (k - suc a)

unfoldable pub sub_ℕ : ℤ → ℕ → ℤ
sub_ℕ (pos a) k = if leb k a then pos (a - k) else negsuc (k - suc a)
sub_ℕ (negsuc a) k = negsuc (a + k)

abbrev pub digit : ℕ → String
digit n = slice "0123456789" n (n + 1)

-- The decimal digits of a number below 10 to the power of the fuel.
unfoldable pub digits : ℕ → ℕ → String
digits zero n = ""
digits (suc fuel) n =
    let rest = digits fuel (n / 10) in if leb n 9 then digit n else rest <> digit (n % 10)

unfoldable pub int_text : ℤ → String
unfolding digits
int_text (pos n) = digits (suc n) n
int_text (negsuc n) = "-" <> digits (suc (suc n)) (suc n)
