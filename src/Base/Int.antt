-- ===== src/Base/Int.antt =====
-- Go's signed integers: their tests, `%d`, and int32 with its wrap-around.
use Prim.Native.Nat.{ℕ, zero, suc, ◌+◌, ◌-◌, ◌*◌, ◌%◌, max}
use Prim.Native.String.{String}
use mathlib.Core.Path.{◌≡◌}
use mathlib.Core.Logic.{◌↔◌}
use mathlib.Core.Bool.{Bool, true, false}
use native.Mathlib.Omega.{arith}
use kubewhy.Base.Bools.{◌==◌, ltb, if◌then◌else◌, ℕ_eq, Comparable}
use kubewhy.Base.Text.{◌<>◌, itoa}

-- `negsuc n` is -(n + 1).
pub data ℤ : Type 0 where
  pos : ℕ → ℤ
  negsuc : ℕ → ℤ

abbrev pub int_eq : ℤ → ℤ → Bool
int_eq (pos m) (pos n) = m == n
int_eq (negsuc m) (negsuc n) = m == n
int_eq _ _ = false

pub int_eq_iff : (a b : ℤ) → (int_eq a b ≡ true) ↔ (a ≡ b)
int_eq_iff a b = ground arith

instance abbrev pub ℤ_eq : Comparable ℤ
ℤ_eq = record { same = int_eq; same_iff = int_eq_iff }

-- n < z for a bound that is not negative
abbrev pub exceeds : ℤ → ℕ → Bool
exceeds (pos m) n = ltb n m
exceeds (negsuc m) n = false

-- `%d`
unfoldable pub int_text : ℤ → String
int_text (pos n) = itoa n
int_text (negsuc n) = "-" <> itoa (suc n)

-- A 32-bit pattern as the int32 that it stands for.
abbrev pub int32_of : ℕ → ℤ
int32_of n =
    let m = n % 4_294_967_296 in if ltb m 2_147_483_648 then pos m else negsuc (4_294_967_295 - m)

abbrev pub pattern_of : ℤ → ℕ
pattern_of (pos n) = n % 4_294_967_296
pattern_of (negsuc n) = 4_294_967_295 - n % 4_294_967_296

-- `+` on int32
abbrev pub add_int32 : ℤ → ℤ → ℤ
add_int32 a b = int32_of (pattern_of a + pattern_of b)

-- max(z, 1)
abbrev pub at_least_one : ℤ → ℤ
at_least_one (pos n) = pos (max n 1)
at_least_one (negsuc n) = pos 1

-- a < b
abbrev pub less_int : ℤ → ℤ → Bool
less_int (pos m) (pos n) = ltb m n
less_int (negsuc m) (pos n) = true
less_int (pos m) (negsuc n) = false
less_int (negsuc m) (negsuc n) = ltb n m

-- z - 1 on a z above 0
abbrev pub minus_one : ℤ → ℤ
minus_one (pos zero) = negsuc 0
minus_one (pos (suc n)) = pos n
minus_one (negsuc n) = negsuc (suc n)

-- time.Duration(z) * time.Second; the product of an int32 fits in an int64
abbrev pub in_seconds : ℤ → ℤ
in_seconds (pos n) = pos (n * 1_000_000_000)
in_seconds (negsuc n) = negsuc (suc n * 1_000_000_000 - 1)
