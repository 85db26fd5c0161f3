-- ===== src/Base/Text/Digits.antt =====
-- Decimal numbers, printed and read.
pub mod Reading
use Prim.Native.Char.{code}
use Prim.Native.String
use Prim.Native.String.{String}
use Prim.Native.Nat.{ℕ, zero, suc, ◌+◌, ◌-◌, ◌*◌, ◌/◌, ◌%◌}
use mathlib.Core.Bool.{Bool, ◌&&◌}
use mathlib.Core.Option.{Option, none, some}
use kubewhy.Base.Bools.{ltb, leb, if◌then◌else◌, ℕ_eq}

-- One digit in front of a text.
unfoldable pub put_digit : ℕ → String → String
put_digit zero s = String.◌∷◌ "0" s
put_digit (suc zero) s = String.◌∷◌ "1" s
put_digit (suc (suc zero)) s = String.◌∷◌ "2" s
put_digit (suc (suc (suc zero))) s = String.◌∷◌ "3" s
put_digit (suc (suc (suc (suc zero)))) s = String.◌∷◌ "4" s
put_digit (suc (suc (suc (suc (suc zero))))) s = String.◌∷◌ "5" s
put_digit (suc (suc (suc (suc (suc (suc zero)))))) s = String.◌∷◌ "6" s
put_digit (suc (suc (suc (suc (suc (suc (suc zero))))))) s = String.◌∷◌ "7" s
put_digit (suc (suc (suc (suc (suc (suc (suc (suc zero)))))))) s = String.◌∷◌ "8" s
put_digit _ s = String.◌∷◌ "9" s

-- The digits of n in front of a text. A round drops one digit, so n + 1 rounds are enough.
unfoldable pub print_digits : ℕ → ℕ → String → String
unfolding put_digit
print_digits zero n s = s
print_digits (suc fuel) n s =
    let rest = print_digits fuel (n / 10) (put_digit (n % 10) s) in
    if ltb n 10 then put_digit n s else rest

unfoldable pub print_number : ℕ → String
unfolding print_digits
print_number n = print_digits (suc n) n ""

unfoldable pub is_digit : ℕ → Bool
is_digit c = leb 48 c && leb c 57

-- Digits read onto a number, up to the end of the text.
unfoldable pub read_digits : ℕ → String → Option ℕ
unfolding is_digit
read_digits n String.[] = some n
read_digits n (String.◌∷◌ c s) =
    let rest = read_digits (n * 10 + (code c - 48)) s in if is_digit (code c) then rest else none
