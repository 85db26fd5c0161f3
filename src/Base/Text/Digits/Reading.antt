-- ===== src/Base/Text/Digits/Reading.antt =====
-- Reading back what Digits prints.
use Prim.Native.String.{String}
use Prim.Native.Nat.{ℕ, zero, suc, ◌+◌, ◌*◌, ◌/◌, ◌%◌, ◌<◌}
use mathlib.Core.Path.{◌≡◌, refl, ap, ◌∙◌}
use mathlib.Core.Logic.{inl, inr}
use mathlib.Core.Bool.{Bool, true, false}
use mathlib.Core.Option.{some}
use native.Mathlib.Omega.{arith}
use kubewhy.Base.Bools.{ltb, Bool-cases}
use kubewhy.Base.Text.Digits.{put_digit, print_digits, print_number, read_digits, is_digit}

read-put :
    (d a : ℕ) (s : String) → d < 10 → read_digits a (put_digit d s) ≡ read_digits (a * 10 + d) s
unfolding read_digits put_digit is_digit
read-put zero a s h = ap (λ m. read_digits m s) (omega arith)
read-put (suc zero) a s h = refl
read-put (suc (suc zero)) a s h = refl
read-put (suc (suc (suc zero))) a s h = refl
read-put (suc (suc (suc (suc zero)))) a s h = refl
read-put (suc (suc (suc (suc (suc zero))))) a s h = refl
read-put (suc (suc (suc (suc (suc (suc zero)))))) a s h = refl
read-put (suc (suc (suc (suc (suc (suc (suc zero))))))) a s h = refl
read-put (suc (suc (suc (suc (suc (suc (suc (suc zero)))))))) a s h = refl
read-put (suc (suc (suc (suc (suc (suc (suc (suc (suc zero))))))))) a s h = refl
read-put (suc (suc (suc (suc (suc (suc (suc (suc (suc (suc d)))))))))) a s h = absurd (omega arith)

read-print_digits :
    (fuel n : ℕ) (s : String) → n < fuel → read_digits 0 (print_digits fuel n s) ≡ read_digits n s
unfolding print_digits
read-print_digits zero n s h = absurd (omega arith)
read-print_digits (suc fuel) n s h = elim (Bool-cases (ltb n 10)) [
  | inl small ↦ rw small (read-put n 0 s (ground arith) ∙ ap (λ m. read_digits m s) (omega arith))
  | inr large ↦ rw large (
      read-print_digits fuel (n / 10) (put_digit (n % 10) s) (ground arith)
      ∙ read-put (n % 10) (n / 10) s (omega arith)
      ∙ ap (λ m. read_digits m s) (omega arith))
]

-- A number that is printed is read back.
pub read-print_number : (n : ℕ) → read_digits 0 (print_number n) ≡ some n
unfolding print_number read_digits
read-print_number n = read-print_digits (suc n) n "" (omega arith)

-- A text with something in it.
unfoldable pub starts : String → Bool
starts String.[] = false
starts (String.◌∷◌ c s) = true

put-starts : (d : ℕ) (s : String) → d < 10 → starts (put_digit d s) ≡ true
unfolding starts put_digit
put-starts zero s h = refl
put-starts (suc zero) s h = refl
put-starts (suc (suc zero)) s h = refl
put-starts (suc (suc (suc zero))) s h = refl
put-starts (suc (suc (suc (suc zero)))) s h = refl
put-starts (suc (suc (suc (suc (suc zero))))) s h = refl
put-starts (suc (suc (suc (suc (suc (suc zero)))))) s h = refl
put-starts (suc (suc (suc (suc (suc (suc (suc zero))))))) s h = refl
put-starts (suc (suc (suc (suc (suc (suc (suc (suc zero)))))))) s h = refl
put-starts (suc (suc (suc (suc (suc (suc (suc (suc (suc zero))))))))) s h = refl
put-starts (suc (suc (suc (suc (suc (suc (suc (suc (suc (suc d)))))))))) s h = absurd (omega arith)

print_digits-starts :
    (fuel n : ℕ) (s : String) → starts s ≡ true → starts (print_digits fuel n s) ≡ true
unfolding print_digits
print_digits-starts zero n s h = h
print_digits-starts (suc fuel) n s h = elim (Bool-cases (ltb n 10)) [
  | inl small ↦ rw small (put-starts n s (ground arith))
  | inr large ↦ rw large (
      print_digits-starts fuel (n / 10) (put_digit (n % 10) s)
        (put-starts (n % 10) s (omega arith)))
]

-- A number that is printed has a digit.
pub print_number-starts : (n : ℕ) → starts (print_number n) ≡ true
unfolding print_number print_digits
print_number-starts n = elim (Bool-cases (ltb n 10)) [
  | inl small ↦ rw small (put-starts n "" (ground arith))
  | inr large ↦ rw large (
      print_digits-starts n (n / 10) (put_digit (n % 10) "") (put-starts (n % 10) "" (omega arith)))
]
