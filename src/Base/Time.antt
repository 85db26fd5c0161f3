-- ===== src/Base/Time.antt =====
-- Go's package time: an instant is its nanoseconds since the zero time, the start of year 1, and a
-- duration a signed number of nanoseconds. The differences here stay within int64 for instants less
-- than 292 years apart; beyond, Go saturates at the bound that `sub` has.
use Prim.Native.Nat.{ℕ, ◌+◌, ◌-◌, ◌≤◌, ◌<◌, min}
use mathlib.Core.Path.{◌≡◌}
use mathlib.Core.Logic.{◌↔◌}
use mathlib.Core.Bool.{Bool, true}
use native.Mathlib.Omega.{arith}
use kubewhy.Base.Int.{ℤ, pos, negsuc}
use kubewhy.Base.Bools.{◌==◌, ltb, leb, if◌then◌else◌, ℕ_eq}

abbrev pub Time : Type 0
Time = ℕ

abbrev pub Duration : Type 0
Duration = ℤ

abbrev pub second : ℕ
second = 1_000_000_000

abbrev pub minute : ℕ
minute = 60_000_000_000

abbrev pub hour : ℕ
hour = 3_600_000_000_000

-- The largest int64.
abbrev pub max_int64 : ℕ
max_int64 = 9_223_372_036_854_775_807

-- t.After(u), t.Before(u), t.IsZero()
abbrev pub after : Time → Time → Bool
after t u = ltb u t

abbrev pub before : Time → Time → Bool
before t u = ltb t u

abbrev pub is_zero : Time → Bool
is_zero t = t == 0

-- t.Sub(u)
unfoldable pub sub : Time → Time → Duration
sub t u = if leb u t then pos (min (t - u) max_int64) else negsuc (min (u - t - 1) max_int64)

-- d <= bound, for a bound that is not negative
abbrev pub at_most : Duration → ℕ → Bool
at_most (pos n) bound = leb n bound
at_most (negsuc n) bound = true

-- A negative duration is raised to 0.
abbrev pub floor_zero : Duration → ℕ
floor_zero (pos n) = n
floor_zero (negsuc n) = 0

-- Within a window: not further back than the window, or in the future.
pub at_most-sub :
    (t u bound : ℕ) → bound < max_int64 → (at_most (sub t u) bound ≡ true) ↔ (t ≤ u + bound)
unfolding sub
at_most-sub t u bound h = ground arith
