-- ===== src/Format.antt =====
-- internal/format/format.go. The hours and minutes are whole numbers here where Go truncates a
-- float64, which is the same number for durations below 4096 hours, and for all whole seconds.
use kubewhy.Base.{ℕ, ◌-◌, ◌*◌, ◌/◌, ◌%◌, ltb, ◌==◌, ◌||◌, String, ℕ_eq, if◌then◌else◌}
use kubewhy.Base.Int.{ℤ, pos, ℤ_eq, int_text}
use kubewhy.Base.Text.{◌<>◌, itoa}
use kubewhy.Base.Time.{Duration, second, minute, hour, floor_zero}

-- Duration of a number of nanoseconds that is not negative.
unfoldable pub duration_text : ℕ → String
duration_text d =
    let hours = d / hour in
    let minutes = d / minute - hours * 60 in
    let days = hours / 24 in
    let left = hours % 24 in
    if ltb d minute
    then itoa (d / second) <> "s"
    else if ltb d hour
    then itoa (d / minute) <> "m"
    else if ltb d (24 * hour)
    then if minutes == 0 then itoa hours <> "h" else itoa hours <> "h" <> itoa minutes <> "m"
    else if left == 0 || ltb 7 days
    then itoa days <> "d"
    else itoa days <> "d" <> itoa left <> "h"

unfoldable pub duration : Duration → String
unfolding duration_text
duration d = duration_text (floor_zero d)

-- Count
unfoldable pub count_text : ℤ → String → String → String
count_text n singular plural =
    if n == pos 1 then int_text n <> " " <> singular else int_text n <> " " <> plural
