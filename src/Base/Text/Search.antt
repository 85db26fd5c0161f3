-- ===== src/Base/Text/Search.antt =====
-- Searching and splitting a text, as strings.Index, strings.Split and the program's own regular
-- expressions do.
use Prim.Native.Char.{Char, code}
use Prim.Native.String.{String}
use Prim.Native.Nat.{ℕ, ◌+◌, ◌-◌, ◌*◌, min}
use mathlib.Core.Bool.{Bool, true, false, ◌&&◌, not}
use mathlib.Core.Option.{Option, none, some}
use mathlib.Core.List.{List, [], ◌∷◌}
use kubewhy.Base.Bools.{◌==◌, if◌then◌else◌, String_eq, ℕ_eq}
use kubewhy.Base.Text.{cut_prefix, has_prefix, to_lower, push_char}
use kubewhy.Base.Text.Digits.{is_digit}

-- The text before the first place where a text stands, where there is one.
unfoldable pub before_first : String → String → Option String
unfolding has_prefix
before_first String.[] needle = if needle == "" then some "" else none
before_first (String.◌∷◌ c s) needle =
    let rest = before_first s needle in
    if has_prefix (String.◌∷◌ c s) needle
    then some ""
    else elim rest [ none ↦ none | some r ↦ some (String.◌∷◌ c r) ]

-- The text behind the first place where a text stands, where there is one.
unfoldable pub after_first : String → String → Option String
unfolding cut_prefix
after_first String.[] needle = if needle == "" then some "" else none
after_first (String.◌∷◌ c s) needle =
    let rest = after_first s needle in
    elim (cut_prefix (String.◌∷◌ c s) needle) [ some r ↦ some r | none ↦ rest ]

-- The same, where the case of the letters does not matter: one text is walked beside its lower case.
drop_same : String → String → String
drop_same String.[] s = s
drop_same (String.◌∷◌ d p) String.[] = ""
drop_same (String.◌∷◌ d p) (String.◌∷◌ c s) = drop_same p s

after_lower : String → String → String → Option String
unfolding has_prefix drop_same
after_lower String.[] s needle = if needle == "" then some s else none
after_lower (String.◌∷◌ d low) String.[] needle = none
after_lower (String.◌∷◌ d low) (String.◌∷◌ c s) needle =
    let rest = after_lower low s needle in
    if has_prefix (String.◌∷◌ d low) needle then some (drop_same needle (String.◌∷◌ c s)) else rest

unfoldable pub after_ignoring_case : String → String → Option String
unfolding after_lower to_lower
after_ignoring_case s needle = after_lower (to_lower s) s (to_lower needle)

-- strings.Split at one character, with the part that is being read.
split_from : ℕ → String → String → List String
split_from c part String.[] = part ∷ []
split_from c part (String.◌∷◌ d s) =
    let closed = part ∷ split_from c "" s in
    let longer = split_from c (push_char part d) s in if code d == c then closed else longer

unfoldable pub split : ℕ → String → List String
unfolding split_from
split c s = split_from c "" s

-- All matches of "([^"]+)": the quoted names. The mode is none outside of quotes, and else the name
-- that is being read.
abbrev quote_step : Option String → Char → Option String
quote_step none c = if code c == 34 then some "" else none
quote_step (some name) c =
    if code c == 34 then if name == "" then some "" else none else some (push_char name c)

abbrev quote_done : Option String → Char → List String → List String
quote_done none c rest = rest
quote_done (some name) c rest = if code c == 34 && not (name == "") then name ∷ rest else rest

quoted_from : Option String → String → List String
quoted_from mode String.[] = []
quoted_from mode (String.◌∷◌ c s) = quote_done mode c (quoted_from (quote_step mode c) s)

unfoldable pub quoted_names : String → List String
unfolding quoted_from
quoted_names s = quoted_from none s

-- The digits at the start of a text as a number, and the text behind them; none without a digit.
digits_from : Bool → ℕ → String → Option (ℕ × String)
unfolding is_digit
digits_from seen n String.[] = if seen then some (n, "") else none
digits_from seen n (String.◌∷◌ c s) =
    let more = digits_from true (n * 10 + (code c - 48)) s in
    if is_digit (code c) then more else if seen then some (n, String.◌∷◌ c s) else none

-- strconv.Atoi answers the largest int for a number that is out of range.
unfoldable pub leading_number : String → Option (ℕ × String)
unfolding digits_from
leading_number s = elim (digits_from false 0 s) [
  | none ↦ none
  | some found ↦ some (min found.0 9_223_372_036_854_775_807, found.1)
]
