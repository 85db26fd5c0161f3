-- ===== src/Base/Text.antt =====
-- What the program uses of Go's packages strings, strconv and fmt, over texts of Unicode characters.
-- Case mapping is that of the ASCII letters, and `%q` escapes what Go escapes below U+0080.
use Prim.Native.Char.{Char, code}
use Prim.Native.String
use Prim.Native.String.{String, len}
use kubewhy.Base.Bools.{◌==◌, ltb, leb, if◌then◌else◌, String_eq, ℕ_eq}
use Prim.Native.Nat.{Ordering, ℕ, zero, suc, ◌+◌, ◌-◌, ◌*◌, ◌/◌, ◌%◌}
use mathlib.Core.Bool.{Bool, true, false, ◌&&◌, ◌||◌}
use mathlib.Core.Option.{Option, none, some}
use mathlib.Core.List.{List, [], ◌∷◌}
use text.Mathlib.Text.{starts_with}
pub mod Digits
pub mod Search

-- `+` on texts.
infixr 68 ◌<>◌
abbrev pub ◌<>◌ : String → String → String
s <> t = String.◌++◌ s t

abbrev pub push_char : String → Char → String
push_char s c = String.◌++◌ s (String.◌∷◌ c "")

-- strings.HasPrefix, strings.TrimPrefix
unfoldable pub has_prefix : String → String → Bool
has_prefix s p = starts_with s p

-- The text behind a prefix, where it has that prefix.
unfoldable pub cut_prefix : String → String → Option String
cut_prefix s String.[] = some s
cut_prefix String.[] (String.◌∷◌ d p) = none
cut_prefix (String.◌∷◌ c s) (String.◌∷◌ d p) =
    let rest = cut_prefix s p in if code c == code d then rest else none

-- strings.Contains
unfoldable pub contains : String → String → Bool
unfolding has_prefix
contains String.[] needle = has_prefix "" needle
contains (String.◌∷◌ c s) needle =
    let rest = contains s needle in if has_prefix (String.◌∷◌ c s) needle then true else rest

-- A character by its place in the second alphabet where the first has it.
translate : String → String → Char → Char
translate (String.◌∷◌ x xs) (String.◌∷◌ y ys) c =
    let rest = translate xs ys c in if code x == code c then y else rest
translate _ _ c = c

map_chars : (Char → Char) → String → String
map_chars f String.[] = ""
map_chars f (String.◌∷◌ c s) = String.◌∷◌ (f c) (map_chars f s)

-- strings.ToLower
unfoldable pub to_lower : String → String
unfolding translate map_chars
to_lower s = map_chars (translate "ABCDEFGHIJKLMNOPQRSTUVWXYZ" "abcdefghijklmnopqrstuvwxyz") s

-- unicode.ToUpper of the first letter
unfoldable pub upper_first : String → String
unfolding translate
upper_first String.[] = ""
upper_first (String.◌∷◌ c s) =
    String.◌∷◌ (translate "abcdefghijklmnopqrstuvwxyz" "ABCDEFGHIJKLMNOPQRSTUVWXYZ" c) s

-- strings.ReplaceAll(s, "\n", " ")
unfoldable pub newlines_to_spaces : String → String
newlines_to_spaces String.[] = ""
newlines_to_spaces (String.◌∷◌ c s) =
    let rest = newlines_to_spaces s in if code c == 10 then " " <> rest else String.◌∷◌ c rest

-- unicode.IsSpace
is_space : ℕ → Bool
is_space c =
    (leb 9 c && leb c 13)
    || c == 32
    || c == 0x85
    || c == 0xa0
    || c == 0x1680
    || (leb 0x2000 c && leb c 0x200a)
    || c == 0x2028
    || c == 0x2029
    || c == 0x202f
    || c == 0x205f
    || c == 0x3000

-- Leading and trailing characters of a set dropped.
trim_left : (ℕ → Bool) → String → String
trim_left drop String.[] = ""
trim_left drop (String.◌∷◌ c s) =
    let rest = trim_left drop s in if drop (code c) then rest else String.◌∷◌ c s

trim_right : (ℕ → Bool) → String → String
trim_right drop String.[] = ""
trim_right drop (String.◌∷◌ c s) =
    let rest = trim_right drop s in if drop (code c) && rest == "" then "" else String.◌∷◌ c rest

-- strings.TrimSpace
unfoldable pub trim_space : String → String
unfolding trim_left trim_right is_space
trim_space s = trim_right is_space (trim_left is_space s)

-- strings.Trim(s, "c") for one character
unfoldable pub trim_char : ℕ → String → String
unfolding trim_left trim_right
trim_char c s = trim_right (λ x. x == c) (trim_left (λ x. x == c) s)

-- strings.Trim(s, ", ")
unfoldable pub trim_separators : String → String
unfolding trim_left trim_right
trim_separators s = trim_right (λ x. x == 44 || x == 32) (trim_left (λ x. x == 44 || x == 32) s)

-- strings.Join
unfoldable pub join : String → List String → String
join sep [] = ""
join sep (x ∷ []) = x
join sep (x ∷ y ∷ rest) = x <> sep <> join sep (y ∷ rest)

-- s[:n] on bytes; a character that the cut would split is dropped.
unfoldable pub cut : ℕ → String → String
cut n s = String.slice s 0 n

-- `%d` of a number that is not negative, strconv.Itoa
unfoldable pub itoa : ℕ → String
unfolding Digits.print_number
itoa n = Digits.print_number n

hex : ℕ → String
hex n =
    let alphabet : String = "0123456789abcdef" in
    String.slice alphabet (n / 16) (n / 16 + 1) <> String.slice alphabet (n % 16) (n % 16 + 1)

escape : ℕ → String → String
unfolding hex
escape c plain =
    if c == 34
    then "\\\""
    else if c == 92
    then "\\\\"
    else if c == 7
    then "\\a"
    else if c == 8
    then "\\b"
    else if c == 9
    then "\\t"
    else if c == 10
    then "\\n"
    else if c == 11
    then "\\v"
    else if c == 12
    then "\\f"
    else if c == 13
    then "\\r"
    else if ltb c 32 || c == 127
    then "\\x" <> hex c
    else plain

quote_body : String → String
unfolding escape
quote_body String.[] = ""
quote_body (String.◌∷◌ c s) = escape (code c) (String.◌∷◌ c "") <> quote_body s

-- `%q`
unfoldable pub quote : String → String
unfolding quote_body
quote s = "\"" <> quote_body s <> "\""

-- s < t on texts
abbrev pub text_less : String → String → Bool
text_less s t = elim (String.compare s t) [ Ordering.lt ↦ true | _ ↦ false ]
