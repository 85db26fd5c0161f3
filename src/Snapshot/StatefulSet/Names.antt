-- ===== src/Snapshot/StatefulSet/Names.antt =====
-- The names that a StatefulSet gives its Pods and their claims, and Ordinal of
-- internal/snapshot/statefulset.go on them.
use Prim.Native.Char.{Char, code}
use Prim.Native.String.append
use kubewhy.Base.{
  ℕ, ◌+◌, ◌-◌, ◌*◌, ◌≤◌, ◌==◌, ◌≡◌, ◌≢◌, refl, sym, ap, ◌∙◌, true, false, String, String_eq, ℕ_eq,
  text_eq_iff, none, some, arith, Bool-cases, inl, inr,
}
use kubewhy.Base.Text.{◌<>◌, itoa}
use kubewhy.Base.Text.Digits.{is_digit, read_digits}
use kubewhy.Base.Text.Digits.Reading.{starts, print_number-starts, read-print_number}
use kubewhy.Base.Time.{max_int64}
use kubewhy.Snapshot.StatefulSet.{
  StatefulSet, number_after, first_number, find_number, ordinal, claim_name,
}

-- A text that is not digits up to its end.
abbrev IsNoNumber : String → Type 0
IsNoNumber s = (m : ℕ) → read_digits m s ≡ none

hyphen-IsNoNumber : (t : String) → IsNoNumber ("-" <> t)
unfolding read_digits is_digit
hyphen-IsNoNumber t m = rw (append.cons "-" "" t) refl

append-IsNoNumber : (s u : String) → IsNoNumber u → IsNoNumber (s <> u)
unfolding read_digits
append-IsNoNumber String.[] u h m = rw (append.nil u) (h m)
append-IsNoNumber (String.◌∷◌ c s) u h m =
    rw (append.cons c s u) (rw (append-IsNoNumber s u h (m * 10 + (code c - 48))) (ground arith))

number_after-none :
    (c : Char) (s : String) → read_digits 0 s ≡ none → number_after (String.◌∷◌ c s) ≡ none
unfolding number_after
number_after-none c s h = rw h (ground arith)

-- Where no number stands at this place, the search goes on.
find_number-next :
    (c : Char) (s : String) → read_digits 0 s ≡ none → find_number (String.◌∷◌ c s) ≡ find_number s
unfolding find_number first_number
find_number-next c s h =
    let stops = number_after-none c s h in ap (λ o. first_number o (find_number s)) stops

-- The number at the end is found behind any text.
find_number-append :
    (s u : String) (n : ℕ) → IsNoNumber u → find_number u ≡ some n → find_number (s <> u) ≡ some n
find_number-append String.[] u n h k = rw (append.nil u) k
find_number-append (String.◌∷◌ c s) u n h k =
    rw (append.cons c s u)
      (find_number-next c (s <> u) (append-IsNoNumber s u h 0) ∙ find_number-append s u n h k)

unfilled : false ≢ true
unfilled = λ e. ground arith

starts-not_empty : (s : String) → starts s ≡ true → (s == "") ≡ false
unfolding starts
starts-not_empty s h = elim (Bool-cases (s == "")) [
  | inl e ↦ absurd (unfilled (ap starts (sym ((text_eq_iff s "").0 e)) ∙ h))
  | inr e ↦ e
]

number_after-hyphen :
    (s : String) → starts s ≡ true → number_after (String.◌∷◌ "-" s) ≡ read_digits 0 s
unfolding number_after
number_after-hyphen s h = rw (starts-not_empty s h) refl

find_number-hyphen : (n : ℕ) → find_number ("-" <> itoa n) ≡ some n
unfolding find_number first_number
find_number-hyphen n =
    let read : number_after (String.◌∷◌ "-" (itoa n)) ≡ some n =
      number_after-hyphen (itoa n) (unfold itoa in print_number-starts n)
      ∙ (unfold itoa in read-print_number n) in
    rw (append.cons "-" "" (itoa n), append.nil (itoa n))
      (ap (λ o. first_number o (find_number (itoa n))) read)

-- The name of a replica, or of the claim that a template gives it, has the replica's ordinal, whatever
-- stands in front of it, as far as the ordinal is an int64.
pub ordinal-numbered : (s : String) (n : ℕ) → n ≤ max_int64 → ordinal (s <> "-" <> itoa n) ≡ some n
unfolding ordinal
ordinal-numbered s n h =
    rw (find_number-append s ("-" <> itoa n) n (hyphen-IsNoNumber (itoa n)) (find_number-hyphen n))
      (ground arith)

-- The claim that a template of a StatefulSet gives a replica has the replica's ordinal, whatever
-- hyphens and digits the two names have, as far as the ordinal is an int64.
pub ordinal-claim_name :
    (snap : StatefulSet) (template : String) (n : ℕ)
    → n ≤ max_int64
    → ordinal (claim_name snap template n) ≡ some n
unfolding ordinal claim_name
ordinal-claim_name snap template n h =
    let ending = "-" <> itoa n in
    let no_number = append-IsNoNumber snap.set.name ending (hyphen-IsNoNumber (itoa n)) in
    let named =
      find_number-append snap.set.name ending n (hyphen-IsNoNumber (itoa n))
        (find_number-hyphen n) in
    let behind = find_number-append "-" (snap.set.name <> ending) n no_number named in
    let whole =
      find_number-append template ("-" <> snap.set.name <> ending) n
        (append-IsNoNumber "-" (snap.set.name <> ending) no_number) behind in
    rw whole (ground arith)
