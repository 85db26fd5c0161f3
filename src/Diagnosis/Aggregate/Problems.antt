-- ===== src/Diagnosis/Aggregate/Problems.antt =====
-- The problems that AggregateByRule of internal/diagnosis/aggregate.go collects, and their subjects.
use mathlib.Core.List.{append-nil, append_assoc}
use kubewhy.Base.{
  ℕ, ◌≡◌, ◌↔◌, inl, inr, refl, sym, Bool, true, false, List, [], ◌∷◌, ◌++◌, map, Option, some,
  String_eq, text_eq_iff, if◌then◌else◌, Bool-cases, arith, All, select, gather, length,
  length-append,
}
use kubewhy.Diagnosis.{Diagnosis, Aggregation, ResourceRef}
use kubewhy.Diagnosis.Aggregate.{
  same_problem, aggregate_subjects, count_in, start_aggregate, collect, collect_all,
}

-- `same_problem` is equality of the three fields of the key.
same_problem_iff :
    (a b : Diagnosis)
    → (same_problem a b ≡ true)
      ↔ ((a.id ≡ b.id) × (a.component ≡ b.component) × (a.summary ≡ b.summary))
unfolding same_problem
same_problem_iff a b = ground (
  arith,
  text_eq_iff a.id b.id,
  text_eq_iff a.component b.component,
  text_eq_iff a.summary b.summary,
)

pub same_problem_refl : (a : Diagnosis) → same_problem a a ≡ true
same_problem_refl a = (same_problem_iff a a).1 (refl, refl, refl)

pub same_problem_sym : (a b : Diagnosis) → same_problem a b ≡ same_problem b a
same_problem_sym a b = ground (arith, same_problem_iff a b, same_problem_iff b a)

-- Findings of one problem are of the same problem as any third.
pub same_problem_third :
    (k a b : Diagnosis) → same_problem a b ≡ true → same_problem k a ≡ same_problem k b
same_problem_third k a b h =
    ground (arith, same_problem_iff a b, same_problem_iff k a, same_problem_iff k b)

-- The objects that the findings of one problem list.
abbrev subjects_if : Bool → Diagnosis → List ResourceRef
subjects_if b d = if b then aggregate_subjects d.aggregate else []

unfoldable pub subjects_of : Diagnosis → List Diagnosis → List ResourceRef
unfolding gather
subjects_of k = gather (λ o. subjects_if (same_problem k o) o)

-- No two findings of a list have one problem.
abbrev pub Distinct : List Diagnosis → Type 0
Distinct [] = Unit
Distinct (o ∷ out) = All (λ e. same_problem o e ≡ false) out × Distinct out

-- A finding with an aggregate whose count is the number of its subjects.
abbrev pub IsCounted : ℕ → Diagnosis → Type 0
IsCounted total d =
    (a : Aggregation) × (d.aggregate ≡ some a) × (a.count ≡ length a.subjects) × (a.total ≡ total)

subjects_of_other :
    (k o : Diagnosis) (out : List Diagnosis)
    → same_problem k o ≡ true
    → All (λ e. same_problem o e ≡ false) out
    → subjects_of k out ≡ []
unfolding subjects_of
subjects_of_other k o [] h hs = refl
subjects_of_other k o (e ∷ out) h (new, news) =
    let third = same_problem_third e k o h in
    let flipped = same_problem_sym o e in
    let back = same_problem_sym k e in ground (arith, subjects_of_other k o out h news)

collect-other :
    (total : ℕ) (o d : Diagnosis) (out : List Diagnosis)
    → same_problem o d ≡ false
    → All (λ e. same_problem o e ≡ false) out
    → All (λ e. same_problem o e ≡ false) (collect total out d)
unfolding collect same_problem
collect-other total o d [] h hs = (h, tt)
collect-other total o d (p ∷ out) h (new, news) = elim (Bool-cases (same_problem p d)) [
  | inl e ↦ rw e (new, news)
  | inr e ↦ rw e (new, collect-other total o d out h news)
]

collect-Distinct :
    (total : ℕ) (out : List Diagnosis) (d : Diagnosis)
    → Distinct out
    → Distinct (collect total out d)
unfolding collect same_problem
collect-Distinct total [] d h = (tt, tt)
collect-Distinct total (o ∷ out) d (new, rest) = elim (Bool-cases (same_problem o d)) [
  | inl e ↦ rw e (new, rest)
  | inr e ↦ rw e (collect-other total o d out e new, collect-Distinct total out d rest)
]

same_problem-aggregate :
    (k o : Diagnosis) (x : Option Aggregation)
    → same_problem k (record o { aggregate = x }) ≡ same_problem k o
unfolding same_problem
same_problem-aggregate k o x = refl

subjects_of-join :
    (k o d : Diagnosis) (a : Aggregation) (out : List Diagnosis)
    → o.aggregate ≡ some a
    → same_problem o d ≡ true
    → All (λ e. same_problem o e ≡ false) out
    → subjects_of k (record o { aggregate = count_in d.subject o.aggregate } ∷ out)
      ≡ subjects_of k (o ∷ out) ++ (if same_problem k d then d.subject ∷ [] else [])
unfolding subjects_of
subjects_of-join k o d a out made e new = elim (Bool-cases (same_problem k o)) [
  | inl h ↦
      let none_left : subjects_of k out ≡ [] = subjects_of_other k o out h new in
      let third = same_problem_third k o d e in
      rw (same_problem-aggregate, ← third, h, made) (simp (none_left, append-nil))
  | inr h ↦
      let third = same_problem_third k o d e in
      rw (same_problem-aggregate, ← third, h) (sym (append-nil _))
]

-- The subject of a finding joins those of its problem, behind them, and no others.
subjects_of-collect :
    (k : Diagnosis) (total : ℕ) (out : List Diagnosis) (d : Diagnosis)
    → Distinct out
    → All (IsCounted total) out
    → subjects_of k (collect total out d)
      ≡ subjects_of k out ++ (if same_problem k d then d.subject ∷ [] else [])
unfolding subjects_of collect
subjects_of-collect k total [] d h c = (unfold same_problem in ground arith)
subjects_of-collect k total (o ∷ out) d (new, rest) ((a, made, _, _), cs) =
    elim (Bool-cases (same_problem o d)) [
      | inl e ↦ rw e (subjects_of-join k o d a out made e new)
      | inr e ↦
          rw (e, subjects_of-collect k total out d rest cs)
            (sym (
              append_assoc (subjects_if (same_problem k o) o) (subjects_of k out)
                (if same_problem k d then d.subject ∷ [] else [])))
    ]

collect-IsCounted :
    (total : ℕ) (out : List Diagnosis) (d : Diagnosis)
    → All (IsCounted total) out
    → All (IsCounted total) (collect total out d)
unfolding collect start_aggregate
collect-IsCounted total [] d h = ((_, refl, refl, refl), tt)
collect-IsCounted total (o ∷ out) d ((a, made, counted, all), cs) =
    elim (Bool-cases (same_problem o d)) [
      | inl e ↦
          rw (e, made)
            ((_, refl, omega (arith, length-append a.subjects (d.subject ∷ [])), all), cs)
      | inr e ↦ rw e ((a, made, counted, all), collect-IsCounted total out d cs)
    ]

pub collect_all-Distinct :
    (total : ℕ) (out ds : List Diagnosis) → Distinct out → Distinct (collect_all total out ds)
unfolding collect_all
collect_all-Distinct total out [] h = h
collect_all-Distinct total out (d ∷ ds) h =
    collect_all-Distinct total (collect total out d) ds (collect-Distinct total out d h)

pub collect_all-IsCounted :
    (total : ℕ) (out ds : List Diagnosis)
    → All (IsCounted total) out
    → All (IsCounted total) (collect_all total out ds)
unfolding collect_all
collect_all-IsCounted total out [] h = h
collect_all-IsCounted total out (d ∷ ds) h =
    collect_all-IsCounted total (collect total out d) ds (collect-IsCounted total out d h)

-- The objects among some findings that have a problem.
unfoldable pub affected : Diagnosis → List Diagnosis → List ResourceRef
unfolding select
affected k ds = map (λ d. d.subject) (select (same_problem k) ds)

affected-cons :
    (k d : Diagnosis) (ds : List Diagnosis)
    → affected k (d ∷ ds) ≡ (if same_problem k d then d.subject ∷ [] else []) ++ affected k ds
unfolding affected
affected-cons k d ds = elim (Bool-cases (same_problem k d)) [ inl e ↦ rw e | inr e ↦ rw e ]

pub subjects_of-collect_all :
    (k : Diagnosis) (total : ℕ) (out ds : List Diagnosis)
    → Distinct out
    → All (IsCounted total) out
    → subjects_of k (collect_all total out ds) ≡ subjects_of k out ++ affected k ds
unfolding collect_all
subjects_of-collect_all k total out [] h c = (unfold affected in sym (append-nil _))
subjects_of-collect_all k total out (d ∷ ds) h c =
    rw
      (
        subjects_of-collect_all k total (collect total out d) ds (collect-Distinct total out d h)
            (collect-IsCounted total out d c),
        subjects_of-collect k total out d h c,
        affected-cons k d ds,
      )
      (append_assoc (subjects_of k out) (if same_problem k d then d.subject ∷ [] else [])
        (affected k ds))
