-- ===== src/Diagnosis/Aggregate/Widespread.antt =====
-- The result of AggregateByRule of internal/diagnosis/aggregate.go, behind its final sort.
use mathlib.Core.List.{Pairwise}
use mathlib.Core.List.Pairwise
use kubewhy.Base.{
  ℕ, ◌≤◌, ◌≡◌, inl, inr, refl, sym, ap, ◌∙◌, true, false, List, [], ◌∷◌, Bool-cases, arith, All,
  select, gather, length,
}
use kubewhy.Base.Sort.{sort_stable}
use kubewhy.Base.Sort.Laws.{
  WeakOrder, sort_stable-Pairwise, sort_stable-All, sort_stable-select_unique,
}
use kubewhy.Diagnosis.{Diagnosis}
use kubewhy.Diagnosis.Aggregate.{
  same_problem, aggregate_count, aggregate_subjects, collect_all, more_widespread,
  aggregate_by_rule,
}
use kubewhy.Diagnosis.Aggregate.Problems.{
  Distinct, IsCounted, subjects_of, affected, same_problem_third, same_problem_sym,
  collect_all-Distinct, collect_all-IsCounted, subjects_of-collect_all,
}

more_widespread-WeakOrder : WeakOrder more_widespread
more_widespread-WeakOrder = record {
  asym = λ a b h. ground arith;
  trans = λ a b c h e. ground arith;
}

none_of_problem :
    (k o : Diagnosis) (out : List Diagnosis)
    → same_problem k o ≡ true
    → All (λ e. same_problem o e ≡ false) out
    → select (same_problem k) out ≡ []
unfolding select
none_of_problem k o [] h hs = refl
none_of_problem k o (e ∷ out) h (new, news) =
    let back = same_problem_third e k o h in
    let flipped = same_problem_sym o e in
    let again = same_problem_sym k e in ground (arith, none_of_problem k o out h news)

select-Distinct :
    (k : Diagnosis) (out : List Diagnosis) → Distinct out → length (select (same_problem k) out) ≤ 1
unfolding select
select-Distinct k [] h = omega arith
select-Distinct k (o ∷ out) (new, rest) = elim (Bool-cases (same_problem k o)) [
  | inl e ↦ rw (e, none_of_problem k o out e new) (omega arith)
  | inr e ↦ rw e (select-Distinct k out rest)
]

subjects_of-select :
    (k : Diagnosis) (out : List Diagnosis)
    → subjects_of k out ≡ gather (λ o. aggregate_subjects o.aggregate) (select (same_problem k) out)
unfolding subjects_of gather select
subjects_of-select k [] = refl
subjects_of-select k (o ∷ out) = elim (Bool-cases (same_problem k o)) [
  | inl e ↦ rw (e, subjects_of-select k out)
  | inr e ↦ rw (e, subjects_of-select k out)
]

-- Whatever problem is asked for, AggregateByRule lists it in one finding at most.
pub aggregate_by_rule_once :
    (k : Diagnosis) (ds : List Diagnosis) (total : ℕ)
    → length (select (same_problem k) (aggregate_by_rule ds total)) ≤ 1
unfolding aggregate_by_rule
aggregate_by_rule_once k [] total = (unfold select in omega arith)
aggregate_by_rule_once k (d ∷ ds) total =
    let few = select-Distinct k _ (collect_all-Distinct total [] (d ∷ ds) tt) in
    rw
      (sort_stable-select_unique more_widespread (same_problem k) (collect_all total [] (d ∷ ds))
        few)
      few

-- For every problem, the subjects that the findings of AggregateByRule list for it are the subjects
-- of the findings given with that problem, in their order and each as often: none is lost.
pub aggregate_by_rule-affected :
    (k : Diagnosis) (ds : List Diagnosis) (total : ℕ)
    → subjects_of k (aggregate_by_rule ds total) ≡ affected k ds
unfolding aggregate_by_rule
aggregate_by_rule-affected k [] total = (unfold subjects_of affected in refl)
aggregate_by_rule-affected k (d ∷ ds) total =
    let out = collect_all total [] (d ∷ ds) in
    let few = select-Distinct k out (collect_all-Distinct total [] (d ∷ ds) tt) in
    subjects_of-select k (sort_stable more_widespread out)
    ∙ ap (gather (λ o. aggregate_subjects o.aggregate))
        (sort_stable-select_unique more_widespread (same_problem k) out few)
    ∙ sym (subjects_of-select k out)
    ∙ subjects_of-collect_all k total [] (d ∷ ds) tt tt
    ∙ (unfold subjects_of in refl)

-- Every finding of AggregateByRule carries an aggregate whose count is the number of its subjects and
-- whose total is the number of objects that were examined.
pub aggregate_by_rule-IsCounted :
    (ds : List Diagnosis) (total : ℕ) → All (IsCounted total) (aggregate_by_rule ds total)
unfolding aggregate_by_rule
aggregate_by_rule-IsCounted [] total = tt
aggregate_by_rule-IsCounted (d ∷ ds) total =
    sort_stable-All more_widespread (IsCounted total) (collect_all total [] (d ∷ ds))
      (collect_all-IsCounted total [] (d ∷ ds) tt)

-- AggregateByRule puts no finding before one with a larger count.
pub aggregate_by_rule-Pairwise :
    (ds : List Diagnosis) (total : ℕ)
    → Pairwise
        (λ a b. aggregate_count b.aggregate ≤ aggregate_count a.aggregate)
        (aggregate_by_rule ds total)
unfolding aggregate_by_rule
aggregate_by_rule-Pairwise [] total = Pairwise.nil
aggregate_by_rule-Pairwise (d ∷ ds) total =
    Pairwise.imp (λ a b h. ground arith)
      (sort_stable-Pairwise more_widespread more_widespread-WeakOrder
        (collect_all total [] (d ∷ ds)))
