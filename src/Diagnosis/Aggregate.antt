-- ===== src/Diagnosis/Aggregate.antt =====
-- internal/diagnosis/aggregate.go: findings that repeat across objects collapsed into one for each
-- distinct problem. The map from keys to positions is the search for the finding with that key.
pub mod Problems
pub mod Widespread
use kubewhy.Base.{
  ℕ, suc, ◌+◌, ltb, ◌==◌, Bool, ◌&&◌, List, [], ◌∷◌, ◌++◌, Option, none, some, String_eq,
  if◌then◌else◌,
}
use kubewhy.Base.Sort.{sort_stable}
use kubewhy.Diagnosis.{Diagnosis, Aggregation, ResourceRef}

-- The same rule, component and summary: `key`.
unfoldable pub same_problem : Diagnosis → Diagnosis → Bool
same_problem a b = a.id == b.id && a.component == b.component && a.summary == b.summary

-- Aggregate.Count, 0 where there is no aggregate.
abbrev pub aggregate_count : Option Aggregation → ℕ
aggregate_count none = 0
aggregate_count (some a) = a.count

abbrev pub aggregate_subjects : Option Aggregation → List ResourceRef
aggregate_subjects none = []
aggregate_subjects (some a) = a.subjects

-- Count++ and one more subject.
abbrev pub count_in : ResourceRef → Option Aggregation → Option Aggregation
count_in r none = none
count_in r (some a) = some (record a { count = suc a.count; subjects = a.subjects ++ r ∷ [] })

unfoldable pub start_aggregate : ℕ → Diagnosis → Diagnosis
start_aggregate total d = record d {
  aggregate = some (record { count = 1; total = total; subjects = d.subject ∷ [] });
}

-- One round of the loop: the finding joins the one with its key, or is appended.
unfoldable pub collect : ℕ → List Diagnosis → Diagnosis → List Diagnosis
unfolding same_problem start_aggregate
collect total [] d = start_aggregate total d ∷ []
collect total (o ∷ out) d =
    let rest = collect total out d in
    if same_problem o d
    then record o { aggregate = count_in d.subject o.aggregate } ∷ out
    else o ∷ rest

unfoldable pub collect_all : ℕ → List Diagnosis → List Diagnosis → List Diagnosis
unfolding collect
collect_all total out [] = out
collect_all total out (d ∷ ds) = collect_all total (collect total out d) ds

abbrev pub more_widespread : Diagnosis → Diagnosis → Bool
more_widespread a b = ltb (aggregate_count b.aggregate) (aggregate_count a.aggregate)

unfoldable pub aggregate_by_rule : List Diagnosis → ℕ → List Diagnosis
unfolding collect_all sort_stable
aggregate_by_rule [] total = []
aggregate_by_rule (d ∷ ds) total = sort_stable more_widespread (collect_all total [] (d ∷ ds))
