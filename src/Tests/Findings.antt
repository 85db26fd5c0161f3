-- ===== src/Tests/Findings.antt =====
-- The engine, the aggregation and the verdict at findings that are written out.
use mathlib.Core.List.{Perm, Pairwise}
use kubewhy.Base.{
  ◌≡◌, ◌≤◌, ℕ, String_eq, refl, true, false, List, [], ◌∷◌, ◌++◌, All, gather, take, replicate,
}
use kubewhy.Diagnosis.{Diagnosis, ResourceRef, critical, warning, info, severity_rank}
use kubewhy.Diagnosis.Engine.{is_cause, evaluate, prioritize}
use kubewhy.Diagnosis.Engine.Order.{
  AllDeclared, ComesFirst, Explains, prioritize-ComesFirst, prioritize-cause_first,
}
use kubewhy.Diagnosis.Engine.Rules.{evaluate_expired}
use kubewhy.Diagnosis.Aggregate.{aggregate_count, aggregate_by_rule}
use kubewhy.Diagnosis.Aggregate.Problems.{subjects_of, affected, IsCounted}
use kubewhy.Diagnosis.Aggregate.Widespread.{
  aggregate_by_rule-affected, aggregate_by_rule-IsCounted, aggregate_by_rule-Pairwise,
}
use kubewhy.Diagnosis.Report.{Degradation}
use kubewhy.Rules.Pod.Ids.{certainly}

abbrev web : ResourceRef
web = record { kind = "Pod"; namespace = "shop"; name = "web" }

abbrev job : ResourceRef
job = record { kind = "Pod"; namespace = "shop"; name = "job" }

abbrev no_memory : Diagnosis
no_memory = certainly "POD_OOM_KILLED" web "app" critical "killed for its memory"

abbrev loops : Diagnosis
loops = record (certainly "POD_CRASH_LOOP" web "app" critical "restarts in a loop") {
  caused_by = "POD_OOM_KILLED";
}

abbrev slow_probe : Diagnosis
slow_probe = certainly "POD_READINESS_PROBE_FAILED" job "app" warning "a probe failed"

abbrev bound_late : Diagnosis
bound_late = certainly "POD_PVC_NOT_BOUND" job "" info "a claim waits"

abbrev unready : Diagnosis
unready = record slow_probe { caused_by = "POD_PVC_NOT_BOUND" }

abbrev three_findings : List Diagnosis
three_findings = slow_probe ∷ loops ∷ no_memory ∷ []

three_findings-AllDeclared : AllDeclared three_findings
three_findings-AllDeclared = (tt, (tt, (tt, tt)))

-- The cause comes before its consequence, and the warning after both.
three_in_order : prioritize three_findings ≡ no_memory ∷ loops ∷ slow_probe ∷ []
unfolding prioritize
three_in_order = refl

prioritize-ComesFirst_example : Pairwise (ComesFirst three_findings) (prioritize three_findings)
prioritize-ComesFirst_example = prioritize-ComesFirst three_findings three_findings-AllDeclared

prioritize-cause_first_example :
    Pairwise
      (λ a b.
        severity_rank a.severity ≡ severity_rank b.severity
        → Explains b a
        → is_cause three_findings a.id ≡ true)
      (prioritize three_findings)
prioritize-cause_first_example = prioritize-cause_first three_findings three_findings-AllDeclared

abbrev two_rules : List (ℕ → List Diagnosis)
two_rules = (λ n. slow_probe ∷ []) ∷ (λ n. no_memory ∷ loops ∷ []) ∷ []

evaluate_expired_example :
    Perm
      (evaluate (replicate 1 false ++ true ∷ []) two_rules 7)
      (gather (λ r. r 7) (take 1 two_rules))
evaluate_expired_example = evaluate_expired 1 [] two_rules 7

abbrev two_pods : List Diagnosis
two_pods = slow_probe ∷ no_memory ∷ record slow_probe { subject = web } ∷ []

-- The problem of both Pods is listed first, with both.
two_pods_counted :
    gather (λ d. aggregate_count d.aggregate ∷ []) (aggregate_by_rule two_pods 2) ≡ 2 ∷ 1 ∷ []
unfolding aggregate_by_rule gather
two_pods_counted = refl

aggregate_by_rule-affected_example :
    subjects_of slow_probe (aggregate_by_rule two_pods 2) ≡ affected slow_probe two_pods
aggregate_by_rule-affected_example = aggregate_by_rule-affected slow_probe two_pods 2

aggregate_by_rule-IsCounted_example : All (IsCounted 2) (aggregate_by_rule two_pods 2)
aggregate_by_rule-IsCounted_example = aggregate_by_rule-IsCounted two_pods 2

aggregate_by_rule-Pairwise_example :
    Pairwise
      (λ a b. aggregate_count b.aggregate ≤ aggregate_count a.aggregate)
      (aggregate_by_rule two_pods 2)
aggregate_by_rule-Pairwise_example = aggregate_by_rule-Pairwise two_pods 2

abbrev denied : Degradation
denied = record {
  resource = "nodes";
  reason = "forbidden";
  required_for = "node health";
  detail = "";
}
