-- ===== src/Rules/Deployment/Laws.antt =====
-- How severe the rules of internal/diagnosis/rules/deployment are together.
use kubewhy.Base.{
  ◌==◌, ◌≡◌, refl, ◌∙◌, Bool, false, not, ◌&&◌, ◌||◌, String_eq, [], ◌∷◌, Option, none, some, arith,
  any, any-append, if◌then◌else◌,
}
use kubewhy.Base.Int.{ℤ, pos, ℤ_eq, exceeds, less_int}
use kubewhy.Diagnosis.{Diagnosis}
use kubewhy.Diagnosis.Engine.{evaluate}
use kubewhy.Diagnosis.Engine.Runs.{evaluate-any}
use kubewhy.Diagnosis.Report.Verdict.{is_critical, has_critical}
use kubewhy.Snapshot.Api.{Condition}
use kubewhy.Snapshot.Deployment.{Deployment, wanted_replicas, is_paused, deployment_condition}
use kubewhy.Rules.Deployment.{
  scaled_to_zero_diagnosis, paused_diagnosis, evaluate_intent, capacity_severity,
  unavailable_diagnosis, evaluate_availability, deployment_rules,
}
use kubewhy.Rules.Deployment.Conditions.{
  replica_failure_diagnosis, deadline_diagnosis, rollout_diagnosis, failure_found, progress_found,
  evaluate_conditions,
}

abbrev pub is_failing : Option Condition → Bool
is_failing none = false
is_failing (some c) = c.status == "True"

abbrev pub is_stuck : Option Condition → Bool
is_stuck none = false
is_stuck (some c) = c.status == "False" && c.reason == "ProgressDeadlineExceeded"

-- Replicas are wanted, the rollout is not paused, and not one of them is available.
unfoldable pub is_down : Deployment → Bool
is_down snap =
    not (wanted_replicas snap == pos 0 || is_paused snap)
    && less_int snap.deployment.available_replicas (wanted_replicas snap)
    && not (exceeds snap.deployment.available_replicas 0)

one_if :
    (b : Bool) (d : Diagnosis)
    → has_critical (if b then d ∷ [] else []) ≡ (b && is_critical d.severity)
unfolding any
one_if b d = ground arith

evaluate_intent-critical : (snap : Deployment) → has_critical (evaluate_intent snap) ≡ false
unfolding evaluate_intent
evaluate_intent-critical snap =
    any-append _ (if wanted_replicas snap == pos 0 then scaled_to_zero_diagnosis snap ∷ [] else [])
      (if is_paused snap then paused_diagnosis snap ∷ [] else [])
    ∙ rw
        (
          one_if (wanted_replicas snap == pos 0) (scaled_to_zero_diagnosis snap),
          one_if (is_paused snap) (paused_diagnosis snap),
        )
        (unfold scaled_to_zero_diagnosis paused_diagnosis in ground arith)

failure-critical :
    (snap : Deployment) (o : Option Condition) → has_critical (failure_found snap o) ≡ is_failing o
unfolding any
failure-critical snap none = refl
failure-critical snap (some c) =
    one_if (c.status == "True") (replica_failure_diagnosis snap c)
    ∙ (unfold replica_failure_diagnosis in ground arith)

progress-critical :
    (snap : Deployment) (o : Option Condition) → has_critical (progress_found snap o) ≡ is_stuck o
unfolding any
progress-critical snap none = refl
progress-critical snap (some c) = unfold deadline_diagnosis rollout_diagnosis in ground arith

evaluate_conditions-critical :
    (snap : Deployment)
    → has_critical (evaluate_conditions snap) ≡ (
        is_failing (deployment_condition snap "ReplicaFailure")
        || is_stuck (deployment_condition snap "Progressing"))
unfolding evaluate_conditions
evaluate_conditions-critical snap =
    any-append _ (failure_found snap (deployment_condition snap "ReplicaFailure"))
      (progress_found snap (deployment_condition snap "Progressing"))
    ∙ rw
        (
          failure-critical snap (deployment_condition snap "ReplicaFailure"),
          progress-critical snap (deployment_condition snap "Progressing"),
        )
        refl

capacity-critical : (n : ℤ) → is_critical (capacity_severity n) ≡ not (exceeds n 0)
capacity-critical n = ground arith

two_guards :
    (a b : Bool) (d : Diagnosis)
    → has_critical (if a then [] else if not b then [] else d ∷ [])
      ≡ (not a && b && is_critical d.severity)
unfolding any
two_guards a b d = ground arith

evaluate_availability-critical :
    (snap : Deployment) → has_critical (evaluate_availability snap) ≡ is_down snap
unfolding evaluate_availability is_down
evaluate_availability-critical snap =
    two_guards (wanted_replicas snap == pos 0 || is_paused snap)
      (less_int snap.deployment.available_replicas (wanted_replicas snap))
      (unavailable_diagnosis snap)
    ∙ (unfold unavailable_diagnosis in
        rw (capacity-critical snap.deployment.available_replicas) refl)

-- While the context lives, the rules find something critical in a Deployment exactly where its
-- ReplicaSet cannot create Pods, its rollout went past its deadline, or replicas are wanted, the
-- rollout is not paused, and not one of them is available.
pub deployment_rules-critical :
    (snap : Deployment)
    → has_critical (evaluate [] deployment_rules snap) ≡ (
        is_failing (deployment_condition snap "ReplicaFailure")
        || is_stuck (deployment_condition snap "Progressing")
        || is_down snap)
unfolding any
deployment_rules-critical snap =
    evaluate-any snap _ deployment_rules
    ∙ rw
        (
          evaluate_intent-critical snap,
          evaluate_conditions-critical snap,
          evaluate_availability-critical snap,
        )
        (ground arith)
