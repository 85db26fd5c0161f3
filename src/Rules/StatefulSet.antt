-- ===== src/Rules/StatefulSet.antt =====
-- internal/diagnosis/rules/statefulset: the rules on a StatefulSet, in their order, and the findings
-- on its Pods.
pub mod Ids
pub mod Ordering
pub mod Volumes
pub mod Identity
pub mod Updates
pub mod Laws
use kubewhy.Base.{
  ◌==◌, Bool, true, false, ◌||◌, ◌&&◌, not, String, String_eq, List, [], ◌∷◌, if◌then◌else◌,
  is_empty, length, gather, any,
}
use kubewhy.Base.Int.{ℤ, pos, ℤ_eq, less_int, int_text}
use kubewhy.Base.Text.{◌<>◌}
use kubewhy.Diagnosis.{Diagnosis}
use kubewhy.Diagnosis.Aggregate.{aggregate_by_rule}
use kubewhy.Diagnosis.Engine.{evaluate}
use kubewhy.Snapshot.Pod.{Pod}
use kubewhy.Snapshot.StatefulSet.{StatefulSet, set_ref, desired_replicas}
use kubewhy.Rules.Deployment.{capacity_severity}
use kubewhy.Rules.Pod.{pod_rules, in_contexts}
use kubewhy.Rules.Pod.Ids.{certainly, fact}
use kubewhy.Rules.Pod.Scheduling.{QuantityOps}
use kubewhy.Rules.Pod.Unexplained.{fallback}
use Ids.{id_unready_replicas}
use Ordering.{evaluate_ordering}
use Volumes.{evaluate_set_claims, pods_blocked_by_their_claim}
use Identity.{evaluate_service}
use Updates.{evaluate_update_strategy}

unfoldable pub unready_diagnosis : StatefulSet → Diagnosis
unfolding set_ref desired_replicas
unready_diagnosis snap =
    let desired = desired_replicas snap in
    let ready = snap.set.ready_replicas in
    record (certainly id_unready_replicas (set_ref snap) "" (capacity_severity ready)
      (int_text ready <> " of " <> int_text desired <> " replicas are ready")) {
        explanation =
            "Each replica of a StatefulSet has its own identity and its own storage, so they "
            <> "fail one at a time rather than as a group. The findings above say which one and why.";
        evidence =
            fact "statefulSet" "spec.replicas" (int_text desired)
            ∷ fact "statefulSet" "status.readyReplicas" (int_text ready)
            ∷ fact "statefulSet" "status.currentReplicas" (int_text snap.set.current_replicas)
            ∷ fact "statefulSet" "status.updatedReplicas" (int_text snap.set.updated_replicas)
            ∷ [];
      }

-- evaluateAvailability
unfoldable pub evaluate_readiness : StatefulSet → List Diagnosis
unfolding desired_replicas unready_diagnosis
evaluate_readiness snap =
    if desired_replicas snap == pos 0
      || not (less_int snap.set.ready_replicas (desired_replicas snap))
    then []
    else unready_diagnosis snap ∷ []

-- Rules
abbrev pub set_rules : List (StatefulSet → List Diagnosis)
set_rules =
    evaluate_ordering ∷ evaluate_set_claims ∷ evaluate_service ∷ evaluate_update_strategy
    ∷ evaluate_readiness ∷ []

abbrev pub said_or : List Diagnosis → (explained : Bool) → List Diagnosis → List Diagnosis
said_or said explained other = if is_empty said && not explained then other else said

-- One round of the loop of PodFindings.
unfoldable pub explain_replica :
    QuantityOps → (explained : List String) → List Bool × Pod → List Diagnosis
explain_replica ops explained (expired, pod) =
    said_or (evaluate expired (pod_rules ops) pod) (any (λ n. n == pod.pod.name) explained)
      (fallback pod)

-- PodFindings, with what the context answers before each Pod rule on each Pod.
unfoldable pub set_pod_findings : QuantityOps → List (List Bool) → StatefulSet → List Diagnosis
unfolding gather aggregate_by_rule explain_replica in_contexts pods_blocked_by_their_claim
set_pod_findings ops expired snap =
    aggregate_by_rule
      (gather (explain_replica ops (pods_blocked_by_their_claim snap))
        (in_contexts expired snap.pods))
      (length snap.pods)
