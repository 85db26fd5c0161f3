-- ===== src/Rules/Deployment.antt =====
-- internal/diagnosis/rules/deployment: the rules on a Deployment, in their order, and the findings on
-- its Pods. Its truncate is the one of the Pod rules.
pub mod Ids
pub mod Conditions
pub mod Laws
use kubewhy.Base.{
  ◌==◌, Bool, true, false, ◌||◌, not, String, List, [], ◌∷◌, ◌++◌, if◌then◌else◌, is_empty,
}
use kubewhy.Base.Int.{ℤ, pos, ℤ_eq, exceeds, less_int, int_text}
use kubewhy.Base.Text.{◌<>◌}
use kubewhy.Diagnosis.{Severity, critical, warning, info, Diagnosis}
use kubewhy.Snapshot.Deployment.{Deployment, deployment_ref, wanted_replicas, is_paused}
use kubewhy.Rules.Pod.{aggregated, in_contexts}
use kubewhy.Rules.Pod.Ids.{certainly, fact, suggest}
use kubewhy.Rules.Pod.Scheduling.{QuantityOps}
use Ids.{id_unavailable_replicas, id_scaled_to_zero, id_paused}
use Conditions.{evaluate_conditions}

unfoldable pub scaled_to_zero_diagnosis : Deployment → Diagnosis
unfolding deployment_ref
scaled_to_zero_diagnosis snap =
    record (certainly id_scaled_to_zero (deployment_ref snap) "" info
      "The Deployment is scaled to zero, so it runs no Pods") {
        explanation =
            "This is what the Deployment asks for. Nothing is wrong with it; it simply "
            <> "has no work to do until it is scaled up.";
        evidence = fact "deployment" "spec.replicas" "0" ∷ [];
      }

unfoldable pub paused_diagnosis : Deployment → Diagnosis
unfolding deployment_ref
paused_diagnosis snap =
    record (certainly id_paused (deployment_ref snap) "" warning "The rollout is paused") {
      explanation =
          "A paused Deployment does not roll out changes to its Pods. Its status will "
          <> "not converge on the spec until it is resumed, so any difference between the two is "
          <> "expected rather than a fault.";
      evidence = fact "deployment" "spec.paused" "true" ∷ [];
      suggestions =
          suggest "Resume the rollout when the pause is no longer wanted." (
            "kubectl rollout status deployment/" <> snap.deployment.name <> " -n "
              <> snap.deployment.namespace
            ∷ [])
          ∷ [];
    }

-- evaluateIntent
unfoldable pub evaluate_intent : Deployment → List Diagnosis
unfolding wanted_replicas is_paused scaled_to_zero_diagnosis paused_diagnosis
evaluate_intent snap =
    (if wanted_replicas snap == pos 0 then scaled_to_zero_diagnosis snap ∷ [] else [])
    ++ (if is_paused snap then paused_diagnosis snap ∷ [] else [])

-- critical, and warning while some capacity is still serving
abbrev pub capacity_severity : ℤ → Severity
capacity_severity available = if exceeds available 0 then warning else critical

unfoldable pub unavailable_diagnosis : Deployment → Diagnosis
unfolding deployment_ref wanted_replicas
unavailable_diagnosis snap =
    let desired = wanted_replicas snap in
    let available = snap.deployment.available_replicas in
    record (certainly id_unavailable_replicas (deployment_ref snap) "" (capacity_severity available)
      (int_text available <> " of " <> int_text desired <> " Pods are available")) {
        explanation =
            if is_empty snap.pods
            then "The Deployment asks for Pods and none exist. Nothing was created, so the "
              <> "reason lies with the ReplicaSet rather than with any Pod."
            else "A Pod counts as available once it has been ready for the Deployment's "
              <> "minReadySeconds. The reason these are not is in the Pods themselves.";
        evidence =
            fact "deployment" "spec.replicas" (int_text desired)
            ∷ fact "deployment" "status.availableReplicas" (int_text available)
            ∷ fact "deployment" "status.readyReplicas" (int_text snap.deployment.ready_replicas)
            ∷ fact "deployment" "status.updatedReplicas" (int_text snap.deployment.updated_replicas)
            ∷ [];
        possible_causes =
            if is_empty snap.pods
            then "the ReplicaSet cannot create Pods, for example because of a quota or an admission policy"
              ∷ "the Pods were created and deleted again before they could run" ∷ []
            else [];
      }

-- evaluateAvailability
unfoldable pub evaluate_availability : Deployment → List Diagnosis
unfolding wanted_replicas is_paused unavailable_diagnosis
evaluate_availability snap =
    if wanted_replicas snap == pos 0 || is_paused snap
    then []
    else if not (less_int snap.deployment.available_replicas (wanted_replicas snap))
    then []
    else unavailable_diagnosis snap ∷ []

-- Rules
abbrev pub deployment_rules : List (Deployment → List Diagnosis)
deployment_rules = evaluate_intent ∷ evaluate_conditions ∷ evaluate_availability ∷ []

-- PodFindings, with what the context answers before each Pod rule on each Pod.
unfoldable pub deployment_pod_findings :
    QuantityOps → List (List Bool) → Deployment → List Diagnosis
unfolding aggregated in_contexts
deployment_pod_findings ops expired snap = aggregated ops (in_contexts expired snap.pods)
