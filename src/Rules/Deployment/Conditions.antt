-- ===== src/Rules/Deployment/Conditions.antt =====
-- conditionRule of internal/diagnosis/rules/deployment/deployment.go.
use kubewhy.Base.{◌==◌, ◌&&◌, String_eq, List, [], ◌∷◌, ◌++◌, Option, none, some, if◌then◌else◌}
use kubewhy.Base.Int.{ℤ, pos, in_seconds, int_text}
use kubewhy.Base.Text.{◌<>◌}
use kubewhy.Diagnosis.{critical, info, Diagnosis}
use kubewhy.Format.{duration}
use kubewhy.Snapshot.Api.{Condition}
use kubewhy.Snapshot.Deployment.{Deployment, deployment_ref, deployment_condition}
use kubewhy.Rules.Pod.Helpers.{truncate}
use kubewhy.Rules.Pod.Ids.{certainly, quoted_fact, fact, suggest}
use kubewhy.Rules.Deployment.Ids.{
  id_progress_deadline_exceeded, id_replica_failure, id_rollout_in_progress,
}

unfoldable pub replica_failure_diagnosis : Deployment → Condition → Diagnosis
unfolding deployment_ref truncate
replica_failure_diagnosis snap cond =
    record (certainly id_replica_failure (deployment_ref snap) "" critical
      "The Deployment's ReplicaSet could not create Pods") {
        explanation =
            "Kubernetes reports a replica failure, which means the Pods were rejected "
            <> "before they ever ran. The message below is the reason the API server or an admission "
            <> "controller gave.";
        evidence =
            quoted_fact "condition" "ReplicaFailure.reason" cond.reason (truncate cond.message 300)
            ∷ [];
        possible_causes =
            "a resource quota in the namespace rejects the Pods"
            ∷ "an admission controller or policy rejects the Pod template"
            ∷ "the ServiceAccount the Pods use does not exist" ∷ [];
      }

abbrev deadline_or_default : Option ℤ → ℤ
deadline_or_default none = pos 600
deadline_or_default (some n) = n

unfoldable pub deadline_diagnosis : Deployment → Condition → Diagnosis
unfolding deployment_ref truncate duration
deadline_diagnosis snap progressing =
    let deadline = deadline_or_default snap.deployment.progress_deadline_seconds in
    record (certainly id_progress_deadline_exceeded (deployment_ref snap) "" critical
      "The rollout did not complete within its progress deadline") {
        explanation =
            "Kubernetes gives a rollout "
            <> duration (in_seconds deadline)
            <> " to make progress before it gives up waiting. This one "
            <> "did not, so the Deployment is stuck part-way between revisions.";
        evidence =
            quoted_fact "condition" "Progressing.reason" progressing.reason
              (truncate progressing.message 300)
            ∷ fact "deployment" "spec.progressDeadlineSeconds" (int_text deadline)
            ∷ [];
        suggestions =
            suggest
              "The reason the new Pods never became available is below; the rollout itself is only the symptom."
              ("kubectl rollout status deployment/" <> snap.deployment.name <> " -n "
                  <> snap.deployment.namespace
                ∷ [])
            ∷ [];
      }

unfoldable pub rollout_diagnosis : Deployment → Condition → Diagnosis
unfolding deployment_ref truncate
rollout_diagnosis snap progressing =
    record (certainly id_rollout_in_progress (deployment_ref snap) "" info
      "A rollout is in progress") {
        explanation =
            "The Deployment is replacing its Pods. Replica counts that do not match the "
            <> "spec are expected while this is happening.";
        evidence =
            quoted_fact "condition" "Progressing.reason" progressing.reason
              (truncate progressing.message 200)
            ∷ [];
      }

abbrev pub failure_found : Deployment → Option Condition → List Diagnosis
failure_found snap none = []
failure_found snap (some cond) =
    if cond.status == "True" then replica_failure_diagnosis snap cond ∷ [] else []

abbrev pub progress_found : Deployment → Option Condition → List Diagnosis
progress_found snap none = []
progress_found snap (some cond) =
    if cond.status == "False" && cond.reason == "ProgressDeadlineExceeded"
    then deadline_diagnosis snap cond ∷ []
    else if cond.status == "True" && cond.reason == "ReplicaSetUpdated"
    then rollout_diagnosis snap cond ∷ []
    else []

-- evaluateConditions
unfoldable pub evaluate_conditions : Deployment → List Diagnosis
unfolding deployment_condition replica_failure_diagnosis deadline_diagnosis rollout_diagnosis
evaluate_conditions snap =
    failure_found snap (deployment_condition snap "ReplicaFailure")
    ++ progress_found snap (deployment_condition snap "Progressing")
