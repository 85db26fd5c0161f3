-- ===== src/Analyze/DeploymentReport.antt =====
-- internal/analyze/deployment.go: the report on a Deployment.
use kubewhy.Base.{
  ◌==◌, Bool, not, ◌||◌, ◌&&◌, String, String_eq, List, [], ◌∷◌, ◌++◌, Option, none, some,
  if◌then◌else◌, is_empty, map, any, select,
}
use kubewhy.Base.Int.{pos, ℤ_eq, int_text}
use kubewhy.Base.Text.{◌<>◌}
use kubewhy.Diagnosis.{Diagnosis}
use kubewhy.Diagnosis.Engine.{evaluate}
use kubewhy.Diagnosis.Report.{Item, Section, Report}
use kubewhy.Format.{duration}
use kubewhy.Snapshot.Api.{ReplicaSetObject}
use kubewhy.Snapshot.Deployment.{
  Deployment, deployment_ref, wanted_replicas, is_paused, deployment_age, revision, is_current,
}
use kubewhy.Rules.Pod.Scheduling.{QuantityOps}
use kubewhy.Rules.Deployment.{deployment_rules, deployment_pod_findings}
use kubewhy.Rules.Deployment.Ids.{id_unavailable_replicas, id_progress_deadline_exceeded}
use kubewhy.Analyze.{item}
use kubewhy.Analyze.Backends.{pods_section, trim_join}
use kubewhy.Analyze.Workload.{workload_report}

-- addRolloutSection
unfoldable pub rollout_section : Deployment → List Section
unfolding wanted_replicas deployment_age duration is_paused
rollout_section snap =
    record {
      title = "Replicas";
      items =
          item "Desired" (int_text (wanted_replicas snap)) ""
          ∷ item "Updated" (int_text snap.deployment.updated_replicas) ""
          ∷ item "Ready" (int_text snap.deployment.ready_replicas) ""
          ∷ item "Available" (int_text snap.deployment.available_replicas) ""
          ∷ item "Age" (duration (deployment_age snap)) ""
          ∷ (if is_paused snap then item "Rollout" "paused" "on purpose" ∷ [] else []);
      tree = [];
    }
    ∷ []

abbrev text_item : String → Option String → List Item
text_item key none = []
text_item key (some value) = item key value "" ∷ []

-- addStrategySection
unfoldable pub strategy_section : Deployment → List Section
strategy_section snap =
    if snap.deployment.strategy_type == ""
    then []
    else record {
      title = "Strategy";
      items =
          item "Type" snap.deployment.strategy_type ""
          ∷ (text_item "Max surge" snap.deployment.max_surge
              ++ text_item "Max unavailable" snap.deployment.max_unavailable);
      tree = [];
    }
      ∷ []

-- addDeploymentConditionsSection
unfoldable pub deployment_conditions_section : Deployment → List Section
unfolding any
deployment_conditions_section snap =
    if any (λ c. not (c.status == "True") || c.kind == "ReplicaFailure") snap.deployment.conditions
    then record {
      title = "Conditions";
      items = map (λ c. item c.kind c.status c.reason) snap.deployment.conditions;
      tree = [];
    }
      ∷ []
    else []

abbrev revision_note : Option String → String
revision_note none = ""
revision_note (some r) = "revision " <> r

replica_set_item : Deployment → ReplicaSetObject → Item
unfolding revision is_current trim_join
replica_set_item snap rs =
    let note = revision_note (revision rs) in
    item rs.name (int_text rs.ready_replicas <> "/" <> int_text rs.replicas <> " ready")
      (if is_current snap rs then trim_join note "current" else note)

-- addReplicaSetSection: an old one that is scaled down is skipped, and a section with nothing in it is
-- not added.
unfoldable pub replica_set_section : Deployment → List Section
unfolding select is_current replica_set_item
replica_set_section snap =
    if is_empty snap.replica_sets
    then []
    else record {
      title = "ReplicaSets";
      items =
          map (replica_set_item snap) (
            select (λ rs. not (rs.replicas == pos 0 && not (is_current snap rs)))
              snap.replica_sets);
      tree = [];
    }
      ∷ []

-- The findings that the Pods explain.
abbrev pub deployment_symptom : Diagnosis → Bool
deployment_symptom d = d.id == id_unavailable_replicas || d.id == id_progress_deadline_exceeded

abbrev pub deployment_sections : Deployment → List Section
deployment_sections snap =
    rollout_section snap
    ++ strategy_section snap
    ++ deployment_conditions_section snap
    ++ replica_set_section snap
    ++ pods_section "Pods" snap.pods

-- DeploymentReport
unfoldable pub deployment_report : QuantityOps → List Bool → List (List Bool) → Deployment → Report
unfolding deployment_ref evaluate deployment_pod_findings workload_report rollout_section
    strategy_section deployment_conditions_section replica_set_section pods_section
deployment_report ops expired expired_pods snap =
    workload_report (deployment_ref snap) snap.collection deployment_symptom
      (evaluate expired deployment_rules snap) (deployment_pod_findings ops expired_pods snap)
      (deployment_sections snap)
