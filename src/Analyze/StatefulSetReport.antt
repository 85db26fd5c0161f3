-- ===== src/Analyze/StatefulSetReport.antt =====
-- internal/analyze/statefulset.go: the report on a StatefulSet.
use kubewhy.Base.{
  ℕ, zero, suc, ◌==◌, Bool, ◌||◌, String, String_eq, List, [], ◌∷◌, ◌++◌, Option, none, some,
  if◌then◌else◌, is_empty, map, gather,
}
use kubewhy.Base.Int.{pos, ℤ_eq, exceeds, int_text}
use kubewhy.Base.Text.{◌<>◌, join}
use kubewhy.Diagnosis.{Diagnosis}
use kubewhy.Diagnosis.Engine.{evaluate}
use kubewhy.Diagnosis.Report.{Item, Section, Report}
use kubewhy.Format.{duration}
use kubewhy.Snapshot.{Existence, unknown, found, missing, is_missing}
use kubewhy.Snapshot.Api.{entry}
use kubewhy.Snapshot.Pod.{Pod, PvcRef}
use kubewhy.Snapshot.StatefulSet.{
  StatefulSet, set_ref, desired_replicas, set_age, is_ordered_start, updates_on_delete, partition,
  ordinal, has_ordinal, rounds, claim_templates, claim_name,
}
use kubewhy.Rules.Pod.Scheduling.{QuantityOps}
use kubewhy.Rules.StatefulSet.{set_rules, set_pod_findings}
use kubewhy.Rules.StatefulSet.Ids.{id_unready_replicas}
use kubewhy.Rules.StatefulSet.Ordering.{replica_name}
use kubewhy.Analyze.{item}
use kubewhy.Analyze.Backends.{pod_item, backend_state, max_listed_pods}
use kubewhy.Analyze.Workload.{workload_report}

-- podManagement
unfoldable pub pod_management : StatefulSet → String
unfolding is_ordered_start
pod_management snap = if is_ordered_start snap then "one at a time, in order" else "all at once"

-- updateStrategy
unfoldable pub update_strategy : StatefulSet → String
unfolding updates_on_delete partition
update_strategy snap =
    if updates_on_delete snap
    then "only when a Pod is deleted"
    else if exceeds (partition snap) 0
    then "rolling, from replica " <> int_text (partition snap) <> " up"
    else "rolling"

abbrev headless_note : Existence → Bool → String
headless_note missing headless = "does not exist"
headless_note found headless = if headless then "headless" else "not headless"
headless_note unknown headless = ""

-- addStatefulSetSection
unfoldable pub set_sections : StatefulSet → List Section
unfolding desired_replicas set_age duration pod_management update_strategy
set_sections snap =
    record {
      title = "Replicas";
      items =
          item "Desired" (int_text (desired_replicas snap)) ""
          ∷ item "Ready" (int_text snap.set.ready_replicas) ""
          ∷ item "Updated" (int_text snap.set.updated_replicas) ""
          ∷ item "Age" (duration (set_age snap)) ""
          ∷ [];
      tree = [];
    }
    ∷ record {
      title = "Management";
      items =
          item "Pod creation" (pod_management snap) ""
          ∷ item "Updates" (update_strategy snap) ""
          ∷ (if snap.service.name == ""
              then []
              else item "Governing Service" snap.service.name
                  (headless_note snap.service.exists snap.service.headless)
                ∷ []);
      tree = [];
    }
    ∷ []

-- The numbers from i on, as many as a loop visits.
unfoldable pub ordinals : (left i : ℕ) → List ℕ
ordinals zero i = []
ordinals (suc left) i = i ∷ ordinals left (suc i)

-- existing[n]: the last Pod with that ordinal.
unfoldable pub replica_at : List Pod → ℕ → Option Pod
unfolding ordinal
replica_at [] n = none
replica_at (p ∷ pods) n =
    let rest = replica_at pods n in
    elim rest [ some q ↦ some q | none ↦ if has_ordinal n p then some p else none ]

abbrev replica_item : String → Option Pod → Item
replica_item name none = item name "does not exist" "never created"
replica_item name (some pod) = record (pod_item pod) { key = name }

-- addStatefulSetPodsSection
unfoldable pub replicas_section : StatefulSet → List Section
unfolding desired_replicas ordinals replica_name replica_at backend_state
replicas_section snap =
    let desired = desired_replicas snap in
    if desired == pos 0 || exceeds desired max_listed_pods
    then []
    else record {
      title = "Replicas by ordinal";
      items =
          map (λ n. replica_item (replica_name snap n) (replica_at snap.pods n))
            (ordinals (rounds desired) 0);
      tree = [];
    }
      ∷ []

abbrev claim_value : PvcRef → String
claim_value claim =
    if is_missing claim.exists
    then "does not exist"
    else if claim.phase == ""
    then "Unknown"
    else claim.phase

abbrev claim_item : String → Option PvcRef → List Item
claim_item name none = []
claim_item name (some claim) = item name (claim_value claim) "" ∷ []

-- The loop over the templates for one ordinal.
ordinal_claims : StatefulSet → ℕ → List Item
unfolding gather claim_templates claim_name entry
ordinal_claims snap n =
    gather
      (λ template.
        claim_item (claim_name snap template n) (entry snap.claims (claim_name snap template n)))
      (claim_templates snap)

-- addStatefulSetClaimsSection
unfoldable pub claims_section : StatefulSet → List Section
unfolding gather claim_templates ordinals desired_replicas ordinal_claims
claims_section snap =
    if is_empty snap.claims
    then []
    else record {
      title = "Volumes";
      items =
          item "Claim templates" (join ", " (claim_templates snap)) "one claim per replica"
          ∷ gather (ordinal_claims snap) (ordinals (rounds (desired_replicas snap)) 0);
      tree = [];
    }
      ∷ []

-- The finding that the Pods explain.
abbrev pub set_symptom : Diagnosis → Bool
set_symptom d = d.id == id_unready_replicas

abbrev pub set_report_sections : StatefulSet → List Section
set_report_sections snap = set_sections snap ++ replicas_section snap ++ claims_section snap

-- StatefulSetReport
unfoldable pub set_report : QuantityOps → List Bool → List (List Bool) → StatefulSet → Report
unfolding set_ref evaluate set_pod_findings workload_report set_sections replicas_section
    claims_section
set_report ops expired expired_pods snap =
    workload_report (set_ref snap) snap.collection set_symptom (evaluate expired set_rules snap)
      (set_pod_findings ops expired_pods snap) (set_report_sections snap)
