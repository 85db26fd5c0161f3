-- ===== src/Rules/Pod/Scheduling.antt =====
-- evaluateScheduling of internal/diagnosis/rules/pod/scheduling.go. The arithmetic of resource
-- quantities is that of k8s.io/apimachinery: a parameter.
pub mod Message
use kubewhy.Base.{
  ℕ, ltb, ◌==◌, Bool, true, false, not, ◌&&◌, ◌||◌, String, String_eq, List, [], ◌∷◌, ◌++◌, Option,
  none, some, is_some, if◌then◌else◌, map, is_empty,
}
use kubewhy.Base.Text.{◌<>◌, itoa, join}
use kubewhy.Diagnosis.{critical, warning, Diagnosis, Evidence}
use kubewhy.Snapshot.{Existence, is_missing}
use kubewhy.Snapshot.Api.{Quantity, entry, ContainerSpec, PodObject, Condition}
use kubewhy.Snapshot.Events.{latest}
use kubewhy.Snapshot.Pod.{Pod, PvcRef, pod_ref, condition, is_terminal, always_restarts}
use kubewhy.Rules.Pod.Ids.{
  id_unschedulable, id_scheduling_gated, id_pvc_not_found, id_pvc_not_bound, certainly, suggest,
  fact, quoted_fact,
}
use kubewhy.Rules.Pod.Helpers.{truncate}
use Message.{
  SchedulerReport, volume, reason_text, parse_scheduler_message, has_category, needs_resources,
  dominant_id, scheduling_explanation, scheduling_causes, scheduling_suggestions,
}

-- What the rule asks of resource quantities: q.Add, q.Cmp(r) > 0, q.IsZero() and the zero value.
pub record QuantityOps : Type 0 where
  pub zero_quantity : Quantity
  pub add : Quantity → Quantity → Quantity
  pub more_than : Quantity → Quantity → Bool
  pub is_zero_quantity : Quantity → Bool

-- gatedDiagnosis
unfoldable pub gated_diagnosis : Pod → Diagnosis
gated_diagnosis snap =
    record (certainly id_scheduling_gated (pod_ref snap) "" warning
      "The Pod is waiting on scheduling gates and was never considered for scheduling") {
        explanation =
            "Scheduling gates hold a Pod until something removes them. This is a deliberate "
            <> "mechanism, so the Pod is not broken; it is waiting for whatever owns these gates.";
        evidence = fact "podSpec" "schedulingGates" (join ", " snap.pod.scheduling_gates) ∷ [];
        suggestions =
            suggest
              "Find out which controller is expected to clear these gates; until it does, the scheduler will not look at the Pod."
              []
            ∷ [];
      }

abbrev condition_message : Option Condition → String
condition_message none = ""
condition_message (some c) = if c.status == "False" then c.message else ""

-- schedulerMessage
unfoldable pub scheduler_message : Pod → String × String
unfolding condition
scheduler_message snap =
    let said = condition_message (condition snap.pod.conditions "PodScheduled") in
    if not (said == "")
    then (said, "condition")
    else elim (latest ("FailedScheduling" ∷ []) snap.events) [
      | some ev ↦ (ev.message, "event")
      | none ↦ ("", "")
    ]

-- The loop over the claims: the last one that is missing or pending decides.
abbrev pub claim_cause : String → PvcRef → String
claim_cause cause claim =
    if is_missing claim.exists
    then id_pvc_not_found
    else if claim.phase == "Pending"
    then id_pvc_not_bound
    else cause

unfoldable pub claims_cause : String → List (String × PvcRef) → String
claims_cause cause [] = cause
claims_cause cause ((name, claim) ∷ claims) = claims_cause (claim_cause cause claim) claims

module _ (ops : QuantityOps) where
  open ops use {zero_quantity, add, more_than, is_zero_quantity}

  abbrev requested : String → ContainerSpec → Quantity
  requested name c = elim (entry c.requests name) [ some q ↦ q | none ↦ zero_quantity ]

  sum_regular : String → Quantity → List ContainerSpec → Quantity
  sum_regular name q [] = q
  sum_regular name q (c ∷ cs) = sum_regular name (add q (requested name c)) cs

  sum_sidecars : String → Quantity → List ContainerSpec → Quantity
  sum_sidecars name q [] = q
  sum_sidecars name q (c ∷ cs) =
      sum_sidecars name (if always_restarts c.restart_policy then add q (requested name c) else q)
        cs

  raise_to_init : String → Quantity → List ContainerSpec → Quantity
  raise_to_init name q [] = q
  raise_to_init name q (c ∷ cs) =
      raise_to_init name (if more_than (requested name c) q then requested name c else q) cs

  -- effectiveRequests, for one of its two resources
  unfoldable pub effective_request : String → PodObject → Quantity
  unfolding sum_regular sum_sidecars raise_to_init
  effective_request name pod =
      raise_to_init name
        (sum_sidecars name (sum_regular name zero_quantity pod.containers) pod.init_containers)
        pod.init_containers

  request_fact : String → Quantity → List Evidence
  request_fact field q = if is_zero_quantity q then [] else fact "podSpec" field q.text ∷ []

  -- requestEvidence
  unfoldable pub request_evidence : PodObject → List Evidence
  unfolding effective_request request_fact
  request_evidence pod =
      request_fact "requests.cpu" (effective_request "cpu" pod)
      ++ request_fact "requests.memory" (effective_request "memory" pod)

  unfoldable pub unschedulable_diagnosis : Pod → String → String → Diagnosis
  unfolding request_evidence claims_cause
  unschedulable_diagnosis snap message source =
      let report = parse_scheduler_message message in
      record (certainly
        (elim (dominant_id report.reasons) [ some id ↦ id | none ↦ id_unschedulable ])
        (pod_ref snap) "" critical "The scheduler found no node that can run this Pod") {
          evidence =
              (if ltb 0 report.evaluated
                then fact "scheduler" "nodesEvaluated" (itoa report.evaluated) ∷ []
                else [])
              ++ quoted_fact source "message" "" (truncate message 400)
                ∷ map (λ r. fact "scheduler" "reason" (reason_text r)) report.reasons
              ++ (if needs_resources report.reasons then request_evidence snap.pod else []);
          explanation = scheduling_explanation report.evaluated;
          possible_causes = scheduling_causes [] report.reasons;
          suggestions = scheduling_suggestions report.reasons;
          caused_by = if has_category report.reasons volume then claims_cause "" snap.pvcs else "";
        }

  unfoldable pub evaluate_scheduling : Pod → List Diagnosis
  unfolding gated_diagnosis scheduler_message unschedulable_diagnosis is_terminal
  evaluate_scheduling snap =
      let said = scheduler_message snap in
      if not (snap.pod.node_name == "") || is_terminal snap
      then []
      else if not (is_empty snap.pod.scheduling_gates)
      then gated_diagnosis snap ∷ []
      else if said.0 == ""
      then []
      else unschedulable_diagnosis snap said.0 said.1 ∷ []
