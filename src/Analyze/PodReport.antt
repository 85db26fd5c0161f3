-- ===== src/Analyze/PodReport.antt =====
-- internal/analyze/pod.go: the report on a Pod.
use kubewhy.Base.{
  ℕ, suc, ltb, ◌==◌, Bool, true, false, not, ◌&&◌, String, String_eq, List, [], ◌∷◌, ◌++◌, Option,
  none, some, if◌then◌else◌, map, any, length,
}
use kubewhy.Base.Int.{ℤ, pos, exceeds, int_text, add_int32}
use kubewhy.Base.Text.{◌<>◌, itoa, join}
use kubewhy.Base.Time.{Time, sub, is_zero, after}
use kubewhy.Diagnosis.{ref_text}
use kubewhy.Diagnosis.Report.{
  Status, unhealthy, healthy, Item, Section, Report, add_section, with_status,
}
use kubewhy.Format.{duration, count_text}
use kubewhy.Snapshot.Api.{Condition, Terminated}
use kubewhy.Snapshot.Pod.{
  Pod, Container, container_kind, containers, pod_ref, restarts, last_terminated, is_ready, pod_age,
  owner_chain,
}
use kubewhy.Rules.Pod.{explain_pod}
use kubewhy.Rules.Pod.Scheduling.{QuantityOps}
use kubewhy.Rules.Pod.Unexplained.{container_state}
use kubewhy.Analyze.{headline, item}

abbrev is_unhealthy : Status → Bool
is_unhealthy unhealthy = true
is_unhealthy _ = false

-- podHeadline
unfoldable pub pod_headline : Pod → Status → String
unfolding headline
pod_headline snap status =
    if snap.pod.phase == "Succeeded" && not (is_unhealthy status)
    then ref_text (pod_ref snap) <> " completed successfully"
    else headline (pod_ref snap) status

abbrev pub counts_as_ready : Container → Bool
counts_as_ready c = not (c.init && not c.sidecar)

-- readyContainers
unfoldable pub ready_containers : List Container → ℕ × ℕ
ready_containers [] = (0, 0)
ready_containers (c ∷ cs) =
    let (ready, total) = ready_containers cs in
    if counts_as_ready c
    then (if is_ready c then suc ready else ready, suc total)
    else (ready, total)

-- totalRestarts, from the left
unfoldable pub total_restarts : ℤ → List Container → ℤ
total_restarts sum [] = sum
total_restarts sum (c ∷ cs) = total_restarts (add_int32 sum (restarts c)) cs

abbrev later_end : Time → Option Terminated → Time
later_end latest none = latest
later_end latest (some t) = if after t.finished_at latest then t.finished_at else latest

latest_end : Time → List Container → Time
latest_end latest [] = latest
latest_end latest (c ∷ cs) = latest_end (later_end latest (last_terminated c)) cs

-- restartsItem
restarts_item : Pod → Item
unfolding latest_end total_restarts
restarts_item snap =
    let latest = latest_end 0 (containers snap) in
    item "Restarts" (int_text (total_restarts (pos 0) (containers snap)))
      (if is_zero latest then "" else "last one " <> duration (sub snap.now latest) <> " ago")

abbrev deletion_item : Pod → Option Time → List Item
deletion_item snap none = []
deletion_item snap (some t) =
    item "Terminating" ("since " <> duration (sub snap.now t) <> " ago") "" ∷ []

-- addPodStatusSection
unfoldable pub status_section : Pod → Section
unfolding ready_containers restarts_item
status_section snap =
    let (ready, total) = ready_containers (containers snap) in
    record {
      title = "Status";
      items =
          item "Phase" snap.pod.phase ""
            ∷ item "Ready" (itoa ready <> "/" <> itoa total <> " containers") ""
            ∷ restarts_item snap
            ∷ item "Age" (duration (pod_age snap)) ""
            ∷ (if snap.pod.node_name == "" then [] else item "Node" snap.pod.node_name "" ∷ [])
          ++ deletion_item snap snap.pod.deletion_timestamp;
      tree = [];
    }

container_item : Container → Item
container_item c = item c.name (container_state c) (
    join ", " (
      (if c.init then container_kind c ∷ [] else [])
      ++ (if exceeds (restarts c) 0
          then count_text (restarts c) "restart" "restarts" ∷ []
          else [])))

-- addPodContainersSection
unfoldable pub containers_section : Pod → Section
unfolding container_item
containers_section snap = record {
  title = "Containers";
  items = map container_item (containers snap);
  tree = [];
}

abbrev condition_item : Condition → Item
condition_item c = item c.kind c.status c.reason

-- addPodConditionsSection
unfoldable pub add_conditions_section : Report → Pod → Report
unfolding add_section any
add_conditions_section report snap =
    if any (λ c. not (c.status == "True")) snap.pod.conditions
    then add_section report
        (record { title = "Conditions"; items = map condition_item snap.pod.conditions; tree = [] })
    else report

-- addOwnerSection
unfoldable pub add_owner_section : Report → List String → Report
unfolding add_section
add_owner_section report chain =
    if ltb (length chain) 2
    then report
    else add_section report (record { title = "Owned by"; items = []; tree = chain })

-- The report before its sections are added.
unfoldable pub concluded : QuantityOps → List Bool → Pod → Report
unfolding with_status pod_headline
concluded ops expired snap =
    let found = with_status (record {
      resource = pod_ref snap;
      status = healthy;
      headline = "";
      diagnoses = explain_pod ops expired snap;
      overview = [];
      degradations = snap.collection.degradations;
      inspected = snap.collection.inspected;
    }) in
    record found { headline = pod_headline snap found.status }

-- PodReport
unfoldable pub pod_report : QuantityOps → List Bool → Pod → Report
unfolding concluded status_section containers_section add_section
pod_report ops expired snap =
    let with_containers =
      add_section (add_section (concluded ops expired snap) (status_section snap))
        (containers_section snap) in
    add_owner_section (add_conditions_section with_containers snap) (owner_chain snap)
