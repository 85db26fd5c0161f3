-- ===== src/Rules/Pod/Mounts.antt =====
-- evaluateMounts of internal/diagnosis/rules/pod/mount.go.
use kubewhy.Base.{
  ◌==◌, Bool, not, ◌||◌, String, String_eq, List, [], ◌∷◌, Option, none, some, is_some,
  if◌then◌else◌, any, is_empty,
}
use kubewhy.Base.Text.{◌<>◌, quote, to_lower, contains}
use kubewhy.Base.Text.Search.{quoted_names, after_ignoring_case}
use kubewhy.Diagnosis.{critical, Diagnosis}
use kubewhy.Snapshot.{Event, is_missing}
use kubewhy.Snapshot.Events.{latest}
use kubewhy.Snapshot.Pod.{Pod, containers, pod_ref, waiting, is_terminal}
use kubewhy.Rules.Pod.Ids.{
  id_failed_mount, id_missing_config_map, id_missing_secret, id_pvc_not_found, certainly, suggest,
  fact,
}
use kubewhy.Rules.Pod.Helpers.{event_evidence}
use kubewhy.Rules.Pod.ConfigRefs.{missing_names}

-- anyContainerWaiting
unfoldable pub any_container_waiting : Pod → Bool
unfolding any
any_container_waiting snap = any (λ c. is_some (waiting c)) (containers snap)

abbrev first_or_none : List String → String
first_or_none [] = ""
first_or_none (name ∷ names) = name

-- quotedAfter
unfoldable pub quoted_after : String → String → String
quoted_after message keyword = elim (after_ignoring_case message keyword) [
  | none ↦ ""
  | some rest ↦ first_or_none (quoted_names rest)
]

-- The switch that links the failure to an object that is known to be missing.
unfoldable pub mount_cause : Pod → String
unfolding missing_names any
mount_cause snap =
    if not (is_empty (missing_names snap.config_maps))
    then id_missing_config_map
    else if not (is_empty (missing_names snap.secrets))
    then id_missing_secret
    else if any (λ e. is_missing e.1.exists) snap.pvcs
    then id_pvc_not_found
    else ""

mount_causes : Pod → String → List String
mount_causes snap lower =
    if contains lower "timed out waiting for the condition" || contains lower "timeout expired"
    then "the volume is still attached to another node and has not been released"
      ∷ "the storage backend did not answer the attach or mount request in time" ∷ []
    else if contains lower "not found"
    then "an object the volume references does not exist in namespace " <> quote snap.pod.namespace
      ∷ []
    else []

unfoldable pub mount_diagnosis : Pod → Event → Diagnosis
unfolding mount_cause mount_causes quoted_after
mount_diagnosis snap ev =
    let volume = quoted_after ev.message "volume" in
    record (certainly id_failed_mount (pod_ref snap) "" critical
      "The kubelet could not mount a volume the Pod needs") {
        explanation =
            "A container cannot start until every volume it mounts is available. The message "
            <> "below is what the kubelet reported.";
        evidence =
            event_evidence ev ∷ (if volume == "" then [] else fact "event" "volume" volume ∷ []);
        suggestions =
            suggest
              "Check that every object the Pod's volumes reference exists and is usable from this node."
              []
            ∷ [];
        caused_by = mount_cause snap;
        possible_causes = mount_causes snap (to_lower ev.message);
      }

abbrev pub mount_found : Pod → Option Event → List Diagnosis
mount_found snap none = []
mount_found snap (some ev) = if any_container_waiting snap then mount_diagnosis snap ev ∷ [] else []

unfoldable pub evaluate_mounts : Pod → List Diagnosis
unfolding mount_diagnosis any_container_waiting is_terminal
evaluate_mounts snap =
    if is_terminal snap
    then []
    else mount_found snap (latest ("FailedMount" ∷ "FailedAttachVolume" ∷ []) snap.events)
