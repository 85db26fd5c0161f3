-- ===== src/Rules/Pod/Unexplained.antt =====
-- internal/diagnosis/rules/pod/fallback.go: what is said of a Pod that no rule explains.
use kubewhy.Base.{
  ◌==◌, Bool, true, false, ◌&&◌, ◌||◌, String, String_eq, List, [], ◌∷◌, ◌++◌, Option, none, some,
  is_some, if◌then◌else◌, gather, map,
}
use kubewhy.Base.Int.{int_text}
use kubewhy.Base.Text.{◌<>◌, trim_space}
use kubewhy.Base.Time.{Time, sub}
use kubewhy.Diagnosis.{warning, Diagnosis, Evidence}
use kubewhy.Format.{duration}
use kubewhy.Snapshot.Api.{ContainerStatus, Waiting, Terminated, Condition}
use kubewhy.Snapshot.Events.{warnings}
use kubewhy.Snapshot.Pod.{Pod, Container, containers, pod_ref, condition, is_terminal, pod_age}
use kubewhy.Rules.Pod.Ids.{id_not_ready_unexplained, certainly, suggest, fact, quoted_fact}
use kubewhy.Rules.Pod.Helpers.{truncate, logs_command, event_evidence}

abbrev pub is_true : Option Condition → Bool
is_true none = false
is_true (some c) = c.status == "True"

-- podIsReady
unfoldable pub pod_is_ready : Pod → Bool
unfolding condition
pod_is_ready snap = snap.pod.phase == "Running" && is_true (condition snap.pod.conditions "Ready")

-- orUnset
or_unset : String → String
or_unset s = if trim_space s == "" then "no reason reported" else s

state_text : Option Waiting → Option Terminated → Option Time → Bool → String
state_text (some w) _ _ _ = "Waiting (" <> or_unset w.reason <> ")"
state_text none (some t) _ _ =
    "Terminated (" <> or_unset t.reason <> ", exit " <> int_text t.exit_code <> ")"
state_text none none (some started) ready = if ready then "" else "Running, not ready"
state_text none none none _ = "not started"

abbrev status_text : Option ContainerStatus → String
status_text none = "no status reported"
status_text (some s) = state_text s.waiting s.terminated s.running s.ready

-- containerStateText
unfoldable pub container_state_text : Container → String
unfolding state_text or_unset
container_state_text c = status_text c.status

-- ContainerState
unfoldable pub container_state : Container → String
unfolding container_state_text
container_state c = let state = container_state_text c in if state == "" then "Ready" else state

state_evidence : Container → List Evidence
unfolding container_state_text
state_evidence c =
    let state = container_state_text c in
    if state == "" then [] else fact "containerStatus" c.name state ∷ []

condition_evidence : Condition → List Evidence
unfolding or_unset
condition_evidence c =
    if c.status == "True"
    then []
    else quoted_fact "condition" c.kind (c.status <> " (" <> or_unset c.reason <> ")")
        (truncate c.message 200)
      ∷ []

-- The summary: the last of the three assignments that is made counts.
abbrev unexplained_summary : Pod → Option Time → String
unexplained_summary snap (some deleted) =
    "The Pod has been terminating for " <> duration (sub snap.now deleted)
unexplained_summary snap none =
    if snap.pod.phase == "Pending"
    then "The Pod has been Pending for "
      <> duration (pod_age snap)
      <> ", and Kubernetes does not report a specific cause"
    else "The Pod is not ready, and Kubernetes does not report a specific cause"

unexplained_text : Bool → String
unexplained_text true =
    "The Pod is being deleted. A Pod that stays in this state is usually waiting for a "
    <> "container to stop or for a volume to be released."
unexplained_text false =
    "KubeWhy found no evidence in the Pod's status, conditions or events that identifies "
    <> "a cause. This is what Kubernetes currently reports; the application's own logs are the next "
    <> "place to look."

unfoldable pub fallback_diagnosis : Pod → Diagnosis
unfolding unexplained_text state_evidence condition_evidence gather
fallback_diagnosis snap =
    record (certainly id_not_ready_unexplained (pod_ref snap) "" warning
      (unexplained_summary snap snap.pod.deletion_timestamp)) {
        explanation = unexplained_text (is_some snap.pod.deletion_timestamp);
        evidence =
            fact "podStatus" "phase" snap.pod.phase ∷ gather state_evidence (containers snap)
            ++ gather condition_evidence snap.pod.conditions
            ++ map event_evidence (warnings snap.events);
        suggestions =
            suggest
              "Look at the containers' logs and at the full object; KubeWhy shows only what it can interpret."
              (logs_command snap "" false
                ∷ "kubectl describe pod " <> snap.pod.name <> " -n " <> snap.pod.namespace
                ∷ [])
            ∷ [];
      }

-- Fallback
unfoldable pub fallback : Pod → List Diagnosis
unfolding is_terminal pod_is_ready fallback_diagnosis
fallback snap = if is_terminal snap || pod_is_ready snap then [] else fallback_diagnosis snap ∷ []
