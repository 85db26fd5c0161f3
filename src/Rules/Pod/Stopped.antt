-- ===== src/Rules/Pod/Stopped.antt =====
-- evaluateTerminated of internal/diagnosis/rules/pod/terminated.go: containers that ended with an
-- error, and evicted Pods.
use kubewhy.Base.{
  ◌==◌, Bool, true, false, not, ◌&&◌, ◌||◌, String, String_eq, List, [], ◌∷◌, ◌++◌, Option, none,
  some, if◌then◌else◌, gather,
}
use kubewhy.Base.Int.{pos, ℤ_eq, int_text}
use kubewhy.Base.Text.{◌<>◌, quote}
use kubewhy.Diagnosis.{Severity, critical, warning, Diagnosis}
use kubewhy.Snapshot.Api.{Terminated}
use kubewhy.Snapshot.Pod.{Pod, Container, container_kind, containers, pod_ref, terminated}
use kubewhy.Rules.Pod.Ids.{
  id_container_terminated_error, id_init_container_failed, id_evicted, certainly, suggest, fact,
  quoted_fact,
}
use kubewhy.Rules.Pod.Helpers.{
  termination_evidence, truncate, logs_command, is_flapping, capitalize, oom_reason, in_backoff,
}
use kubewhy.Rules.Pod.CrashLoop.{is_plain_init, interpret_exit}

-- nodeNameOf
node_name_of : Pod → String
node_name_of snap = if snap.pod.node_name == "" then "<node>" else snap.pod.node_name

-- evictionDiagnosis
unfoldable pub eviction_of : Pod → List Diagnosis
unfolding node_name_of
eviction_of snap =
    if not (snap.pod.reason == "Evicted")
    then []
    else record (certainly id_evicted (pod_ref snap) "" critical
        "The Pod was evicted from its node") {
          explanation =
              "The kubelet evicted this Pod. Eviction happens when a node comes under resource "
              <> "pressure or when the Pod exceeded a limit the node enforces, and the message below is the "
              <> "reason the node reported.";
          evidence =
              fact "podStatus" "status.reason" "Evicted"
              ∷ (if snap.pod.message == ""
                  then []
                  else quoted_fact "podStatus" "status.message" "" (truncate snap.pod.message 300)
                    ∷ []);
          suggestions =
              suggest
                "Check the node's conditions and the Pod's resource requests; an evicted Pod object stays for inspection and its replacement, if any, is a different Pod."
                ("kubectl describe node " <> node_name_of snap ∷ [])
              ∷ [];
        }
      ∷ []

-- The container is down and the kubelet will start it again.
unfoldable pub awaiting_restart : Pod → Bool
awaiting_restart snap = not (snap.pod.phase == "Failed") && not (snap.pod.restart_policy == "Never")

stopped_summary : Bool → Container → Terminated → String
stopped_summary awaiting c term =
    capitalize (container_kind c)
    <> " "
    <> quote c.name
    <> " exited with code "
    <> int_text term.exit_code
    <> (if awaiting then " and is waiting to be restarted" else "")

stopped_explanation : Bool → Container → String → String
stopped_explanation awaiting c policy =
    if awaiting
    then "The container is down at this moment and the Pod's restart policy is " <> policy
      <> ", so the kubelet "
      <> "will start it again. One failure is not yet a pattern; if it keeps happening, "
      <> "Kubernetes will report it as a restart loop."
    else "Kubernetes reports that "
      <> quote c.name
      <> " terminated with a non-zero exit code and the Pod's restart "
      <> "policy is "
      <> policy
      <> ", so it will not run again."

abbrev pub stopped_severity : Bool → Severity
stopped_severity true = warning
stopped_severity false = critical

unfoldable pub stopped_diagnosis : Pod → Container → Terminated → Diagnosis
unfolding awaiting_restart stopped_summary stopped_explanation
stopped_diagnosis snap c term =
    let awaiting = awaiting_restart snap in
    record (certainly
      (if is_plain_init c then id_init_container_failed else id_container_terminated_error)
      (pod_ref snap) c.name (stopped_severity awaiting) (stopped_summary awaiting c term)) {
        explanation = stopped_explanation awaiting c snap.pod.restart_policy;
        evidence =
            termination_evidence "state.terminated" (some term)
            ++ fact "podSpec" "restartPolicy" snap.pod.restart_policy ∷ [];
        suggestions =
            suggest
              "Read the container's logs: the exit code alone does not say what the process was doing when it stopped."
              (logs_command snap c.name false ∷ [])
            ∷ [];
        possible_causes = (interpret_exit (some term)).causes;
      }

-- An error that is no OOM kill, and no loop that another rule owns.
unfoldable pub is_stopped : Pod → Container → Terminated → Bool
unfolding awaiting_restart is_flapping in_backoff
is_stopped snap c term =
    not (term.exit_code == pos 0)
    && not (term.reason == oom_reason)
    && not (awaiting_restart snap && (is_flapping c snap.now || in_backoff c))

abbrev pub stopped_found : Pod → Container → Option Terminated → List Diagnosis
stopped_found snap c none = []
stopped_found snap c (some term) =
    if is_stopped snap c term then stopped_diagnosis snap c term ∷ [] else []

unfoldable pub stopped_of : Pod → Container → List Diagnosis
unfolding is_stopped stopped_diagnosis
stopped_of snap c = stopped_found snap c (terminated c)

unfoldable pub evaluate_terminated : Pod → List Diagnosis
unfolding eviction_of stopped_of gather
evaluate_terminated snap =
    if snap.pod.phase == "Succeeded"
    then eviction_of snap
    else eviction_of snap ++ gather (stopped_of snap) (containers snap)
