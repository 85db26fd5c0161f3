-- ===== src/Rules/Pod/Oom.antt =====
-- evaluateOOM of internal/diagnosis/rules/pod/oom.go.
use kubewhy.Base.{
  ◌==◌, Bool, true, not, ◌&&◌, String, String_eq, List, [], ◌∷◌, ◌++◌, Option, none, some,
  if◌then◌else◌, gather,
}
use kubewhy.Base.Text.{◌<>◌, quote}
use kubewhy.Base.Time.{Time}
use kubewhy.Diagnosis.{Diagnosis}
use kubewhy.Snapshot.Api.{Terminated}
use kubewhy.Snapshot.Pod.{Pod, Container, container_kind, containers, pod_ref}
use kubewhy.Rules.Pod.Ids.{id_oom_killed, certainly, suggest}
use kubewhy.Rules.Pod.Helpers.{
  container_evidence, termination_evidence, memory_evidence, has_memory_limit, logs_command,
  container_running, is_flapping, severity_for, capitalize, oom_termination,
}

-- The container runs again and is not cycling through the failure.
unfoldable pub oom_recovered : Container → String → Time → Bool
unfolding is_flapping container_running
oom_recovered c field now =
    container_running c && field == "lastState.terminated" && not (is_flapping c now)

unfoldable pub oom_diagnosis : Pod → Container → Terminated → String → Diagnosis
unfolding oom_recovered
oom_diagnosis snap c term field =
    let d =
      certainly id_oom_killed (pod_ref snap) c.name (severity_for (oom_recovered c field snap.now))
        (capitalize (container_kind c)
          <> " "
          <> quote c.name
          <> " was terminated for exceeding its memory limit") in
    let evidence =
      container_evidence c ++ termination_evidence field (some term) ++ memory_evidence c in
    if has_memory_limit c
    then record d {
      explanation =
          "Kubernetes reports that "
          <> quote c.name
          <> " was killed with reason OOMKilled. The kernel terminates a "
          <> "container when the memory it uses reaches the limit configured for it.";
      possible_causes =
          "the application uses more memory than it was allocated"
          ∷ "the workload's memory requirements grew beyond the configured limit"
          ∷ "the configured memory limit is too low for this workload" ∷ [];
      suggestions =
          suggest
            "Review the container's memory limit and the application's memory usage to decide which of the two should change."
            (logs_command snap c.name true ∷ [])
          ∷ [];
      evidence = evidence;
    }
    else record d {
      explanation =
          "Kubernetes reports that "
          <> quote c.name
          <> " was killed with reason OOMKilled. The container declares no "
          <> "memory limit, so the termination came from memory pressure on the node itself.";
      possible_causes =
          "the node ran out of memory while this container was running"
          ∷ "other workloads on the node consumed the available memory" ∷ [];
      suggestions =
          suggest
            "Set memory requests and limits on this container so the scheduler can place it on a node that can hold it."
            (logs_command snap c.name true ∷ [])
          ∷ [];
      evidence = evidence;
    }

abbrev pub oom_found : Pod → Container → Option Terminated × String → List Diagnosis
oom_found snap c (none, field) = []
oom_found snap c (some term, field) = oom_diagnosis snap c term field ∷ []

unfoldable pub oom_of : Pod → Container → List Diagnosis
unfolding oom_termination oom_diagnosis
oom_of snap c = oom_found snap c (oom_termination c)

unfoldable pub evaluate_oom : Pod → List Diagnosis
unfolding gather oom_of containers
evaluate_oom snap = gather (oom_of snap) (containers snap)
