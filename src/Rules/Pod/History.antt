-- ===== src/Rules/Pod/History.antt =====
-- evaluateRestartHistory of internal/diagnosis/rules/pod/restarts.go.
use kubewhy.Base.{
  ◌==◌, Bool, true, not, ◌&&◌, ◌||◌, String, String_eq, ℕ_eq, List, [], ◌∷◌, ◌++◌, Option, none,
  some, is_some, if◌then◌else◌, gather,
}
use kubewhy.Base.Int.{pos, ℤ_eq, int_text}
use kubewhy.Base.Text.{◌<>◌, quote}
use kubewhy.Base.Time.{Time, sub, is_zero}
use kubewhy.Diagnosis.{info, Diagnosis}
use kubewhy.Format.{duration, count_text}
use kubewhy.Snapshot.Api.{ContainerStatus, Terminated}
use kubewhy.Snapshot.Pod.{
  Pod, Container, container_kind, containers, pod_ref, restarts, last_terminated, is_terminal,
}
use kubewhy.Rules.Pod.Ids.{id_restarted, certainly, suggest, fact}
use kubewhy.Rules.Pod.Helpers.{
  termination_evidence, logs_command, container_running, is_flapping, capitalize, oom_termination,
  in_backoff,
}

-- describeLastRun
last_run : Terminated → String
last_run t =
    "exited with code "
    <> int_text t.exit_code
    <> (if t.reason == "" then "" else " and reason " <> quote t.reason)
    <> (if is_zero t.started_at || is_zero t.finished_at
        then ""
        else " after running for " <> duration (sub t.finished_at t.started_at))

-- currentUptime
abbrev uptime_since : Time → Option Time → String
uptime_since now none = ""
uptime_since now (some started) = if is_zero started then "" else duration (sub now started)

abbrev uptime_in : Time → Option ContainerStatus → String
uptime_in now none = ""
uptime_in now (some s) = uptime_since now s.running

unfoldable pub current_uptime : Container → Pod → String
current_uptime c snap = uptime_in snap.now c.status

abbrev times : Container → String
times c = count_text (restarts c) "time" "times"

abbrev subject_text : Container → String
subject_text c = capitalize (container_kind c) <> " " <> quote c.name

history_base : Pod → Container → String → Diagnosis
history_base snap c summary = record (certainly id_restarted (pod_ref snap) c.name info summary) {
  evidence = fact "containerStatus" "restartCount" (int_text (restarts c)) ∷ [];
}

unfoldable pub history_diagnosis : Pod → Container → Option Terminated → Diagnosis
unfolding history_base last_run current_uptime
history_diagnosis snap c none =
    record (history_base snap c
      (subject_text c <> " has restarted " <> times c <> ", and Kubernetes did not record how")) {
        explanation =
            "The container is running now. Kubernetes keeps only the most recent "
            <> "termination, and none is recorded here, so there is nothing that explains the restarts.";
      }
history_diagnosis snap c (some t) =
    let uptime = current_uptime c snap in
    let base = history_base snap c (
      subject_text c
      <> " has restarted "
      <> times c
      <> ", most recently "
      <> duration (sub snap.now t.finished_at)
      <> " ago") in
    record base {
      explanation =
          "The container is running now, so this is history rather than a problem. Kubernetes records "
          <> "only the most recent termination: the run before this one "
          <> last_run t
          <> ". What happened at the "
          <> "other restarts is not in the API.";
      evidence =
          base.evidence
          ++ termination_evidence "lastState.terminated" (some t)
          ++ (if uptime == ""
              then []
              else fact "containerStatus" "state.running.startedAt" (uptime <> " ago") ∷ []);
      suggestions =
          suggest
            "The previous instance's logs are still available and are the only record of why it stopped."
            (logs_command snap c.name true ∷ [])
          ∷ [];
    }

-- Running again, and no other rule's.
unfoldable pub is_history : Pod → Container → Bool
unfolding container_running is_flapping in_backoff oom_termination
is_history snap c =
    not (restarts c == pos 0)
    && container_running c
    && not (is_flapping c snap.now || in_backoff c)
    && not (is_some (oom_termination c).0)

unfoldable pub history_of : Pod → Container → List Diagnosis
unfolding is_history history_diagnosis
history_of snap c =
    if is_history snap c then history_diagnosis snap c (last_terminated c) ∷ [] else []

unfoldable pub evaluate_restart_history : Pod → List Diagnosis
unfolding history_of is_terminal gather
evaluate_restart_history snap =
    if is_terminal snap then [] else gather (history_of snap) (containers snap)
