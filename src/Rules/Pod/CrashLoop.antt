-- ===== src/Rules/Pod/CrashLoop.antt =====
-- evaluateCrashLoop and interpretExit of internal/diagnosis/rules/pod/crashloop.go.
use kubewhy.Base.{
  ◌==◌, Bool, true, not, ◌&&◌, ◌||◌, String, String_eq, List, [], ◌∷◌, ◌++◌, Option, none, some,
  is_some, if◌then◌else◌, gather,
}
use kubewhy.Base.Int.{ℤ, pos, ℤ_eq, int_text}
use kubewhy.Base.Text.{◌<>◌, quote}
use kubewhy.Diagnosis.{Severity, critical, warning, Diagnosis}
use kubewhy.Snapshot.Api.{Terminated}
use kubewhy.Snapshot.Pod.{
  Pod, Container, container_kind, containers, pod_ref, last_terminated, is_ready, is_terminal,
}
use kubewhy.Rules.Pod.Ids.{id_crash_loop, id_init_container_failed, certainly, suggest}
use kubewhy.Rules.Pod.Helpers.{
  container_evidence, termination_evidence, logs_command, is_flapping, restart_summary, capitalize,
  oom_termination, in_backoff,
}

pub record ExitInterpretation : Type 0 where
  pub explanation : String
  pub causes : List String

abbrev exited : Terminated → String
exited t =
    "The last run exited with code "
    <> int_text t.exit_code
    <> (if t.reason == "" then "" else " and reason " <> quote t.reason)
    <> "."

-- The switch of interpretExit.
exit_meaning : ℤ → String → ExitInterpretation
exit_meaning code base =
    if code == pos 0
    then record {
      explanation =
          base
          <> " The process finished successfully, but the Pod's restart policy starts it again, "
          <> "which produces a restart loop for a container that is not meant to be long-running.";
      causes =
          "the container runs a task that completes instead of a long-running process"
          ∷ "the workload should be a Job rather than a Pod with restartPolicy Always" ∷ [];
    }
    else if code == pos 126
    then record {
      explanation =
          base <> " That code means the container's command was found but could not be executed.";
      causes =
          "the entrypoint is not executable inside the image"
          ∷ "the entrypoint is not a valid binary for the image's architecture" ∷ [];
    }
    else if code == pos 127
    then record {
      explanation =
          base <> " That code means the container's command was not found inside the image.";
      causes =
          "the configured command or entrypoint does not exist in the image"
          ∷ "the image does not contain the shell the command relies on" ∷ [];
    }
    else if code == pos 137
    then record {
      explanation =
          base <> " That code means the process received SIGKILL. Kubernetes did not record an "
          <> "OOMKilled reason, so the sender of the signal is not identified.";
      causes =
          "the container was killed by the kernel for exceeding memory, without the reason being recorded"
          ∷ "a failing liveness probe caused the kubelet to kill the container"
          ∷ "the process was killed from inside the container" ∷ [];
    }
    else if code == pos 143
    then record {
      explanation = base <> " That code means the process received SIGTERM and exited.";
      causes =
          "the container was asked to stop and did not restart cleanly"
          ∷ "a failing liveness probe caused the kubelet to restart the container" ∷ [];
    }
    else if code == pos 139
    then record {
      explanation = base <> " That code means the process was terminated by a segmentation fault.";
      causes = "the application crashed inside its own code or a native dependency" ∷ [];
    }
    else record {
      explanation =
          base <> " Kubernetes does not record why the process chose that exit code, so the "
          <> "application's own logs are the next place to look.";
      causes = [];
    }

unfoldable pub interpret_exit : Option Terminated → ExitInterpretation
unfolding exit_meaning
interpret_exit none = record {
  explanation =
      "Kubernetes has not recorded a previous termination for this container, so the "
      <> "reason for the restarts is not visible in the API.";
  causes = [];
}
interpret_exit (some t) = exit_meaning t.exit_code (exited t)

-- An init container proper, which has to complete before the Pod starts.
abbrev pub is_plain_init : Container → Bool
is_plain_init c = c.init && not c.sidecar

abbrev pub crash_loop_id : Container → String
crash_loop_id c = if is_plain_init c then id_init_container_failed else id_crash_loop

-- The three cases of the switch: severity and explanation.
unfoldable pub crash_loop_severity : Container → Severity
crash_loop_severity c =
    if is_plain_init c || in_backoff c then critical else if is_ready c then warning else critical

crash_loop_explanation : Pod → Container → String
crash_loop_explanation snap c =
    if is_plain_init c
    then "The Pod cannot start because init container "
      <> quote c.name
      <> " keeps failing. Kubernetes runs init "
      <> "containers to completion before starting the regular containers, so the Pod stays "
      <> "blocked until this one succeeds."
    else if in_backoff c
    then "Kubernetes restarted "
      <> quote c.name
      <> " after each exit and is now backing off between attempts."
    else "Kubernetes has restarted "
      <> quote c.name
      <> " "
      <> restart_summary c snap.now
      <> ". It is running again at this moment, which is what a "
      <> "restart loop looks like between attempts."

unfoldable pub crash_loop_diagnosis : Pod → Container → Diagnosis
unfolding crash_loop_severity crash_loop_explanation interpret_exit
crash_loop_diagnosis snap c =
    let last = last_terminated c in
    let interp = interpret_exit last in
    record (certainly (crash_loop_id c) (pod_ref snap) c.name (crash_loop_severity c)
      (capitalize (container_kind c) <> " " <> quote c.name <> " is restarting repeatedly")) {
        explanation = crash_loop_explanation snap c <> " " <> interp.explanation;
        evidence = container_evidence c ++ termination_evidence "lastState.terminated" last;
        possible_causes = interp.causes;
        suggestions =
            suggest
              "Read the logs of the previous container instance: the process itself reports why it exited, and Kubernetes does not record that."
              (logs_command snap c.name true ∷ [])
            ∷ [];
      }

-- The container is in a restart loop that no OOM kill explains.
unfoldable pub is_crash_looping : Pod → Container → Bool
unfolding in_backoff is_flapping oom_termination
is_crash_looping snap c =
    (in_backoff c || is_flapping c snap.now) && not (is_some (oom_termination c).0)

unfoldable pub crash_loop_of : Pod → Container → List Diagnosis
unfolding is_crash_looping crash_loop_diagnosis
crash_loop_of snap c = if is_crash_looping snap c then crash_loop_diagnosis snap c ∷ [] else []

unfoldable pub evaluate_crash_loop : Pod → List Diagnosis
unfolding crash_loop_of is_terminal gather
evaluate_crash_loop snap =
    if is_terminal snap then [] else gather (crash_loop_of snap) (containers snap)
