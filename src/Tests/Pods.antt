-- ===== src/Tests/Pods.antt =====
-- The rules and the report at Pods that are written out.
use kubewhy.Base.{
  ◌≡◌, ◌≢◌, ◌≤◌, ◌==◌, ◌&&◌, String_eq, refl, true, false, String, List, [], ◌∷◌, ◌++◌, none, some,
  any, length, is_empty, if◌then◌else◌,
}
use kubewhy.Base.Int.{pos}
use kubewhy.Diagnosis.{ResourceRef}
use kubewhy.Diagnosis.Engine.{run_rules}
use kubewhy.Diagnosis.Report.{healthy, degraded, unhealthy, unknown}
use kubewhy.Diagnosis.Report.Verdict.{has_critical, has_warning}
use kubewhy.Snapshot.{Event, Existence, missing, unknown, is_missing}
use kubewhy.Snapshot.Api.{ContainerStatus, Terminated}
use kubewhy.Snapshot.Pod.{Pod, Container, containers, terminated, is_terminal}
use kubewhy.Rules.Pod.{pod_rules, explain_pod}
use kubewhy.Rules.Pod.Oom.{oom_of, oom_recovered}
use kubewhy.Rules.Pod.Helpers.{oom_termination}
use kubewhy.Rules.Pod.CrashLoop.{crash_loop_of}
use kubewhy.Rules.Pod.History.{history_of}
use kubewhy.Rules.Pod.Stopped.{awaiting_restart, stopped_of}
use kubewhy.Rules.Pod.Claims.{evaluate_claims}
use kubewhy.Rules.Pod.Unexplained.{pod_is_ready}
use kubewhy.Rules.Pod.Laws.Ownership.{restarts_one_owner, stopped_or_looping}
use kubewhy.Rules.Pod.Laws.Unknowns.{says_missing, evaluate_claims-any}
use kubewhy.Analyze.PodReport.{pod_report}
use kubewhy.Analyze.PodVerdict.{
  down_after_oom, pod_report-status, explain_pod_speaks, pod_report_oom,
}
use kubewhy.Analyze.PodSilence.{no_quantities, new_pod, waiting_pod}
use kubewhy.Rules.Pod.Laws.Finished.{run_rules_finished}
use kubewhy.Rules.Pod.Laws.Probing.{is_issue_severity, is_current, evaluate_probes-any}
use kubewhy.Rules.Pod.Oom.{evaluate_oom}
use kubewhy.Rules.Pod.Stopped.{evaluate_terminated}
use kubewhy.Rules.Pod.ImagePull.{evaluate_image_pull}
use kubewhy.Rules.Pod.ConfigRefs.{evaluate_config_refs}
use kubewhy.Rules.Pod.Scheduling.Message.{Reason, cpu, dominant_id}
use kubewhy.Rules.Pod.Ids.{id_unschedulable_cpu}
use kubewhy.Rules.Pod.Probes.{evaluate_probes}
use kubewhy.Base.{◌||◌, not}
use kubewhy.Analyze.PodVerdict.{pod_report_expired}

abbrev web : ResourceRef
web = record { kind = "Pod"; namespace = "shop"; name = "web" }

-- A run that was killed for its memory a minute ago.
abbrev killed : Terminated
killed = record {
  exit_code = pos 137;
  signal = pos 0;
  reason = "OOMKilled";
  message = "";
  started_at = 1;
  finished_at = 2;
}

abbrev killed_status : ContainerStatus
killed_status = record {
  name = "app";
  restart_count = pos 3;
  ready = false;
  waiting = none;
  running = none;
  terminated = some killed;
  last_terminated = none;
}

-- A finished Pod of which the only container was killed before.
abbrev killed_pod : Pod
killed_pod = record waiting_pod {
  pod = record new_pod { phase = "Succeeded"; container_statuses = killed_status ∷ [] };
  pvcs = [];
}

abbrev looping_status : ContainerStatus
looping_status = record killed_status {
  terminated = none;
  waiting = some (record { reason = "CrashLoopBackOff"; message = "" });
}

abbrev looping_app : Container
looping_app = record {
  name = "app";
  init = false;
  sidecar = false;
  spec = none;
  status = some looping_status;
}

restarts_one_owner_example :
    length (
      oom_of waiting_pod looping_app
      ++ crash_loop_of waiting_pod looping_app
      ++ history_of waiting_pod looping_app)
    ≤ 1
restarts_one_owner_example = restarts_one_owner waiting_pod looping_app

waiting_pod_restarts : awaiting_restart waiting_pod ≡ true
unfolding awaiting_restart
waiting_pod_restarts = refl

stopped_or_looping_example :
    length (crash_loop_of waiting_pod looping_app ++ stopped_of waiting_pod looping_app) ≤ 1
stopped_or_looping_example = stopped_or_looping waiting_pod looping_app waiting_pod_restarts

abbrev two_maps : List (String × Existence)
two_maps = ("settings", missing) ∷ ("secrets", unknown) ∷ []

waiting_pod_runs : is_terminal waiting_pod ≡ false
unfolding is_terminal
waiting_pod_runs = refl

waiting_pod_unready : pod_is_ready waiting_pod ≡ false
unfolding pod_is_ready
waiting_pod_unready = refl

evaluate_claims-any_example :
    any (says_missing "data") (evaluate_claims waiting_pod)
    ≡ any (λ e. is_missing e.1.exists && e.0 == "data") waiting_pod.pvcs
evaluate_claims-any_example = evaluate_claims-any waiting_pod "data" waiting_pod_runs

pod_report-status_example : (pod_report no_quantities [] waiting_pod).status ≡ (
    if has_critical (explain_pod no_quantities [] waiting_pod)
    then unhealthy
    else if has_warning (explain_pod no_quantities [] waiting_pod)
    then degraded
    else if is_empty waiting_pod.collection.degradations
    then healthy
    else unknown)
pod_report-status_example = pod_report-status no_quantities [] waiting_pod

explain_pod_speaks_example : explain_pod no_quantities (true ∷ []) waiting_pod ≢ []
explain_pod_speaks_example =
    explain_pod_speaks no_quantities (true ∷ []) waiting_pod waiting_pod_runs waiting_pod_unready

killed_pod_down : any (down_after_oom killed_pod) (containers killed_pod) ≡ true
unfolding any down_after_oom containers oom_termination terminated oom_recovered
killed_pod_down = refl

-- The report on a finished Pod is unhealthy where a container was killed for its memory.
pod_report_oom_example : (pod_report no_quantities [] killed_pod).status ≡ unhealthy
pod_report_oom_example = pod_report_oom no_quantities killed_pod killed_pod_down

killed_pod_ended : is_terminal killed_pod ≡ true
unfolding is_terminal
killed_pod_ended = refl

run_rules_finished_example :
    run_rules [] (pod_rules no_quantities) killed_pod
    ≡ evaluate_oom killed_pod
      ++ (evaluate_terminated killed_pod
          ++ (evaluate_image_pull killed_pod ++ evaluate_config_refs killed_pod))
run_rules_finished_example = run_rules_finished no_quantities killed_pod killed_pod_ended

killed_pod_ended_or_ready : (is_terminal killed_pod || pod_is_ready killed_pod) ≡ true
unfolding is_terminal
killed_pod_ended_or_ready = refl

-- The same Pod is healthy where the context ended early.
pod_report_expired_example : (pod_report no_quantities (true ∷ []) killed_pod).status ≡ healthy
pod_report_expired_example =
    pod_report_expired no_quantities [] killed_pod killed_pod_ended_or_ready refl

abbrev short_of_cpu : List Reason
short_of_cpu = record { count = 3; text = "Insufficient cpu"; category = cpu } ∷ []

short_of_cpu_dominant : dominant_id short_of_cpu ≡ some id_unschedulable_cpu
unfolding dominant_id
short_of_cpu_dominant = refl

abbrev probe_event : Event
probe_event = record {
  kind = "Warning";
  reason = "Unhealthy";
  message = "Readiness probe failed: connection refused";
  count = pos 1;
  first_seen = 5;
  last_seen = 5;
  object = web;
  field_path = "spec.containers{app}";
}

abbrev probed_pod : Pod
probed_pod = record waiting_pod { events = probe_event ∷ [] }

evaluate_probes-any_example :
    any (λ d. is_issue_severity d.severity) (evaluate_probes probed_pod)
    ≡ (not (is_terminal probed_pod) && any (is_current probed_pod) probed_pod.events)
evaluate_probes-any_example = evaluate_probes-any probed_pod
