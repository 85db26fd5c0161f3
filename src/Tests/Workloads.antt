-- ===== src/Tests/Workloads.antt =====
-- The rules and the reports at claims, Services, Deployments and other objects that are written out.
use mathlib.Core.List.{Mem, mem-cons_self}
use kubewhy.Base.{
  ◌≡◌, ◌≢◌, ◌==◌, ◌||◌, ltb, String_eq, refl, true, false, [], ◌++◌, any, length, is_empty,
  if◌then◌else◌, arith,
}
use kubewhy.Base.Text.{itoa}
use kubewhy.Base.Text.Digits.{print_number, print_digits, put_digit}
use kubewhy.Diagnosis.Engine.{evaluate}
use kubewhy.Diagnosis.Report.{healthy, degraded, unhealthy, unknown}
use kubewhy.Diagnosis.Report.Verdict.{has_critical, has_warning}
use kubewhy.Snapshot.{unknown}
use kubewhy.Snapshot.Api.{entry}
use kubewhy.Snapshot.Collection.Calls.{calls, learn_all, Represents, calls-Represents}
use kubewhy.Snapshot.Pvc.{is_bound}
use kubewhy.Snapshot.Service.{is_external_name, has_selector, backends_of, ready_count}
use kubewhy.Snapshot.Deployment.{is_paused, deployment_condition}
use kubewhy.Snapshot.StatefulSet.{claim_name}
use kubewhy.Snapshot.Ingress.{has_port}
use kubewhy.Rules.Pod.{pod_rules}
use kubewhy.Rules.Deployment.{deployment_rules, deployment_pod_findings}
use kubewhy.Rules.Deployment.Laws.{is_failing, is_stuck, is_down}
use kubewhy.Rules.Pvc.{explain_pvc}
use kubewhy.Rules.Pvc.Losses.{is_lost}
use kubewhy.Rules.Pvc.Laws.{explain_pvc_speaks}
use kubewhy.Rules.Service.Laws.{matches_nothing, serves_nothing, misses_port}
use kubewhy.Rules.Ingress.Routing.{routes_to, check_backend}
use kubewhy.Rules.Ingress.Laws.{misroutes, is_broken, check_backend-length}
use kubewhy.Rules.StatefulSet.{explain_replica}
use kubewhy.Rules.StatefulSet.Ordering.{replica_name}
use kubewhy.Rules.StatefulSet.Volumes.{owner_pod, is_usable_or_unknown, pods_blocked_by_their_claim}
use kubewhy.Rules.StatefulSet.Laws.{owner_pod-claim_name, explain_replica_blocked}
use kubewhy.Analyze.PodSilence.{no_quantities, new_pod, waiting_pod}
use kubewhy.Analyze.Workload.{workload_report}
use kubewhy.Analyze.Workload.Verdict.{workload_report-status}
use kubewhy.Analyze.PvcReport.{pvc_report}
use kubewhy.Analyze.ServiceReport.{service_report}
use kubewhy.Analyze.DeploymentReport.{deployment_report}
use kubewhy.Analyze.ReportVerdicts.{
  pvc_report_bound, service_report_serving, service_report_down, deployment_report-status,
  deployment_report_paused,
}
use kubewhy.Tests.Objects.{
  nothing_read, bound_claim, pending_claim, no_ref, serving_service, down_service,
  paused_deployment, misrouted_ingress, pending_ref, stuck_set, nothing_known, two_reads,
}

is_bound_claim : is_bound bound_claim ≡ true
unfolding is_bound
is_bound_claim = refl

is_pending_claim : is_bound pending_claim ≡ false
unfolding is_bound
is_pending_claim = refl

is_kept_claim : is_lost pending_claim ≡ false
unfolding is_lost
is_kept_claim = refl

pvc_report_bound_example :
    (pvc_report [] bound_claim).status
    ≡ (if is_empty bound_claim.collection.degradations then healthy else unknown)
pvc_report_bound_example = pvc_report_bound [] bound_claim is_bound_claim

explain_pvc_speaks_example : explain_pvc [] pending_claim ≢ []
explain_pvc_speaks_example = explain_pvc_speaks [] pending_claim is_pending_claim is_kept_claim

one_ready : ltb 0 (ready_count serving_service.endpoints) ≡ true
unfolding ready_count
one_ready = refl

no_port_missed : misses_port serving_service ≡ false
unfolding misses_port any is_external_name backends_of
no_port_missed = refl

service_report_serving_example :
    (service_report no_quantities [] [] serving_service).status ≢ unhealthy
service_report_serving_example =
    service_report_serving no_quantities [] [] serving_service one_ready refl no_port_missed

none_is_ready :
    (matches_nothing down_service || serves_nothing down_service || misses_port down_service) ≡ true
unfolding matches_nothing serves_nothing misses_port is_external_name has_selector backends_of
    ready_count
none_is_ready = refl

service_report_down_example : (service_report no_quantities [] [] down_service).status ≡ unhealthy
service_report_down_example = service_report_down no_quantities [] down_service none_is_ready

is_paused_deployment : is_paused paused_deployment ≡ true
unfolding is_paused
is_paused_deployment = refl

deployment_report_paused_example :
    (deployment_report no_quantities [] [] paused_deployment).status ≢ healthy
deployment_report_paused_example =
    deployment_report_paused no_quantities [] paused_deployment is_paused_deployment

deployment_report-status_example :
    (deployment_report no_quantities [] [] paused_deployment).status ≡ (
      if (is_failing (deployment_condition paused_deployment "ReplicaFailure")
          || is_stuck (deployment_condition paused_deployment "Progressing")
          || is_down paused_deployment)
        || has_critical (deployment_pod_findings no_quantities [] paused_deployment)
      then unhealthy
      else if has_warning (evaluate [] deployment_rules paused_deployment)
          || has_warning (deployment_pod_findings no_quantities [] paused_deployment)
      then degraded
      else if is_empty paused_deployment.collection.degradations
      then healthy
      else unknown)
deployment_report-status_example = deployment_report-status no_quantities [] paused_deployment

workload_report-status_example :
    (workload_report no_ref nothing_read
      (λ d. d.id == "DEPLOYMENT_PAUSED")
      (evaluate [] deployment_rules paused_deployment)
      []
      []).status
    ≡ (if has_critical (evaluate [] deployment_rules paused_deployment ++ [])
        then unhealthy
        else if has_warning (evaluate [] deployment_rules paused_deployment ++ [])
        then degraded
        else if is_empty nothing_read.degradations
        then healthy
        else unknown)
workload_report-status_example =
    workload_report-status no_ref nothing_read (λ d. d.id == "DEPLOYMENT_PAUSED")
      (evaluate [] deployment_rules paused_deployment) [] []

check_backend-length_example :
    length (check_backend misrouted_ingress "web")
    ≡ (if is_broken misrouted_ingress "web" then 1 else 0)
check_backend-length_example = check_backend-length misrouted_ingress "web"

is_misrouted : is_broken misrouted_ingress "web" ≡ true
unfolding is_broken entry misroutes any routes_to has_port
is_misrouted = refl

owner_pod-claim_name_example :
    owner_pod stuck_set (claim_name stuck_set "data" 1) ≡ replica_name stuck_set 1
owner_pod-claim_name_example = owner_pod-claim_name stuck_set "data" 1 (omega arith)

claim_is_listed : Mem (claim_name stuck_set "data" 1, pending_ref) stuck_set.claims
unfolding claim_name itoa print_number print_digits put_digit
claim_is_listed = mem-cons_self

blocked_ref : is_usable_or_unknown pending_ref pending_ref.exists ≡ false
blocked_ref = refl

second_name : "db-1" ≡ replica_name stuck_set 1
unfolding replica_name itoa print_number print_digits put_digit
second_name = refl

explain_replica_blocked_example :
    explain_replica no_quantities
      (pods_blocked_by_their_claim stuck_set)
      ([], record waiting_pod { pod = record new_pod { name = "db-1" } })
    ≡ evaluate []
        (pod_rules no_quantities)
        (record waiting_pod { pod = record new_pod { name = "db-1" } })
explain_replica_blocked_example =
    explain_replica_blocked no_quantities [] stuck_set "data" 1 pending_ref
      (record waiting_pod { pod = record new_pod { name = "db-1" } }) (omega arith) claim_is_listed
      blocked_ref second_name

nothing_read-Represents : Represents nothing_read nothing_known
unfolding any
nothing_read-Represents = (λ e. refl, λ w. refl)

calls-Represents_example :
    Represents (calls nothing_read two_reads) (learn_all nothing_known two_reads)
calls-Represents_example =
    calls-Represents nothing_read nothing_known two_reads nothing_read-Represents
