-- ===== src/Analyze/ReportVerdicts.antt =====
-- The verdicts of the reports on a claim, a Service and a Deployment: internal/analyze/pvc.go,
-- service.go and deployment.go.
use kubewhy.Base.{
  ltb, ◌==◌, ◌≡◌, ◌≢◌, refl, sym, ◌∙◌, Bool, true, false, ◌||◌, ℕ, ℕ_eq, List, [], ◌∷◌, ◌++◌, arith,
  any, any-append, if◌then◌else◌, is_empty,
}
use kubewhy.Base.Int.{pos, ℤ_eq}
use kubewhy.Diagnosis.{Diagnosis}
use kubewhy.Diagnosis.Engine.{evaluate}
use kubewhy.Diagnosis.Engine.Runs.{evaluate-any}
use kubewhy.Diagnosis.Report.{Status, healthy, degraded, unhealthy, unknown, with_status}
use kubewhy.Diagnosis.Report.Verdict.{is_warning, has_critical, has_warning, derive_status_lem}
use kubewhy.Snapshot.Deployment.{
  Deployment, wanted_replicas, is_paused, deployment_ref, deployment_condition,
}
use kubewhy.Snapshot.Pvc.{Pvc, pvc_ref, is_bound}
use kubewhy.Snapshot.Service.{Service, service_ref, ready_count}
use kubewhy.Rules.Pod.Scheduling.{QuantityOps}
use kubewhy.Rules.Deployment.{
  evaluate_intent, paused_diagnosis, scaled_to_zero_diagnosis, deployment_rules,
  deployment_pod_findings,
}
use kubewhy.Rules.Deployment.Laws.{is_failing, is_stuck, is_down, deployment_rules-critical}
use kubewhy.Rules.Pvc.{explain_pvc}
use kubewhy.Rules.Pvc.Laws.{explain_pvc_bound}
use kubewhy.Rules.Service.{service_rules, backend_findings}
use kubewhy.Rules.Service.Selecting.{may_match}
use kubewhy.Rules.Service.Laws.{
  matches_nothing, serves_nothing, misses_port, service_rules-critical, service_rules_quiet,
  backend_findings_serving,
}
use kubewhy.Analyze.Workload.{concluded_report}
use kubewhy.Analyze.Workload.Verdict.{add_all-status, workload_report-status}
use kubewhy.Analyze.PvcReport.{pvc_report, pvc_sections}
use kubewhy.Analyze.ServiceReport.{service_report, service_symptom, service_sections}
use kubewhy.Analyze.DeploymentReport.{deployment_report, deployment_symptom, deployment_sections}

-- The report on a bound claim says that it is healthy where nothing was left out of the analysis, and
-- unknown where something was, wherever the context ends.
pub pvc_report_bound :
    (expired : List Bool) (snap : Pvc)
    → is_bound snap ≡ true
    → (pvc_report expired snap).status
      ≡ (if is_empty snap.collection.degradations then healthy else unknown)
unfolding pvc_report concluded_report with_status any
pvc_report_bound expired snap h =
    add_all-status (concluded_report (pvc_ref snap) snap.collection (explain_pvc expired snap))
      (pvc_sections snap)
    ∙ derive_status_lem (explain_pvc expired snap) snap.collection.degradations
    ∙ rw (explain_pvc_bound snap h expired) refl

unless_critical :
    (a b c : Bool)
    → a ≡ false
    → (if a then unhealthy else if b then degraded else if c then healthy else unknown) ≢ unhealthy
unless_critical a b c h = λ e. ground arith

not_unserved : (n : ℕ) → ltb 0 n ≡ true → (n == 0) ≡ false
not_unserved n h = ground arith

serving-serves_nothing :
    (snap : Service) → ltb 0 (ready_count snap.endpoints) ≡ true → serves_nothing snap ≡ false
unfolding serves_nothing
serving-serves_nothing snap h = rw (not_unserved (ready_count snap.endpoints) h) (ground arith)

matched-matches_nothing :
    (snap : Service) → may_match snap.backends ≡ true → matches_nothing snap ≡ false
unfolding matches_nothing
matched-matches_nothing snap h = rw h (ground arith)

-- While an endpoint of a Service is ready, the report on it does not say unhealthy, whatever is wrong
-- with the Pods behind it and wherever the context ends, unless its selector is known to match no Pod
-- or one of its ports names a target that no backend declares.
pub service_report_serving :
    (ops : QuantityOps) (expired : List Bool) (expired_pods : List (List Bool)) (snap : Service)
    → ltb 0 (ready_count snap.endpoints) ≡ true
    → may_match snap.backends ≡ true
    → misses_port snap ≡ false
    → (service_report ops expired expired_pods snap).status ≢ unhealthy
unfolding service_report
service_report_serving ops expired expired_pods snap h k l =
    let own =
      service_rules_quiet expired snap (matched-matches_nothing snap k)
        (serving-serves_nothing snap h) l in
    let behind = backend_findings_serving ops expired_pods snap h in
    let none_critical : has_critical
          (evaluate expired service_rules snap ++ backend_findings ops expired_pods snap)
        ≡ false =
      any-append _ (evaluate expired service_rules snap) (backend_findings ops expired_pods snap)
      ∙ rw (own, behind) refl in
    λ e. unless_critical _ _ _ none_critical (
      sym (
        workload_report-status (service_ref snap) snap.collection service_symptom
          (evaluate expired service_rules snap) (backend_findings ops expired_pods snap)
          (service_sections snap))
      ∙ e)

-- While the context lives, the report on a Service that is not of type ExternalName says unhealthy in
-- three cases. It has a selector, and the Pods were listed and none matches. Its endpoints could be
-- read and none is ready, while it has a selector and Pods are known behind it, or it has no selector
-- and lists endpoints. Or Pods are known behind it, and one of its ports names a target that none of
-- them declares.
pub service_report_down :
    (ops : QuantityOps) (expired_pods : List (List Bool)) (snap : Service)
    → (matches_nothing snap || serves_nothing snap || misses_port snap) ≡ true
    → (service_report ops [] expired_pods snap).status ≡ unhealthy
unfolding service_report
service_report_down ops expired_pods snap h =
    workload_report-status (service_ref snap) snap.collection service_symptom
      (evaluate [] service_rules snap) (backend_findings ops expired_pods snap)
      (service_sections snap)
    ∙ rw (any-append _ (evaluate [] service_rules snap) (backend_findings ops expired_pods snap))
        (rw (service_rules-critical snap ∙ h) refl)

-- While the context lives, the report on a Deployment says unhealthy exactly where its ReplicaSet
-- cannot create Pods, its rollout went past its deadline, replicas are wanted of a rollout that is not
-- paused and none is available, or something critical is found on its Pods. Else it says degraded
-- where there is a warning, and else healthy or unknown.
pub deployment_report-status :
    (ops : QuantityOps) (expired_pods : List (List Bool)) (snap : Deployment)
    → (deployment_report ops [] expired_pods snap).status ≡ (
        if (is_failing (deployment_condition snap "ReplicaFailure")
            || is_stuck (deployment_condition snap "Progressing")
            || is_down snap)
          || has_critical (deployment_pod_findings ops expired_pods snap)
        then unhealthy
        else if has_warning (evaluate [] deployment_rules snap)
            || has_warning (deployment_pod_findings ops expired_pods snap)
        then degraded
        else if is_empty snap.collection.degradations
        then healthy
        else unknown)
unfolding deployment_report
deployment_report-status ops expired_pods snap =
    workload_report-status (deployment_ref snap) snap.collection deployment_symptom
      (evaluate [] deployment_rules snap) (deployment_pod_findings ops expired_pods snap)
      (deployment_sections snap)
    ∙ rw
        (
          any-append _ (evaluate [] deployment_rules snap)
              (deployment_pod_findings ops expired_pods snap),
          any-append _ (evaluate [] deployment_rules snap)
              (deployment_pod_findings ops expired_pods snap),
        )
        (rw (deployment_rules-critical snap) refl)

paused_warns :
    (a : Bool) (d e : Diagnosis)
    → is_warning e.severity ≡ true
    → has_warning ((if a then d ∷ [] else []) ++ (if true then e ∷ [] else [])) ≡ true
unfolding any
paused_warns a d e h = ground (arith, h)

evaluate_intent_paused :
    (snap : Deployment) → is_paused snap ≡ true → has_warning (evaluate_intent snap) ≡ true
unfolding evaluate_intent
evaluate_intent_paused snap h = rw h (
    paused_warns (wanted_replicas snap == pos 0) (scaled_to_zero_diagnosis snap)
      (paused_diagnosis snap) (unfold paused_diagnosis in refl))

unless_warned :
    (a b : Bool) (s : Status)
    → a ≡ true
    → (if b then unhealthy else if a then degraded else s) ≢ healthy
unless_warned a b s h = λ e. ground arith

-- While the context lives, the report on a Deployment whose rollout is paused never says healthy,
-- however its Pods are.
pub deployment_report_paused :
    (ops : QuantityOps) (expired_pods : List (List Bool)) (snap : Deployment)
    → is_paused snap ≡ true
    → (deployment_report ops [] expired_pods snap).status ≢ healthy
deployment_report_paused ops expired_pods snap h =
    let warned : has_warning (evaluate [] deployment_rules snap) ≡ true =
      evaluate-any snap _ deployment_rules
      ∙ (unfold any in rw (evaluate_intent_paused snap h) refl) in
    let both : (has_warning (evaluate [] deployment_rules snap)
          || has_warning (deployment_pod_findings ops expired_pods snap))
        ≡ true =
      rw warned refl in
    λ e. unless_warned _ _ _ both (sym (deployment_report-status ops expired_pods snap) ∙ e)
