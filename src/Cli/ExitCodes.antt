-- ===== src/Cli/ExitCodes.antt =====
-- The exit code of a run: internal/cli/root.go and exit.go.
use kubewhy.Base.{
  ℕ_eq, ◌≡◌, ap, ◌∙◌, Bool, ◌||◌, String, List, if◌then◌else◌, arith, inr, is_empty, String_eq,
}
use kubewhy.Diagnosis.{ResourceRef}
use kubewhy.Diagnosis.Report.{healthy, degraded, unhealthy, unknown}
use kubewhy.Diagnosis.Report.Verdict.{has_critical, has_warning}
use kubewhy.Snapshot.Pod.{Pod}
use kubewhy.Rules.Pod.{explain_pod}
use kubewhy.Rules.Pod.Scheduling.{QuantityOps}
use kubewhy.Analyze.PodReport.{pod_report}
use kubewhy.Analyze.PodVerdict.{pod_report-status}
use kubewhy.Kube.{ApiErrors, classify}
use kubewhy.Cli.{
  exit_ok, exit_issue_found, exit_error, exit_not_found, exit_forbidden, is_issue, error_code,
  exit_code,
}

issue_of_verdict :
    (crit warn : Bool) (complete : Bool)
    → is_issue (
        if crit
        then unhealthy
        else if warn
        then degraded
        else if complete
        then healthy
        else unknown)
      ≡ (crit || warn)
unfolding is_issue
issue_of_verdict crit warn complete = ground arith

-- The exit code of a run that printed the report on a Pod is 1 where a finding on the Pod is critical
-- or a warning, and 0 else.
pub exit_code_pod :
    (E : Type 0) (ops : QuantityOps) (expired : List Bool) (snap : Pod)
    → exit_code {E = E} (inr (pod_report ops expired snap)) ≡ (
        if has_critical (explain_pod ops expired snap) || has_warning (explain_pod ops expired snap)
        then exit_issue_found
        else exit_ok)
unfolding exit_code
exit_code_pod E ops expired snap =
    ap (λ b. if b then exit_issue_found else exit_ok)
      (ap is_issue (pod_report-status ops expired snap)
        ∙ issue_of_verdict (has_critical (explain_pod ops expired snap))
            (has_warning (explain_pod ops expired snap)) (is_empty snap.collection.degradations))

-- An error of the API server on the resource that was asked for makes the exit code 3 where the server
-- says that the resource does not exist, else 4 where it says that the user may not read it or is not
-- known, and else 2.
pub error_code-classify :
    {E : Type 0} (api : ApiErrors E) (err : E) (ref : ResourceRef) (context : String)
    → error_code (classify api err ref context) ≡ (
        if api.is_not_found err
        then exit_not_found
        else if api.is_forbidden err || api.is_unauthorized err
        then exit_forbidden
        else exit_error)
unfolding error_code classify
error_code-classify api err ref context = ground arith
