-- ===== src/Tests/Commands.antt =====
-- Runs of the command that are written out.
use kubewhy.Base.{
  List, true, ◌⊎◌, ◌≡◌, ◌≤◌, refl, false, ◌||◌, ◌==◌, String_eq, String, [], ◌∷◌, none, some,
  if◌then◌else◌, inr, arith,
}
use kubewhy.Diagnosis.{ResourceRef}
use kubewhy.Diagnosis.Report.{Report, degraded}
use kubewhy.Diagnosis.Report.Verdict.{has_critical, has_warning}
use kubewhy.Rules.Pod.{explain_pod}
use kubewhy.Analyze.PodReport.{pod_report}
use kubewhy.Analyze.PodSilence.{no_quantities, waiting_pod}
use kubewhy.Kube.{kind_pod, ApiErrors, classify, resolve_kind}
use kubewhy.Cli.{
  execute, has_color_mode, Flags, Outside, error_code, run, exit_code, exit_ok, exit_issue_found,
  exit_not_found, exit_forbidden, exit_error,
}
use kubewhy.Cli.ExitCodes.{exit_code_pod, error_code-classify}
use kubewhy.Cli.Runs.{StatusCode, Explained, execute_lem, execute_prints}

abbrev web_pod : ResourceRef
web_pod = record { kind = "Pod"; namespace = "shop"; name = "web" }

-- Errors as their reasons.
abbrev by_reason : ApiErrors String
by_reason = record {
  is_not_found = λ e. e == "NotFound";
  is_forbidden = λ e. e == "Forbidden";
  is_unauthorized = λ e. e == "Unauthorized";
  is_timeout = λ e. e == "Timeout";
  message = λ e. e;
}

error_code-classify_example : error_code (classify by_reason "Unauthorized" web_pod "home") ≡ (
    if by_reason.is_not_found "Unauthorized"
    then exit_not_found
    else if by_reason.is_forbidden "Unauthorized" || by_reason.is_unauthorized "Unauthorized"
    then exit_forbidden
    else exit_error)
error_code-classify_example = error_code-classify by_reason "Unauthorized" web_pod "home"

exit_code_pod_example : exit_code {E = String} (inr (pod_report no_quantities [] waiting_pod)) ≡ (
    if has_critical (explain_pod no_quantities [] waiting_pod)
      || has_warning (explain_pod no_quantities [] waiting_pod)
    then exit_issue_found
    else exit_ok)
exit_code_pod_example = exit_code_pod String no_quantities [] waiting_pod

abbrev degraded_web : Report
degraded_web = record {
  resource = web_pod;
  status = degraded;
  headline = "Pod/web is degraded";
  diagnoses = [];
  overview = [];
  degradations = [];
  inspected = [];
}

abbrev always_degraded : Outside String
always_degraded = record {
  help = none;
  new_client = none;
  analyze = λ kind name. inr degraded_web;
  render = λ report. none;
}

abbrev text_flags : Flags
text_flags = record { version = false; output = "text"; color = "auto"; no_color = false }

grouped_pods_resolve : resolve_kind " Pods.v1 " ≡ some kind_pod
unfolding resolve_kind
grouped_pods_resolve = refl

run_finds_issue : execute always_degraded text_flags ("po" ∷ "web" ∷ []) ≡ 1
unfolding run exit_code execute
run_finds_issue = refl

run_finds_issue_low : execute always_degraded text_flags ("po" ∷ "web" ∷ []) ≤ 1
run_finds_issue_low = omega (arith, run_finds_issue)

two_kinds_fail : execute always_degraded text_flags ("po" ∷ "web" ∷ "shop" ∷ []) ≡ 2
unfolding execute
two_kinds_fail = refl

execute_lem_example :
    ((text_flags.version ≡ true) × (execute always_degraded text_flags ("po" ∷ "web" ∷ []) ≡ 0))
    ⊎ (((◌≡◌ {A = List String} ("po" ∷ "web" ∷ []) [])
          × (always_degraded.help ≡ none)
          × (execute always_degraded text_flags ("po" ∷ "web" ∷ []) ≡ 0))
        ⊎ Explained always_degraded
            ("po" ∷ "web" ∷ [])
            (execute always_degraded text_flags ("po" ∷ "web" ∷ [])))
execute_lem_example = execute_lem always_degraded text_flags ("po" ∷ "web" ∷ []) run_finds_issue_low

auto_is_known : has_color_mode text_flags ≡ true
unfolding has_color_mode
auto_is_known = refl

po_is_pod : resolve_kind "po" ≡ some kind_pod
unfolding resolve_kind
po_is_pod = refl

execute_prints_example :
    StatusCode degraded (execute always_degraded text_flags ("po" ∷ "web" ∷ []))
execute_prints_example =
    execute_prints always_degraded text_flags "po" "web" kind_pod degraded_web refl refl
      auto_is_known po_is_pod refl refl refl
