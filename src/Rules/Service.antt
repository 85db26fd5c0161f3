-- ===== src/Rules/Service.antt =====
-- internal/diagnosis/rules/service: the rules on a Service, in their order, and the findings on the
-- Pods behind it.
pub mod Ids
pub mod Selecting
pub mod Serving
pub mod Ports
pub mod Laws
use kubewhy.Base.{Bool, List, [], ◌∷◌, if◌then◌else◌, is_empty, map, ltb}
use kubewhy.Diagnosis.{Severity, critical, warning, Diagnosis}
use kubewhy.Snapshot.Pod.{Pod}
use kubewhy.Snapshot.Service.{Service, ready_count, backends_of}
use kubewhy.Rules.Pod.{aggregated, in_contexts}
use kubewhy.Rules.Pod.Scheduling.{QuantityOps}
use Selecting.{evaluate_selector}
use Serving.{evaluate_endpoints}
use Ports.{evaluate_target_ports}

-- Rules
abbrev pub service_rules : List (Service → List Diagnosis)
service_rules = evaluate_selector ∷ evaluate_endpoints ∷ evaluate_target_ports ∷ []

abbrev pub lowered : Severity → Severity
lowered critical = warning
lowered s = s

-- One round of the loop of BackendFindings over the aggregated findings.
abbrev pub demote : Diagnosis → Diagnosis
demote d = record d { severity = lowered d.severity }

-- BackendFindings, with what the context answers before each Pod rule on each backend.
unfoldable pub backend_findings : QuantityOps → List (List Bool) → Service → List Diagnosis
unfolding aggregated in_contexts backends_of ready_count
backend_findings ops expired snap =
    let found = aggregated ops (in_contexts expired (backends_of snap)) in
    if is_empty (backends_of snap)
    then []
    else if ltb 0 (ready_count snap.endpoints)
    then map demote found
    else found
