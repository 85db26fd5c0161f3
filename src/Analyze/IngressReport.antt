-- ===== src/Analyze/IngressReport.antt =====
-- internal/analyze/ingress.go: the report on an Ingress.
use kubewhy.Base.{
  ℕ, ◌+◌, ◌==◌, Bool, not, String, String_eq, ℕ_eq, List, [], ◌∷◌, ◌++◌, Option, none, some,
  if◌then◌else◌, is_empty, map, length,
}
use kubewhy.Base.Text.{◌<>◌, itoa}
use kubewhy.Diagnosis.{Diagnosis}
use kubewhy.Diagnosis.Engine.{evaluate}
use kubewhy.Diagnosis.Report.{Item, Section, Report}
use kubewhy.Snapshot.{Existence, unknown, found, missing}
use kubewhy.Snapshot.Api.{entry}
use kubewhy.Snapshot.Service.{ready_count, total_count}
use kubewhy.Snapshot.Ingress.{
  Ingress, IngressService, IngressPath, ingress_ref, route, target, has_port, has_address, address,
}
use kubewhy.Rules.Pod.Scheduling.{QuantityOps}
use kubewhy.Rules.Ingress.{ingress_rules, ingress_pod_findings}
use kubewhy.Rules.Ingress.Ids.{id_service_no_endpoints}
use kubewhy.Analyze.{item}
use kubewhy.Analyze.Backends.{existence_note}
use kubewhy.Analyze.Workload.{workload_report}

abbrev class_item : Ingress → List Item
class_item snap =
    if not (snap.class.name == "")
    then item "Class" snap.class.name (existence_note snap.class.exists) ∷ []
    else if has_address snap
    then []
    else item "Class" "none" "relies on the cluster's default" ∷ []

abbrev count_hosts : List (List String) → ℕ
count_hosts [] = 0
count_hosts (hosts ∷ rest) = length hosts + count_hosts rest

-- addIngressSection
unfoldable pub ingress_section : Ingress → List Section
unfolding has_address address
ingress_section snap =
    record {
      title = "Ingress";
      items =
          class_item snap
          ++ (if address snap == ""
              then item "Address" "none published" "by any controller"
              else item "Address" (address snap) "")
            ∷ (if is_empty snap.ingress.tls_hosts
                then []
                else item "TLS" (itoa (count_hosts snap.ingress.tls_hosts) <> " host(s) configured")
                    ""
                  ∷ []);
      tree = [];
    }
    ∷ []

abbrev found_note : IngressService → IngressPath → Existence → String
found_note service path missing = "Service not found"
found_note service path unknown = "Service could not be read"
found_note service path found =
    if not (has_port service path.port)
    then "port not exposed by the Service"
    else if not service.endpoints.known
    then "endpoints could not be read"
    else if ready_count service.endpoints == 0
    then "0 of " <> itoa (total_count service.endpoints) <> " endpoints ready"
    else itoa (ready_count service.endpoints)
      <> " of "
      <> itoa (total_count service.endpoints)
      <> " endpoints ready"

-- backendNote
unfoldable pub backend_note : Option IngressService → IngressPath → String
unfolding has_port ready_count total_count
backend_note none path = "no backend service declared"
backend_note (some service) path = found_note service path service.exists

-- addIngressRoutesSection
unfoldable pub routes_section : Ingress → List Section
unfolding route target backend_note entry
routes_section snap =
    if is_empty snap.paths
    then []
    else record {
      title = "Routes";
      items =
          map (λ p. item (route p) (target p) (backend_note (entry snap.services p.service_name) p))
            snap.paths;
      tree = [];
    }
      ∷ []

-- The finding that the Pods explain.
abbrev pub ingress_symptom : Diagnosis → Bool
ingress_symptom d = d.id == id_service_no_endpoints

abbrev pub ingress_sections : Ingress → List Section
ingress_sections snap = ingress_section snap ++ routes_section snap

-- IngressReport
unfoldable pub ingress_report : QuantityOps → List Bool → List (List Bool) → Ingress → Report
unfolding ingress_ref evaluate ingress_pod_findings workload_report ingress_section routes_section
ingress_report ops expired expired_pods snap =
    workload_report (ingress_ref snap) snap.collection ingress_symptom
      (evaluate expired ingress_rules snap) (ingress_pod_findings ops expired_pods snap)
      (ingress_sections snap)
