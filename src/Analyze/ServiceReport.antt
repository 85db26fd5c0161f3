-- ===== src/Analyze/ServiceReport.antt =====
-- internal/analyze/service.go: the report on a Service.
use kubewhy.Base.{
  ◌==◌, Bool, ◌||◌, String, String_eq, List, [], ◌∷◌, ◌++◌, if◌then◌else◌, is_empty, length, map,
}
use kubewhy.Base.Int.{pos, ℤ_eq, int_text}
use kubewhy.Base.Text.{◌<>◌, itoa}
use kubewhy.Diagnosis.{Diagnosis}
use kubewhy.Diagnosis.Engine.{evaluate}
use kubewhy.Diagnosis.Report.{Item, Section, Report}
use kubewhy.Snapshot.Api.{ServicePort, IntOrString, from_int, from_string}
use kubewhy.Snapshot.Service.{
  Service, service_ref, has_selector, is_external_name, is_headless, backends_of, ready_count,
  total_count,
}
use kubewhy.Rules.Texts.{format_selector}
use kubewhy.Rules.Pod.Scheduling.{QuantityOps}
use kubewhy.Rules.Service.{service_rules, backend_findings}
use kubewhy.Rules.Service.Ids.{id_no_ready_endpoints}
use kubewhy.Analyze.{item}
use kubewhy.Analyze.Backends.{pods_section}
use kubewhy.Analyze.Workload.{workload_report}

abbrev address_items : Service → List Item
address_items snap =
    if is_external_name snap
    then item "External name" snap.service.external_name "a DNS alias, with no endpoints by design"
      ∷ []
    else if is_headless snap
    then item "Cluster IP" "None" "headless" ∷ []
    else if snap.service.cluster_ip == ""
    then []
    else item "Cluster IP" snap.service.cluster_ip "" ∷ []

abbrev selector_items : Service → List Item
selector_items snap =
    if has_selector snap
    then item "Selector" (format_selector snap.service.selector) "" ∷ []
    else if is_external_name snap
    then []
    else item "Selector" "none" "endpoints are managed externally" ∷ []

-- addServiceSection
unfoldable pub service_section : Service → List Section
unfolding is_external_name is_headless has_selector format_selector
service_section snap =
    record {
      title = "Service";
      items = item "Type" snap.service.kind "" ∷ (address_items snap ++ selector_items snap);
      tree = [];
    }
    ∷ []

abbrev endpoints_item : Service → Item
endpoints_item snap =
    if snap.endpoints.known
    then item "Ready endpoints"
        (itoa (ready_count snap.endpoints) <> " of " <> itoa (total_count snap.endpoints))
        ("from " <> snap.endpoints.source)
    else item "Ready endpoints" "unknown" "could not be read"

-- addServiceBackendSection
unfoldable pub backend_sections : Service → List Section
unfolding is_external_name has_selector backends_of ready_count total_count pods_section
backend_sections snap =
    if is_external_name snap
    then []
    else record {
      title = "Backends";
      items =
          (if has_selector snap
            then item "Matching Pods" (itoa (length (backends_of snap))) "" ∷ []
            else [])
          ++ endpoints_item snap ∷ [];
      tree = [];
    }
      ∷ pods_section "Backend Pods" (backends_of snap)

-- orTCP
unfoldable pub or_tcp : String → String
or_tcp protocol = if protocol == "" then "TCP" else protocol

-- intstr's String()
abbrev target_text : IntOrString → String
target_text (from_int n) = int_text n
target_text (from_string s) = s

port_item : ServicePort → Item
unfolding or_tcp
port_item port =
    let key = int_text port.port <> "/" <> or_tcp port.protocol in
    let to = target_text port.target_port in
    let value = "targets " <> (if to == "" || to == "0" then int_text port.port else to) in
    item (if port.name == "" then key else port.name <> " " <> key)
      (if port.node_port == pos 0
        then value
        else value <> ", node port " <> int_text port.node_port)
      ""

-- addServicePortsSection
unfoldable pub ports_section : Service → List Section
unfolding port_item
ports_section snap =
    if is_empty snap.service.ports
    then []
    else record { title = "Ports"; items = map port_item snap.service.ports; tree = [] } ∷ []

-- The finding that the backends explain.
abbrev pub service_symptom : Diagnosis → Bool
service_symptom d = d.id == id_no_ready_endpoints

abbrev pub service_sections : Service → List Section
service_sections snap = service_section snap ++ backend_sections snap ++ ports_section snap

-- ServiceReport
unfoldable pub service_report : QuantityOps → List Bool → List (List Bool) → Service → Report
unfolding service_ref evaluate backend_findings workload_report service_section backend_sections
    ports_section
service_report ops expired expired_pods snap =
    workload_report (service_ref snap) snap.collection service_symptom
      (evaluate expired service_rules snap) (backend_findings ops expired_pods snap)
      (service_sections snap)
