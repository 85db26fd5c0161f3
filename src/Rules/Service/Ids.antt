-- ===== src/Rules/Service/Ids.antt =====
-- The identifiers of internal/diagnosis/rules/service/service.go.
use kubewhy.Base.{String}

abbrev pub id_no_matching_pods : String
id_no_matching_pods = "SERVICE_NO_MATCHING_PODS"

abbrev pub id_no_ready_endpoints : String
id_no_ready_endpoints = "SERVICE_NO_READY_ENDPOINTS"

abbrev pub id_some_endpoints_not_ready : String
id_some_endpoints_not_ready = "SERVICE_SOME_ENDPOINTS_NOT_READY"

abbrev pub id_no_endpoints_without_selector : String
id_no_endpoints_without_selector = "SERVICE_NO_ENDPOINTS_WITHOUT_SELECTOR"

abbrev pub id_target_port_not_found : String
id_target_port_not_found = "SERVICE_TARGET_PORT_NOT_FOUND"
