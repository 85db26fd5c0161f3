-- ===== src/Rules/Ingress/Ids.antt =====
-- The identifiers of internal/diagnosis/rules/ingress/ingress.go.
use kubewhy.Base.{String}

abbrev pub id_backend_not_found : String
id_backend_not_found = "INGRESS_SERVICE_NOT_FOUND"

abbrev pub id_service_port_not_found : String
id_service_port_not_found = "INGRESS_SERVICE_PORT_NOT_FOUND"

abbrev pub id_service_no_endpoints : String
id_service_no_endpoints = "INGRESS_SERVICE_NO_ENDPOINTS"

abbrev pub id_class_not_found : String
id_class_not_found = "INGRESS_CLASS_NOT_FOUND"

abbrev pub id_no_class : String
id_no_class = "INGRESS_NO_CLASS"

abbrev pub id_no_address : String
id_no_address = "INGRESS_NO_ADDRESS"

abbrev pub id_no_rules : String
id_no_rules = "INGRESS_NO_RULES"
