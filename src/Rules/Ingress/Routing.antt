-- ===== src/Rules/Ingress/Routing.antt =====
-- backendRule of internal/diagnosis/rules/ingress/ingress.go.
use kubewhy.Base.{
  ltb, ◌==◌, Bool, false, not, ◌&&◌, ◌||◌, String, String_eq, List, [], ◌∷◌, ◌++◌, Option, none,
  some, if◌then◌else◌, is_empty, length, gather, map, any, select,
}
use kubewhy.Base.Text.{◌<>◌, itoa, join, quote, to_lower}
use kubewhy.Diagnosis.{critical, warning, Diagnosis, Evidence, ResourceRef}
use kubewhy.Snapshot.{Existence, unknown, found, missing}
use kubewhy.Snapshot.Api.{ServiceObject, entry}
use kubewhy.Snapshot.Service.{ready_count, not_ready_count}
use kubewhy.Snapshot.Ingress.{
  Ingress, IngressService, IngressPath, IngressPort, ingress_ref, port_text, route, target,
  has_port, port_names,
}
use kubewhy.Rules.Texts.{sort_texts, join_or_none}
use kubewhy.Rules.Pod.Ids.{certainly, fact, suggest}
use kubewhy.Rules.Ingress.Ids.{
  id_backend_not_found, id_service_port_not_found, id_service_no_endpoints, id_no_rules,
}

-- serviceNames
unfoldable pub service_names : Ingress → List String
unfolding sort_texts
service_names snap = sort_texts (map (λ e. e.0) snap.services)

-- routeEvidence
unfoldable pub route_evidence : List IngressPath → List Evidence
unfolding route target
route_evidence paths = map (λ p. fact "ingress" "route" (route p <> " -> " <> target p)) paths

-- routes[name]
unfoldable pub routes_to : Ingress → String → List IngressPath
unfolding select
routes_to snap name = select (λ p. not (p.service_name == "") && p.service_name == name) snap.paths

unfoldable pub no_rules_diagnosis : Ingress → Diagnosis
unfolding ingress_ref
no_rules_diagnosis snap =
    record (certainly id_no_rules (ingress_ref snap) "" warning
      "The Ingress declares no backend to route to") {
        explanation =
            "An Ingress with no rules and no default backend gives a controller nothing "
            <> "to serve, so no request can ever reach a Service through it.";
        evidence = fact "ingress" "spec.rules" "none" ∷ [];
      }

abbrev backend_ref : Ingress → IngressService → ResourceRef
backend_ref snap service = record {
  kind = "Service";
  namespace = snap.ingress.namespace;
  name = service.name;
}

-- missingServiceDiagnosis
unfoldable pub missing_service_diagnosis : Ingress → IngressService → List IngressPath → Diagnosis
unfolding route_evidence
missing_service_diagnosis snap service paths =
    record (certainly id_backend_not_found (backend_ref snap service) "" critical
      ("Service " <> quote service.name <> " does not exist, so its routes lead nowhere")) {
        explanation =
            "The Ingress routes to Service "
            <> quote service.name
            <> ", and the API server reports that no such Service exists "
            <> "in namespace "
            <> quote snap.ingress.namespace
            <> ". A controller cannot build a backend for it.";
        evidence = route_evidence paths ++ fact "api" ("service/" <> service.name) "NotFound" ∷ [];
        possible_causes =
            "the Service was renamed or deleted"
            ∷ "the Ingress and the Service are in different namespaces, which an Ingress cannot cross"
            ∷ [];
        suggestions =
            suggest "Create the Service, or correct the backend name in the Ingress."
              ("kubectl get services -n " <> snap.ingress.namespace ∷ [])
            ∷ [];
      }

-- The loop of portDiagnosis, with the texts in `seen`.
unfoldable pub unexposed_ports :
    IngressService → (seen : List String) → List IngressPath → List IngressPort
unfolding has_port port_text any
unexposed_ports service seen [] = []
unexposed_ports service seen (p ∷ paths) =
    let skipped = unexposed_ports service seen paths in
    let added = unexposed_ports service (port_text p.port ∷ seen) paths in
    if has_port service p.port || any (λ t. t == port_text p.port) seen
    then skipped
    else p.port ∷ added

unfoldable pub port_not_found_diagnosis :
    Ingress → IngressService → List IngressPath → List IngressPort → Diagnosis
unfolding port_text route_evidence join_or_none port_names
port_not_found_diagnosis snap service paths ports =
    let wanted = join ", " (map port_text ports) in
    record (certainly id_service_port_not_found (backend_ref snap service) "" critical
      ("Service " <> quote service.name <> " does not expose port " <> wanted)) {
        explanation =
            "The Ingress routes to a port the Service does not declare. A controller has no "
            <> "port to forward to, so these routes cannot work however healthy the Pods behind them are.";
        evidence =
            route_evidence paths
            ++ fact "ingress" "backend.service.port" wanted
              ∷ fact "service" "spec.ports" (join_or_none (port_names service))
              ∷ [];
        suggestions =
            suggest
              "Point the Ingress at a port the Service declares, or add the port to the Service."
              ("kubectl get service " <> service.name <> " -n " <> snap.ingress.namespace
                  <> " -o wide"
                ∷ [])
            ∷ [];
      }

abbrev pub ports_found :
    Ingress → IngressService → List IngressPath → List IngressPort → Option Diagnosis
ports_found snap service paths [] = none
ports_found snap service paths (p ∷ ps) =
    some (port_not_found_diagnosis snap service paths (p ∷ ps))

-- portDiagnosis
unfoldable pub port_diagnosis : Ingress → IngressService → List IngressPath → Option Diagnosis
unfolding unexposed_ports port_not_found_diagnosis
port_diagnosis snap service paths =
    ports_found snap service paths (unexposed_ports service [] paths)

abbrev pub is_external : Option ServiceObject → Bool
is_external none = false
is_external (some s) = s.kind == "ExternalName"

abbrev selects : Option ServiceObject → Bool
selects none = false
selects (some s) = not (is_empty s.selector)

unfoldable pub no_ready_diagnosis : Ingress → IngressService → List IngressPath → Diagnosis
unfolding route_evidence not_ready_count
no_ready_diagnosis snap service paths =
    let source = to_lower service.endpoints.source in
    let not_ready = not_ready_count service.endpoints in
    let matching = length service.backends in
    record (certainly id_service_no_endpoints (backend_ref snap service) "" critical (
      "Service " <> quote service.name <> " has no ready endpoints, so its routes return errors")) {
        explanation =
            "The Ingress and the Service are configured correctly, but the Service currently "
            <> "routes to nothing. Requests that reach these routes have no backend to be served by.";
        evidence =
            route_evidence paths
            ++ fact source "readyEndpoints" "0" ∷ []
            ++ (if ltb 0 not_ready
                then fact source "notReadyEndpoints" (itoa not_ready) ∷ []
                else [])
            ++ (if ltb 0 matching then fact "api" "matchingPods" (itoa matching) ∷ [] else []);
        possible_causes =
            if not (ltb 0 matching) && selects service.service
            then "the Service selector matches no Pods at all" ∷ []
            else [];
        suggestions =
            suggest "Ask KubeWhy about the Service itself for the full endpoint picture."
              ("kubectl why service " <> service.name <> " -n " <> snap.ingress.namespace ∷ [])
            ∷ [];
      }

-- endpointDiagnosis
unfoldable pub endpoint_diagnosis : Ingress → IngressService → List IngressPath → Option Diagnosis
unfolding ready_count no_ready_diagnosis
endpoint_diagnosis snap service paths =
    if not service.endpoints.known || ltb 0 (ready_count service.endpoints)
    then none
    else if is_external service.service
    then none
    else some (no_ready_diagnosis snap service paths)

-- The first of two answers, as the default case takes it.
abbrev pub first_answer : Option Diagnosis → Option Diagnosis → List Diagnosis
first_answer (some d) later = d ∷ []
first_answer none (some d) = d ∷ []
first_answer none none = []

abbrev pub service_found : Ingress → IngressService → List IngressPath → Existence → List Diagnosis
service_found snap service paths missing = missing_service_diagnosis snap service paths ∷ []
service_found snap service paths unknown = []
service_found snap service paths found =
    first_answer (port_diagnosis snap service paths) (endpoint_diagnosis snap service paths)

abbrev pub service_of : Ingress → List IngressPath → Option IngressService → List Diagnosis
service_of snap paths none = []
service_of snap paths (some service) = service_found snap service paths service.exists

-- One round of the loop over the names.
unfoldable pub check_backend : Ingress → String → List Diagnosis
unfolding entry routes_to missing_service_diagnosis port_diagnosis endpoint_diagnosis
check_backend snap name = service_of snap (routes_to snap name) (entry snap.services name)

-- evaluateBackends
unfoldable pub evaluate_backends : Ingress → List Diagnosis
unfolding gather service_names check_backend no_rules_diagnosis
evaluate_backends snap =
    if is_empty snap.paths
    then no_rules_diagnosis snap ∷ []
    else gather (check_backend snap) (service_names snap)
