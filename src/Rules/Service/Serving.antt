-- ===== src/Rules/Service/Serving.antt =====
-- endpointsRule of internal/diagnosis/rules/service/rules.go.
use kubewhy.Base.{
  ltb, ◌==◌, not, ◌&&◌, ◌||◌, ℕ_eq, List, [], ◌∷◌, ◌++◌, if◌then◌else◌, is_empty, length,
}
use kubewhy.Base.Int.{pos}
use kubewhy.Base.Text.{◌<>◌, itoa, to_lower}
use kubewhy.Diagnosis.{critical, warning, Diagnosis}
use kubewhy.Format.{count_text}
use kubewhy.Snapshot.Service.{
  Service, service_ref, has_selector, is_external_name, ready_count, not_ready_count, total_count,
  backends_of,
}
use kubewhy.Rules.Pod.Ids.{certainly, fact, suggest}
use kubewhy.Rules.Service.Ids.{id_no_ready_endpoints, id_some_endpoints_not_ready}

unfoldable pub none_ready_diagnosis : Service → Diagnosis
unfolding service_ref not_ready_count backends_of
none_ready_diagnosis snap =
    let source = to_lower snap.endpoints.source in
    let not_ready = not_ready_count snap.endpoints in
    let matching = length (backends_of snap) in
    record (certainly id_no_ready_endpoints (service_ref snap) "" critical
      "The Service has no ready endpoints, so it accepts no traffic") {
        explanation =
            "Kubernetes only routes traffic to endpoints that report ready. A Pod is "
            <> "removed from a Service's endpoints while it fails its readiness probe, while it is "
            <> "starting, and while it is terminating.";
        evidence =
            fact source "readyEndpoints" "0"
            ∷ ((if ltb 0 matching then fact "api" "matchingPods" (itoa matching) ∷ [] else [])
                ++ (if ltb 0 not_ready
                    then fact source "notReadyEndpoints" (itoa not_ready) ∷ []
                    else []));
        possible_causes =
            if not (ltb 0 not_ready) && ltb 0 matching
            then "the Pods have never been ready, so no endpoint was ever published"
              ∷ "the Service's target port does not resolve on the Pods" ∷ []
            else [];
        suggestions =
            suggest
              "Look at the backend Pods: a Service with matching Pods and no ready endpoints is almost always a readiness problem in the Pods themselves."
              []
            ∷ [];
      }

unfoldable pub some_unready_diagnosis : Service → Diagnosis
unfolding service_ref ready_count not_ready_count total_count count_text
some_unready_diagnosis snap =
    let source = to_lower snap.endpoints.source in
    let not_ready = not_ready_count snap.endpoints in
    record (certainly id_some_endpoints_not_ready (service_ref snap) "" warning (
      count_text (pos not_ready) "endpoint" "endpoints"
      <> " of "
      <> count_text (pos (total_count snap.endpoints)) "endpoint" "endpoints"
      <> " are not ready")) {
        explanation =
            "The Service still routes traffic, to fewer backends than it has. This is "
            <> "normal during a rollout and worth looking at when it persists.";
        evidence =
            fact source "readyEndpoints" (itoa (ready_count snap.endpoints))
            ∷ fact source "notReadyEndpoints" (itoa not_ready)
            ∷ [];
      }

-- evaluateEndpoints
unfoldable pub evaluate_endpoints : Service → List Diagnosis
unfolding is_external_name has_selector backends_of total_count ready_count not_ready_count
    none_ready_diagnosis some_unready_diagnosis
evaluate_endpoints snap =
    if is_external_name snap || not snap.endpoints.known
    then []
    else if has_selector snap && is_empty (backends_of snap)
    then []
    else if not (has_selector snap) && total_count snap.endpoints == 0
    then []
    else if ready_count snap.endpoints == 0
    then none_ready_diagnosis snap ∷ []
    else if ltb 0 (not_ready_count snap.endpoints)
    then some_unready_diagnosis snap ∷ []
    else []
