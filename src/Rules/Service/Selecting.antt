-- ===== src/Rules/Service/Selecting.antt =====
-- selectorRule of internal/diagnosis/rules/service/rules.go.
use kubewhy.Base.{
  ltb, Bool, true, not, ◌||◌, List, [], ◌∷◌, Option, none, some, if◌then◌else◌, is_empty,
}
use kubewhy.Base.Text.{◌<>◌, quote, to_lower}
use kubewhy.Diagnosis.{critical, warning, Diagnosis}
use kubewhy.Snapshot.Pod.{Pod}
use kubewhy.Snapshot.Service.{Service, service_ref, has_selector, is_external_name, total_count}
use kubewhy.Rules.Texts.{format_selector}
use kubewhy.Rules.Pod.Ids.{certainly, fact, suggest}
use kubewhy.Rules.Service.Ids.{id_no_matching_pods, id_no_endpoints_without_selector}

unfoldable pub no_endpoints_diagnosis : Service → Diagnosis
unfolding service_ref
no_endpoints_diagnosis snap =
    record (certainly id_no_endpoints_without_selector (service_ref snap) "" warning
      "The Service has no selector and no endpoints, so traffic to it goes nowhere") {
        explanation =
            "A Service without a selector does not choose its own backends: its "
            <> snap.endpoints.source <> " objects are expected to be created by something else. "
            <> "None exist, so this Service currently routes to nothing.";
        evidence =
            fact "service" "spec.selector" "none"
            ∷ fact (to_lower snap.endpoints.source) "endpoints" "0"
            ∷ [];
        possible_causes =
            "the endpoints are managed manually and have not been created"
            ∷ "the controller that manages them has not run, or does not know about this Service"
            ∷ [];
        suggestions =
            suggest
              "Check whatever is meant to publish endpoints for this Service; KubeWhy cannot tell what that is."
              ("kubectl get endpointslices -n " <> snap.service.namespace
                  <> " -l kubernetes.io/service-name=" <> snap.service.name
                ∷ [])
            ∷ [];
      }

unfoldable pub no_pods_diagnosis : Service → Diagnosis
unfolding service_ref format_selector
no_pods_diagnosis snap =
    let selector = format_selector snap.service.selector in
    record (certainly id_no_matching_pods (service_ref snap) "" critical
      "The Service selector matches no Pods") {
        explanation =
            "A Service routes to the Pods its selector matches. No Pod in namespace "
            <> quote snap.service.namespace
            <> " carries the labels "
            <> selector
            <> ", so the Service has no backends at all.";
        evidence = fact "service" "spec.selector" selector ∷ fact "api" "matchingPods" "0" ∷ [];
        possible_causes =
            "the workload's Pod labels and the Service selector do not agree"
            ∷ "the workload has no Pods running at the moment"
            ∷ "the Pods run in a different namespace, which a Service cannot reach" ∷ [];
        suggestions =
            suggest "Compare the selector with the labels the Pods actually carry."
              ("kubectl get pods -n " <> snap.service.namespace <> " --show-labels" ∷ [])
            ∷ [];
      }

-- snap.Backends == nil || len(snap.Backends) > 0
abbrev pub may_match : Option (List Pod) → Bool
may_match none = true
may_match (some pods) = not (is_empty pods)

-- evaluateSelector
unfoldable pub evaluate_selector : Service → List Diagnosis
unfolding is_external_name has_selector total_count no_endpoints_diagnosis no_pods_diagnosis
evaluate_selector snap =
    if is_external_name snap
    then []
    else if not (has_selector snap)
    then (if not snap.endpoints.known || ltb 0 (total_count snap.endpoints)
        then []
        else no_endpoints_diagnosis snap ∷ [])
    else if may_match snap.backends
    then []
    else no_pods_diagnosis snap ∷ []
