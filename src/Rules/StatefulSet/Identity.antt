-- ===== src/Rules/StatefulSet/Identity.antt =====
-- serviceRule of internal/diagnosis/rules/statefulset/statefulset.go.
use kubewhy.Base.{◌==◌, Bool, true, false, ◌||◌, String_eq, List, [], ◌∷◌, if◌then◌else◌}
use kubewhy.Base.Text.{◌<>◌, quote}
use kubewhy.Diagnosis.{warning, Diagnosis, ResourceRef}
use kubewhy.Snapshot.{Existence, unknown, is_missing}
use kubewhy.Snapshot.StatefulSet.{StatefulSet, set_ref}
use kubewhy.Rules.Pod.Ids.{certainly, fact, suggest}
use kubewhy.Rules.StatefulSet.Ids.{id_governing_service_not_found, id_service_not_headless}

unfoldable pub service_not_found_diagnosis : StatefulSet → Diagnosis
unfolding set_ref
service_not_found_diagnosis snap =
    record (certainly id_governing_service_not_found (set_ref snap) "" warning
      ("The governing Service " <> quote snap.service.name <> " does not exist")) {
        explanation =
            "A StatefulSet's Pods get a stable DNS name of the form "
            <> "pod-0.service.namespace.svc from the Service named in spec.serviceName. That Service is "
            <> "not present, so those names do not resolve. The Pods still run, which is why this is "
            <> "easy to miss: anything that addresses a replica by name fails while the workload looks "
            <> "healthy.";
        evidence =
            fact "statefulSet" "spec.serviceName" snap.service.name
            ∷ fact "api" ("service/" <> snap.service.name) "NotFound"
            ∷ [];
        suggestions =
            suggest
              "Create a headless Service (clusterIP: None) with that name, selecting the same Pods."
              ("kubectl get services -n " <> snap.set.namespace ∷ [])
            ∷ [];
      }

abbrev governing_ref : StatefulSet → ResourceRef
governing_ref snap = record {
  kind = "Service";
  namespace = snap.set.namespace;
  name = snap.service.name;
}

unfoldable pub not_headless_diagnosis : StatefulSet → Diagnosis
not_headless_diagnosis snap =
    record (certainly id_service_not_headless (governing_ref snap) "" warning
      ("The governing Service " <> quote snap.service.name <> " is not headless")) {
        explanation =
            "Per-Pod DNS names come from a headless Service — one with clusterIP: None. This "
            <> "Service has a cluster IP, so it load-balances across the replicas instead of naming them "
            <> "individually, and pod-0.service.namespace.svc does not resolve.";
        evidence =
            fact "statefulSet" "spec.serviceName" snap.service.name
            ∷ fact "service" "spec.clusterIP" "assigned, not None"
            ∷ [];
        possible_causes =
            "the Service was written as a normal one, or reused from a Deployment"
            ∷ "a separate headless Service was intended and spec.serviceName points at the wrong one"
            ∷ [];
      }

abbrev is_unknown : Existence → Bool
is_unknown unknown = true
is_unknown _ = false

-- evaluateService
unfoldable pub evaluate_service : StatefulSet → List Diagnosis
unfolding service_not_found_diagnosis not_headless_diagnosis
evaluate_service snap =
    if snap.service.name == "" || is_unknown snap.service.exists
    then []
    else if is_missing snap.service.exists
    then service_not_found_diagnosis snap ∷ []
    else if snap.service.headless
    then []
    else not_headless_diagnosis snap ∷ []
