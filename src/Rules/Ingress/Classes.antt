-- ===== src/Rules/Ingress/Classes.antt =====
-- classRule and addressRule of internal/diagnosis/rules/ingress/ingress.go.
use kubewhy.Base.{ℕ, ◌==◌, not, ◌&&◌, ◌||◌, String_eq, List, [], ◌∷◌, if◌then◌else◌}
use kubewhy.Base.Int.{pos, less_int}
use kubewhy.Base.Text.{◌<>◌, quote}
use kubewhy.Diagnosis.{critical, warning, likely, possible, Diagnosis}
use kubewhy.Format.{duration}
use kubewhy.Snapshot.{is_missing}
use kubewhy.Snapshot.Ingress.{Ingress, ingress_ref, ingress_age, has_address}
use kubewhy.Rules.Pod.Ids.{certainly, fact, suggest}
use kubewhy.Rules.Ingress.Ids.{id_class_not_found, id_no_class, id_no_address}

unfoldable pub class_not_found_diagnosis : Ingress → Diagnosis
unfolding ingress_ref
class_not_found_diagnosis snap =
    record (certainly id_class_not_found (ingress_ref snap) "" critical
      ("IngressClass " <> quote snap.class.name <> " does not exist")) {
        explanation =
            "An Ingress is served by the controller its class points at. The class it "
            <> "names is not present in the cluster, so no controller will claim this Ingress.";
        evidence =
            fact "ingress" "spec.ingressClassName" snap.class.name
            ∷ fact "api" ("ingressclass/" <> snap.class.name) "NotFound"
            ∷ [];
        suggestions =
            suggest
              "Use a class the cluster offers, or install the controller that provides this one."
              ("kubectl get ingressclasses" ∷ [])
            ∷ [];
      }

unfoldable pub no_class_diagnosis : Ingress → Diagnosis
unfolding ingress_ref
no_class_diagnosis snap =
    record (certainly id_no_class (ingress_ref snap) "" warning
      "The Ingress names no class, and the cluster has no default one") {
        confidence = likely;
        explanation =
            "Without an ingressClassName, an Ingress is only picked up by the cluster's "
            <> "default IngressClass. No class is marked as default, so unless a controller was "
            <> "configured to watch every Ingress regardless, nothing will serve this one.";
        evidence =
            fact "ingress" "spec.ingressClassName" "unset"
            ∷ fact "api" "defaultIngressClass" "none"
            ∷ [];
        possible_causes =
            "the Ingress was written for a controller that is not installed here"
            ∷ "the cluster's controller is configured to watch a class this Ingress does not name"
            ∷ [];
        suggestions =
            suggest "Set spec.ingressClassName to one of the cluster's classes."
              ("kubectl get ingressclasses" ∷ [])
            ∷ [];
      }

-- evaluateClass
unfoldable pub evaluate_class : Ingress → List Diagnosis
unfolding has_address class_not_found_diagnosis no_class_diagnosis
evaluate_class snap =
    if has_address snap
    then []
    else if is_missing snap.class.exists && not (snap.class.name == "")
    then class_not_found_diagnosis snap ∷ []
    else if snap.class.name == "" && is_missing snap.class.default_exists
    then no_class_diagnosis snap ∷ []
    else []

-- addressGracePeriod: two minutes.
abbrev pub address_grace_period : ℕ
address_grace_period = 120_000_000_000

unfoldable pub no_address_diagnosis : Ingress → Diagnosis
unfolding ingress_ref ingress_age duration
no_address_diagnosis snap =
    record (certainly id_no_address (ingress_ref snap) "" warning
      ("No controller has published an address after " <> duration (ingress_age snap))) {
        confidence = possible;
        explanation =
            "A controller that adopts an Ingress normally records the address it is reachable "
            <> "at. This one has none. That usually means no controller has adopted it, but the "
            <> "Kubernetes API does not say so directly, and some controllers never publish an address.";
        evidence =
            fact "ingress" "status.loadBalancer.ingress" "empty"
            ∷ fact "ingress" "age" (duration (ingress_age snap))
            ∷ [];
        possible_causes =
            "no ingress controller is watching this Ingress"
            ∷ "the controller is running but has not accepted this Ingress"
            ∷ "the controller does not publish addresses back to the Ingress status" ∷ [];
        suggestions =
            suggest
              "Check the ingress controller's own logs; from here KubeWhy can only see that nothing was published."
              []
            ∷ [];
      }

-- evaluateAddress
unfoldable pub evaluate_address : Ingress → List Diagnosis
unfolding has_address ingress_age no_address_diagnosis
evaluate_address snap =
    if has_address snap || less_int (ingress_age snap) (pos address_grace_period)
    then []
    else if is_missing snap.class.exists || is_missing snap.class.default_exists
    then []
    else no_address_diagnosis snap ∷ []
