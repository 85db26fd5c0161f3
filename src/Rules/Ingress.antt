-- ===== src/Rules/Ingress.antt =====
-- internal/diagnosis/rules/ingress: the rules on an Ingress, in their order, and the findings on the
-- Pods behind its backends.
pub mod Ids
pub mod Routing
pub mod Classes
pub mod Laws
use kubewhy.Base.{Bool, List, [], ◌∷◌, Option, none, some, String, gather, map}
use kubewhy.Diagnosis.{Diagnosis}
use kubewhy.Snapshot.Api.{entry}
use kubewhy.Snapshot.Pod.{Pod}
use kubewhy.Snapshot.Ingress.{Ingress, IngressService}
use kubewhy.Rules.Pod.{aggregated, in_contexts}
use kubewhy.Rules.Pod.Scheduling.{QuantityOps}
use Routing.{service_names, evaluate_backends}
use Classes.{evaluate_class, evaluate_address}

-- Rules
abbrev pub ingress_rules : List (Ingress → List Diagnosis)
ingress_rules = evaluate_backends ∷ evaluate_class ∷ evaluate_address ∷ []

abbrev service_pods : Option IngressService → List Pod
service_pods none = []
service_pods (some s) = s.backends

-- The Pods that PodFindings gathers.
unfoldable pub backend_pods : Ingress → List Pod
unfolding gather service_names entry
backend_pods snap = gather (λ n. service_pods (entry snap.services n)) (service_names snap)

-- PodFindings, with what the context answers before each Pod rule on each Pod.
unfoldable pub ingress_pod_findings : QuantityOps → List (List Bool) → Ingress → List Diagnosis
unfolding backend_pods aggregated in_contexts
ingress_pod_findings ops expired snap = aggregated ops (in_contexts expired (backend_pods snap))
