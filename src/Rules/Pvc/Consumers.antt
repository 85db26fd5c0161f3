-- ===== src/Rules/Pvc/Consumers.antt =====
-- consumerRule of internal/diagnosis/rules/pvc/pvc.go.
use kubewhy.Base.{not, ◌&&◌, ◌||◌, String_eq, List, [], ◌∷◌, if◌then◌else◌, is_empty, map}
use kubewhy.Base.Text.{◌<>◌, quote, join}
use kubewhy.Diagnosis.{warning, info, Diagnosis, Evidence, Suggestion}
use kubewhy.Snapshot.Pod.{Pod}
use kubewhy.Snapshot.Pvc.{Pvc, class_waits_for_consumer, pvc_ref, is_bound}
use kubewhy.Rules.Pod.Ids.{certainly, fact, suggest}
use kubewhy.Rules.Pvc.Ids.{id_waiting_for_consumer, id_no_consumer}

unfoldable pub no_consumer_diagnosis : Pvc → Diagnosis
unfolding pvc_ref
no_consumer_diagnosis snap =
    record (certainly id_no_consumer (pvc_ref snap) "" warning
      "The claim waits for a Pod to use it, and no Pod does") {
        explanation =
            "Storage class "
            <> quote snap.class.name
            <> " uses volumeBindingMode WaitForFirstConsumer, so a volume is only "
            <> "provisioned once a Pod that mounts this claim is scheduled. No Pod in namespace "
            <> quote snap.claim.namespace
            <> " mounts it, so nothing will ever trigger the binding.";
        evidence =
            fact "storageClass" "volumeBindingMode" snap.class.binding_mode
            ∷ fact "api" "consumingPods" "0"
            ∷ [];
        possible_causes =
            "the workload that should mount the claim has not been created yet"
            ∷ "the workload mounts a different claim name" ∷ [];
      }

abbrev consumer_evidence : List Pod → List Evidence
consumer_evidence [] = []
consumer_evidence (p ∷ ps) =
    fact "api" "consumingPods" (join ", " (map (λ c. c.pod.name) (p ∷ ps))) ∷ []

abbrev consumer_suggestions : Pvc → List Pod → List Suggestion
consumer_suggestions snap [] = []
consumer_suggestions snap (p ∷ ps) =
    suggest "Ask KubeWhy why that Pod is not scheduled; the claim will bind as soon as it is."
      ("kubectl why pod " <> p.pod.name <> " -n " <> snap.claim.namespace ∷ [])
    ∷ []

unfoldable pub waiting_diagnosis : Pvc → Diagnosis
unfolding pvc_ref
waiting_diagnosis snap =
    record (certainly id_waiting_for_consumer (pvc_ref snap) "" info
      "The claim is waiting for its first consumer to be scheduled, which is expected") {
        explanation =
            "Storage class "
            <> quote snap.class.name
            <> " uses volumeBindingMode WaitForFirstConsumer. The volume is provisioned "
            <> "where the Pod lands, so the claim stays Pending until the scheduler places a Pod that "
            <> "uses it. A Pending claim here is not a fault, and the reason the Pod is not scheduled "
            <> "lies elsewhere.";
        evidence =
            fact "storageClass" "volumeBindingMode" snap.class.binding_mode
            ∷ consumer_evidence snap.consumers;
        suggestions = consumer_suggestions snap snap.consumers;
      }

-- evaluateConsumers
unfoldable pub evaluate_consumers : Pvc → List Diagnosis
unfolding is_bound class_waits_for_consumer no_consumer_diagnosis waiting_diagnosis
evaluate_consumers snap =
    if is_bound snap || not (class_waits_for_consumer snap.class)
    then []
    else if snap.consumers_known && is_empty snap.consumers
    then no_consumer_diagnosis snap ∷ []
    else waiting_diagnosis snap ∷ []
