-- ===== src/Rules/Pod/Claims.antt =====
-- evaluateClaims of internal/diagnosis/rules/pod/claim.go.
use kubewhy.Base.{◌==◌, Bool, String, String_eq, List, [], ◌∷◌, ◌++◌, if◌then◌else◌, gather}
use kubewhy.Base.Sort.{sort_stable}
use kubewhy.Base.Text.{◌<>◌, quote, text_less}
use kubewhy.Diagnosis.{critical, info, Diagnosis, ResourceRef, Evidence}
use kubewhy.Snapshot.{Existence, missing, found, unknown}
use kubewhy.Snapshot.Pod.{Pod, PvcRef, waits_for_consumer, is_terminal}
use kubewhy.Rules.Pod.Ids.{id_pvc_not_found, id_pvc_not_bound, certainly, suggest, fact}

abbrev claim_ref : Pod → String → ResourceRef
claim_ref snap name = record {
  kind = "PersistentVolumeClaim";
  namespace = snap.pod.namespace;
  name = name;
}

-- phaseOrUnknown
phase_or_unknown : String → String
phase_or_unknown phase = if phase == "" then "Unknown" else phase

unfoldable pub missing_claim_diagnosis : Pod → String → Diagnosis
missing_claim_diagnosis snap name =
    record (certainly id_pvc_not_found (claim_ref snap name) "" critical
      ("PersistentVolumeClaim " <> quote name <> " does not exist")) {
        explanation =
            "The Pod mounts a claim that is not present in the namespace, so it cannot be "
            <> "scheduled or started until the claim exists.";
        evidence = fact "api" ("persistentvolumeclaim/" <> name) "NotFound" ∷ [];
        suggestions =
            suggest "Create the claim, or correct the claim name in the Pod's volumes."
              ("kubectl get pvc -n " <> snap.pod.namespace ∷ [])
            ∷ [];
      }

abbrev class_evidence : PvcRef → List Evidence
class_evidence claim =
    if claim.storage_class == ""
    then []
    else fact "persistentVolumeClaim" "spec.storageClassName" claim.storage_class ∷ []

-- unboundClaimDiagnosis
unfoldable pub unbound_claim_diagnosis : Pod → PvcRef → Diagnosis
unfolding phase_or_unknown waits_for_consumer
unbound_claim_diagnosis snap claim =
    let phase = phase_or_unknown claim.phase in
    let evidence = fact "persistentVolumeClaim" "status.phase" phase ∷ class_evidence claim in
    if waits_for_consumer claim
    then record (certainly id_pvc_not_bound (claim_ref snap claim.name) "" info (
        "PersistentVolumeClaim "
        <> quote claim.name
        <> " is waiting for the Pod to be scheduled before it binds")) {
          explanation =
              "Storage class "
              <> quote claim.storage_class
              <> " uses volumeBindingMode WaitForFirstConsumer, so the claim binds only once "
              <> "the scheduler picks a node for this Pod. A Pending claim here is expected, and the reason "
              <> "the Pod is not scheduled lies elsewhere.";
          evidence = evidence ++ fact "storageClass" "volumeBindingMode" claim.binding_mode ∷ [];
        }
    else record (certainly id_pvc_not_bound (claim_ref snap claim.name) "" critical
        ("PersistentVolumeClaim " <> quote claim.name <> " is " <> phase <> ", not Bound")) {
          explanation =
              "A Pod cannot run before every claim it mounts is bound to a volume. Until this claim "
              <> "binds, the Pod stays where it is.";
          evidence = evidence;
          suggestions =
              suggest
                "Ask KubeWhy about the claim itself; its events explain why provisioning has not completed."
                ("kubectl why pvc " <> claim.name <> " -n " <> snap.pod.namespace ∷ [])
              ∷ [];
        }

abbrev pub claim_found : Pod → String → PvcRef → Existence → List Diagnosis
claim_found snap name claim missing = missing_claim_diagnosis snap name ∷ []
claim_found snap name claim found =
    if claim.phase == "Bound" then [] else unbound_claim_diagnosis snap claim ∷ []
claim_found snap name claim unknown = []

unfoldable pub claim_of : Pod → String × PvcRef → List Diagnosis
unfolding missing_claim_diagnosis unbound_claim_diagnosis
claim_of snap (name, claim) = claim_found snap name claim claim.exists

-- The claims by name.
abbrev pub by_name : String × PvcRef → String × PvcRef → Bool
by_name a b = text_less a.0 b.0

unfoldable pub evaluate_claims : Pod → List Diagnosis
unfolding claim_of is_terminal gather sort_stable
evaluate_claims snap =
    if is_terminal snap then [] else gather (claim_of snap) (sort_stable by_name snap.pvcs)
