-- ===== src/Rules/StatefulSet/Volumes.antt =====
-- claimRule and podsBlockedByTheirClaim of internal/diagnosis/rules/statefulset/statefulset.go.
use kubewhy.Base.{
  ℕ, ◌==◌, Bool, true, false, String, String_eq, List, [], ◌∷◌, ◌++◌, Option, none, some,
  if◌then◌else◌, gather, map,
}
use kubewhy.Base.Text.{◌<>◌, quote}
use kubewhy.Diagnosis.{critical, info, Diagnosis, ResourceRef, Evidence}
use kubewhy.Snapshot.{Existence, unknown, found, missing}
use kubewhy.Snapshot.Api.{entry}
use kubewhy.Snapshot.Pod.{PvcRef, waits_for_consumer}
use kubewhy.Snapshot.StatefulSet.{StatefulSet, ordinal}
use kubewhy.Rules.Texts.{sort_texts}
use kubewhy.Rules.Pod.Ids.{certainly, fact, suggest}
use kubewhy.Rules.StatefulSet.Ids.{id_claim_not_bound, id_claim_not_found}
use kubewhy.Rules.StatefulSet.Ordering.{replica_name}

abbrev owner_or : StatefulSet → String → Option ℕ → String
owner_or snap claim none = claim
owner_or snap claim (some n) = replica_name snap n

-- ownerPod
unfoldable pub owner_pod : StatefulSet → String → String
unfolding ordinal replica_name
owner_pod snap claim = owner_or snap claim (ordinal claim)

-- phaseOrUnknown
unfoldable pub claim_phase : String → String
claim_phase phase = if phase == "" then "Unknown" else phase

abbrev pub replica_claim_ref : StatefulSet → String → ResourceRef
replica_claim_ref snap name = record {
  kind = "PersistentVolumeClaim";
  namespace = snap.set.namespace;
  name = name;
}

unfoldable pub absent_claim_diagnosis : StatefulSet → String → Diagnosis
unfolding owner_pod
absent_claim_diagnosis snap name =
    record (certainly id_claim_not_found (replica_claim_ref snap name) "" critical
      ("The claim for " <> owner_pod snap name <> " does not exist")) {
        explanation =
            "A StatefulSet creates one claim per replica from its volume claim templates "
            <> "before starting the Pod. This one is absent, so the Pod cannot be created.";
        evidence = fact "api" ("persistentvolumeclaim/" <> name) "NotFound" ∷ [];
        possible_causes =
            "the claim was deleted by hand"
            ∷ "the controller could not create it, which its events would record" ∷ [];
      }

unfoldable pub claim_evidence : PvcRef → List Evidence
unfolding claim_phase
claim_evidence claim =
    fact "persistentVolumeClaim" "status.phase" (claim_phase claim.phase)
    ∷ (if claim.storage_class == ""
        then []
        else fact "persistentVolumeClaim" "spec.storageClassName" claim.storage_class ∷ [])

unfoldable pub unbound_diagnosis : StatefulSet → String → PvcRef → Diagnosis
unfolding owner_pod claim_phase claim_evidence
unbound_diagnosis snap name claim =
    record (certainly id_claim_not_bound (replica_claim_ref snap name) "" critical (
      "The claim for "
      <> owner_pod snap name
      <> " is "
      <> claim_phase claim.phase
      <> ", not Bound")) {
        explanation =
            "Replica "
            <> owner_pod snap name
            <> " cannot start until its own volume is bound. Each replica of a StatefulSet "
            <> "gets its own claim, so this affects that one Pod rather than the whole set — "
            <> "though under ordered management, that is enough to hold up every replica after it.";
        evidence = claim_evidence claim;
        suggestions =
            suggest "Ask KubeWhy about the claim; its events say why provisioning has not finished."
              ("kubectl why pvc " <> name <> " -n " <> snap.set.namespace ∷ [])
            ∷ [];
      }

-- What a claim that waits for its consumer changes in that finding.
unfoldable pub pending_consumer_diagnosis : StatefulSet → String → PvcRef → Diagnosis
unfolding owner_pod claim_evidence unbound_diagnosis
pending_consumer_diagnosis snap name claim = record (unbound_diagnosis snap name claim) {
  severity = info;
  summary = "The claim for " <> owner_pod snap name <> " binds once that Pod is scheduled";
  explanation =
      "Storage class "
      <> quote claim.storage_class
      <> " uses volumeBindingMode WaitForFirstConsumer, so this claim stays "
      <> "Pending until the scheduler places "
      <> owner_pod snap name
      <> ". A Pending claim here is expected, and the "
      <> "reason that Pod is not scheduled lies elsewhere.";
  evidence =
      claim_evidence claim ++ fact "storageClass" "volumeBindingMode" claim.binding_mode ∷ [];
  suggestions = [];
}

abbrev pub replica_claim_found : StatefulSet → String → PvcRef → Existence → List Diagnosis
replica_claim_found snap name claim missing = absent_claim_diagnosis snap name ∷ []
replica_claim_found snap name claim found =
    if claim.phase == "Bound"
    then []
    else if waits_for_consumer claim
    then pending_consumer_diagnosis snap name claim ∷ []
    else unbound_diagnosis snap name claim ∷ []
replica_claim_found snap name claim unknown = []

abbrev replica_claim_of : StatefulSet → String → Option PvcRef → List Diagnosis
replica_claim_of snap name none = []
replica_claim_of snap name (some claim) = replica_claim_found snap name claim claim.exists

-- One round of the loop over the names.
unfoldable pub check_claim : StatefulSet → String → List Diagnosis
unfolding entry waits_for_consumer absent_claim_diagnosis pending_consumer_diagnosis
    unbound_diagnosis
check_claim snap name = replica_claim_of snap name (entry snap.claims name)

-- evaluateClaims
unfoldable pub evaluate_set_claims : StatefulSet → List Diagnosis
unfolding gather sort_texts check_claim
evaluate_set_claims snap = gather (check_claim snap) (sort_texts (map (λ e. e.0) snap.claims))

abbrev pub is_usable_or_unknown : PvcRef → Existence → Bool
is_usable_or_unknown claim found = claim.phase == "Bound"
is_usable_or_unknown claim unknown = true
is_usable_or_unknown claim missing = false

abbrev pub replica_of : StatefulSet → Option ℕ → List String
replica_of snap none = []
replica_of snap (some n) = replica_name snap n ∷ []

abbrev pub blocked_replica : StatefulSet → String × PvcRef → List String
blocked_replica snap (name, claim) =
    if is_usable_or_unknown claim claim.exists then [] else replica_of snap (ordinal name)

-- podsBlockedByTheirClaim: the names that are put into the map, in the order of the loop.
unfoldable pub pods_blocked_by_their_claim : StatefulSet → List String
unfolding gather ordinal replica_name
pods_blocked_by_their_claim snap = gather (blocked_replica snap) snap.claims
