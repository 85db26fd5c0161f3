-- ===== src/Rules/Pvc/Provisioning.antt =====
-- provisioningRule of internal/diagnosis/rules/pvc/pvc.go.
use kubewhy.Base.{Bool, ◌||◌, String_eq, List, [], ◌∷◌, Option, none, some, if◌then◌else◌}
use kubewhy.Base.Text.{◌<>◌, contains, to_lower}
use kubewhy.Diagnosis.{critical, Diagnosis}
use kubewhy.Snapshot.{Event, is_missing}
use kubewhy.Snapshot.Events.{latest}
use kubewhy.Snapshot.Pvc.{Pvc, pvc_ref, is_bound}
use kubewhy.Rules.Pod.Ids.{certainly, fact, quoted_fact, suggest}
use kubewhy.Rules.Pod.Helpers.{truncate}
use kubewhy.Rules.Pvc.Ids.{
  id_storage_class_not_found, id_no_default_class, id_provisioning_failed, id_no_matching_volume,
}
use kubewhy.Rules.Pvc.Events.{event_value, or_not_recorded}

unfoldable pub provisioning_diagnosis : Pvc → Event → Diagnosis
unfolding pvc_ref event_value or_not_recorded
provisioning_diagnosis snap ev =
    record (certainly id_provisioning_failed (pvc_ref snap) "" critical
      "The provisioner could not create a volume for this claim") {
        explanation =
            "The storage driver reported a failure. The message below is its own, and "
            <> "what it means is specific to that driver.";
        evidence =
            quoted_fact "event" "reason" (event_value ev) (truncate ev.message 400)
            ∷ fact "storageClass" "provisioner" (or_not_recorded snap.class.provisioner)
            ∷ [];
        suggestions =
            suggest
              "The provisioner's own logs carry the detail behind this message; KubeWhy only relays what it reported."
              []
            ∷ [];
        caused_by =
            if is_missing snap.class.exists
            then (if snap.class.requested then id_storage_class_not_found else id_no_default_class)
            else "";
      }

-- The binding controller expected a volume to exist already.
unfoldable pub expects_volume : Pvc → Event → Bool
expects_volume snap ev =
    snap.class.explicitly_none || contains (to_lower ev.message) "no storage class"

unfoldable pub binding_diagnosis : Pvc → Event → Diagnosis
unfolding pvc_ref event_value expects_volume
binding_diagnosis snap ev =
    record (certainly id_no_matching_volume (pvc_ref snap) "" critical
      "No volume could be bound to this claim") {
        explanation =
            "The binding controller found nothing to bind the claim to and reported the "
            <> "message below.";
        evidence = quoted_fact "event" "reason" (event_value ev) (truncate ev.message 400) ∷ [];
        possible_causes =
            if expects_volume snap ev
            then "the claim expects a PersistentVolume that already exists, and none matches it"
              ∷ "a matching volume exists but its size, access modes or selector do not satisfy the claim"
              ∷ []
            else [];
        suggestions =
            if expects_volume snap ev
            then suggest
                "Compare the claim's size, access modes and selector with the volumes available."
                ("kubectl get persistentvolumes" ∷ [])
              ∷ []
            else [];
      }

abbrev pub provisioning_found : Pvc → (failed binding : Option Event) → List Diagnosis
provisioning_found snap (some ev) binding = provisioning_diagnosis snap ev ∷ []
provisioning_found snap none (some ev) = binding_diagnosis snap ev ∷ []
provisioning_found snap none none = []

-- evaluateProvisioning
unfoldable pub evaluate_provisioning : Pvc → List Diagnosis
unfolding is_bound latest provisioning_diagnosis binding_diagnosis
evaluate_provisioning snap =
    if is_bound snap
    then []
    else provisioning_found snap (latest ("ProvisioningFailed" ∷ []) snap.events)
        (latest ("FailedBinding" ∷ []) snap.events)
