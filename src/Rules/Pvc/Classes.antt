-- ===== src/Rules/Pvc/Classes.antt =====
-- storageClassRule of internal/diagnosis/rules/pvc/pvc.go.
use kubewhy.Base.{not, ◌&&◌, ◌||◌, String_eq, List, [], ◌∷◌, if◌then◌else◌}
use kubewhy.Base.Text.{◌<>◌, quote}
use kubewhy.Diagnosis.{critical, Diagnosis}
use kubewhy.Snapshot.{is_missing}
use kubewhy.Snapshot.Pvc.{Pvc, pvc_ref, is_bound}
use kubewhy.Rules.Pod.Ids.{certainly, fact, suggest}
use kubewhy.Rules.Pvc.Ids.{id_storage_class_not_found, id_no_default_class}

unfoldable pub missing_class_diagnosis : Pvc → Diagnosis
unfolding pvc_ref
missing_class_diagnosis snap =
    record (certainly id_storage_class_not_found (pvc_ref snap) "" critical
      ("StorageClass " <> quote snap.class.name <> " does not exist")) {
        explanation =
            "The claim asks for storage class "
            <> quote snap.class.name
            <> ", and the API server reports that no such class "
            <> "exists. No provisioner will act on the claim, so it stays Pending indefinitely.";
        evidence =
            fact "persistentVolumeClaim" "spec.storageClassName" snap.class.name
            ∷ fact "api" ("storageclass/" <> snap.class.name) "NotFound"
            ∷ [];
        possible_causes =
            "the class name is misspelled, or was written for a different cluster"
            ∷ "the storage driver that provides this class is not installed here" ∷ [];
        suggestions =
            suggest
              "Use one of the classes the cluster offers, or install the driver that provides this one."
              ("kubectl get storageclasses" ∷ [])
            ∷ [];
      }

unfoldable pub no_default_diagnosis : Pvc → Diagnosis
unfolding pvc_ref
no_default_diagnosis snap =
    record (certainly id_no_default_class (pvc_ref snap) "" critical
      "The claim names no storage class, and the cluster has no default one") {
        explanation =
            "A claim without a storage class is provisioned by the cluster's default "
            <> "class. No class is marked as default here, so nothing will provision a volume for it.";
        evidence =
            fact "persistentVolumeClaim" "spec.storageClassName" "unset"
            ∷ fact "api" "defaultStorageClass" "none"
            ∷ [];
        suggestions =
            suggest
              "Name a storage class on the claim, or mark one of the cluster's classes as the default."
              ("kubectl get storageclasses" ∷ [])
            ∷ [];
      }

-- evaluateStorageClass
unfoldable pub evaluate_storage_class : Pvc → List Diagnosis
unfolding is_bound missing_class_diagnosis no_default_diagnosis
evaluate_storage_class snap =
    if is_bound snap || snap.class.explicitly_none
    then []
    else if snap.class.requested && is_missing snap.class.exists
    then missing_class_diagnosis snap ∷ []
    else if not snap.class.requested && is_missing snap.class.default_exists
    then no_default_diagnosis snap ∷ []
    else []
