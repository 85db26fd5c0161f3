-- ===== src/Rules/Pvc/Losses.antt =====
-- lostRule of internal/diagnosis/rules/pvc/pvc.go.
use kubewhy.Base.{◌==◌, Bool, String_eq, List, [], ◌∷◌, if◌then◌else◌}
use kubewhy.Base.Text.{◌<>◌}
use kubewhy.Diagnosis.{critical, Diagnosis}
use kubewhy.Snapshot.Pvc.{Pvc, pvc_ref}
use kubewhy.Rules.Pod.Ids.{certainly, fact, suggest}
use kubewhy.Rules.Pvc.Ids.{id_lost}
use kubewhy.Rules.Pvc.Events.{or_not_recorded}

unfoldable pub is_lost : Pvc → Bool
is_lost snap = snap.claim.phase == "Lost"

unfoldable pub lost_diagnosis : Pvc → Diagnosis
unfolding pvc_ref or_not_recorded
lost_diagnosis snap =
    record (certainly id_lost (pvc_ref snap) "" critical
      "The claim is Lost: the volume it was bound to is gone") {
        explanation =
            "A claim enters phase Lost when the PersistentVolume it was bound to no longer "
            <> "exists. Any data on that volume is outside what Kubernetes can tell you about.";
        evidence =
            fact "persistentVolumeClaim" "status.phase" "Lost"
            ∷ fact "persistentVolumeClaim" "spec.volumeName"
                (or_not_recorded snap.claim.volume_name)
            ∷ [];
        possible_causes =
            "the PersistentVolume was deleted while the claim still referenced it"
            ∷ "the underlying storage was removed outside Kubernetes" ∷ [];
        suggestions =
            suggest
              "Check whether the volume still exists before recreating anything; a new claim will not recover the old data."
              ("kubectl get persistentvolumes" ∷ [])
            ∷ [];
      }

-- evaluateLost
unfoldable pub evaluate_lost : Pvc → List Diagnosis
unfolding is_lost lost_diagnosis
evaluate_lost snap = if is_lost snap then lost_diagnosis snap ∷ [] else []
