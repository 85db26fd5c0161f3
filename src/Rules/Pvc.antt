-- ===== src/Rules/Pvc.antt =====
-- internal/diagnosis/rules/pvc: the rules on a PersistentVolumeClaim, in their order, and the fallback.
pub mod Ids
pub mod Events
pub mod Classes
pub mod Provisioning
pub mod Consumers
pub mod Losses
pub mod Laws
use kubewhy.Base.{
  ℕ, ltb, ◌==◌, Bool, true, false, not, ◌&&◌, ◌||◌, String, String_eq, List, [], ◌∷◌, ◌++◌, Option,
  none, some, if◌then◌else◌, is_empty, map,
}
use kubewhy.Base.Int.{ℤ, pos, exceeds, int_text}
use kubewhy.Base.Text.{◌<>◌, quote, join, contains, to_lower, trim_space}
use kubewhy.Diagnosis.{critical, warning, info, Diagnosis, Evidence, Suggestion}
use kubewhy.Diagnosis.Engine.{evaluate}
use kubewhy.Format.{duration}
use kubewhy.Snapshot.{Event, is_missing}
use kubewhy.Snapshot.Events.{latest, warnings}
use kubewhy.Snapshot.Pod.{Pod}
use kubewhy.Snapshot.Pvc.{Pvc, class_waits_for_consumer, pvc_ref, pvc_phase, is_bound, pvc_age}
use kubewhy.Rules.Pod.Ids.{certainly, fact, quoted_fact, suggest}
use kubewhy.Rules.Pod.Helpers.{truncate}
use Ids.{id_pending}
use Events.{event_value}
use Classes.{evaluate_storage_class}
use Provisioning.{evaluate_provisioning}
use Consumers.{evaluate_consumers}
use Losses.{is_lost, evaluate_lost}

-- Rules
abbrev pub pvc_rules : List (Pvc → List Diagnosis)
pvc_rules = evaluate_storage_class ∷ evaluate_provisioning ∷ evaluate_consumers ∷ evaluate_lost ∷ []

unfoldable pub pending_diagnosis : Pvc → Diagnosis
unfolding pvc_ref pvc_phase pvc_age event_value
pending_diagnosis snap =
    record (certainly id_pending (pvc_ref snap) "" critical (
      "The claim has been "
      <> pvc_phase snap
      <> " for "
      <> duration (pvc_age snap)
      <> ", and Kubernetes does not report a cause")) {
        explanation =
            "The storage class exists and no provisioning failure was recorded. KubeWhy found "
            <> "nothing in the claim's status or events that identifies why it has not bound.";
        evidence =
            fact "persistentVolumeClaim" "status.phase" (pvc_phase snap)
            ∷ ((if snap.class.name == ""
                  then []
                  else fact "storageClass" "name" snap.class.name ∷ [])
                ++ map
                    (λ ev. quoted_fact "event" "reason" (event_value ev) (truncate ev.message 300))
                    (warnings snap.events));
        suggestions =
            suggest
              "The provisioner's own logs are the next place to look; the claim itself shows nothing more."
              ("kubectl describe pvc " <> snap.claim.name <> " -n " <> snap.claim.namespace ∷ [])
            ∷ [];
      }

-- Fallback
unfoldable pub pvc_fallback : Pvc → List Diagnosis
unfolding is_bound is_lost pending_diagnosis
pvc_fallback snap = if is_bound snap || is_lost snap then [] else pending_diagnosis snap ∷ []

-- The findings on a claim, or what the fallback says of it.
unfoldable pub explain_pvc : List Bool → Pvc → List Diagnosis
unfolding pvc_fallback
explain_pvc expired snap =
    let found = evaluate expired pvc_rules snap in
    if is_empty found then pvc_fallback snap else found
