-- ===== src/Snapshot/Pvc.antt =====
-- internal/snapshot/pvc.go: what a PersistentVolumeClaim diagnosis needs.
use kubewhy.Base.{◌==◌, Bool, String, String_eq, List, Option, none, some, if◌then◌else◌}
use kubewhy.Base.Time.{Time, Duration, sub}
use kubewhy.Diagnosis.{ResourceRef}
use kubewhy.Snapshot.{Existence, Event}
use kubewhy.Snapshot.Api.{ClaimObject}
use kubewhy.Snapshot.Collection.{Collection}
use kubewhy.Snapshot.Pod.{Pod}

pub record StorageClassInfo : Type 0 where
  pub name : String
  pub requested : Bool
  pub explicitly_none : Bool
  pub exists : Existence
  pub default_exists : Existence
  pub binding_mode : String
  pub provisioner : String

-- StorageClassInfo.WaitsForConsumer
unfoldable pub class_waits_for_consumer : StorageClassInfo → Bool
class_waits_for_consumer c = c.binding_mode == "WaitForFirstConsumer"

pub record Pvc : Type 0 where
  pub collection : Collection
  pub claim : ClaimObject
  pub events : List Event
  pub class : StorageClassInfo
  pub consumers : List Pod
  pub consumers_known : Bool
  pub now : Time

-- PVC.Ref
unfoldable pub pvc_ref : Pvc → ResourceRef
pvc_ref p = record {
  kind = "PersistentVolumeClaim";
  namespace = p.claim.namespace;
  name = p.claim.name;
}

-- PVC.Phase
unfoldable pub pvc_phase : Pvc → String
pvc_phase p = if p.claim.phase == "" then "Unknown" else p.claim.phase

-- PVC.IsBound
unfoldable pub is_bound : Pvc → Bool
is_bound p = p.claim.phase == "Bound"

-- PVC.Age
unfoldable pub pvc_age : Pvc → Duration
unfolding sub
pvc_age p = sub p.now p.claim.creation_timestamp

-- PVC.RequestedStorage
abbrev pub text_or_empty : Option String → String
text_or_empty none = ""
text_or_empty (some s) = s

unfoldable pub requested_storage : Pvc → String
requested_storage p = text_or_empty p.claim.requested_storage

-- PVC.AccessModes
unfoldable pub access_modes : Pvc → List String
access_modes p = p.claim.access_modes
