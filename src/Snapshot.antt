-- ===== src/Snapshot.antt =====
-- internal/snapshot/snapshot.go: what is known about the objects of a cluster. Children: Api has the
-- fields that the program reads of the Kubernetes API's own types, Events the operations on events,
-- and one file for each kind of snapshot.
pub mod Api
pub mod Events
pub mod Collection
pub mod Pod
pub mod Deployment
pub mod Ingress
pub mod Pvc
pub mod Service
pub mod StatefulSet
use kubewhy.Base.{
  ℕ, ◌==◌, Bool, true, false, String, String_eq, List, [], ◌∷◌, Option, none, some, if◌then◌else◌,
}
use kubewhy.Base.Int.{ℤ}
use kubewhy.Base.Time.{Time}
use kubewhy.Diagnosis.{ResourceRef}

-- Whether a referenced object could be confirmed to exist.
pub data Existence : Type 0 where
  unknown found missing : Existence

abbrev pub is_missing : Existence → Bool
is_missing missing = true
is_missing _ = false

abbrev pub is_found : Existence → Bool
is_found found = true
is_found _ = false

pub record Event : Type 0 where
  pub kind : String  -- Type
  pub reason : String
  pub message : String
  pub count : ℤ  -- int32
  pub first_seen : Time
  pub last_seen : Time
  pub object : ResourceRef
  pub field_path : String
