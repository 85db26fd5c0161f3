-- ===== src/Snapshot/Deployment.antt =====
-- internal/snapshot/deployment.go: what a Deployment diagnosis needs.
use kubewhy.Base.{
  ◌==◌, Bool, false, not, ◌&&◌, String, String_eq, List, Option, none, some, find_first, select,
}
use kubewhy.Base.Int.{ℤ, pos, exceeds}
use kubewhy.Base.Time.{Time, Duration, sub}
use kubewhy.Diagnosis.{ResourceRef}
use kubewhy.Snapshot.{Event}
use kubewhy.Snapshot.Api.{DeploymentObject, ReplicaSetObject, Condition}
use kubewhy.Snapshot.Collection.{Collection}
use kubewhy.Snapshot.Pod.{Pod}

pub record Deployment : Type 0 where
  pub collection : Collection
  pub deployment : DeploymentObject
  pub events : List Event
  pub replica_sets : List ReplicaSetObject
  pub current : Option ReplicaSetObject
  pub pods : List Pod
  pub now : Time

-- Deployment.Ref
unfoldable pub deployment_ref : Deployment → ResourceRef
deployment_ref d = record {
  kind = "Deployment";
  namespace = d.deployment.namespace;
  name = d.deployment.name;
}

abbrev or_one : Option ℤ → ℤ
or_one none = pos 1
or_one (some n) = n

-- Deployment.DesiredReplicas
unfoldable pub wanted_replicas : Deployment → ℤ
wanted_replicas d = or_one d.deployment.replicas

-- Deployment.IsPaused
unfoldable pub is_paused : Deployment → Bool
is_paused d = d.deployment.paused

-- Deployment.Condition
unfoldable pub deployment_condition : Deployment → String → Option Condition
unfolding find_first
deployment_condition d t = find_first (λ c. c.kind == t) d.deployment.conditions

-- Deployment.Age
unfoldable pub deployment_age : Deployment → Duration
unfolding sub
deployment_age d = sub d.now d.deployment.creation_timestamp

-- Revision
unfoldable pub revision : ReplicaSetObject → Option String
revision rs = rs.revision

-- d.Current != nil && rs.UID == d.Current.UID
abbrev pub is_uid_of : Option ReplicaSetObject → String → Bool
is_uid_of none uid = false
is_uid_of (some c) uid = uid == c.uid

unfoldable pub is_current : Deployment → ReplicaSetObject → Bool
is_current d rs = is_uid_of d.current rs.uid

-- Deployment.OldReplicaSets
unfoldable pub old_replica_sets : Deployment → List ReplicaSetObject
unfolding select is_current
old_replica_sets d = select (λ rs. not (is_current d rs) && exceeds rs.replicas 0) d.replica_sets
