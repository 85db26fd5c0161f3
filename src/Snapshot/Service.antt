-- ===== src/Snapshot/Service.antt =====
-- internal/snapshot/service.go: what a Service diagnosis needs. A list of backends that is nil, where
-- the Pods could not be listed, is none.
pub mod Endpoints
use kubewhy.Base.{
  ℕ, suc, ◌-◌, ◌==◌, Bool, not, String, String_eq, List, [], ◌∷◌, Option, none, some, if◌then◌else◌,
  is_empty, length,
}
use kubewhy.Base.Time.{Time}
use kubewhy.Diagnosis.{ResourceRef}
use kubewhy.Snapshot.{Event}
use kubewhy.Snapshot.Api.{ServiceObject}
use kubewhy.Snapshot.Collection.{Collection}
use kubewhy.Snapshot.Pod.{Pod}

pub record Endpoint : Type 0 where
  pub address : String
  pub ready : Bool
  pub node : String
  pub target_ref : ResourceRef

pub record EndpointSet : Type 0 where
  pub source : String
  pub known : Bool
  pub addresses : List Endpoint

abbrev count_ready : List Endpoint → ℕ
count_ready [] = 0
count_ready (e ∷ es) = let rest = count_ready es in if e.ready then suc rest else rest

-- EndpointSet.Ready
unfoldable pub ready_count : EndpointSet → ℕ
ready_count e = count_ready e.addresses

-- EndpointSet.NotReady: no difference below 0, since no more are ready than there are.
unfoldable pub not_ready_count : EndpointSet → ℕ
unfolding ready_count
not_ready_count e = length e.addresses - ready_count e

-- EndpointSet.Total
unfoldable pub total_count : EndpointSet → ℕ
total_count e = length e.addresses

pub record Service : Type 0 where
  pub collection : Collection
  pub service : ServiceObject
  pub events : List Event
  pub backends : Option (List Pod)
  pub endpoints : EndpointSet
  pub now : Time

-- Ranging over a slice that may be nil.
abbrev pub pods_or_none : Option (List Pod) → List Pod
pods_or_none none = []
pods_or_none (some pods) = pods

unfoldable pub backends_of : Service → List Pod
backends_of s = pods_or_none s.backends

-- Service.Ref
unfoldable pub service_ref : Service → ResourceRef
service_ref s = record { kind = "Service"; namespace = s.service.namespace; name = s.service.name }

-- Service.HasSelector
unfoldable pub has_selector : Service → Bool
has_selector s = not (is_empty s.service.selector)

-- Service.IsExternalName
unfoldable pub is_external_name : Service → Bool
is_external_name s = s.service.kind == "ExternalName"

-- Service.IsHeadless
unfoldable pub is_headless : Service → Bool
is_headless s = s.service.cluster_ip == "None"
