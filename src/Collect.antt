-- ===== src/Collect.antt =====
-- internal/collect/collect.go: reading the objects around a resource. What the client of the API
-- server answers is a parameter; a read that fails is recorded in the collection, which each step
-- hands on.
pub mod EventReads
pub mod EndpointReads
pub mod ClassReads
pub mod BackendReads
pub mod Laws
pub mod ServiceReads
pub mod PvcReads
use kubewhy.Base.{Bool, ◌||◌, String, List, [], ◌⊎◌, Option, none, some, if◌then◌else◌}
use kubewhy.Base.Time.{Time}
use kubewhy.Diagnosis.{ResourceRef}
use kubewhy.Kube.{ApiErrors}
use kubewhy.Snapshot.{Existence, unknown, found, missing}
use kubewhy.Snapshot.Api.{
  PodObject, ClaimObject, ServiceObject, StorageClassObject, EventObject, SliceEndpoint,
  EndpointSubset,
}
use kubewhy.Snapshot.Collection.{Collection, degrade}

-- What the client answers to the reads of the collectors, with the clock and the context's name.
pub record Cluster (E : Type 0) : Type 0 where
  pub context : String
  pub now : Time
  pub claim : (namespace name : String) → E ⊎ ClaimObject
  pub service : (namespace name : String) → E ⊎ ServiceObject
  pub storage_class : (name : String) → E ⊎ StorageClassObject
  pub storage_classes : E ⊎ List StorageClassObject
  pub events : ResourceRef → (uid : String) → E ⊎ List EventObject
  pub pods : (namespace selector : String) → E ⊎ List PodObject
  pub endpoint_slices : (namespace service : String) → E ⊎ List (List SliceEndpoint)
  pub endpoints : (namespace name : String) → E ⊎ List EndpointSubset
  pub selector_text : List (String × String) → String  -- labels.Set.String

module _ {E : Type 0} (api : ApiErrors E) where
  -- reason of degrade
  abbrev pub failure_reason : E → String
  failure_reason err =
      if api.is_forbidden err || api.is_unauthorized err
      then "Forbidden"
      else if api.is_not_found err
      then "NotFound"
      else if api.is_timeout err
      then "Timeout"
      else "Error"

  -- degrade, of an error that is not nil
  unfoldable pub degrade_read : Collection → (resource required_for : String) → E → Collection
  degrade_read c resource required_for err = degrade c (record {
    resource = resource;
    reason = failure_reason err;
    required_for = required_for;
    detail = api.message err;
  })

  -- existence: an object is missing only where the API server says so.
  unfoldable pub existence :
      Collection → (resource required_for : String) → Option E → Existence × Collection
  existence c resource required_for none = (found, c)
  existence c resource required_for (some err) =
      if api.is_not_found err
      then (missing, c)
      else (unknown, degrade_read c resource required_for err)
