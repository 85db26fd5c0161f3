-- ===== src/Collect/EndpointReads.antt =====
-- internal/collect/endpoints.go: the endpoints of a Service.
use kubewhy.Base.{
  Bool, true, false, String, List, [], ◌∷◌, ◌++◌, Option, none, some, ◌⊎◌, inl, inr, if◌then◌else◌,
  gather, map,
}
use kubewhy.Base.Text.{◌<>◌}
use kubewhy.Diagnosis.{ResourceRef}
use kubewhy.Kube.{ApiErrors}
use kubewhy.Snapshot.Api.{SliceEndpoint, SubsetAddress, EndpointSubset}
use kubewhy.Snapshot.Collection.{Collection, inspect}
use kubewhy.Snapshot.Service.{Endpoint, EndpointSet}
use kubewhy.Collect.{Cluster, degrade_read}

-- derefString
abbrev deref_string : Option String → String
deref_string none = ""
deref_string (some s) = s

-- derefBoolDefault
abbrev deref_bool_default : Option Bool → Bool → Bool
deref_bool_default none fallback = fallback
deref_bool_default (some b) fallback = b

-- targetRef
abbrev target_ref : Option ResourceRef → ResourceRef
target_ref none = record { kind = ""; namespace = ""; name = "" }
target_ref (some ref) = ref

abbrev first_text : List String → String
first_text [] = ""
first_text (s ∷ ss) = s

abbrev slice_endpoint : SliceEndpoint → Endpoint
slice_endpoint e = record {
  address = first_text e.addresses;
  ready = deref_bool_default e.ready true;
  node = deref_string e.node_name;
  target_ref = target_ref e.target_ref;
}

-- fromEndpointSlices
unfoldable pub from_endpoint_slices : List (List SliceEndpoint) → EndpointSet
from_endpoint_slices slices = record {
  source = "EndpointSlice";
  known = true;
  addresses = gather (map slice_endpoint) slices;
}

-- legacyAddress
abbrev legacy_address : Bool → SubsetAddress → Endpoint
legacy_address ready a = record {
  address = a.ip;
  ready = ready;
  node = deref_string a.node_name;
  target_ref = target_ref a.target_ref;
}

abbrev subset_endpoints : EndpointSubset → List Endpoint
subset_endpoints s =
    map (legacy_address true) s.addresses ++ map (legacy_address false) s.not_ready_addresses

abbrev pub endpoint_set : String → Bool → List Endpoint → EndpointSet
endpoint_set source known addresses = record {
  source = source;
  known = known;
  addresses = addresses;
}

abbrev pub purpose : String
purpose = "seeing which Pods actually receive traffic"

module _ {E : Type 0} (api : ApiErrors E) where
  abbrev pub legacy_found :
      Collection → (name : String) → E ⊎ List EndpointSubset → EndpointSet × Collection
  legacy_found c name (inl err) =
      if api.is_not_found err
      then (endpoint_set "Endpoints" true [], c)
      else (endpoint_set "Endpoints" false [], degrade_read api c "endpoints" purpose err)
  legacy_found c name (inr subsets) = (
    endpoint_set "Endpoints" true (gather subset_endpoints subsets),
    inspect c ("endpoints for service " <> name),
  )

  -- legacyEndpointsFor
  unfoldable pub legacy_endpoints_for :
      Cluster E → Collection → (namespace name : String) → EndpointSet × Collection
  legacy_endpoints_for cl c namespace name = legacy_found c name (cl.endpoints namespace name)

  abbrev pub slices_found :
      Collection
      → (name : String) → E ⊎ List (List SliceEndpoint)
      → (legacy : EndpointSet × Collection) → EndpointSet × Collection
  slices_found c name (inl err) legacy =
      if api.is_not_found err
      then legacy
      else (endpoint_set "EndpointSlice" false [], degrade_read api c "endpointslices" purpose err)
  slices_found c name (inr slices) legacy =
      (from_endpoint_slices slices, inspect c ("endpointslices for service " <> name))

  -- endpointsFor
  unfoldable pub endpoints_for :
      Cluster E → Collection → (namespace name : String) → EndpointSet × Collection
  endpoints_for cl c namespace name =
      slices_found c name (cl.endpoint_slices namespace name)
        (legacy_endpoints_for cl c namespace name)
