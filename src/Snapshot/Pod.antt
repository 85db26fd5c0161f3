-- ===== src/Snapshot/Pod.antt =====
-- internal/snapshot/pod.go: what a Pod diagnosis needs, and the merged view of its containers.
use kubewhy.Base.{
  ◌==◌, Bool, true, false, ◌||◌, String, String_eq, List, [], ◌∷◌, ◌++◌, Option, none, some,
  if◌then◌else◌, find_first, is_some, map,
}
use kubewhy.Base.Int.{ℤ, pos}
use kubewhy.Base.Time.{Time, Duration, sub}
use kubewhy.Diagnosis.{ResourceRef, ref_text}
use kubewhy.Snapshot.{Existence, Event}
use kubewhy.Snapshot.Api.{
  ContainerSpec, ContainerStatus, Waiting, Terminated, Condition, PodObject, Node,
}
use kubewhy.Snapshot.Collection.{Collection}

pub record PvcRef : Type 0 where
  pub name : String
  pub exists : Existence
  pub phase : String
  pub storage_class : String
  pub binding_mode : String

-- PVCRef.WaitsForConsumer
unfoldable pub waits_for_consumer : PvcRef → Bool
waits_for_consumer p = p.binding_mode == "WaitForFirstConsumer"

pub record Pod : Type 0 where
  pub collection : Collection
  pub pod : PodObject
  pub events : List Event
  pub owners : List ResourceRef
  pub node : Option Node
  pub config_maps : List (String × Existence)
  pub secrets : List (String × Existence)
  pub pvcs : List (String × PvcRef)
  pub now : Time

-- Pod.Ref
unfoldable pub pod_ref : Pod → ResourceRef
pod_ref p = record { kind = "Pod"; namespace = p.pod.namespace; name = p.pod.name }

pub record Container : Type 0 where
  pub name : String
  pub init : Bool
  pub sidecar : Bool
  pub spec : Option ContainerSpec
  pub status : Option ContainerStatus

-- Container.Kind
unfoldable pub container_kind : Container → String
container_kind c =
    if c.sidecar then "sidecar container" else if c.init then "init container" else "container"

-- Container.Restarts
abbrev pub restarts_of : Option ContainerStatus → ℤ
restarts_of none = pos 0
restarts_of (some s) = s.restart_count

unfoldable pub restarts : Container → ℤ
restarts c = restarts_of c.status

-- Container.Waiting
abbrev pub waiting_of : Option ContainerStatus → Option Waiting
waiting_of none = none
waiting_of (some s) = s.waiting

unfoldable pub waiting : Container → Option Waiting
waiting c = waiting_of c.status

-- Container.Terminated
abbrev pub terminated_of : Option ContainerStatus → Option Terminated
terminated_of none = none
terminated_of (some s) = s.terminated

unfoldable pub terminated : Container → Option Terminated
terminated c = terminated_of c.status

-- Container.LastTerminated
abbrev pub last_terminated_of : Option ContainerStatus → Option Terminated
last_terminated_of none = none
last_terminated_of (some s) = s.last_terminated

unfoldable pub last_terminated : Container → Option Terminated
last_terminated c = last_terminated_of c.status

-- Container.Ready
abbrev pub ready_of : Option ContainerStatus → Bool
ready_of none = false
ready_of (some s) = s.ready

unfoldable pub is_ready : Container → Bool
is_ready c = ready_of c.status

-- findStatus
unfoldable pub find_status : List ContainerStatus → String → Option ContainerStatus
unfolding find_first
find_status statuses name = find_first (λ s. s.name == name) statuses

abbrev pub always_restarts : Option String → Bool
always_restarts none = false
always_restarts (some policy) = policy == "Always"

abbrev pub init_container : List ContainerStatus → ContainerSpec → Container
init_container statuses s = record {
  name = s.name;
  init = true;
  sidecar = always_restarts s.restart_policy;
  spec = some s;
  status = find_status statuses s.name;
}

abbrev pub regular_container : List ContainerStatus → ContainerSpec → Container
regular_container statuses s = record {
  name = s.name;
  init = false;
  sidecar = false;
  spec = some s;
  status = find_status statuses s.name;
}

-- Pod.Containers
unfoldable pub containers : Pod → List Container
unfolding find_status
containers p =
    map (init_container p.pod.init_container_statuses) p.pod.init_containers
    ++ map (regular_container p.pod.container_statuses) p.pod.containers

-- Pod.Condition
unfoldable pub condition : List Condition → String → Option Condition
unfolding find_first
condition conditions t = find_first (λ c. c.kind == t) conditions

-- Pod.IsTerminal
unfoldable pub is_terminal : Pod → Bool
is_terminal p = p.pod.phase == "Succeeded" || p.pod.phase == "Failed"

-- Pod.IsDeleting
unfoldable pub is_deleting : Pod → Bool
is_deleting p = is_some p.pod.deletion_timestamp

-- Pod.Age
unfoldable pub pod_age : Pod → Duration
unfolding sub
pod_age p = sub p.now p.pod.creation_timestamp

-- Pod.OwnerChain: the owners from the last to the first, then the Pod.
unfoldable pub owner_texts : List ResourceRef → List String
unfolding ref_text
owner_texts [] = []
owner_texts (o ∷ os) = owner_texts os ++ ref_text o ∷ []

unfoldable pub owner_chain : Pod → List String
unfolding owner_texts pod_ref
owner_chain p = owner_texts p.owners ++ ref_text (pod_ref p) ∷ []
