-- ===== src/Snapshot/Api.antt =====
-- The fields that the program reads of the types of k8s.io/api. A pointer is an Option, a Go map is
-- a list of its entries in the order in which a loop visits them, and a resource quantity is the
-- text that it prints as.
use kubewhy.Base.{◌==◌, Bool, String, String_eq, List, [], ◌∷◌, Option, none, some, if◌then◌else◌}
use kubewhy.Base.Int.{ℤ}
use kubewhy.Base.Time.{Time}
use kubewhy.Diagnosis.{ResourceRef}

pub record Quantity : Type 0 where
  pub text : String

-- m[k], with none where the key is not there.
unfoldable pub entry {ℓ} : {V : Type ℓ} → List (String × V) → String → Option V
entry [] k = none
entry ((j, v) ∷ m) k = let rest = entry m k in if j == k then some v else rest

pub record HttpGet : Type 0 where
  pub scheme : String
  pub path : String
  pub port : String  -- Port.String()

pub record Probe : Type 0 where
  pub http_get : Option HttpGet
  pub tcp_socket : Option String  -- Port.String()
  pub grpc : Option ℤ  -- the port, int32
  pub exec : Option (List String)  -- the command
  pub initial_delay_seconds : ℤ
  pub period_seconds : ℤ
  pub timeout_seconds : ℤ
  pub failure_threshold : ℤ

pub record ContainerSpec : Type 0 where
  pub name : String
  pub image : String
  pub restart_policy : Option String
  pub requests : List (String × Quantity)
  pub limits : List (String × Quantity)
  pub readiness_probe : Option Probe
  pub liveness_probe : Option Probe
  pub startup_probe : Option Probe
  pub port_names : List String  -- Ports[].Name

pub record Waiting : Type 0 where
  pub reason : String
  pub message : String

pub record Terminated : Type 0 where
  pub exit_code : ℤ  -- int32
  pub signal : ℤ  -- int32
  pub reason : String
  pub message : String
  pub started_at : Time
  pub finished_at : Time

pub record ContainerStatus : Type 0 where
  pub name : String
  pub restart_count : ℤ  -- int32
  pub ready : Bool
  pub waiting : Option Waiting
  pub running : Option Time  -- StartedAt
  pub terminated : Option Terminated
  pub last_terminated : Option Terminated

pub record Condition : Type 0 where
  pub kind : String  -- Type
  pub status : String
  pub reason : String
  pub message : String

pub record PodObject : Type 0 where
  pub name : String
  pub namespace : String
  pub uid : String
  pub claim_names : List String  -- Spec.Volumes[].PersistentVolumeClaim.ClaimName
  pub creation_timestamp : Time
  pub deletion_timestamp : Option Time
  pub node_name : String
  pub restart_policy : String
  pub scheduling_gates : List String
  pub init_containers : List ContainerSpec
  pub containers : List ContainerSpec
  pub phase : String
  pub reason : String
  pub message : String
  pub conditions : List Condition
  pub init_container_statuses : List ContainerStatus
  pub container_statuses : List ContainerStatus

pub record Node : Type 0 where
  pub name : String
  pub conditions : List Condition

pub record StatefulSetObject : Type 0 where
  pub name : String
  pub namespace : String
  pub creation_timestamp : Time
  pub replicas : Option ℤ  -- int32
  pub pod_management_policy : String
  pub update_strategy : String  -- UpdateStrategy.Type
  pub partition : Option ℤ  -- UpdateStrategy.RollingUpdate.Partition, none where either is nil
  pub volume_claim_templates : List String  -- their names
  pub current_revision : String
  pub update_revision : String
  pub ready_replicas : ℤ
  pub current_replicas : ℤ
  pub updated_replicas : ℤ

pub record ReplicaSetObject : Type 0 where
  pub name : String
  pub uid : String
  pub revision : Option String  -- the annotation deployment.kubernetes.io/revision
  pub replicas : ℤ
  pub ready_replicas : ℤ

pub record DeploymentObject : Type 0 where
  pub name : String
  pub namespace : String
  pub creation_timestamp : Time
  pub replicas : Option ℤ  -- int32
  pub paused : Bool
  pub progress_deadline_seconds : Option ℤ  -- int32
  pub strategy_type : String
  pub max_surge : Option String  -- Strategy.RollingUpdate.MaxSurge.String(), none where either is nil
  pub max_unavailable : Option String
  pub updated_replicas : ℤ
  pub ready_replicas : ℤ
  pub available_replicas : ℤ
  pub conditions : List Condition

pub record ClaimObject : Type 0 where
  pub name : String
  pub namespace : String
  pub uid : String
  pub storage_class_name : Option String
  pub legacy_class : String  -- the annotation volume.beta.kubernetes.io/storage-class
  pub creation_timestamp : Time
  pub phase : String
  pub volume_name : String
  pub requested_storage : Option String  -- Resources.Requests["storage"].String()
  pub access_modes : List String

pub data IntOrString : Type 0 where
  from_int : ℤ → IntOrString
  from_string : String → IntOrString

pub record ServicePort : Type 0 where
  pub name : String
  pub port : ℤ  -- int32
  pub protocol : String
  pub target_port : IntOrString
  pub node_port : ℤ  -- int32

pub record ServiceObject : Type 0 where
  pub name : String
  pub namespace : String
  pub uid : String
  pub kind : String  -- Spec.Type
  pub cluster_ip : String
  pub external_name : String
  pub selector : List (String × String)
  pub ports : List ServicePort

pub record IngressObject : Type 0 where
  pub name : String
  pub namespace : String
  pub creation_timestamp : Time
  pub addresses : List (String × String)  -- Status.LoadBalancer.Ingress: host name and IP
  pub tls_hosts : List (List String)

pub record StorageClassObject : Type 0 where
  pub name : String
  pub provisioner : String
  pub binding_mode : Option String  -- VolumeBindingMode
  pub default_annotation : String  -- storageclass.kubernetes.io/is-default-class

pub record EventObject : Type 0 where
  pub kind : String  -- Type
  pub reason : String
  pub message : String
  pub count : ℤ  -- int32
  pub first_timestamp : Time
  pub last_timestamp : Time
  pub event_time : Time
  pub series : Option (ℤ × Time)  -- Count and LastObservedTime
  pub object_kind : String  -- InvolvedObject
  pub object_namespace : String
  pub object_name : String
  pub object_uid : String
  pub object_field_path : String

pub record SliceEndpoint : Type 0 where
  pub addresses : List String
  pub ready : Option Bool  -- Conditions.Ready
  pub node_name : Option String
  pub target_ref : Option ResourceRef

pub record SubsetAddress : Type 0 where
  pub ip : String
  pub node_name : Option String
  pub target_ref : Option ResourceRef

pub record EndpointSubset : Type 0 where
  pub addresses : List SubsetAddress
  pub not_ready_addresses : List SubsetAddress
