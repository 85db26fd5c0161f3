-- ===== src/Tests/Objects.antt =====
-- Claims, Services, a Deployment, an Ingress and a StatefulSet that are written out.
use kubewhy.Base.{String_eq, true, false, Bool, List, [], ◌∷◌, none, some}
use kubewhy.Base.Int.{pos}
use kubewhy.Diagnosis.{ResourceRef}
use kubewhy.Diagnosis.Report.{unknown}
use kubewhy.Snapshot.{found, unknown}
use kubewhy.Snapshot.Api.{from_int}
use kubewhy.Snapshot.Collection.{Collection}
use kubewhy.Snapshot.Collection.Calls.{Call, read, Knowledge}
use kubewhy.Snapshot.Pod.{PvcRef}
use kubewhy.Snapshot.Pvc.{Pvc}
use kubewhy.Snapshot.Service.{Service, Endpoint}
use kubewhy.Snapshot.Deployment.{Deployment}
use kubewhy.Snapshot.StatefulSet.{StatefulSet}
use kubewhy.Snapshot.Ingress.{Ingress}
use kubewhy.Analyze.PodSilence.{new_pod, waiting_pod}

abbrev pub nothing_read : Collection
nothing_read = record { degradations = []; inspected = [] }

abbrev pub bound_claim : Pvc
bound_claim = record {
  collection = nothing_read;
  claim = record {
    name = "data-db-0";
    namespace = "shop";
    uid = "8";
    storage_class_name = some "standard";
    legacy_class = "";
    creation_timestamp = 1;
    phase = "Bound";
    volume_name = "pv-1";
    requested_storage = some "1Gi";
    access_modes = "ReadWriteOnce" ∷ [];
  };
  events = [];
  class = record {
    name = "standard";
    requested = true;
    explicitly_none = false;
    exists = found;
    default_exists = unknown;
    binding_mode = "Immediate";
    provisioner = "csi";
  };
  consumers = [];
  consumers_known = true;
  now = 60_000_000_001;
}

abbrev pub pending_claim : Pvc
pending_claim = record bound_claim { claim = record bound_claim.claim { phase = "Pending" } }

abbrev pub no_ref : ResourceRef
no_ref = record { kind = ""; namespace = ""; name = "" }

abbrev pub endpoint : Bool → Endpoint
endpoint ready = record { address = "10.0.0.1"; ready = ready; node = "n"; target_ref = no_ref }

-- One endpoint is ready, one is not, and the Pod that the Service selects is not.
abbrev pub serving_service : Service
serving_service = record {
  collection = nothing_read;
  service = record {
    name = "web";
    namespace = "shop";
    uid = "9";
    kind = "ClusterIP";
    cluster_ip = "10.1.0.1";
    external_name = "";
    selector = ("app", "web") ∷ [];
    ports =
        record {
          name = "http";
          port = pos 80;
          protocol = "TCP";
          target_port = from_int (pos 8080);
          node_port = pos 0;
        }
        ∷ [];
  };
  events = [];
  backends = some (waiting_pod ∷ []);
  endpoints = record {
    source = "EndpointSlice";
    known = true;
    addresses = endpoint true ∷ endpoint false ∷ [];
  };
  now = 60_000_000_001;
}

abbrev pub down_service : Service
down_service = record serving_service {
  endpoints = record serving_service.endpoints { addresses = endpoint false ∷ [] };
}

abbrev pub paused_deployment : Deployment
paused_deployment = record {
  collection = nothing_read;
  deployment = record {
    name = "web";
    namespace = "shop";
    creation_timestamp = 1;
    replicas = some (pos 2);
    paused = true;
    progress_deadline_seconds = none;
    strategy_type = "RollingUpdate";
    max_surge = some "25%";
    max_unavailable = none;
    updated_replicas = pos 2;
    ready_replicas = pos 2;
    available_replicas = pos 2;
    conditions = [];
  };
  events = [];
  replica_sets = [];
  current = none;
  pods = [];
  now = 60_000_000_001;
}

-- An Ingress with a route to a port that the Service does not have.
abbrev pub misrouted_ingress : Ingress
misrouted_ingress = record {
  collection = nothing_read;
  ingress = record {
    name = "shop";
    namespace = "shop";
    creation_timestamp = 1;
    addresses = [];
    tls_hosts = [];
  };
  events = [];
  paths =
      record {
        host = "";
        path = "/";
        path_type = "Prefix";
        service_name = "web";
        port = record { name = "grpc"; number = pos 0 };
        is_default = false;
      }
      ∷ [];
  services =
      (
        "web",
        record {
          name = "web";
          exists = found;
          service = some serving_service.service;
          endpoints = serving_service.endpoints;
          backends = [];
        },
      )
      ∷ [];
  class = record { name = "nginx"; exists = found; default_exists = unknown };
  now = 60_000_000_001;
}

abbrev pub pending_ref : PvcRef
pending_ref = record {
  name = "data-db-1";
  exists = found;
  phase = "Pending";
  storage_class = "standard";
  binding_mode = "Immediate";
}

-- The volume of the second replica is not bound.
abbrev pub stuck_set : StatefulSet
stuck_set = record {
  collection = nothing_read;
  set = record {
    name = "db";
    namespace = "shop";
    creation_timestamp = 1;
    replicas = some (pos 2);
    pod_management_policy = "OrderedReady";
    update_strategy = "RollingUpdate";
    partition = none;
    volume_claim_templates = "data" ∷ [];
    current_revision = "db-1";
    update_revision = "db-1";
    ready_replicas = pos 0;
    current_replicas = pos 1;
    updated_replicas = pos 1;
  };
  events = [];
  pods = record waiting_pod { pod = record new_pod { name = "db-1" } } ∷ [];
  service = record { name = "db"; exists = found; headless = true; selects = true };
  claims = ("data-db-1", pending_ref) ∷ [];
  now = 60_000_000_001;
}

abbrev pub nothing_known : Knowledge
nothing_known = record { is_left_out = λ d. false; is_read = λ w. false }

abbrev pub two_reads : List Call
two_reads = read "pods" ∷ read "events" ∷ read "pods" ∷ []
