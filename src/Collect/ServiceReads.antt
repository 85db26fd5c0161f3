-- ===== src/Collect/ServiceReads.antt =====
-- Service of internal/collect/service.go: the snapshot of a Service.
use kubewhy.Base.{false, String, List, [], none, some, ◌⊎◌, inl, inr, if◌then◌else◌}
use kubewhy.Base.Text.{◌<>◌}
use kubewhy.Diagnosis.{ResourceRef}
use kubewhy.Kube.{ApiErrors, RunError, classify}
use kubewhy.Snapshot.{Event}
use kubewhy.Snapshot.Api.{PodObject, ServiceObject}
use kubewhy.Snapshot.Collection.{inspect}
use kubewhy.Snapshot.Events.{dedup}
use kubewhy.Snapshot.Service.{Service, is_external_name, has_selector}
use kubewhy.Collect.{Cluster, degrade_read}
use kubewhy.Collect.EventReads.{events_for}
use kubewhy.Collect.EndpointReads.{endpoints_for, endpoint_set}
use kubewhy.Collect.BackendReads.{backend_snapshots, empty_collection}

abbrev pub service_named : (namespace name : String) → ResourceRef
service_named namespace name = record { kind = "Service"; namespace = namespace; name = name }

module _ {E : Type 0} (api : ApiErrors E) (cl : Cluster E) (namespace name : String) where
  unfoldable pub start_service : ServiceObject → Service
  start_service service = record {
    collection = inspect empty_collection ("service " <> name);
    service = service;
    events = [];
    backends = none;
    endpoints = endpoint_set "" false [];
    now = cl.now;
  }

  abbrev pub service_events : Service → E ⊎ List Event → Service
  service_events snap (inl err) = record snap {
    collection =
        degrade_read api snap.collection "events" "explaining endpoint and configuration problems"
          err;
  }
  service_events snap (inr events) = record snap {
    events = dedup events;
    collection = inspect snap.collection ("events for service " <> name);
  }

  unfoldable pub read_service_events : Service → Service
  read_service_events snap =
      service_events snap (events_for cl (service_named namespace name) snap.service.uid)

  unfoldable pub read_endpoints : Service → Service
  read_endpoints snap =
      let answer = endpoints_for api cl snap.collection namespace name in
      record snap { endpoints = answer.0; collection = answer.1 }

  abbrev pub service_backends : Service → (selector : String) → E ⊎ List PodObject → Service
  service_backends snap selector (inl err) = record snap {
    collection =
        degrade_read api snap.collection "pods" "finding the Pods the selector matches" err;
  }
  service_backends snap selector (inr pods) =
      let answer =
        backend_snapshots api cl (inspect snap.collection ("pods matching " <> selector)) pods in
      record snap { backends = some answer.0; collection = answer.1 }

  unfoldable pub read_backends : Service → Service
  read_backends snap =
      let selector = cl.selector_text snap.service.selector in
      if has_selector snap
      then service_backends snap selector (cl.pods namespace selector)
      else snap

  -- What is read of a Service that exists.
  unfoldable pub service_snapshot : ServiceObject → Service
  service_snapshot service =
      let snap = read_service_events (start_service service) in
      if is_external_name snap then snap else read_backends (read_endpoints snap)

  -- Service
  unfoldable pub collect_service : RunError E ⊎ Service
  collect_service = elim (cl.service namespace name) [
    | inl err ↦ inl (classify api err (service_named namespace name) cl.context)
    | inr service ↦ inr (service_snapshot service)
  ]
