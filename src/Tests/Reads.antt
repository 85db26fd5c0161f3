-- ===== src/Tests/Reads.antt =====
-- The collectors at a cluster that refuses to show endpoints, and at one with an event on every object.
use kubewhy.Base.{
  ◌≤◌, any, length, select, map, List, ◌∷◌, none, ◌≡◌, ◌≢◌, ◌==◌, String_eq, refl, false, String,
  [], some, inl, inr,
}
use kubewhy.Snapshot.{unknown, is_missing}
use kubewhy.Diagnosis.Report.{healthy}
use kubewhy.Kube.{ApiErrors}
use kubewhy.Analyze.PodSilence.{no_quantities}
use kubewhy.Analyze.ServiceReport.{service_report}
use kubewhy.Analyze.Unread.{service_report_unread}
use kubewhy.Collect.{Cluster, existence}
use kubewhy.Collect.EndpointReads.{endpoints_for}
use kubewhy.Collect.EventReads.{events_for, matches_object}
use kubewhy.Snapshot.Events.{dedup}
use kubewhy.Collect.ServiceReads.{
  start_service, read_service_events, read_endpoints, read_backends, service_snapshot,
}
use kubewhy.Base.Int.{pos}
use kubewhy.Diagnosis.{ResourceRef}
use kubewhy.Snapshot.Api.{EventObject, PodObject}
use kubewhy.Analyze.PodSilence.{new_pod}
use kubewhy.Collect.BackendReads.{
  empty_collection, backend_snapshots, count_needed, pod_ready, snapshots_from, needy_snapshot,
}
use kubewhy.Collect.BackendReads.Bounds.{has_events, is_idle_read, backend_snapshots-bounds}
use kubewhy.Collect.Laws.{says_not_found, Recorded, failed_read, existence_lem}
use kubewhy.Snapshot.Service.{is_external_name, has_selector}
use kubewhy.Tests.Objects.{bound_claim, serving_service}

-- Errors as their reasons.
abbrev by_reason : ApiErrors String
by_reason = record {
  is_not_found = λ e. e == "NotFound";
  is_forbidden = λ e. e == "Forbidden";
  is_unauthorized = λ e. e == "Unauthorized";
  is_timeout = λ e. e == "Timeout";
  message = λ e. e;
}

abbrev secretive : Cluster String
secretive = record {
  context = "home";
  now = 60_000_000_001;
  claim = λ namespace name. inr bound_claim.claim;
  service = λ namespace name. inr serving_service.service;
  storage_class = λ name. inl "NotFound";
  storage_classes = inr [];
  events = λ ref uid. inr [];
  pods = λ namespace selector. inr [];
  endpoint_slices = λ namespace service. inl "Forbidden";
  endpoints = λ namespace name. inl "Forbidden";
  selector_text = λ selector. "app=web";
}

endpoints_unread :
    (service_snapshot by_reason secretive "shop" "web" serving_service.service).endpoints.known
    ≡ false
unfolding service_snapshot start_service read_service_events read_endpoints read_backends
    endpoints_for is_external_name has_selector events_for
endpoints_unread = refl

service_report_unread_example :
    (service_report no_quantities [] []
      (service_snapshot by_reason secretive "shop" "web" serving_service.service)).status
    ≢ healthy
service_report_unread_example =
    service_report_unread by_reason secretive "shop" "web" no_quantities [] []
      serving_service.service refl endpoints_unread

existence_lem_example :
    let (exists, after) =
      existence by_reason empty_collection "secrets" "a check" (some "Forbidden") in
    (is_missing exists ≡ says_not_found by_reason (some "Forbidden"))
    × (exists ≢ unknown → after ≡ empty_collection)
    × (exists ≡ unknown
        → (e : String) × (some "Forbidden" ≡ some e)
          × Recorded empty_collection (failed_read by_reason "secrets" "a check" e) after)
existence_lem_example =
    existence_lem by_reason empty_collection "secrets" "a check" (some "Forbidden")

-- What is said of every object.
abbrev back_off : ResourceRef → (uid : String) → EventObject
back_off ref uid = record {
  kind = "Warning";
  reason = "BackOff";
  message = "Back-off restarting failed container";
  count = pos 3;
  first_timestamp = 5;
  last_timestamp = 7;
  event_time = 0;
  series = none;
  object_kind = ref.kind;
  object_namespace = ref.namespace;
  object_name = ref.name;
  object_uid = uid;
  object_field_path = "spec.containers{app}";
}

abbrev talkative : Cluster String
talkative = record secretive { events = λ ref uid. inr (back_off ref uid ∷ []) }

abbrev two_pods : List PodObject
two_pods = record new_pod { name = "web-1" } ∷ record new_pod { name = "web-2"; uid = "2" } ∷ []

two_pods_read :
    length (select has_events (backend_snapshots by_reason talkative empty_collection two_pods).0)
    ≡ 2
unfolding backend_snapshots select count_needed pod_ready snapshots_from needy_snapshot events_for
    dedup matches_object
two_pods_read = refl

backend_snapshots-bounds_example :
    (map (λ s. s.pod) (backend_snapshots by_reason talkative empty_collection two_pods).0
      ≡ two_pods)
    × (length
          (select has_events (backend_snapshots by_reason talkative empty_collection two_pods).0)
        ≤ 8)
    × (any is_idle_read (backend_snapshots by_reason talkative empty_collection two_pods).0 ≡ false)
backend_snapshots-bounds_example =
    backend_snapshots-bounds by_reason talkative empty_collection two_pods
