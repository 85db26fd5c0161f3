-- ===== src/Analyze/Unread.antt =====
-- The report on a Service of which something could not be read: Service of internal/collect/service.go
-- and ServiceReport of internal/analyze/service.go one after the other.
use kubewhy.Base.{
  ◌==◌, ◌≡◌, ◌≢◌, refl, sym, ap, ◌∙◌, Bool, false, String, String_eq, List, arith, is_empty,
  if◌then◌else◌, Bool-cases, inl, inr, ◌⊎◌,
}
use kubewhy.Diagnosis.Engine.{evaluate}
use kubewhy.Diagnosis.Report.{healthy, degraded, unhealthy, unknown}
use kubewhy.Kube.{ApiErrors}
use kubewhy.Snapshot.{Event}
use kubewhy.Snapshot.Api.{ServiceObject, PodObject}
use kubewhy.Snapshot.Service.{Service, service_ref, is_external_name, has_selector}
use kubewhy.Rules.Pod.Scheduling.{QuantityOps}
use kubewhy.Rules.Service.{service_rules, backend_findings}
use kubewhy.Analyze.ServiceReport.{service_report, service_symptom, service_sections}
use kubewhy.Analyze.Workload.Verdict.{workload_report-status}
use kubewhy.Collect.{Cluster}
use kubewhy.Collect.EventReads.{events_for}
use kubewhy.Collect.Laws.{
  IsPartial, inspect-IsPartial, degrade_read-IsPartial, endpoints_for-IsPartial,
  backend_snapshots-IsPartial,
}
use kubewhy.Collect.ServiceReads.{
  service_named, start_service, service_events, read_service_events, read_endpoints,
  service_backends, read_backends, service_snapshot,
}

partial_not_healthy :
    (a b c : Bool)
    → c ≡ false
    → (if a then unhealthy else if b then degraded else if c then healthy else unknown) ≢ healthy
partial_not_healthy a b c h = λ e. ground arith

-- The report on a Service of which something is recorded as left out never says healthy.
service_report-partial :
    (ops : QuantityOps) (expired : List Bool) (expired_pods : List (List Bool)) (snap : Service)
    → IsPartial snap.collection
    → (service_report ops expired expired_pods snap).status ≢ healthy
unfolding service_report
service_report-partial ops expired expired_pods snap h = λ e. partial_not_healthy _ _ _ h (
    sym (
      workload_report-status (service_ref snap) snap.collection service_symptom
        (evaluate expired service_rules snap) (backend_findings ops expired_pods snap)
        (service_sections snap))
    ∙ e)

module _ {E : Type 0} (api : ApiErrors E) (cl : Cluster E) (namespace name : String) where
  service_backends-endpoints :
      (snap : Service) (selector : String) (a : E ⊎ List PodObject)
      → (service_backends api cl namespace name snap selector a).endpoints ≡ snap.endpoints
  service_backends-endpoints snap selector (inl err) = refl
  service_backends-endpoints snap selector (inr pods) = refl

  service_backends-IsPartial :
      (snap : Service) (selector : String) (a : E ⊎ List PodObject)
      → IsPartial snap.collection
      → IsPartial (service_backends api cl namespace name snap selector a).collection
  service_backends-IsPartial snap selector (inl err) h =
      degrade_read-IsPartial api snap.collection "pods" "finding the Pods the selector matches" err
  service_backends-IsPartial snap selector (inr pods) h =
      backend_snapshots-IsPartial api cl _ pods (inspect-IsPartial snap.collection _ h)

  read_backends-endpoints :
      (snap : Service) → (read_backends api cl namespace name snap).endpoints ≡ snap.endpoints
  unfolding read_backends
  read_backends-endpoints snap = elim (Bool-cases (has_selector snap)) [
    | inl e ↦ rw e (
        service_backends-endpoints snap (cl.selector_text snap.service.selector)
          (cl.pods namespace (cl.selector_text snap.service.selector)))
    | inr e ↦ rw e refl
  ]

  read_backends-IsPartial :
      (snap : Service)
      → IsPartial snap.collection
      → IsPartial (read_backends api cl namespace name snap).collection
  unfolding read_backends
  read_backends-IsPartial snap h = elim (Bool-cases (has_selector snap)) [
    | inl e ↦ rw e (
        service_backends-IsPartial snap (cl.selector_text snap.service.selector)
          (cl.pods namespace (cl.selector_text snap.service.selector)) h)
    | inr e ↦ rw e h
  ]

  read_endpoints-IsPartial :
      (snap : Service)
      → (read_endpoints api cl namespace name snap).endpoints.known ≡ false
      → IsPartial (read_endpoints api cl namespace name snap).collection
  unfolding read_endpoints
  read_endpoints-IsPartial snap h = endpoints_for-IsPartial api cl snap.collection namespace name h

  unread_endpoints :
      (snap : Service)
      → (read_backends api cl namespace name
          (read_endpoints api cl namespace name snap)).endpoints.known
        ≡ false
      → IsPartial
          (read_backends api cl namespace name
            (read_endpoints api cl namespace name snap)).collection
  unread_endpoints snap h =
      let read = read_endpoints api cl namespace name snap in
      let known : read.endpoints.known ≡ false =
        sym (ap (λ s. s.known) (read_backends-endpoints read)) ∙ h in
      read_backends-IsPartial read (read_endpoints-IsPartial snap known)

  service_events-service :
      (snap : Service) (a : E ⊎ List Event)
      → (service_events api cl namespace name snap a).service ≡ snap.service
  service_events-service snap (inl err) = refl
  service_events-service snap (inr events) = refl

  start-is_external_name :
      (service : ServiceObject)
      → is_external_name
          (read_service_events api cl namespace name (start_service api cl namespace name service))
        ≡ (service.kind == "ExternalName")
  unfolding is_external_name read_service_events start_service
  start-is_external_name service =
      let start = start_service api cl namespace name service in
      ap (λ o. o.kind == "ExternalName")
        (service_events-service start
          (events_for cl (service_named namespace name) start.service.uid))

  unread_service :
      (service : ServiceObject)
      → (service.kind == "ExternalName") ≡ false
      → (service_snapshot api cl namespace name service).endpoints.known ≡ false
      → IsPartial (service_snapshot api cl namespace name service).collection
  unread_service service inside h =
      let read =
        read_service_events api cl namespace name (start_service api cl namespace name service) in
      let plain : is_external_name read ≡ false = start-is_external_name service ∙ inside in
      let taken : service_snapshot api cl namespace name service
          ≡ read_backends api cl namespace name (read_endpoints api cl namespace name read) =
        unfold service_snapshot in rw plain refl in
      ap (λ s. is_empty s.collection.degradations) taken
      ∙ unread_endpoints read (sym (ap (λ s. s.endpoints.known) taken) ∙ h)

  -- Where the endpoints of a Service that has any could not be read, the report on what the collector
  -- read never says healthy, whatever else it found and wherever the context ends.
  pub service_report_unread :
      (ops : QuantityOps) (expired : List Bool) (expired_pods : List (List Bool))
      (service : ServiceObject)
      → (service.kind == "ExternalName") ≡ false
      → (service_snapshot api cl namespace name service).endpoints.known ≡ false
      → (service_report ops expired expired_pods
          (service_snapshot api cl namespace name service)).status
        ≢ healthy
  service_report_unread ops expired expired_pods service inside h =
      service_report-partial ops expired expired_pods
        (service_snapshot api cl namespace name service) (unread_service service inside h)
