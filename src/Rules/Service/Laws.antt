-- ===== src/Rules/Service/Laws.antt =====
-- How severe the rules of internal/diagnosis/rules/service are together, and BackendFindings.
use kubewhy.Base.{
  ltb, ◌==◌, ◌≡◌, refl, ap, ◌∙◌, Bool, true, false, not, ◌&&◌, ◌||◌, String, String_eq, ℕ_eq, List,
  [], ◌∷◌, Option, none, some, arith, any, any-gather, any_agree, if◌then◌else◌, is_empty, map,
}
use kubewhy.Diagnosis.{Severity, Diagnosis}
use kubewhy.Diagnosis.Engine.{evaluate}
use kubewhy.Diagnosis.Engine.Runs.{evaluate-any, evaluate-none}
use kubewhy.Diagnosis.Report.Verdict.{is_critical, has_critical}
use kubewhy.Snapshot.Api.{ServicePort}
use kubewhy.Snapshot.Service.{
  Service, has_selector, is_external_name, backends_of, total_count, ready_count, not_ready_count,
}
use kubewhy.Rules.Pod.Scheduling.{QuantityOps}
use kubewhy.Rules.Service.{lowered, demote, backend_findings, service_rules}
use kubewhy.Rules.Service.Selecting.{
  no_endpoints_diagnosis, no_pods_diagnosis, may_match, evaluate_selector,
}
use kubewhy.Rules.Service.Serving.{none_ready_diagnosis, some_unready_diagnosis, evaluate_endpoints}
use kubewhy.Rules.Service.Ports.{
  declared_port_names, target_port_diagnosis, named_target, undeclared, check_port,
  evaluate_target_ports,
}

-- The Service has a selector, and it is known that no Pod matches it.
unfoldable pub matches_nothing : Service → Bool
matches_nothing snap =
    not (is_external_name snap) && has_selector snap && not (may_match snap.backends)

-- Of the endpoints it is known that none is ready, and there is something that could be.
unfoldable pub serves_nothing : Service → Bool
serves_nothing snap =
    not (is_external_name snap || not snap.endpoints.known)
    && not (has_selector snap && is_empty (backends_of snap))
    && not (not (has_selector snap) && total_count snap.endpoints == 0)
    && ready_count snap.endpoints == 0

abbrev pub is_undeclared : List String → Option String → Bool
is_undeclared declared none = false
is_undeclared declared (some name) = not (any (λ n. n == name) declared)

-- A port of the Service names a target port that no backend declares.
unfoldable pub misses_port : Service → Bool
misses_port snap =
    not (is_external_name snap || is_empty (backends_of snap))
    && any
        (λ port.
          is_undeclared (declared_port_names (backends_of snap)) (named_target port.target_port))
        snap.service.ports

selector_guards :
    (a b c e : Bool) (d d' : Diagnosis)
    → has_critical
        (if a then [] else if not b then (if c then [] else d ∷ []) else if e then [] else d' ∷ [])
      ≡ (not a
          && (not b && not c && is_critical d.severity || b && not e && is_critical d'.severity))
unfolding any
selector_guards a b c e d d' = ground arith

evaluate_selector-critical :
    (snap : Service) → has_critical (evaluate_selector snap) ≡ matches_nothing snap
unfolding evaluate_selector matches_nothing
evaluate_selector-critical snap =
    selector_guards (is_external_name snap) (has_selector snap)
      (not snap.endpoints.known || ltb 0 (total_count snap.endpoints)) (may_match snap.backends)
      (no_endpoints_diagnosis snap) (no_pods_diagnosis snap)
    ∙ (unfold no_endpoints_diagnosis no_pods_diagnosis in ground arith)

endpoint_guards :
    (a b c e f : Bool) (d d' : Diagnosis)
    → has_critical (
        if a
        then []
        else if b
        then []
        else if c
        then []
        else if e
        then d ∷ []
        else if f
        then d' ∷ []
        else [])
      ≡ (not a
          && not b
          && not c
          && (e && is_critical d.severity || not e && f && is_critical d'.severity))
unfolding any
endpoint_guards a b c e f d d' = ground arith

evaluate_endpoints-critical :
    (snap : Service) → has_critical (evaluate_endpoints snap) ≡ serves_nothing snap
unfolding evaluate_endpoints serves_nothing
evaluate_endpoints-critical snap =
    endpoint_guards (is_external_name snap || not snap.endpoints.known)
      (has_selector snap && is_empty (backends_of snap))
      (not (has_selector snap) && total_count snap.endpoints == 0) (ready_count snap.endpoints == 0)
      (ltb 0 (not_ready_count snap.endpoints)) (none_ready_diagnosis snap)
      (some_unready_diagnosis snap)
    ∙ (unfold none_ready_diagnosis some_unready_diagnosis in ground arith)

undeclared-critical :
    (snap : Service) (declared : List String) (port : ServicePort) (target : Option String)
    → has_critical (undeclared snap declared port target) ≡ is_undeclared declared target
unfolding any
undeclared-critical snap declared port none = refl
undeclared-critical snap declared port (some name) = unfold target_port_diagnosis in ground arith

ports_guard :
    (a : Bool) (ds : List Diagnosis)
    → has_critical (if a then [] else ds) ≡ (not a && has_critical ds)
unfolding any
ports_guard a ds = ground arith

evaluate_target_ports-critical :
    (snap : Service) → has_critical (evaluate_target_ports snap) ≡ misses_port snap
unfolding evaluate_target_ports misses_port
evaluate_target_ports-critical snap =
    let declared = declared_port_names (backends_of snap) in
    ports_guard (is_external_name snap || is_empty (backends_of snap)) _
    ∙ rw (any-gather (λ d. is_critical d.severity) (check_port snap declared) snap.service.ports) (
        ap (◌&&◌ (not (is_external_name snap || is_empty (backends_of snap)))) (
          any_agree _ _ snap.service.ports (λ port.
            unfold check_port in
            undeclared-critical snap declared port (named_target port.target_port))))

-- While the context lives, the rules find something critical in a Service exactly where one of the
-- three above holds of it.
pub service_rules-critical :
    (snap : Service)
    → has_critical (evaluate [] service_rules snap)
      ≡ (matches_nothing snap || serves_nothing snap || misses_port snap)
unfolding any
service_rules-critical snap =
    evaluate-any snap _ service_rules
    ∙ rw
        (
          evaluate_selector-critical snap,
          evaluate_endpoints-critical snap,
          evaluate_target_ports-critical snap,
        )
        (ground arith)

-- The same for one of these that is not so, wherever the context ends.
pub service_rules_quiet :
    (expired : List Bool) (snap : Service)
    → matches_nothing snap ≡ false
    → serves_nothing snap ≡ false
    → misses_port snap ≡ false
    → has_critical (evaluate expired service_rules snap) ≡ false
service_rules_quiet expired snap h k l = evaluate-none snap _ expired service_rules (
  evaluate_selector-critical snap ∙ h,
  (evaluate_endpoints-critical snap ∙ k, (evaluate_target_ports-critical snap ∙ l, tt)),
)

lowered-critical : (s : Severity) → is_critical (lowered s) ≡ false
lowered-critical s = ground arith

demote-critical : (ds : List Diagnosis) → has_critical (map demote ds) ≡ false
unfolding any
demote-critical [] = refl
demote-critical (d ∷ ds) = rw (lowered-critical d.severity, demote-critical ds) refl

demote_guards :
    (a : Bool) (ds : List Diagnosis)
    → has_critical (if a then [] else if true then map demote ds else ds) ≡ false
unfolding any
demote_guards true ds = refl
demote_guards false ds = demote-critical ds

-- While an endpoint is ready, nothing that is found on the Pods behind a Service is critical.
pub backend_findings_serving :
    (ops : QuantityOps) (expired : List (List Bool)) (snap : Service)
    → ltb 0 (ready_count snap.endpoints) ≡ true
    → has_critical (backend_findings ops expired snap) ≡ false
unfolding backend_findings
backend_findings_serving ops expired snap h = rw h (demote_guards (is_empty (backends_of snap)) _)
