-- ===== src/Analyze/PodVerdict.antt =====
-- The verdict of the report on a Pod: internal/analyze/pod.go.
use kubewhy.Base.{
  ◌≡◌, ◌≢◌, refl, ◌∙◌, Bool, true, false, ◌&&◌, ◌||◌, not, String, List, [], ◌∷◌, Option, none,
  some, is_some, arith, any, any-append, any-gather, any-perm, any_agree, gather, is_empty,
  if◌then◌else◌, Bool-cases, inl, inr,
}
use kubewhy.Diagnosis.{Diagnosis}
use kubewhy.Diagnosis.Engine.{run_rules, prioritize, evaluate}
use kubewhy.Diagnosis.Engine.Rules.{evaluate_alive}
use kubewhy.Diagnosis.Report.{
  healthy, degraded, unhealthy, unknown, Section, Report, add_section, with_status,
}
use kubewhy.Diagnosis.Report.Verdict.{is_critical, has_critical, has_warning, derive_status_lem}
use kubewhy.Snapshot.Api.{Terminated}
use kubewhy.Snapshot.Pod.{Pod, Container, containers, is_terminal, owner_chain}
use kubewhy.Rules.Pod.{pod_rules, explain_pod}
use kubewhy.Rules.Pod.Helpers.{severity_for, oom_termination}
use kubewhy.Rules.Pod.Oom.{oom_recovered, oom_diagnosis, oom_found, oom_of, evaluate_oom}
use kubewhy.Rules.Pod.Unexplained.{pod_is_ready, fallback}
use kubewhy.Rules.Pod.Scheduling.{QuantityOps}
use kubewhy.Analyze.PodReport.{
  status_section, containers_section, add_conditions_section, add_owner_section, concluded,
  pod_report,
}

pub add_section-status : (r : Report) (s : Section) → (add_section r s).status ≡ r.status
unfolding add_section
add_section-status r s = elim (Bool-cases (is_empty s.items && is_empty s.tree)) [
  | inl e ↦ rw e refl
  | inr e ↦ rw e refl
]

add_conditions_section-status :
    (r : Report) (snap : Pod) → (add_conditions_section r snap).status ≡ r.status
unfolding add_conditions_section
add_conditions_section-status r snap = ground (arith, add_section-status r _)

add_owner_section-status :
    (r : Report) (chain : List String) → (add_owner_section r chain).status ≡ r.status
unfolding add_owner_section
add_owner_section-status r chain = ground (arith, add_section-status r _)

-- The report on a Pod is unhealthy where some finding on the Pod is critical, else degraded where one
-- is a warning, else healthy where nothing was left out of the analysis, and unknown where something
-- was.
pub pod_report-status :
    (ops : QuantityOps) (expired : List Bool) (snap : Pod)
    → (pod_report ops expired snap).status ≡ (
        if has_critical (explain_pod ops expired snap)
        then unhealthy
        else if has_warning (explain_pod ops expired snap)
        then degraded
        else if is_empty snap.collection.degradations
        then healthy
        else unknown)
unfolding pod_report
pod_report-status ops expired snap =
    let r = concluded ops expired snap in
    let s = add_section r (status_section snap) in
    let u = add_section s (containers_section snap) in
    add_owner_section-status (add_conditions_section u snap) (owner_chain snap)
    ∙ add_conditions_section-status u snap
    ∙ add_section-status s (containers_section snap)
    ∙ add_section-status r (status_section snap)
    ∙ (unfold concluded with_status in
        derive_status_lem (explain_pod ops expired snap) snap.collection.degradations)

or_else : (ds es : List Diagnosis) → es ≢ [] → (if is_empty ds then es else ds) ≢ []
or_else [] es h = h
or_else (d ∷ ds) es h = λ e. ground arith

fallback_speaks :
    (snap : Pod) → is_terminal snap ≡ false → pod_is_ready snap ≡ false → fallback snap ≢ []
unfolding fallback
fallback_speaks snap h k = rw (h, k) (λ e. ground arith)

-- Of a Pod that is neither finished nor ready something is always said, whatever the rules find and
-- wherever the context ends.
pub explain_pod_speaks :
    (ops : QuantityOps) (expired : List Bool) (snap : Pod)
    → is_terminal snap ≡ false
    → pod_is_ready snap ≡ false
    → explain_pod ops expired snap ≢ []
unfolding explain_pod
explain_pod_speaks ops expired snap h k =
    or_else (evaluate expired (pod_rules ops) snap) (fallback snap) (fallback_speaks snap h k)

-- Where the context ended before the first rule, the report on a Pod that is finished or ready, and of
-- which nothing was left out, says that it is healthy, whatever the rules would have found.
pub pod_report_expired :
    (ops : QuantityOps) (later : List Bool) (snap : Pod)
    → (is_terminal snap || pod_is_ready snap) ≡ true
    → snap.collection.degradations ≡ []
    → (pod_report ops (true ∷ later) snap).status ≡ healthy
unfolding explain_pod evaluate run_rules prioritize fallback any
pod_report_expired ops later snap h complete =
    pod_report-status ops (true ∷ later) snap ∙ rw (h, complete) refl

-- The container was killed for its memory, and it does not run again without flapping.
unfoldable pub down_after_oom : Pod → Container → Bool
down_after_oom snap c =
    is_some (oom_termination c).0 && not (oom_recovered c (oom_termination c).1 snap.now)

oom_diagnosis-severity :
    (snap : Pod) (c : Container) (t : Terminated) (f : String)
    → (oom_diagnosis snap c t f).severity ≡ severity_for (oom_recovered c f snap.now)
unfolding oom_diagnosis
oom_diagnosis-severity snap c t f = ground arith

critical_when : (b : Bool) → is_critical (severity_for b) ≡ not b
critical_when b = ground arith

oom_found-any :
    (snap : Pod) (c : Container) (o : Option Terminated × String)
    → has_critical (oom_found snap c o) ≡ (is_some o.0 && not (oom_recovered c o.1 snap.now))
unfolding any
oom_found-any snap c (none, f) = refl
oom_found-any snap c (some t, f) =
    rw (oom_diagnosis-severity snap c t f, critical_when (oom_recovered c f snap.now))
      (ground arith)

evaluate_oom-any :
    (snap : Pod) → has_critical (evaluate_oom snap) ≡ any (down_after_oom snap) (containers snap)
unfolding evaluate_oom oom_of down_after_oom
evaluate_oom-any snap =
    any-gather _ (oom_of snap) (containers snap)
    ∙ any_agree _ _ (containers snap) (λ c. oom_found-any snap c (oom_termination c))

first_rule :
    (first : Pod → List Diagnosis) (rest : List (Pod → List Diagnosis)) (snap : Pod)
    → has_critical (first snap) ≡ true
    → has_critical (evaluate [] (first ∷ rest) snap) ≡ true
unfolding gather
first_rule first rest snap h =
    any-perm _ (evaluate_alive (first ∷ rest) snap)
    ∙ any-append _ (first snap) (gather (λ r. r snap) rest)
    ∙ rw h refl

kept :
    (ds es : List Diagnosis)
    → has_critical ds ≡ true
    → has_critical (if is_empty ds then es else ds) ≡ true
unfolding any
kept [] es h = absurd (ground arith)
kept (d ∷ ds) es h = h

-- While the context lives, a Pod with a container that was killed for its memory and does not run again
-- is unhealthy, whatever the phase of the Pod.
pub pod_report_oom :
    (ops : QuantityOps) (snap : Pod)
    → any (down_after_oom snap) (containers snap) ≡ true
    → (pod_report ops [] snap).status ≡ unhealthy
unfolding explain_pod
pod_report_oom ops snap h =
    let found = first_rule evaluate_oom _ snap (evaluate_oom-any snap ∙ h) in
    let said = kept (evaluate [] (pod_rules ops) snap) (fallback snap) found in
    pod_report-status ops [] snap ∙ rw said refl
