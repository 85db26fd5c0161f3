-- ===== src/Analyze/Workload/Verdict.antt =====
-- The verdict of the reports that Analyze.Workload assembles.
use kubewhy.Base.{
  ◌≡◌, refl, sym, ◌∙◌, Bool, List, [], ◌∷◌, ◌++◌, String, Option, none, some, any, any-append,
  any-perm, if◌then◌else◌, is_empty, map, Bool-cases, inl, inr,
}
use kubewhy.Diagnosis.{Diagnosis, ResourceRef}
use kubewhy.Diagnosis.Engine.{prioritize}
use kubewhy.Diagnosis.Engine.Order.{prioritize-perm}
use kubewhy.Diagnosis.Report.{
  healthy, degraded, unhealthy, unknown, Section, Report, add_section, with_status,
}
use kubewhy.Diagnosis.Report.Verdict.{has_critical, has_warning, derive_status_lem}
use kubewhy.Snapshot.Collection.{Collection}
use kubewhy.Analyze.PodVerdict.{add_section-status}
use kubewhy.Analyze.Workload.{
  blame, linked, dominant_finding, add_all, concluded_report, workload_report,
}

pub add_all-status : (r : Report) (ss : List Section) → (add_all r ss).status ≡ r.status
unfolding add_all
add_all-status r [] = refl
add_all-status r (s ∷ ss) = add_all-status (add_section r s) ss ∙ add_section-status r s

-- A test of findings that does not read their cause.
module _ (p : Diagnosis → Bool)
    (same : (d : Diagnosis) (cause : String) → p (record d { caused_by = cause }) ≡ p d) where
  blame-any :
      (symptom : Diagnosis → Bool) (cause : String) (d : Diagnosis)
      → p (blame symptom cause d) ≡ p d
  blame-any symptom cause d = elim (Bool-cases (symptom d)) [
    | inl e ↦ rw e (same d cause)
    | inr e ↦ rw e refl
  ]

  map-blame-any :
      (symptom : Diagnosis → Bool) (cause : String) (ds : List Diagnosis)
      → any p (map (blame symptom cause) ds) ≡ any p ds
  unfolding any
  map-blame-any symptom cause [] = refl
  map-blame-any symptom cause (d ∷ ds) =
      rw (blame-any symptom cause d, map-blame-any symptom cause ds) refl

  pub linked-any :
      (symptom : Diagnosis → Bool) (cause : Option String) (ds : List Diagnosis)
      → any p (linked symptom cause ds) ≡ any p ds
  linked-any symptom none ds = refl
  linked-any symptom (some cause) ds = map-blame-any symptom cause ds

  pub workload-any :
      (symptom : Diagnosis → Bool) (cause : Option String) (ds es : List Diagnosis)
      → any p (prioritize (linked symptom cause ds ++ es)) ≡ any p (ds ++ es)
  workload-any symptom cause ds es =
      any-perm p (prioritize-perm _)
      ∙ any-append p (linked symptom cause ds) es
      ∙ rw (linked-any symptom cause ds) (sym (any-append p ds es))

-- Naming the causes of symptoms and ordering the findings, as the reports on a Service, a Deployment, a
-- StatefulSet and an Ingress do, leaves the verdict alone: it is unhealthy where some finding on the
-- object or on its Pods is critical, else degraded where one is a warning, else healthy where nothing
-- was left out of the analysis, and unknown where something was.
pub workload_report-status :
    (ref : ResourceRef) (collection : Collection) (symptom : Diagnosis → Bool)
    (ds es : List Diagnosis) (sections : List Section)
    → (workload_report ref collection symptom ds es sections).status ≡ (
        if has_critical (ds ++ es)
        then unhealthy
        else if has_warning (ds ++ es)
        then degraded
        else if is_empty collection.degradations
        then healthy
        else unknown)
unfolding workload_report concluded_report with_status
workload_report-status ref collection symptom ds es sections =
    let said = prioritize (linked symptom (dominant_finding es) ds ++ es) in
    let critical_same : has_critical said ≡ has_critical (ds ++ es) =
      workload-any _ (λ d c. refl) symptom (dominant_finding es) ds es in
    let warning_same : has_warning said ≡ has_warning (ds ++ es) =
      workload-any _ (λ d c. refl) symptom (dominant_finding es) ds es in
    add_all-status (concluded_report ref collection said) sections
    ∙ derive_status_lem said collection.degradations
    ∙ rw (critical_same, warning_same) refl
