-- ===== src/Diagnosis/Report/Verdict.antt =====
-- The verdict of a report: DeriveStatus of internal/diagnosis/report.go.
use mathlib.Core.List.{Perm}
use kubewhy.Base.{
  ◌≡◌, refl, sym, ◌∙◌, Bool, true, false, List, [], ◌∷◌, arith, any, any-perm, is_empty,
  if◌then◌else◌,
}
use kubewhy.Diagnosis.{Severity, critical, warning, Diagnosis}
use kubewhy.Diagnosis.Report.{
  healthy, degraded, unhealthy, unknown, Degradation, worst, derive_status,
}

abbrev pub is_critical : Severity → Bool
is_critical critical = true
is_critical _ = false

abbrev pub is_warning : Severity → Bool
is_warning warning = true
is_warning _ = false

abbrev pub has_critical : List Diagnosis → Bool
has_critical = any (λ d. is_critical d.severity)

abbrev pub has_warning : List Diagnosis → Bool
has_warning = any (λ d. is_warning d.severity)

worst_unhealthy : (ds : List Diagnosis) → worst unhealthy ds ≡ unhealthy
unfolding worst
worst_unhealthy [] = refl
worst_unhealthy (d ∷ ds) = ground (arith, worst_unhealthy ds)

worst_degraded :
    (ds : List Diagnosis) → worst degraded ds ≡ (if has_critical ds then unhealthy else degraded)
unfolding worst any
worst_degraded [] = refl
worst_degraded (d ∷ ds) = ground (arith, worst_unhealthy ds, worst_degraded ds)

worst_healthy :
    (ds : List Diagnosis)
    → worst healthy ds
      ≡ (if has_critical ds then unhealthy else if has_warning ds then degraded else healthy)
unfolding worst any
worst_healthy [] = refl
worst_healthy (d ∷ ds) = ground (arith, worst_unhealthy ds, worst_degraded ds, worst_healthy ds)

-- The verdict is unhealthy where some finding is critical, else degraded where one is a warning, else
-- healthy where nothing was left out of the analysis, and unknown where something was.
pub derive_status_lem :
    (ds : List Diagnosis) (missing : List Degradation)
    → derive_status ds missing ≡ (
        if has_critical ds
        then unhealthy
        else if has_warning ds
        then degraded
        else if is_empty missing
        then healthy
        else unknown)
unfolding derive_status
derive_status_lem ds [] = ground (arith, worst_healthy ds)
derive_status_lem ds (m ∷ ms) = ground (arith, worst_healthy ds)

-- The verdict is the same whatever the order of the findings, so ordering them first, as the reports
-- do, leaves it alone.
pub derive_status-perm :
    (ds es : List Diagnosis) (missing : List Degradation)
    → Perm ds es
    → derive_status ds missing ≡ derive_status es missing
derive_status-perm ds es missing h =
    derive_status_lem ds missing
    ∙ rw (any-perm _ h, any-perm _ h) (sym (derive_status_lem es missing))
