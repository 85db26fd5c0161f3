-- ===== src/Analyze/Workload.antt =====
-- The body that ServiceReport, DeploymentReport, StatefulSetReport and IngressReport of
-- internal/analyze share, each over its own rules and sections.
pub mod Verdict
use kubewhy.Base.{Bool, List, [], ◌∷◌, ◌++◌, String, Option, none, some, if◌then◌else◌, map}
use kubewhy.Diagnosis.{Diagnosis, ResourceRef}
use kubewhy.Diagnosis.Engine.{prioritize}
use kubewhy.Diagnosis.Report.{healthy, Section, Report, add_section, with_status}
use kubewhy.Snapshot.Collection.{Collection}
use kubewhy.Analyze.{headline}

-- dominantFinding of service.go, which the other reports write as podFindings[0].ID
abbrev pub dominant_finding : List Diagnosis → Option String
dominant_finding [] = none
dominant_finding (d ∷ ds) = some d.id

-- findings[i].CausedBy = cause, for the findings that are symptoms
abbrev pub blame : (Diagnosis → Bool) → String → Diagnosis → Diagnosis
blame symptom cause d = if symptom d then record d { caused_by = cause } else d

abbrev pub linked : (Diagnosis → Bool) → Option String → List Diagnosis → List Diagnosis
linked symptom none ds = ds
linked symptom (some cause) ds = map (blame symptom cause) ds

unfoldable pub add_all : Report → List Section → Report
unfolding add_section
add_all r [] = r
add_all r (s ∷ ss) = add_all (add_section r s) ss

-- The report with its status and headline, before the sections.
unfoldable pub concluded_report : ResourceRef → Collection → List Diagnosis → Report
unfolding with_status headline
concluded_report ref collection findings =
    let r = with_status (record {
      resource = ref;
      status = healthy;
      headline = "";
      diagnoses = findings;
      overview = [];
      degradations = collection.degradations;
      inspected = collection.inspected;
    }) in
    record r { headline = headline ref r.status }

unfoldable pub workload_report :
    ResourceRef
    → Collection
    → (Diagnosis → Bool)
    → (findings pod_findings : List Diagnosis) → List Section
    → Report
unfolding prioritize concluded_report add_all
workload_report ref collection symptom findings pod_findings sections =
    add_all
      (concluded_report ref collection
        (prioritize (linked symptom (dominant_finding pod_findings) findings ++ pod_findings)))
      sections
