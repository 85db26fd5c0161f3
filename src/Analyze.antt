-- ===== src/Analyze.antt =====
-- internal/analyze: a snapshot turned into a report, and the verdict that the command line reads.
pub mod PodReport
pub mod PodVerdict
pub mod PodSilence
pub mod Backends
pub mod Workload
pub mod PvcReport
pub mod ServiceReport
pub mod DeploymentReport
pub mod StatefulSetReport
pub mod IngressReport
pub mod ReportVerdicts
pub mod Unread
use kubewhy.Base.{String, ◌==◌, String_eq, if◌then◌else◌}
use kubewhy.Base.Text.{◌<>◌}
use kubewhy.Diagnosis.{ResourceRef, ref_text}
use kubewhy.Diagnosis.Report.{Status, healthy, degraded, unhealthy, unknown, Item}

-- headline of internal/analyze/analyze.go
unfoldable pub headline : ResourceRef → Status → String
headline ref unhealthy = ref_text ref <> " is unhealthy"
headline ref degraded = ref_text ref <> " is degraded"
headline ref unknown = ref_text ref <> " could not be fully analysed"
headline ref healthy = ref_text ref <> " appears healthy"

abbrev pub item : String → String → String → Item
item key value note = record { key = key; value = value; note = note }
