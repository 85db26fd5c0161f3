-- ===== src/Diagnosis/Report.antt =====
-- internal/diagnosis/report.go: the report and its verdict. DeriveStatus is a function of the two
-- fields that it reads, and what it writes is its result.
pub mod Verdict
use kubewhy.Base.{ℕ, Bool, true, false, ◌&&◌, List, [], ◌∷◌, ◌++◌, String, if◌then◌else◌, is_empty}
use kubewhy.Diagnosis.{Severity, critical, warning, info, other_severity, Diagnosis, ResourceRef}

pub data Status : Type 0 where
  healthy degraded unhealthy unknown : Status

pub record Item : Type 0 where
  pub key : String
  pub value : String
  pub note : String

pub record Section : Type 0 where
  pub title : String
  pub items : List Item
  pub tree : List String

pub record Degradation : Type 0 where
  pub resource : String
  pub reason : String
  pub required_for : String
  pub detail : String

pub record Report : Type 0 where
  pub resource : ResourceRef
  pub status : Status
  pub headline : String
  pub diagnoses : List Diagnosis
  pub overview : List Section
  pub degradations : List Degradation
  pub inspected : List String

-- A section with no fact is not added.
unfoldable pub add_section : Report → Section → Report
add_section r s =
    if is_empty s.items && is_empty s.tree then r else record r { overview = r.overview ++ s ∷ [] }

-- One round of the loop of DeriveStatus.
abbrev pub worsen : Status → Severity → Status
worsen status critical = unhealthy
worsen unhealthy warning = unhealthy
worsen status warning = degraded
worsen status _ = status

unfoldable pub worst : Status → List Diagnosis → Status
worst status [] = status
worst status (d ∷ ds) = worst (worsen status d.severity) ds

-- "healthy" would overstate what is known where part of the analysis could not run.
abbrev pub qualify : Status → List Degradation → Status
qualify healthy (d ∷ ds) = unknown
qualify status _ = status

unfoldable pub derive_status : List Diagnosis → List Degradation → Status
unfolding worst
derive_status ds missing = qualify (worst healthy ds) missing

-- r.DeriveStatus(): the report with its status set.
unfoldable pub with_status : Report → Report
unfolding derive_status
with_status r = record r { status = derive_status r.diagnoses r.degradations }
