-- ===== src/Diagnosis.antt =====
-- internal/diagnosis/model.go: the data that every rule produces and every renderer consumes. The
-- ranks of Severity and Confidence order findings. Engine, Aggregate and Report, its children, are
-- the files of those names.
pub mod Engine
pub mod Aggregate
pub mod Report
use kubewhy.Base.{
  ℕ, ◌==◌, ◌≡◌, ◌↔◌, refl, Bool, true, false, List, [], ◌∷◌, Option, none, some, String, String_eq,
  if◌then◌else◌, arith,
}
use kubewhy.Base.Text.{◌<>◌}

-- The three severities of the program; `Severity` is a string type, so any other text is one too.
pub data Severity : Type 0 where
  critical warning info : Severity
  other_severity : String → Severity

pub data Confidence : Type 0 where
  certain likely possible : Confidence
  other_confidence : String → Confidence

abbrev pub severity_rank : Severity → ℕ
severity_rank critical = 0
severity_rank warning = 1
severity_rank info = 2
severity_rank (other_severity s) = 3

abbrev pub confidence_rank : Confidence → ℕ
confidence_rank certain = 0
confidence_rank likely = 1
confidence_rank possible = 2
confidence_rank (other_confidence s) = 3

abbrev pub same_severity : Severity → Severity → Bool
same_severity critical critical = true
same_severity warning warning = true
same_severity info info = true
same_severity (other_severity s) (other_severity t) = s == t
same_severity _ _ = false

-- One of the three severities that the program declares.
abbrev pub IsDeclared : Severity → Type 0
IsDeclared (other_severity s) = ⊥
IsDeclared _ = Unit

pub record ResourceRef : Type 0 where
  pub kind : String
  pub namespace : String
  pub name : String

-- ResourceRef.String
unfoldable pub ref_text : ResourceRef → String
ref_text r = if r.kind == "" then r.name else r.kind <> "/" <> r.name

pub record Evidence : Type 0 where
  pub source : String
  pub field : String
  pub value : String
  pub message : String

pub record Suggestion : Type 0 where
  pub description : String
  pub commands : List String

pub record Aggregation : Type 0 where
  pub count : ℕ
  pub total : ℕ
  pub subjects : List ResourceRef

pub record Diagnosis : Type 0 where
  pub id : String
  pub subject : ResourceRef
  pub component : String
  pub severity : Severity
  pub confidence : Confidence
  pub summary : String
  pub explanation : String
  pub evidence : List Evidence
  pub possible_causes : List String
  pub suggestions : List Suggestion
  pub caused_by : String
  pub aggregate : Option Aggregation
