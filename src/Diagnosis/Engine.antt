-- ===== src/Diagnosis/Engine.antt =====
-- internal/diagnosis/engine.go: running a rule set and ordering its findings. A rule is its
-- Evaluate function; the state of the context is asked for before each rule.
pub mod Order
pub mod Rules
pub mod Runs
use kubewhy.Base.{
  ℕ, ltb, ◌==◌, not, Bool, true, false, ◌&&◌, ◌||◌, List, [], ◌∷◌, ◌++◌, String, String_eq, ℕ_eq,
  if◌then◌else◌, any,
}
use kubewhy.Base.Sort.{sort_stable}
use kubewhy.Diagnosis.{Diagnosis, severity_rank, confidence_rank, same_severity}

-- causes[id] of Prioritize: some finding names the id as its cause.
unfoldable pub is_cause : List Diagnosis → String → Bool
unfolding any
is_cause ds id = any (λ d. not (d.caused_by == "") && d.caused_by == id) ds

-- 0 for a finding that explains another, 2 for one that is explained, 1 for the rest.
unfoldable pub weight : List Diagnosis → Diagnosis → ℕ
weight ds d = if is_cause ds d.id then 0 else if d.caused_by == "" then 1 else 2

-- The comparison that Prioritize sorts by.
unfoldable pub before_in : List Diagnosis → Diagnosis → Diagnosis → Bool
before_in ds a b =
    if not (same_severity a.severity b.severity)
    then ltb (severity_rank a.severity) (severity_rank b.severity)
    else if not (weight ds a == weight ds b)
    then ltb (weight ds a) (weight ds b)
    else ltb (confidence_rank a.confidence) (confidence_rank b.confidence)

unfoldable pub prioritize : List Diagnosis → List Diagnosis
unfolding before_in weight is_cause sort_stable
prioritize [] = []
prioritize (d ∷ []) = d ∷ []
prioritize (d ∷ e ∷ rest) = sort_stable (before_in (d ∷ e ∷ rest)) (d ∷ e ∷ rest)

-- The loop of Evaluate. `expired` holds what ctx.Err() answers before each rule, false when it runs
-- out; the loop ends at the first true.
module _ {S : Type 0} where
  unfoldable pub run_rules : List Bool → List (S → List Diagnosis) → S → List Diagnosis
  run_rules expired [] snap = []
  run_rules [] (rule ∷ rules) snap = rule snap ++ run_rules [] rules snap
  run_rules (true ∷ expired) (rule ∷ rules) snap = []
  run_rules (false ∷ expired) (rule ∷ rules) snap = rule snap ++ run_rules expired rules snap

  unfoldable pub evaluate : List Bool → List (S → List Diagnosis) → S → List Diagnosis
  unfolding run_rules prioritize
  evaluate expired rules snap = prioritize (run_rules expired rules snap)
