-- ===== src/Analyze/Backends.antt =====
-- What the reports share: backendState and backendIsReady of internal/analyze/service.go, trimJoin of
-- deployment.go and existenceNote of ingress.go.
use kubewhy.Base.{
  ℕ, ltb, ◌==◌, Bool, false, not, ◌||◌, String, String_eq, List, [], ◌∷◌, Option, none, some,
  if◌then◌else◌, any, length, map,
}
use kubewhy.Base.Int.{int_text}
use kubewhy.Base.Text.{◌<>◌}
use kubewhy.Diagnosis.Report.{Item, Section}
use kubewhy.Format.{duration}
use kubewhy.Snapshot.{Existence, unknown, found, missing}
use kubewhy.Snapshot.Api.{Condition, Waiting, Terminated}
use kubewhy.Snapshot.Pod.{Pod, Container, containers, waiting, terminated, condition, pod_age}
use kubewhy.Analyze.{item}

abbrev is_true_condition : Option Condition → Bool
is_true_condition none = false
is_true_condition (some c) = c.status == "True"

-- backendIsReady
unfoldable pub backend_is_ready : Pod → Bool
unfolding condition
backend_is_ready backend = is_true_condition (condition backend.pod.conditions "Ready")

abbrev waiting_state : Option Waiting → Option String
waiting_state none = none
waiting_state (some w) = if w.reason == "" then none else some ("NotReady (" <> w.reason <> ")")

abbrev exit_state : Option Terminated → Option String
exit_state none = none
exit_state (some t) = some ("NotReady (exited " <> int_text t.exit_code <> ")")

abbrev first_state : (a b : Option String) → String → String
first_state (some s) b rest = s
first_state none (some s) rest = s
first_state none none rest = rest

-- The loop over the containers.
not_ready_state : List Container → String
unfolding waiting terminated
not_ready_state [] = "NotReady"
not_ready_state (c ∷ cs) =
    let rest = not_ready_state cs in
    first_state (waiting_state (waiting c)) (exit_state (terminated c)) rest

-- backendState
unfoldable pub backend_state : Pod → String
unfolding backend_is_ready not_ready_state
backend_state backend =
    if backend_is_ready backend
    then "Ready"
    else if not (backend.pod.phase == "Running")
    then backend.pod.phase
    else not_ready_state (containers backend)

abbrev pub pod_item : Pod → Item
pod_item pod = item pod.pod.name (backend_state pod) (duration (pod_age pod) <> " old")

-- maxListedPods, and maxListedBackends of service.go
abbrev pub max_listed_pods : ℕ
max_listed_pods = 10

-- addWorkloadPodsSection: the Pods one by one where some is not ready and the list is short.
unfoldable pub pods_section : String → List Pod → List Section
unfolding any backend_is_ready backend_state duration pod_age
pods_section title pods =
    if not (any (λ p. not (backend_is_ready p)) pods) || ltb max_listed_pods (length pods)
    then []
    else record { title = title; items = map pod_item pods; tree = [] } ∷ []

-- trimJoin
unfoldable pub trim_join : String → String → String
trim_join existing extra = if existing == "" then extra else existing <> ", " <> extra

-- existenceNote
abbrev pub existence_note : Existence → String
existence_note missing = "does not exist"
existence_note found = "exists"
existence_note unknown = ""
