-- ===== src/Rules/Pod/Helpers.antt =====
-- internal/diagnosis/rules/pod/helpers.go, and what it shares with oom.go and terminated.go.
use kubewhy.Base.{
  ℕ, leb, ◌==◌, Bool, true, false, not, ◌&&◌, String, String_eq, ℕ_eq, List, [], ◌∷◌, ◌++◌, Option,
  none, some, is_some, if◌then◌else◌,
}
use kubewhy.Base.Int.{pos, ℤ_eq, exceeds, int_text}
use kubewhy.Base.Text.{◌<>◌, trim_space, newlines_to_spaces, cut, upper_first}
use kubewhy.Base.Time.{Time, sub, at_most, is_zero}
use kubewhy.Diagnosis.{Severity, critical, warning, Evidence}
use kubewhy.Format.{duration, count_text}
use kubewhy.Snapshot.{Event}
use kubewhy.Snapshot.Api.{ContainerSpec, ContainerStatus, Waiting, Terminated, Quantity, entry}
use kubewhy.Snapshot.Pod.{Pod, Container, restarts, waiting, terminated, last_terminated}
use kubewhy.Rules.Pod.Ids.{fact, quoted_fact}
use Prim.Native.String.{len}

-- truncate: text on one line, cut behind a number of bytes.
unfoldable pub truncate : String → ℕ → String
truncate s limit =
    let t = trim_space (newlines_to_spaces s) in
    if leb (len t) limit then t else trim_space (cut limit t) <> "…"

abbrev waiting_evidence : Option Waiting → List Evidence
waiting_evidence none = []
waiting_evidence (some w) =
    if w.reason == ""
    then []
    else quoted_fact "containerStatus" "state.waiting.reason" w.reason (trim_space w.message) ∷ []

-- containerEvidence
unfoldable pub container_evidence : Container → List Evidence
container_evidence c =
    waiting_evidence (waiting c)
    ++ (if exceeds (restarts c) 0
        then fact "containerStatus" "restartCount" (int_text (restarts c)) ∷ []
        else [])

-- terminationEvidence
unfoldable pub termination_evidence : String → Option Terminated → List Evidence
termination_evidence field none = []
termination_evidence field (some t) =
    let message = trim_space t.message in
    fact "containerStatus" (field <> ".exitCode") (int_text t.exit_code)
      ∷ (if t.reason == "" then [] else fact "containerStatus" (field <> ".reason") t.reason ∷ [])
    ++ (if t.signal == pos 0
        then []
        else fact "containerStatus" (field <> ".signal") (int_text t.signal) ∷ [])
    ++ (if message == ""
        then []
        else quoted_fact "containerStatus" (field <> ".message") "" (truncate message 300) ∷ [])

abbrev quantity_evidence : String → Option Quantity → List Evidence
quantity_evidence field none = []
quantity_evidence field (some q) = fact "podSpec" field q.text ∷ []

abbrev spec_memory_evidence : Option ContainerSpec → List Evidence
spec_memory_evidence none = []
spec_memory_evidence (some s) =
    quantity_evidence "resources.requests.memory" (entry s.requests "memory")
    ++ quantity_evidence "resources.limits.memory" (entry s.limits "memory")

-- memoryEvidence
unfoldable pub memory_evidence : Container → List Evidence
memory_evidence c = spec_memory_evidence c.spec

abbrev limit_of : Option ContainerSpec → Bool
limit_of none = false
limit_of (some s) = is_some (entry s.limits "memory")

-- hasMemoryLimit
unfoldable pub has_memory_limit : Container → Bool
has_memory_limit c = limit_of c.spec

-- logsCommand
unfoldable pub logs_command : Pod → String → Bool → String
logs_command snap container previous =
    "kubectl logs "
    <> snap.pod.name
    <> (if snap.pod.namespace == "" then "" else " -n " <> snap.pod.namespace)
    <> (if container == "" then "" else " -c " <> container)
    <> (if previous then " --previous" else "")

-- eventEvidence
unfoldable pub event_evidence : Event → Evidence
unfolding truncate
event_evidence ev =
    quoted_fact "event" "reason"
      (if exceeds ev.count 1 then ev.reason <> " (x" <> int_text ev.count <> ")" else ev.reason)
      (truncate ev.message 300)

abbrev running_in : Option ContainerStatus → Bool
running_in none = false
running_in (some s) = is_some s.running

-- containerRunning
unfoldable pub container_running : Container → Bool
container_running c = running_in c.status

-- recentRestartWindow: ten minutes.
abbrev pub recent_restart_window : ℕ
recent_restart_window = 600_000_000_000

-- The end of a run is recent and the run failed.
abbrev pub failed_lately : Time → Option Terminated → Bool
failed_lately now none = false
failed_lately now (some t) =
    not (t.exit_code == pos 0) && at_most (sub now t.finished_at) recent_restart_window

-- isFlapping
unfoldable pub is_flapping : Container → Time → Bool
is_flapping c now = exceeds (restarts c) 1 && failed_lately now (last_terminated c)

-- severityFor
abbrev pub severity_for : Bool → Severity
severity_for true = warning
severity_for false = critical

abbrev most_recently : Time → Option Terminated → String
most_recently now none = ""
most_recently now (some t) =
    if is_zero t.finished_at
    then ""
    else ", most recently " <> duration (sub now t.finished_at) <> " ago"

-- restartSummary
unfoldable pub restart_summary : Container → Time → String
restart_summary c now =
    count_text (restarts c) "time" "times" <> most_recently now (last_terminated c)

-- capitalize, of oom.go
unfoldable pub capitalize : String → String
capitalize s = upper_first s

-- oomReason
abbrev pub oom_reason : String
oom_reason = "OOMKilled"

abbrev pub is_oom : Option Terminated → Bool
is_oom none = false
is_oom (some t) = t.reason == oom_reason

-- oomTermination: the termination state that reports an OOM kill and the field that it was read from.
unfoldable pub oom_termination : Container → Option Terminated × String
oom_termination c =
    if is_oom (terminated c)
    then (terminated c, "state.terminated")
    else if is_oom (last_terminated c)
    then (last_terminated c, "lastState.terminated")
    else (none, "")

-- crashLoopReason, and inBackoff of terminated.go
abbrev pub crash_loop_reason : String
crash_loop_reason = "CrashLoopBackOff"

abbrev pub backing_off : Option Waiting → Bool
backing_off none = false
backing_off (some w) = w.reason == crash_loop_reason

unfoldable pub in_backoff : Container → Bool
in_backoff c = backing_off (waiting c)
