-- ===== src/Rules/Pod/Probes.antt =====
-- evaluateProbes of internal/diagnosis/rules/pod/probes.go.
use kubewhy.Base.{
  ℕ, ◌==◌, Bool, true, false, not, ◌&&◌, ◌||◌, String, String_eq, List, [], ◌∷◌, ◌++◌, Option, none,
  some, if◌then◌else◌, any,
}
use kubewhy.Base.Int.{ℤ, exceeds, int_text}
use kubewhy.Base.Text.{◌<>◌, quote, to_lower, has_prefix, join}
use kubewhy.Base.Time.{sub, at_most}
use kubewhy.Diagnosis.{Severity, critical, warning, info, Diagnosis, Evidence, Suggestion}
use kubewhy.Format.{duration}
use kubewhy.Snapshot.{Event}
use kubewhy.Snapshot.Api.{Probe, HttpGet, ContainerSpec}
use kubewhy.Snapshot.Events.{event_container, with_reason, sort_events}
use kubewhy.Snapshot.Pod.{Pod, Container, containers, pod_ref, restarts, is_ready, is_terminal}
use kubewhy.Rules.Pod.Ids.{
  id_readiness_probe_failed, id_liveness_probe_failed, id_startup_probe_failed, certainly, suggest,
  fact,
}
use kubewhy.Rules.Pod.Helpers.{event_evidence, logs_command}

pub data ProbeKind : Type 0 where
  readiness liveness startup : ProbeKind

-- The columns of probeKinds.
abbrev pub kind_text : ProbeKind → String
kind_text readiness = "readiness"
kind_text liveness = "liveness"
kind_text startup = "startup"

abbrev pub kind_prefix : ProbeKind → String
kind_prefix readiness = "Readiness probe failed"
kind_prefix liveness = "Liveness probe failed"
kind_prefix startup = "Startup probe failed"

abbrev pub kind_id : ProbeKind → String
kind_id readiness = id_readiness_probe_failed
kind_id liveness = id_liveness_probe_failed
kind_id startup = id_startup_probe_failed

-- recentProbeWindow: ten minutes.
abbrev pub recent_probe_window : ℕ
recent_probe_window = 600_000_000_000

-- orDefault
or_default : String → String → String
or_default s fallback = if s == "" then fallback else s

handler_text : Option HttpGet → Option String → Option ℤ → Option (List String) → String
handler_text (some h) _ _ _ =
    or_default (to_lower h.scheme) "http"
    <> " GET "
    <> or_default h.path "/"
    <> " on port "
    <> h.port
handler_text none (some port) _ _ = "TCP connect on port " <> port
handler_text none none (some port) _ = "gRPC health check on port " <> int_text port
handler_text none none none (some command) = "exec " <> join " " command
handler_text none none none none = "probe configured"

-- describeProbe
unfoldable pub describe_probe : Probe → String
unfolding handler_text or_default
describe_probe p = handler_text p.http_get p.tcp_socket p.grpc p.exec

abbrev probe_of : ProbeKind → ContainerSpec → Option Probe
probe_of readiness s = s.readiness_probe
probe_of liveness s = s.liveness_probe
probe_of startup s = s.startup_probe

abbrev configured : ProbeKind → Option Probe → List Evidence
configured kind none = []
configured kind (some p) =
    fact "podSpec" (kind_text kind <> "Probe") (describe_probe p)
    ∷ fact "podSpec" (kind_text kind <> "Probe.timing") (
        "delay "
        <> int_text p.initial_delay_seconds
        <> "s, period "
        <> int_text p.period_seconds
        <> "s, timeout "
        <> int_text p.timeout_seconds
        <> "s, failureThreshold "
        <> int_text p.failure_threshold)
    ∷ []

abbrev configured_in : ProbeKind → Option ContainerSpec → List Evidence
configured_in kind none = []
configured_in kind (some s) = configured kind (probe_of kind s)

-- probeEvidence
unfoldable pub probe_evidence : ProbeKind → Container → List Evidence
unfolding describe_probe
probe_evidence kind c = configured_in kind c.spec

-- failingNow: the container is known and not ready.
abbrev pub failing_now : Option Container → Bool
failing_now none = false
failing_now (some c) = not (is_ready c)

abbrev pub has_restarted : Option Container → Bool
has_restarted none = false
has_restarted (some c) = exceeds (restarts c) 0

unfoldable pub seen_lately : Pod → Event → Bool
seen_lately snap ev = at_most (sub snap.now ev.last_seen) recent_probe_window

-- The severity after both switches.
unfoldable pub probe_severity : ProbeKind → (failing restarted recent : Bool) → Severity
probe_severity kind failing restarted recent =
    let base = if failing then critical else if recent then warning else info in
    elim kind [
      | readiness ↦ base
      | liveness ↦ if restarted && recent then critical else base
      | startup ↦ if failing || recent then critical else base
    ]

abbrev component_of : Option Container → String
component_of none = ""
component_of (some c) = c.name

abbrev named_container : Option Container → String
named_container none = "A container"
named_container (some c) = "Container " <> quote c.name

probe_summary : String → String → String → (failing recent : Bool) → String
probe_summary subject kind age failing recent =
    if failing
    then subject <> " is failing its " <> kind <> " probe"
    else if recent
    then subject <> " has been failing its " <> kind <> " probe, and is passing again now"
    else subject <> " failed its " <> kind <> " probe, most recently " <> age
      <> " ago, and has been passing since"

kind_explanation : ProbeKind → String
kind_explanation readiness =
    "A container that fails its readiness probe is removed from the endpoints of "
    <> "every Service that selects this Pod, so it receives no traffic. Kubernetes reports that the "
    <> "probe failed; the reason the application answered that way is in its own logs."
kind_explanation liveness =
    "A container that fails its liveness probe is killed and restarted by the kubelet. "
    <> "That is why restarts can appear without the process itself crashing."
kind_explanation startup =
    "A startup probe holds back the liveness and readiness checks until the container "
    <> "reports that it has started. While it keeps failing, the container is restarted once the "
    <> "probe's failure threshold is reached."

-- The text, the causes and the suggestions by the severity.
abbrev history_text : Severity → String → String
history_text info age =
    " These failures stopped " <> age <> " ago, so they describe the Pod's history "
    <> "rather than its current state."
history_text _ age = ""

abbrev probe_causes : Severity → List String
probe_causes info = []
probe_causes _ =
    "the application is not listening on the probed port or path yet"
    ∷ "the application takes longer to answer than the probe allows"
    ∷ "the probe points at a port or path the application does not serve" ∷ []

abbrev probe_suggestions : Severity → String → List Suggestion
probe_suggestions info logs = []
probe_suggestions _ logs =
    suggest
      "Compare the probe's target with what the application actually serves, and check the container's logs around the failures."
      (logs ∷ [])
    ∷ []

abbrev known_evidence : ProbeKind → Option Container → List Evidence
known_evidence kind none = []
known_evidence kind (some c) = probe_evidence kind c

-- probeDiagnosis
unfoldable pub probe_diagnosis : Pod → Event → ProbeKind → Option Container → Diagnosis
unfolding seen_lately probe_severity probe_summary kind_explanation
probe_diagnosis snap ev kind container =
    let failing = failing_now container in
    let recent = seen_lately snap ev in
    let age = duration (sub snap.now ev.last_seen) in
    let component = component_of container in
    let severity = probe_severity kind failing (has_restarted container) recent in
    record (certainly (kind_id kind) (pod_ref snap) component severity
      (probe_summary (named_container container) (kind_text kind) age failing recent)) {
        explanation = kind_explanation kind <> history_text severity age;
        possible_causes = probe_causes severity;
        suggestions = probe_suggestions severity (logs_command snap component false);
        evidence =
            event_evidence ev ∷ known_evidence kind container
            ++ fact "event" "lastSeen" (age <> " ago") ∷ [];
      }

-- containers[name]: the last container of that name.
unfoldable pub last_named : List Container → String → Option Container
last_named [] name = none
last_named (c ∷ cs) name = elim (last_named cs name) [
  | some d ↦ some d
  | none ↦ if c.name == name then some c else none
]

abbrev pub which_probe : String → Option ProbeKind
which_probe message =
    if has_prefix message (kind_prefix readiness)
    then some readiness
    else if has_prefix message (kind_prefix liveness)
    then some liveness
    else if has_prefix message (kind_prefix startup)
    then some startup
    else none

abbrev pub same_kind : ProbeKind → ProbeKind → Bool
same_kind readiness readiness = true
same_kind liveness liveness = true
same_kind startup startup = true
same_kind _ _ = false

-- seen[k]: the container and the kind of probe are already reported.
unfoldable pub already_seen : List (String × ProbeKind) → String → ProbeKind → Bool
unfolding any
already_seen seen name kind = any (λ k. k.0 == name && same_kind k.1 kind) seen

-- The loop over the events. A message has one of the prefixes at most, so the inner loop reports
-- one kind at most.
unfoldable pub probes_from : Pod → List (String × ProbeKind) → List Event → List Diagnosis
unfolding already_seen last_named probe_diagnosis
probes_from snap seen [] = []
probes_from snap seen (ev ∷ evs) = elim (which_probe ev.message) [
  | none ↦ probes_from snap seen evs
  | some kind ↦
      let name = event_container ev in
      let later = probes_from snap ((name, kind) ∷ seen) evs in
      if already_seen seen name kind
      then probes_from snap seen evs
      else probe_diagnosis snap ev kind (last_named (containers snap) name) ∷ later
]

unfoldable pub evaluate_probes : Pod → List Diagnosis
unfolding probes_from is_terminal
evaluate_probes snap =
    if is_terminal snap
    then []
    else probes_from snap [] (sort_events (with_reason ("Unhealthy" ∷ []) snap.events))
