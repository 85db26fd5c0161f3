-- ===== src/Rules/Service/Ports.antt =====
-- targetPortRule of internal/diagnosis/rules/service/rules.go.
use kubewhy.Base.{
  ◌==◌, not, ◌||◌, String, String_eq, List, [], ◌∷◌, Option, none, some, if◌then◌else◌, is_empty,
  any, gather, length, select,
}
use kubewhy.Base.Int.{int_text}
use kubewhy.Base.Text.{◌<>◌, itoa, quote}
use kubewhy.Diagnosis.{critical, Diagnosis}
use kubewhy.Snapshot.Api.{ContainerSpec, ServicePort, IntOrString, from_int, from_string}
use kubewhy.Snapshot.Pod.{Pod, containers}
use kubewhy.Snapshot.Service.{Service, service_ref, is_external_name, backends_of}
use kubewhy.Rules.Texts.{sorted_keys, join_or_none}
use kubewhy.Rules.Pod.Ids.{certainly, fact, suggest}
use kubewhy.Rules.Service.Ids.{id_target_port_not_found}

abbrev spec_port_names : Option ContainerSpec → List String
spec_port_names none = []
spec_port_names (some spec) = select (λ name. not (name == "")) spec.port_names

abbrev pod_port_names : Pod → List String
pod_port_names backend = gather (λ c. spec_port_names c.spec) (containers backend)

-- declaredPortNames: the names that are put into the map, in the order of the loop.
unfoldable pub declared_port_names : List Pod → List String
unfolding gather select
declared_port_names backends = gather pod_port_names backends

-- portLabel
unfoldable pub port_label : ServicePort → String
port_label port = if port.name == "" then int_text port.port else port.name

unfoldable pub target_port_diagnosis : Service → List String → ServicePort → String → Diagnosis
unfolding service_ref backends_of port_label sorted_keys join_or_none
target_port_diagnosis snap declared port name =
    record (certainly id_target_port_not_found (service_ref snap) (port_label port) critical
      ("No backend Pod declares a port named " <> quote name)) {
        explanation =
            "Service port "
            <> port_label port
            <> " forwards to the named port "
            <> quote name
            <> ". Kubernetes resolves that name against "
            <> "the containerPort entries of each backend Pod, and none of the "
            <> itoa (length (backends_of snap))
            <> " matching Pods "
            <> "declares it, so no endpoint can be published for this port.";
        evidence =
            fact "service" "spec.ports.targetPort" name
            ∷ fact "podSpec" "declaredPortNames" (join_or_none (sorted_keys declared))
            ∷ [];
        suggestions =
            suggest
              "Declare the named port on the container, or point the Service at the port number instead."
              []
            ∷ [];
      }

abbrev pub named_target : IntOrString → Option String
named_target (from_int n) = none
named_target (from_string s) = if s == "" then none else some s

abbrev pub undeclared : Service → List String → ServicePort → Option String → List Diagnosis
undeclared snap declared port none = []
undeclared snap declared port (some name) =
    if any (λ n. n == name) declared then [] else target_port_diagnosis snap declared port name ∷ []

-- One round of the loop over the ports.
unfoldable pub check_port : Service → List String → ServicePort → List Diagnosis
unfolding any target_port_diagnosis
check_port snap declared port = undeclared snap declared port (named_target port.target_port)

-- evaluateTargetPorts
unfoldable pub evaluate_target_ports : Service → List Diagnosis
unfolding is_external_name backends_of declared_port_names gather check_port
evaluate_target_ports snap =
    if is_external_name snap || is_empty (backends_of snap)
    then []
    else gather (check_port snap (declared_port_names (backends_of snap))) snap.service.ports
