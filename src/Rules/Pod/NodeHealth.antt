-- ===== src/Rules/Pod/NodeHealth.antt =====
-- evaluateNode of internal/diagnosis/rules/pod/node.go.
use kubewhy.Base.{◌==◌, String_eq, List, [], ◌∷◌, Option, none, some, if◌then◌else◌}
use kubewhy.Base.Text.{◌<>◌, quote}
use kubewhy.Diagnosis.{critical, Diagnosis}
use kubewhy.Snapshot.Api.{Node, Condition}
use kubewhy.Snapshot.Pod.{Pod, condition, is_terminal}
use kubewhy.Rules.Pod.Ids.{id_node_not_ready, certainly, suggest, fact, quoted_fact}
use kubewhy.Rules.Pod.Helpers.{truncate}

unfoldable pub node_diagnosis : Node → Condition → Diagnosis
node_diagnosis node ready =
    record (certainly id_node_not_ready (record { kind = "Node"; namespace = ""; name = node.name })
      "" critical ("Node " <> quote node.name <> " is not Ready, and this Pod is bound to it")) {
        explanation =
            "When a node stops reporting Ready, the kubelet on it is no longer updating the Pods "
            <> "it runs. Their status then reflects the last thing the control plane heard, not what is "
            <> "happening now.";
        evidence =
            fact "node" "conditions.Ready" ready.status
            ∷ quoted_fact "node" "conditions.Ready.reason" ready.reason (truncate ready.message 200)
            ∷ [];
        possible_causes =
            "the kubelet on that node stopped reporting to the control plane"
            ∷ "the node lost network connectivity or was shut down" ∷ [];
        suggestions =
            suggest
              "Look at the node itself; a Pod on an unready node cannot be diagnosed further from the Pod's own status."
              ("kubectl describe node " <> node.name ∷ [])
            ∷ [];
      }

abbrev pub unready_found : Node → Option Condition → List Diagnosis
unready_found node none = []
unready_found node (some ready) =
    if ready.status == "True" then [] else node_diagnosis node ready ∷ []

abbrev pub node_found : Option Node → List Diagnosis
node_found none = []
node_found (some node) = unready_found node (condition node.conditions "Ready")

unfoldable pub evaluate_node : Pod → List Diagnosis
unfolding node_diagnosis condition is_terminal
evaluate_node snap = if is_terminal snap then [] else node_found snap.node
