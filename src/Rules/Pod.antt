-- ===== src/Rules/Pod.antt =====
-- internal/diagnosis/rules/pod: the rule set of Rules, in its order, and Aggregated. Each rule is a
-- child named for what it looks at.
pub mod Ids
pub mod Helpers
pub mod Oom
pub mod CrashLoop
pub mod Stopped
pub mod History
pub mod Unexplained
pub mod NodeHealth
pub mod Claims
pub mod ConfigRefs
pub mod Mounts
pub mod ImagePull
pub mod Probes
pub mod Scheduling
pub mod Laws
use kubewhy.Base.{Bool, List, [], ◌∷◌, ◌++◌, if◌then◌else◌, gather, length, is_empty}
use kubewhy.Diagnosis.{Diagnosis}
use kubewhy.Diagnosis.Engine.{evaluate}
use kubewhy.Diagnosis.Aggregate.{aggregate_by_rule}
use kubewhy.Snapshot.Pod.{Pod}
use Oom.{evaluate_oom}
use CrashLoop.{evaluate_crash_loop}
use Stopped.{evaluate_terminated}
use History.{evaluate_restart_history}
use Unexplained.{fallback}
use NodeHealth.{evaluate_node}
use Claims.{evaluate_claims}
use ConfigRefs.{evaluate_config_refs}
use Mounts.{evaluate_mounts}
use ImagePull.{evaluate_image_pull}
use Probes.{evaluate_probes}
use Scheduling.{QuantityOps, evaluate_scheduling}

-- Rules
abbrev pub pod_rules : QuantityOps → List (Pod → List Diagnosis)
pod_rules ops =
    evaluate_oom
    ∷ evaluate_crash_loop
    ∷ evaluate_terminated
    ∷ evaluate_image_pull
    ∷ evaluate_scheduling ops
    ∷ evaluate_probes
    ∷ evaluate_config_refs
    ∷ evaluate_mounts
    ∷ evaluate_claims
    ∷ evaluate_node
    ∷ evaluate_restart_history
    ∷ []

-- The findings of one Pod, or what the fallback says of it.
unfoldable pub explain_pod : QuantityOps → List Bool → Pod → List Diagnosis
explain_pod ops expired snap =
    let found = evaluate expired (pod_rules ops) snap in
    if is_empty found then fallback snap else found

-- The Pods with what the context answers before each rule on each of them, false where that runs out.
unfoldable pub in_contexts : List (List Bool) → List Pod → List (List Bool × Pod)
in_contexts expired [] = []
in_contexts [] (p ∷ ps) = ([], p) ∷ in_contexts [] ps
in_contexts (e ∷ es) (p ∷ ps) = (e, p) ∷ in_contexts es ps

-- Aggregated, over the Pods with what the context answers before each rule.
unfoldable pub aggregated : QuantityOps → List (List Bool × Pod) → List Diagnosis
unfolding explain_pod gather
aggregated ops pods = aggregate_by_rule (gather (λ p. explain_pod ops p.0 p.1) pods) (length pods)
