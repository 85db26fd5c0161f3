-- ===== src/Rules/Pod/Laws/Finished.antt =====
-- The rules of internal/diagnosis/rules/pod on a Pod that ran to its end.
use mathlib.Core.List.{append-nil}
use kubewhy.Base.{
  ◌≡◌, refl, Bool, true, ◌||◌, not, String_eq, ◌==◌, List, [], ◌++◌, if◌then◌else◌, arith,
}
use kubewhy.Diagnosis.{Diagnosis}
use kubewhy.Diagnosis.Engine.{run_rules}
use kubewhy.Snapshot.Pod.{Pod, is_terminal}
use kubewhy.Rules.Pod.{pod_rules}
use kubewhy.Rules.Pod.Oom.{evaluate_oom}
use kubewhy.Rules.Pod.CrashLoop.{evaluate_crash_loop}
use kubewhy.Rules.Pod.Stopped.{evaluate_terminated}
use kubewhy.Rules.Pod.ImagePull.{evaluate_image_pull}
use kubewhy.Rules.Pod.Scheduling.{QuantityOps, evaluate_scheduling}
use kubewhy.Rules.Pod.Probes.{evaluate_probes}
use kubewhy.Rules.Pod.ConfigRefs.{evaluate_config_refs}
use kubewhy.Rules.Pod.Mounts.{evaluate_mounts}
use kubewhy.Rules.Pod.Claims.{evaluate_claims}
use kubewhy.Rules.Pod.NodeHealth.{evaluate_node}
use kubewhy.Rules.Pod.History.{evaluate_restart_history}

module _ (snap : Pod) (ended : is_terminal snap ≡ true) where
  no_crash_loop : evaluate_crash_loop snap ≡ []
  unfolding evaluate_crash_loop
  no_crash_loop = rw ended refl

  skip_if : (b : Bool) (ds : List Diagnosis) → (if b || is_terminal snap then [] else ds) ≡ []
  skip_if b ds = ground (arith, ended)

  no_scheduling : (ops : QuantityOps) → evaluate_scheduling ops snap ≡ []
  unfolding evaluate_scheduling
  no_scheduling ops = skip_if (not (snap.pod.node_name == "")) _

  no_probes : evaluate_probes snap ≡ []
  unfolding evaluate_probes
  no_probes = rw ended refl

  no_mounts : evaluate_mounts snap ≡ []
  unfolding evaluate_mounts
  no_mounts = rw ended refl

  no_claims : evaluate_claims snap ≡ []
  unfolding evaluate_claims
  no_claims = rw ended refl

  no_node : evaluate_node snap ≡ []
  unfolding evaluate_node
  no_node = rw ended refl

  no_history : evaluate_restart_history snap ≡ []
  unfolding evaluate_restart_history
  no_history = rw ended refl

-- Of a finished Pod, only the rules on OOM kills, on containers that ended, on image pulls and on
-- missing configuration find anything.
pub run_rules_finished :
    (ops : QuantityOps) (snap : Pod)
    → is_terminal snap ≡ true
    → run_rules [] (pod_rules ops) snap
      ≡ evaluate_oom snap
        ++ (evaluate_terminated snap ++ (evaluate_image_pull snap ++ evaluate_config_refs snap))
unfolding run_rules
run_rules_finished ops snap h =
    rw
      (
        no_crash_loop snap h,
        no_scheduling snap h ops,
        no_probes snap h,
        no_mounts snap h,
        no_claims snap h,
        no_node snap h,
        no_history snap h,
        append-nil,
      )
      refl
