-- ===== src/Rules/Pod/Laws/Severities.antt =====
-- The severities of all rules of internal/diagnosis/rules/pod together.
use kubewhy.Base.{Bool, true, false, List, [], ◌∷◌, All, All-append}
use kubewhy.Diagnosis.{Diagnosis}
use kubewhy.Diagnosis.Engine.{run_rules}
use kubewhy.Diagnosis.Engine.Order.{AllDeclared}
use kubewhy.Snapshot.Pod.{Pod}
use kubewhy.Rules.Pod.{pod_rules}
use kubewhy.Rules.Pod.Scheduling.{QuantityOps}
use kubewhy.Rules.Pod.Laws.ContainerSeverities.{
  evaluate_oom-AllDeclared, evaluate_crash_loop-AllDeclared, evaluate_terminated-AllDeclared,
  evaluate_restart_history-AllDeclared, evaluate_node-AllDeclared, evaluate_claims-AllDeclared,
}
use kubewhy.Rules.Pod.Laws.ObjectSeverities.{
  evaluate_image_pull-AllDeclared, evaluate_scheduling-AllDeclared, evaluate_probes-AllDeclared,
  evaluate_config_refs-AllDeclared, evaluate_mounts-AllDeclared,
}

-- A rule that declares the severities of what it finds in a Pod.
abbrev IsRegular : Pod → (Pod → List Diagnosis) → Type 0
IsRegular snap rule = AllDeclared (rule snap)

run_rules-AllDeclared :
    (expired : List Bool) (rules : List (Pod → List Diagnosis)) (snap : Pod)
    → All (IsRegular snap) rules
    → AllDeclared (run_rules expired rules snap)
unfolding run_rules
run_rules-AllDeclared expired [] snap h = tt
run_rules-AllDeclared [] (r ∷ rs) snap (h, hs) =
    All-append _ (r snap) (run_rules [] rs snap) h (run_rules-AllDeclared [] rs snap hs)
run_rules-AllDeclared (true ∷ expired) (r ∷ rs) snap hs = tt
run_rules-AllDeclared (false ∷ expired) (r ∷ rs) snap (h, hs) =
    All-append _ (r snap) (run_rules expired rs snap) h (run_rules-AllDeclared expired rs snap hs)

-- Whatever the Pod, and wherever the context ends, every finding of the Pod rules has a severity that
-- the program declares.
pod_rules-AllDeclared :
    (ops : QuantityOps) (expired : List Bool) (snap : Pod)
    → AllDeclared (run_rules expired (pod_rules ops) snap)
pod_rules-AllDeclared ops expired snap = run_rules-AllDeclared expired (pod_rules ops) snap (
  evaluate_oom-AllDeclared snap,
  (
    evaluate_crash_loop-AllDeclared snap,
    (
      evaluate_terminated-AllDeclared snap,
      (
        evaluate_image_pull-AllDeclared snap,
        (
          evaluate_scheduling-AllDeclared ops snap,
          (
            evaluate_probes-AllDeclared snap,
            (
              evaluate_config_refs-AllDeclared snap,
              (
                evaluate_mounts-AllDeclared snap,
                (
                  evaluate_claims-AllDeclared snap,
                  (evaluate_node-AllDeclared snap, (evaluate_restart_history-AllDeclared snap, tt)),
                ),
              ),
            ),
          ),
        ),
      ),
    ),
  ),
)
