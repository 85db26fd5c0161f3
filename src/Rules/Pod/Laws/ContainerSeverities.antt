-- ===== src/Rules/Pod/Laws/ContainerSeverities.antt =====
-- The severities of the rules of internal/diagnosis/rules/pod on containers, the node and claims.
use kubewhy.Base.{
  [], ◌∷◌, ◌++◌, Option, none, some, String, String_eq, arith, All-append, All-gather, All-if,
  gather, Bool-cases, inl, inr, ◌==◌,
}
use kubewhy.Base.Sort.{sort_stable}
use kubewhy.Diagnosis.{Diagnosis, IsDeclared}
use kubewhy.Diagnosis.Engine.Order.{AllDeclared}
use kubewhy.Snapshot.{Existence, found, missing, unknown}
use kubewhy.Snapshot.Api.{Terminated, Node}
use kubewhy.Snapshot.Pod.{Pod, Container, PvcRef, containers, is_terminal, terminated, condition}
use kubewhy.Rules.Pod.Helpers.{oom_termination}
use kubewhy.Rules.Pod.Oom.{oom_found, oom_of, oom_diagnosis, evaluate_oom}
use kubewhy.Rules.Pod.CrashLoop.{
  crash_loop_of, crash_loop_diagnosis, is_crash_looping, evaluate_crash_loop,
}
use kubewhy.Rules.Pod.Stopped.{
  eviction_of, stopped_found, stopped_of, is_stopped, stopped_diagnosis, evaluate_terminated,
}
use kubewhy.Rules.Pod.History.{history_of, history_diagnosis, is_history, evaluate_restart_history}
use kubewhy.Rules.Pod.NodeHealth.{node_diagnosis, unready_found, node_found, evaluate_node}
use kubewhy.Rules.Pod.Claims.{
  claim_of, claim_found, missing_claim_diagnosis, unbound_claim_diagnosis, by_name, evaluate_claims,
}

abbrev Declared : Diagnosis → Type 0
Declared d = IsDeclared d.severity

oom_diagnosis-IsDeclared :
    (snap : Pod) (c : Container) (t : Terminated) (f : String) → Declared (oom_diagnosis snap c t f)
unfolding oom_diagnosis
oom_diagnosis-IsDeclared snap c t f = ground arith

oom_found-AllDeclared :
    (snap : Pod) (c : Container) (o : Option Terminated × String) → AllDeclared (oom_found snap c o)
oom_found-AllDeclared snap c (none, f) = tt
oom_found-AllDeclared snap c (some t, f) = (oom_diagnosis-IsDeclared snap c t f, tt)

pub evaluate_oom-AllDeclared : (snap : Pod) → AllDeclared (evaluate_oom snap)
unfolding evaluate_oom
evaluate_oom-AllDeclared snap =
    All-gather Declared (oom_of snap) (containers snap)
      λ c. oom_found-AllDeclared snap c (oom_termination c)

crash_loop_of-AllDeclared : (snap : Pod) (c : Container) → AllDeclared (crash_loop_of snap c)
unfolding crash_loop_of
crash_loop_of-AllDeclared snap c =
    All-if Declared (is_crash_looping snap c) (crash_loop_diagnosis snap c ∷ []) []
      (ground arith, tt) tt

pub evaluate_crash_loop-AllDeclared : (snap : Pod) → AllDeclared (evaluate_crash_loop snap)
unfolding evaluate_crash_loop
evaluate_crash_loop-AllDeclared snap =
    All-if Declared (is_terminal snap) [] (gather (crash_loop_of snap) (containers snap)) tt
      (All-gather Declared (crash_loop_of snap) (containers snap) (crash_loop_of-AllDeclared snap))

stopped_found-AllDeclared :
    (snap : Pod) (c : Container) (o : Option Terminated) → AllDeclared (stopped_found snap c o)
unfolding stopped_diagnosis
stopped_found-AllDeclared snap c none = tt
stopped_found-AllDeclared snap c (some t) =
    All-if Declared (is_stopped snap c t) (stopped_diagnosis snap c t ∷ []) [] (ground arith, tt) tt

eviction_of-AllDeclared : (snap : Pod) → AllDeclared (eviction_of snap)
unfolding eviction_of
eviction_of-AllDeclared snap = elim (Bool-cases (snap.pod.reason == "Evicted")) [
  | inl e ↦ rw e (tt, tt)
  | inr e ↦ rw e tt
]

pub evaluate_terminated-AllDeclared : (snap : Pod) → AllDeclared (evaluate_terminated snap)
unfolding evaluate_terminated
evaluate_terminated-AllDeclared snap =
    let evicted = eviction_of-AllDeclared snap in
    let rest = gather (stopped_of snap) (containers snap) in
    All-if Declared (snap.pod.phase == "Succeeded") (eviction_of snap) (eviction_of snap ++ rest)
      evicted
      (All-append Declared (eviction_of snap) rest evicted (
        All-gather Declared (stopped_of snap) (containers snap)
          λ c. stopped_found-AllDeclared snap c (terminated c)))

history_diagnosis-IsDeclared :
    (snap : Pod) (c : Container) (o : Option Terminated) → Declared (history_diagnosis snap c o)
unfolding history_diagnosis
history_diagnosis-IsDeclared snap c none = tt
history_diagnosis-IsDeclared snap c (some t) = tt

pub evaluate_restart_history-AllDeclared :
    (snap : Pod) → AllDeclared (evaluate_restart_history snap)
unfolding evaluate_restart_history
evaluate_restart_history-AllDeclared snap =
    All-if Declared (is_terminal snap) [] (gather (history_of snap) (containers snap)) tt (
      All-gather Declared (history_of snap) (containers snap) λ c.
        All-if Declared (is_history snap c) (_ ∷ []) [] (history_diagnosis-IsDeclared snap c _, tt)
          tt)

node_found-AllDeclared : (n : Option Node) → AllDeclared (node_found n)
unfolding node_diagnosis
node_found-AllDeclared none = tt
node_found-AllDeclared (some n) =
    elim (condition n.conditions "Ready") as (λ o. AllDeclared (unready_found n o)) [
      | none ↦ tt
      | some r ↦ All-if Declared (r.status == "True") [] (node_diagnosis n r ∷ []) tt (tt, tt)
    ]

pub evaluate_node-AllDeclared : (snap : Pod) → AllDeclared (evaluate_node snap)
unfolding evaluate_node
evaluate_node-AllDeclared snap =
    All-if Declared (is_terminal snap) [] (node_found snap.node) tt
      (node_found-AllDeclared snap.node)

unbound_claim-IsDeclared : (snap : Pod) (p : PvcRef) → Declared (unbound_claim_diagnosis snap p)
unfolding unbound_claim_diagnosis
unbound_claim-IsDeclared snap p = ground arith

claim_found-AllDeclared :
    (snap : Pod) (n : String) (p : PvcRef) (e : Existence) → AllDeclared (claim_found snap n p e)
unfolding missing_claim_diagnosis
claim_found-AllDeclared snap n p missing = (tt, tt)
claim_found-AllDeclared snap n p found =
    All-if Declared (p.phase == "Bound") [] (unbound_claim_diagnosis snap p ∷ []) tt
      (unbound_claim-IsDeclared snap p, tt)
claim_found-AllDeclared snap n p unknown = tt

pub evaluate_claims-AllDeclared : (snap : Pod) → AllDeclared (evaluate_claims snap)
unfolding evaluate_claims
evaluate_claims-AllDeclared snap =
    let claims = sort_stable by_name snap.pvcs in
    All-if Declared (is_terminal snap) [] (gather (claim_of snap) claims) tt (
      All-gather Declared (claim_of snap) claims
        λ e. claim_found-AllDeclared snap e.0 e.1 e.1.exists)
