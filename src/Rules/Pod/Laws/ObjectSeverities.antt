-- ===== src/Rules/Pod/Laws/ObjectSeverities.antt =====
-- The severities of the rules of internal/diagnosis/rules/pod on events and referenced objects.
use kubewhy.Base.{
  Bool, List, [], ◌∷◌, ◌++◌, Option, none, some, String, String_eq, arith, All-append, All-gather,
  All-if, All-map_of, gather, map, ◌==◌, ◌||◌, not, is_empty, Option-cases, inl, inr,
}
use kubewhy.Diagnosis.{Diagnosis, IsDeclared}
use kubewhy.Diagnosis.Engine.Order.{AllDeclared}
use kubewhy.Snapshot.{Event}
use kubewhy.Snapshot.Api.{Waiting}
use kubewhy.Snapshot.Events.{event_container}
use kubewhy.Snapshot.Pod.{Pod, Container, containers, is_terminal, waiting}
use kubewhy.Rules.Pod.Ids.{id_missing_config_map, id_missing_secret}
use kubewhy.Rules.Pod.ConfigRefs.{
  missing_object_diagnosis, missing_names, config_of, config_found, config_diagnosis,
  is_config_error, evaluate_config_refs,
}
use kubewhy.Rules.Pod.Mounts.{mount_diagnosis, mount_found, any_container_waiting, evaluate_mounts}
use kubewhy.Rules.Pod.ImagePull.{
  image_diagnosis, image_found, is_image_wait, image_pull_of, evaluate_image_pull,
}
use kubewhy.Rules.Pod.Probes.{
  ProbeKind, which_probe, last_named, probe_severity, probe_diagnosis, probes_from, already_seen,
  evaluate_probes,
}
use kubewhy.Rules.Pod.Scheduling.{QuantityOps, evaluate_scheduling, scheduler_message}

abbrev Declared : Diagnosis → Type 0
Declared d = IsDeclared d.severity

config_found-AllDeclared :
    (snap : Pod) (c : Container) (o : Option Waiting) → AllDeclared (config_found snap c o)
unfolding config_diagnosis
config_found-AllDeclared snap c none = tt
config_found-AllDeclared snap c (some w) =
    All-if Declared (is_config_error (some w)) (config_diagnosis snap c w ∷ []) [] (tt, tt) tt

pub evaluate_config_refs-AllDeclared : (snap : Pod) → AllDeclared (evaluate_config_refs snap)
unfolding evaluate_config_refs
evaluate_config_refs-AllDeclared snap =
    let config_maps =
      map (missing_object_diagnosis snap id_missing_config_map "ConfigMap")
        (missing_names snap.config_maps) in
    let secrets =
      map (missing_object_diagnosis snap id_missing_secret "Secret") (missing_names snap.secrets) in
    let errors = gather (config_of snap) (containers snap) in
    All-append Declared (config_maps ++ secrets) errors
      (All-append Declared config_maps secrets
        (All-map_of Declared _ (missing_names snap.config_maps) (λ n. tt))
        (All-map_of Declared _ (missing_names snap.secrets) (λ n. tt)))
      (All-gather Declared (config_of snap) (containers snap)
        λ c. config_found-AllDeclared snap c (waiting c))

mount_found-AllDeclared : (snap : Pod) (o : Option Event) → AllDeclared (mount_found snap o)
unfolding mount_diagnosis
mount_found-AllDeclared snap none = tt
mount_found-AllDeclared snap (some ev) =
    All-if Declared (any_container_waiting snap) (mount_diagnosis snap ev ∷ []) [] (tt, tt) tt

pub evaluate_mounts-AllDeclared : (snap : Pod) → AllDeclared (evaluate_mounts snap)
unfolding evaluate_mounts
evaluate_mounts-AllDeclared snap =
    All-if Declared (is_terminal snap) [] _ tt (mount_found-AllDeclared snap _)

image_found-AllDeclared :
    (snap : Pod) (c : Container) (o : Option Waiting) → AllDeclared (image_found snap c o)
unfolding image_diagnosis
image_found-AllDeclared snap c none = tt
image_found-AllDeclared snap c (some w) =
    All-if Declared (is_image_wait (some w)) (image_diagnosis snap c w ∷ []) [] (tt, tt) tt

pub evaluate_image_pull-AllDeclared : (snap : Pod) → AllDeclared (evaluate_image_pull snap)
unfolding evaluate_image_pull
evaluate_image_pull-AllDeclared snap =
    All-gather Declared (image_pull_of snap) (containers snap)
      λ c. image_found-AllDeclared snap c (waiting c)

probe_severity-IsDeclared :
    (k : ProbeKind) (failing restarted recent : Bool)
    → IsDeclared (probe_severity k failing restarted recent)
unfolding probe_severity
probe_severity-IsDeclared k failing restarted recent = ground arith

probe_diagnosis-IsDeclared :
    (snap : Pod) (ev : Event) (k : ProbeKind) (c : Option Container)
    → Declared (probe_diagnosis snap ev k c)
unfolding probe_diagnosis
probe_diagnosis-IsDeclared snap ev k c = probe_severity-IsDeclared k _ _ _

probes_from-AllDeclared :
    (snap : Pod) (seen : List (String × ProbeKind)) (evs : List Event)
    → AllDeclared (probes_from snap seen evs)
unfolding probes_from
probes_from-AllDeclared snap seen [] = tt
probes_from-AllDeclared snap seen (ev ∷ evs) = elim (Option-cases (which_probe ev.message)) [
  | inl e ↦ rw (e, probes_from) (probes_from-AllDeclared snap seen evs)
  | inr (kind, e) ↦
      let name = event_container ev in
      rw (e, probes_from)
        (All-if Declared (already_seen seen name kind) (probes_from snap seen evs)
          (probe_diagnosis snap ev kind (last_named (containers snap) name)
            ∷ probes_from snap ((name, kind) ∷ seen) evs)
          (probes_from-AllDeclared snap seen evs)
          (
            probe_diagnosis-IsDeclared snap ev kind _,
            probes_from-AllDeclared snap ((name, kind) ∷ seen) evs,
          ))
]

pub evaluate_probes-AllDeclared : (snap : Pod) → AllDeclared (evaluate_probes snap)
unfolding evaluate_probes
evaluate_probes-AllDeclared snap =
    All-if Declared (is_terminal snap) [] _ tt (probes_from-AllDeclared snap [] _)

pub evaluate_scheduling-AllDeclared :
    (ops : QuantityOps) (snap : Pod) → AllDeclared (evaluate_scheduling ops snap)
unfolding evaluate_scheduling
evaluate_scheduling-AllDeclared ops snap =
    All-if Declared (not (snap.pod.node_name == "") || is_terminal snap) [] _ tt (
      All-if Declared (not (is_empty snap.pod.scheduling_gates)) _ _ (tt, tt)
        (All-if Declared ((scheduler_message snap).0 == "") [] _ tt (tt, tt)))
