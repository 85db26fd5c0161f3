-- ===== src/Analyze/PodSilence.antt =====
-- A Pod that is not ready, of which a note is found: internal/analyze/pod.go.
use kubewhy.Base.{◌≡◌, ◌≢◌, ◌==◌, String_eq, refl, Bool, false, List, [], ◌∷◌, none}
use kubewhy.Diagnosis.Report.{healthy}
use kubewhy.Snapshot.{found}
use kubewhy.Snapshot.Api.{PodObject}
use kubewhy.Snapshot.Pod.{
  Pod, PvcRef, is_terminal, owner_chain, containers, terminated, last_terminated, waiting, restarts,
  is_deleting,
}
use kubewhy.Rules.Pod.Scheduling.{QuantityOps, evaluate_scheduling}
use kubewhy.Rules.Pod.Unexplained.{pod_is_ready}
use kubewhy.Analyze.PodReport.{pod_report, add_owner_section, add_conditions_section}
use kubewhy.Rules.Pod.{explain_pod}
use kubewhy.Diagnosis.Engine.{evaluate}
use kubewhy.Rules.Pod.Oom.{evaluate_oom}
use kubewhy.Rules.Pod.CrashLoop.{evaluate_crash_loop}
use kubewhy.Rules.Pod.Stopped.{evaluate_terminated}
use kubewhy.Rules.Pod.ImagePull.{evaluate_image_pull}
use kubewhy.Snapshot.Events.{latest, sort_events}
use kubewhy.Rules.Pod.Probes.{evaluate_probes}
use kubewhy.Rules.Pod.ConfigRefs.{evaluate_config_refs}
use kubewhy.Rules.Pod.Mounts.{evaluate_mounts}
use kubewhy.Rules.Pod.Claims.{evaluate_claims}
use kubewhy.Rules.Pod.NodeHealth.{evaluate_node}
use kubewhy.Rules.Pod.History.{evaluate_restart_history}

-- Quantities none of which counts.
abbrev pub no_quantities : QuantityOps
no_quantities = record {
  zero_quantity = record { text = "0" };
  add = λ p q. p;
  more_than = λ p q. false;
  is_zero_quantity = λ q. q.text == "0";
}

-- A Pod of one container that has no status yet.
abbrev pub new_pod : PodObject
new_pod = record {
  name = "web";
  namespace = "shop";
  uid = "7";
  claim_names = [];
  creation_timestamp = 1;
  deletion_timestamp = none;
  node_name = "";
  restart_policy = "Always";
  scheduling_gates = [];
  init_containers = [];
  containers =
      record {
        name = "app";
        image = "shop/web";
        restart_policy = none;
        requests = [];
        limits = [];
        readiness_probe = none;
        liveness_probe = none;
        startup_probe = none;
        port_names = [];
      }
      ∷ [];
  phase = "Pending";
  reason = "";
  message = "";
  conditions = [];
  init_container_statuses = [];
  container_statuses = [];
}

abbrev waiting_claim : PvcRef
waiting_claim = record {
  name = "data";
  exists = found;
  phase = "Pending";
  storage_class = "local";
  binding_mode = "WaitForFirstConsumer";
}

-- What was collected of the Pod a minute after its creation: its claim waits for it.
abbrev pub waiting_pod : Pod
waiting_pod = record {
  collection = record { degradations = []; inspected = [] };
  pod = new_pod;
  events = [];
  owners = [];
  node = none;
  config_maps = [];
  secrets = [];
  pvcs = ("data", waiting_claim) ∷ [];
  now = 60_000_000_001;
}

-- It does not hold that a Pod that is neither finished nor ready is never reported healthy.
pub pending_healthy : ¬ (
    (ops : QuantityOps) (expired : List Bool) (snap : Pod)
    → is_terminal snap ≡ false
    → pod_is_ready snap ≡ false
    → (pod_report ops expired snap).status ≢ healthy)
unfolding pod_report is_terminal pod_is_ready add_owner_section owner_chain add_conditions_section
    containers explain_pod evaluate evaluate_oom terminated last_terminated evaluate_crash_loop
    waiting restarts evaluate_terminated evaluate_image_pull evaluate_scheduling latest
    evaluate_probes evaluate_config_refs evaluate_mounts evaluate_claims evaluate_node
    evaluate_restart_history is_deleting sort_events
pending_healthy h = h no_quantities [] waiting_pod refl refl refl
