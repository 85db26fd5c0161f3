-- ===== src/Rules/Pod/Ids.antt =====
-- The identifiers of internal/diagnosis/rules/pod/pod.go, and findings as the rules build them.
use kubewhy.Base.{String, List, [], none}
use kubewhy.Diagnosis.{Severity, certain, Diagnosis, ResourceRef, Evidence, Suggestion}

abbrev pub id_oom_killed : String
id_oom_killed = "POD_OOM_KILLED"

abbrev pub id_crash_loop : String
id_crash_loop = "POD_CRASH_LOOP"

abbrev pub id_container_terminated_error : String
id_container_terminated_error = "POD_CONTAINER_TERMINATED_ERROR"

abbrev pub id_init_container_failed : String
id_init_container_failed = "POD_INIT_CONTAINER_FAILED"

abbrev pub id_evicted : String
id_evicted = "POD_EVICTED"

abbrev pub id_image_pull_failed : String
id_image_pull_failed = "POD_IMAGE_PULL_FAILED"

abbrev pub id_unschedulable : String
id_unschedulable = "POD_UNSCHEDULABLE"

abbrev pub id_unschedulable_cpu : String
id_unschedulable_cpu = "POD_UNSCHEDULABLE_CPU"

abbrev pub id_unschedulable_memory : String
id_unschedulable_memory = "POD_UNSCHEDULABLE_MEMORY"

abbrev pub id_untolerated_taint : String
id_untolerated_taint = "POD_UNTOLERATED_TAINT"

abbrev pub id_unschedulable_affinity : String
id_unschedulable_affinity = "POD_UNSCHEDULABLE_NODE_AFFINITY"

abbrev pub id_unschedulable_volume : String
id_unschedulable_volume = "POD_UNSCHEDULABLE_VOLUME"

abbrev pub id_scheduling_gated : String
id_scheduling_gated = "POD_SCHEDULING_GATED"

abbrev pub id_readiness_probe_failed : String
id_readiness_probe_failed = "POD_READINESS_PROBE_FAILED"

abbrev pub id_liveness_probe_failed : String
id_liveness_probe_failed = "POD_LIVENESS_PROBE_FAILED"

abbrev pub id_startup_probe_failed : String
id_startup_probe_failed = "POD_STARTUP_PROBE_FAILED"

abbrev pub id_failed_mount : String
id_failed_mount = "POD_FAILED_MOUNT"

abbrev pub id_missing_config_map : String
id_missing_config_map = "POD_MISSING_CONFIGMAP"

abbrev pub id_missing_secret : String
id_missing_secret = "POD_MISSING_SECRET"

abbrev pub id_create_container_config_err : String
id_create_container_config_err = "POD_CREATE_CONTAINER_CONFIG_ERROR"

abbrev pub id_pvc_not_found : String
id_pvc_not_found = "POD_PVC_NOT_FOUND"

abbrev pub id_pvc_not_bound : String
id_pvc_not_bound = "POD_PVC_NOT_BOUND"

abbrev pub id_node_not_ready : String
id_node_not_ready = "POD_NODE_NOT_READY"

abbrev pub id_restarted : String
id_restarted = "POD_RESTARTED"

abbrev pub id_not_ready_unexplained : String
id_not_ready_unexplained = "POD_NOT_READY"

-- A finding that Kubernetes states itself, with the other fields at Go's zero values.
abbrev pub certainly : String → ResourceRef → String → Severity → String → Diagnosis
certainly id subject component severity summary = record {
  id = id;
  subject = subject;
  component = component;
  severity = severity;
  confidence = certain;
  summary = summary;
  explanation = "";
  evidence = [];
  possible_causes = [];
  suggestions = [];
  caused_by = "";
  aggregate = none;
}

-- One fact, with the fields that a literal of the program gives.
abbrev pub fact : String → String → String → Evidence
fact source field value = record { source = source; field = field; value = value; message = "" }

abbrev pub quoted_fact : String → String → String → String → Evidence
quoted_fact source field value message = record {
  source = source;
  field = field;
  value = value;
  message = message;
}

abbrev pub suggest : String → List String → Suggestion
suggest description commands = record { description = description; commands = commands }
