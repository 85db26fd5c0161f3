-- ===== src/Rules/Deployment/Ids.antt =====
-- The identifiers of internal/diagnosis/rules/deployment/deployment.go.
use kubewhy.Base.{String}

abbrev pub id_unavailable_replicas : String
id_unavailable_replicas = "DEPLOYMENT_UNAVAILABLE_REPLICAS"

abbrev pub id_progress_deadline_exceeded : String
id_progress_deadline_exceeded = "DEPLOYMENT_PROGRESS_DEADLINE_EXCEEDED"

abbrev pub id_replica_failure : String
id_replica_failure = "DEPLOYMENT_REPLICA_FAILURE"

abbrev pub id_scaled_to_zero : String
id_scaled_to_zero = "DEPLOYMENT_SCALED_TO_ZERO"

abbrev pub id_paused : String
id_paused = "DEPLOYMENT_PAUSED"

abbrev pub id_rollout_in_progress : String
id_rollout_in_progress = "DEPLOYMENT_ROLLOUT_IN_PROGRESS"
