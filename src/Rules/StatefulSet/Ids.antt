-- ===== src/Rules/StatefulSet/Ids.antt =====
-- The identifiers of internal/diagnosis/rules/statefulset/statefulset.go.
use kubewhy.Base.{String}

abbrev pub id_ordered_rollout_blocked : String
id_ordered_rollout_blocked = "STATEFULSET_ORDERED_ROLLOUT_BLOCKED"

abbrev pub id_unready_replicas : String
id_unready_replicas = "STATEFULSET_UNAVAILABLE_REPLICAS"

abbrev pub id_claim_not_bound : String
id_claim_not_bound = "STATEFULSET_CLAIM_NOT_BOUND"

abbrev pub id_claim_not_found : String
id_claim_not_found = "STATEFULSET_CLAIM_NOT_FOUND"

abbrev pub id_governing_service_not_found : String
id_governing_service_not_found = "STATEFULSET_SERVICE_NOT_FOUND"

abbrev pub id_service_not_headless : String
id_service_not_headless = "STATEFULSET_SERVICE_NOT_HEADLESS"

abbrev pub id_update_on_delete : String
id_update_on_delete = "STATEFULSET_UPDATE_ON_DELETE"

abbrev pub id_update_partitioned : String
id_update_partitioned = "STATEFULSET_UPDATE_PARTITIONED"

abbrev pub id_set_scaled_to_zero : String
id_set_scaled_to_zero = "STATEFULSET_SCALED_TO_ZERO"
