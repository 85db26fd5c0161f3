-- ===== src/Rules/Pvc/Ids.antt =====
-- The identifiers of internal/diagnosis/rules/pvc/pvc.go.
use kubewhy.Base.{String}

abbrev pub id_storage_class_not_found : String
id_storage_class_not_found = "PVC_STORAGECLASS_NOT_FOUND"

abbrev pub id_no_default_class : String
id_no_default_class = "PVC_NO_DEFAULT_STORAGECLASS"

abbrev pub id_provisioning_failed : String
id_provisioning_failed = "PVC_PROVISIONING_FAILED"

abbrev pub id_no_matching_volume : String
id_no_matching_volume = "PVC_NO_MATCHING_VOLUME"

abbrev pub id_waiting_for_consumer : String
id_waiting_for_consumer = "PVC_WAITING_FOR_CONSUMER"

abbrev pub id_no_consumer : String
id_no_consumer = "PVC_NO_CONSUMER"

abbrev pub id_lost : String
id_lost = "PVC_LOST"

abbrev pub id_pending : String
id_pending = "PVC_PENDING"
