-- ===== src/Collect/ClassReads.antt =====
-- internal/collect/storageclass.go: the storage class of a claim.
use kubewhy.Base.{
  ◌==◌, Bool, true, false, String, String_eq, List, Option, none, some, ◌⊎◌, inl, inr,
  if◌then◌else◌, find_first,
}
use kubewhy.Base.Text.{◌<>◌}
use kubewhy.Kube.{ApiErrors}
use kubewhy.Snapshot.{unknown, found, missing}
use kubewhy.Snapshot.Api.{ClaimObject, StorageClassObject}
use kubewhy.Snapshot.Collection.{Collection, inspect}
use kubewhy.Snapshot.Pvc.{StorageClassInfo}
use kubewhy.Collect.{Cluster, degrade_read, existence}

-- bindingMode
abbrev binding_mode_of : Option String → String
binding_mode_of none = "Immediate"
binding_mode_of (some mode) = mode

abbrev class_or : String → Option String → String
class_or legacy none = legacy
class_or legacy (some name) = if name == "" then legacy else name

-- storageClassName
unfoldable pub storage_class_name : ClaimObject → String
storage_class_name claim = class_or claim.legacy_class claim.storage_class_name

-- The zero value.
abbrev pub no_info : StorageClassInfo
no_info = record {
  name = "";
  requested = false;
  explicitly_none = false;
  exists = unknown;
  default_exists = unknown;
  binding_mode = "";
  provisioner = "";
}

abbrev default_found : Option StorageClassObject → StorageClassInfo
default_found none = record no_info { exists = missing; default_exists = missing }
default_found (some class) = record no_info {
  name = class.name;
  exists = found;
  default_exists = found;
  binding_mode = binding_mode_of class.binding_mode;
  provisioner = class.provisioner;
}

abbrev asks_for_none : Option String → Bool
asks_for_none none = false
asks_for_none (some name) = name == ""

module _ {E : Type 0} (api : ApiErrors E) where
  abbrev pub classes_found :
      Collection → E ⊎ List StorageClassObject → StorageClassInfo × Collection
  classes_found c (inl err) =
      (no_info, degrade_read api c "storageclasses" "identifying the default storage class" err)
  classes_found c (inr classes) = (
    default_found (find_first (λ class. class.default_annotation == "true") classes),
    inspect c "storageclasses",
  )

  -- defaultStorageClassInfo
  unfoldable pub default_storage_class_info : Cluster E → Collection → StorageClassInfo × Collection
  default_storage_class_info cl c = classes_found c cl.storage_classes

  abbrev pub class_found :
      Collection → (name : String) → E ⊎ StorageClassObject → StorageClassInfo × Collection
  class_found c name (inl err) =
      let answer =
        existence api c "storageclasses" "checking the requested storage class exists" (some err) in
      (record no_info { name = name; requested = true; exists = answer.0 }, answer.1)
  class_found c name (inr class) = (
    record no_info {
      name = name;
      requested = true;
      exists = found;
      binding_mode = binding_mode_of class.binding_mode;
      provisioner = class.provisioner;
    },
    inspect c ("storageclass " <> name),
  )

  -- storageClassInfo, of a claim that is not nil
  unfoldable pub storage_class_info :
      Cluster E → Collection → ClaimObject → StorageClassInfo × Collection
  storage_class_info cl c claim =
      let name = storage_class_name claim in
      if asks_for_none claim.storage_class_name
      then (record no_info { explicitly_none = true; binding_mode = "Immediate" }, c)
      else if name == ""
      then default_storage_class_info cl c
      else class_found c name (cl.storage_class name)
