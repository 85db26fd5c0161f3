-- ===== src/Collect/PvcReads.antt =====
-- internal/collect/pvc.go: the snapshot of a claim.
use kubewhy.Base.{
  ◌==◌, Bool, true, false, String, String_eq, List, [], ◌⊎◌, inl, inr, if◌then◌else◌, any, select,
  is_empty,
}
use kubewhy.Base.Text.{◌<>◌}
use kubewhy.Diagnosis.{ResourceRef}
use kubewhy.Kube.{ApiErrors, RunError, classify}
use kubewhy.Snapshot.{Event}
use kubewhy.Snapshot.Api.{PodObject, ClaimObject}
use kubewhy.Snapshot.Collection.{inspect}
use kubewhy.Snapshot.Events.{dedup}
use kubewhy.Snapshot.Pvc.{Pvc, is_bound}
use kubewhy.Collect.{Cluster, degrade_read}
use kubewhy.Collect.EventReads.{events_for}
use kubewhy.Collect.ClassReads.{storage_class_info, no_info}
use kubewhy.Collect.BackendReads.{backend_snapshots, empty_collection}

abbrev pub claim_named : (namespace name : String) → ResourceRef
claim_named namespace name = record {
  kind = "PersistentVolumeClaim";
  namespace = namespace;
  name = name;
}

-- podUsesClaim
unfoldable pub pod_uses_claim : String → PodObject → Bool
pod_uses_claim claim pod = any (λ n. n == claim) pod.claim_names

module _ {E : Type 0} (api : ApiErrors E) (cl : Cluster E) (namespace name : String) where
  unfoldable pub start_claim : ClaimObject → Pvc
  start_claim claim = record {
    collection = inspect empty_collection ("persistentvolumeclaim " <> name);
    claim = claim;
    events = [];
    class = no_info;
    consumers = [];
    consumers_known = false;
    now = cl.now;
  }

  abbrev pub claim_events : Pvc → E ⊎ List Event → Pvc
  claim_events snap (inl err) = record snap {
    collection =
        degrade_read api snap.collection "events"
          "explaining why provisioning or binding has not completed" err;
  }
  claim_events snap (inr events) = record snap {
    events = dedup events;
    collection = inspect snap.collection ("events for persistentvolumeclaim " <> name);
  }

  unfoldable pub read_claim_events : Pvc → Pvc
  read_claim_events snap =
      claim_events snap (events_for cl (claim_named namespace name) snap.claim.uid)

  unfoldable pub read_class : Pvc → Pvc
  read_class snap =
      let answer = storage_class_info api cl snap.collection snap.claim in
      record snap { class = answer.0; collection = answer.1 }

  abbrev pub claim_consumers : Pvc → E ⊎ List PodObject → Pvc
  claim_consumers snap (inl err) = record snap {
    collection = degrade_read api snap.collection "pods" "finding which Pods use this claim" err;
  }
  claim_consumers snap (inr pods) =
      let noted = inspect snap.collection ("pods in namespace " <> snap.claim.namespace) in
      let users = select (pod_uses_claim snap.claim.name) pods in
      let answer = backend_snapshots api cl noted users in
      if is_empty users
      then record snap { consumers_known = true; collection = noted }
      else record snap { consumers_known = true; consumers = answer.0; collection = answer.1 }

  -- collectClaimConsumers
  unfoldable pub collect_claim_consumers : Pvc → Pvc
  collect_claim_consumers snap = claim_consumers snap (cl.pods snap.claim.namespace "")

  -- What is read of a claim that exists.
  unfoldable pub claim_snapshot : ClaimObject → Pvc
  claim_snapshot claim =
      let snap = read_claim_events (start_claim claim) in
      if is_bound snap then snap else collect_claim_consumers (read_class snap)

  -- PVC
  unfoldable pub collect_pvc : RunError E ⊎ Pvc
  collect_pvc = elim (cl.claim namespace name) [
    | inl err ↦ inl (classify api err (claim_named namespace name) cl.context)
    | inr claim ↦ inr (claim_snapshot claim)
  ]
