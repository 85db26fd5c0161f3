-- ===== src/Collect/BackendReads.antt =====
-- backendSnapshots of internal/collect/service.go. Its goroutines take the lock in the order of the
-- Pods here; another order only changes the order of what is recorded.
pub mod Bounds
use kubewhy.Base.{
  ℕ, zero, suc, ◌==◌, Bool, false, ◌&&◌, String_eq, ℕ_eq, List, [], ◌∷◌, Option, none, some, ◌⊎◌,
  inl, inr, if◌then◌else◌, find_first,
}
use kubewhy.Base.Text.{◌<>◌, itoa}
use kubewhy.Kube.{ApiErrors}
use kubewhy.Snapshot.{Event}
use kubewhy.Snapshot.Api.{PodObject, Condition}
use kubewhy.Snapshot.Collection.{Collection, inspect}
use kubewhy.Snapshot.Events.{dedup}
use kubewhy.Snapshot.Pod.{Pod, pod_ref}
use kubewhy.Collect.{Cluster, degrade_read}
use kubewhy.Collect.EventReads.{events_for}

-- maxBackendEvents
abbrev pub max_backend_events : ℕ
max_backend_events = 8

abbrev pub empty_collection : Collection
empty_collection = record { degradations = []; inspected = [] }

abbrev condition_is_true : Option Condition → Bool
condition_is_true none = false
condition_is_true (some c) = c.status == "True"

-- podReady
unfoldable pub pod_ready : PodObject → Bool
pod_ready pod =
    pod.phase == "Running" && condition_is_true (find_first (λ c. c.kind == "Ready") pod.conditions)

module _ {E : Type 0} (api : ApiErrors E) (cl : Cluster E) where
  abbrev pub plain_snapshot : PodObject → List Event → Pod
  plain_snapshot pod events = record {
    collection = empty_collection;
    pod = pod;
    events = events;
    owners = [];
    node = none;
    config_maps = [];
    secrets = [];
    pvcs = [];
    now = cl.now;
  }

  abbrev pub with_events : Collection → PodObject → E ⊎ List Event → Pod × Collection
  with_events c pod (inl err) = (
    plain_snapshot pod [],
    degrade_read api c "events" "explaining why backend Pods are not ready" err,
  )
  with_events c pod (inr events) = (plain_snapshot pod (dedup events), c)

  -- The snapshot of a Pod whose events are needed.
  unfoldable pub needy_snapshot : Collection → PodObject → Pod × Collection
  needy_snapshot c pod = with_events c pod (events_for cl (pod_ref (plain_snapshot pod [])) pod.uid)

  -- The two loops, for as many Pods whose events may still be read.
  unfoldable pub snapshots_from : (left : ℕ) → Collection → List PodObject → List Pod × Collection
  snapshots_from left c [] = ([], c)
  snapshots_from zero c (pod ∷ pods) =
      let rest = snapshots_from zero c pods in (plain_snapshot pod [] ∷ rest.0, rest.1)
  snapshots_from (suc left) c (pod ∷ pods) =
      let step = needy_snapshot c pod in
      let plain = snapshots_from (suc left) c pods in
      let needy = snapshots_from left step.1 pods in
      if pod_ready pod
      then (plain_snapshot pod [] ∷ plain.0, plain.1)
      else (step.0 ∷ needy.0, needy.1)

  -- len(needEvents)
  unfoldable pub count_needed : (left : ℕ) → List PodObject → ℕ
  count_needed left [] = zero
  count_needed zero (pod ∷ pods) = zero
  count_needed (suc left) (pod ∷ pods) =
      let plain = count_needed (suc left) pods in
      let needy = count_needed left pods in if pod_ready pod then plain else suc needy

  -- backendSnapshots
  unfoldable pub backend_snapshots : Collection → List PodObject → List Pod × Collection
  backend_snapshots c pods =
      let read = snapshots_from max_backend_events c pods in
      let needed = count_needed max_backend_events pods in
      let noted = inspect read.1 "events for unready backend Pods" in
      if needed == 0
      then read
      else if needed == max_backend_events
      then (
        read.0,
        inspect noted
            ("(events limited to the first " <> itoa max_backend_events <> " unready Pods)"),
      )
      else (read.0, noted)
