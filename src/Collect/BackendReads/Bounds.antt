-- ===== src/Collect/BackendReads/Bounds.antt =====
-- How many Pods backendSnapshots of internal/collect/service.go reads the events of.
use kubewhy.Base.{
  ℕ, zero, suc, ◌≤◌, ◌≡◌, refl, ap, Bool, true, false, not, ◌&&◌, List, [], ◌∷◌, arith, any, length,
  is_empty, if◌then◌else◌, Bool-cases, inl, inr, ◌⊎◌, ◌==◌, ℕ_eq, map, select,
}
use kubewhy.Kube.{ApiErrors}
use kubewhy.Snapshot.{Event}
use kubewhy.Snapshot.Api.{PodObject}
use kubewhy.Snapshot.Collection.{Collection}
use kubewhy.Snapshot.Pod.{Pod, pod_ref}
use kubewhy.Collect.{Cluster}
use kubewhy.Collect.EventReads.{events_for}
use kubewhy.Collect.BackendReads.{
  max_backend_events, pod_ready, plain_snapshot, with_events, needy_snapshot, snapshots_from,
  count_needed, backend_snapshots,
}

abbrev pub has_events : Pod → Bool
has_events s = not (is_empty s.events)

-- The events of a Pod that is ready.
abbrev pub is_idle_read : Pod → Bool
is_idle_read s = has_events s && pod_ready s.pod

kept_pods :
    (a b : Bool) (x : List Pod × Collection) (d e : Collection)
    → (if a then x else if b then (x.0, d) else (x.0, e)).0 ≡ x.0
kept_pods true b x d e = refl
kept_pods false true x d e = refl
kept_pods false false x d e = refl

length-select_cons :
    {A : Type 0}
    → (p : A → Bool) (x : A) (xs : List A) (n : ℕ) → length (select p xs) ≤ n
    → length (select p (x ∷ xs)) ≤ suc n
unfolding select
length-select_cons p x xs n h = elim (Bool-cases (p x)) [
  | inl e ↦ rw e (omega (arith, h))
  | inr e ↦ rw e (omega (arith, h))
]

module _ {E : Type 0} (api : ApiErrors E) (cl : Cluster E) where
  with_events-pod :
      (c : Collection) (pod : PodObject) (a : E ⊎ List Event)
      → (with_events api cl c pod a).0.pod ≡ pod
  with_events-pod c pod (inl err) = refl
  with_events-pod c pod (inr events) = refl

  needy_snapshot-pod :
      (c : Collection) (pod : PodObject) → (needy_snapshot api cl c pod).0.pod ≡ pod
  unfolding needy_snapshot
  needy_snapshot-pod c pod =
      with_events-pod c pod (events_for cl (pod_ref (plain_snapshot api cl pod [])) pod.uid)

  snapshots_from-pods :
      (left : ℕ) (c : Collection) (pods : List PodObject)
      → map (λ s. s.pod) (snapshots_from api cl left c pods).0 ≡ pods
  unfolding snapshots_from
  snapshots_from-pods left c [] = refl
  snapshots_from-pods zero c (pod ∷ pods) = ap (◌∷◌ pod) (snapshots_from-pods zero c pods)
  snapshots_from-pods (suc left) c (pod ∷ pods) = elim (Bool-cases (pod_ready pod)) [
    | inl e ↦ rw e (ap (◌∷◌ pod) (snapshots_from-pods (suc left) c pods))
    | inr e ↦
        rw (e, needy_snapshot-pod c pod)
          (ap (◌∷◌ pod) (snapshots_from-pods left (needy_snapshot api cl c pod).1 pods))
  ]

  snapshots_from-length :
      (left : ℕ) (c : Collection) (pods : List PodObject)
      → length (select has_events (snapshots_from api cl left c pods).0) ≤ left
  unfolding snapshots_from select
  snapshots_from-length left c [] = omega arith
  snapshots_from-length zero c (pod ∷ pods) = snapshots_from-length zero c pods
  snapshots_from-length (suc left) c (pod ∷ pods) = elim (Bool-cases (pod_ready pod)) [
    | inl e ↦ rw e (snapshots_from-length (suc left) c pods)
    | inr e ↦
        let step = needy_snapshot api cl c pod in
        let rest = (snapshots_from api cl left step.1 pods).0 in
        rw e
          (length-select_cons has_events step.0 rest left (snapshots_from-length left step.1 pods))
  ]

  snapshots_from-any :
      (left : ℕ) (c : Collection) (pods : List PodObject)
      → any is_idle_read (snapshots_from api cl left c pods).0 ≡ false
  unfolding snapshots_from any
  snapshots_from-any left c [] = refl
  snapshots_from-any zero c (pod ∷ pods) = snapshots_from-any zero c pods
  snapshots_from-any (suc left) c (pod ∷ pods) = elim (Bool-cases (pod_ready pod)) [
    | inl e ↦ rw e (snapshots_from-any (suc left) c pods)
    | inr e ↦
        let rest = snapshots_from-any left (needy_snapshot api cl c pod).1 pods in
        rw (e, needy_snapshot-pod c pod, e) (rw rest (ground arith))
  ]

  backend_snapshots-read :
      (c : Collection) (pods : List PodObject)
      → (backend_snapshots api cl c pods).0 ≡ (snapshots_from api cl max_backend_events c pods).0
  unfolding backend_snapshots
  backend_snapshots-read c pods =
      let needed = count_needed api cl max_backend_events pods in
      kept_pods (needed == 0) (needed == max_backend_events)
        (snapshots_from api cl max_backend_events c pods) _ _

  -- Of the Pods given, each gets one snapshot, in their order; eight of them at most carry events, and
  -- none of a Pod that is ready.
  pub backend_snapshots-bounds :
      (c : Collection) (pods : List PodObject)
      → (map (λ s. s.pod) (backend_snapshots api cl c pods).0 ≡ pods)
        × (length (select has_events (backend_snapshots api cl c pods).0) ≤ 8)
        × (any is_idle_read (backend_snapshots api cl c pods).0 ≡ false)
  backend_snapshots-bounds c pods =
      let read = snapshots_from api cl max_backend_events c pods in
      let same : (backend_snapshots api cl c pods).0 ≡ read.0 = backend_snapshots-read c pods in
      rw same (
        snapshots_from-pods max_backend_events c pods,
        snapshots_from-length max_backend_events c pods,
        snapshots_from-any max_backend_events c pods,
      )
