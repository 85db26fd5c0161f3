-- ===== src/Collect/Laws.antt =====
-- What the collectors of internal/collect record of the reads that fail.
use kubewhy.Base.{
  ◌||◌, ◌&&◌, ◌≢◌, any-append, String_eq, text_eq_iff, ℕ, zero, suc, ◌≡◌, refl, ap, ◌∙◌, Bool, true,
  false, String, List, [], ◌∷◌, ◌++◌, Option, none, some, arith, any, is_empty, if◌then◌else◌,
  Bool-cases, inl, inr, ◌⊎◌, ◌==◌, ℕ_eq,
}
use kubewhy.Diagnosis.Report.{Degradation}
use kubewhy.Kube.{ApiErrors}
use kubewhy.Snapshot.{Event, unknown, is_missing}
use kubewhy.Snapshot.Api.{PodObject, SliceEndpoint, EndpointSubset}
use kubewhy.Snapshot.Collection.{Collection, same_step, degrade, inspect}
use kubewhy.Snapshot.Collection.Calls.{inspect-degradations}
use kubewhy.Snapshot.Pod.{Pod, pod_ref}
use kubewhy.Collect.{Cluster, degrade_read, existence}
use kubewhy.Collect.EventReads.{events_for}
use kubewhy.Collect.EndpointReads.{
  purpose, from_endpoint_slices, legacy_found, legacy_endpoints_for, slices_found, endpoints_for,
}
use kubewhy.Collect.BackendReads.{
  max_backend_events, pod_ready, plain_snapshot, with_events, needy_snapshot, snapshots_from,
  count_needed, backend_snapshots,
}

-- Something is recorded as left out.
abbrev pub IsPartial : Collection → Type 0
IsPartial c = is_empty c.degradations ≡ false

extended : (ds : List Degradation) (d : Degradation) → is_empty (ds ++ d ∷ []) ≡ false
extended [] d = refl
extended (e ∷ ds) d = refl

known_among :
    (ds : List Degradation) (p : Degradation → Bool) → any p ds ≡ true → is_empty ds ≡ false
unfolding any
known_among [] p h = absurd (ground arith)
known_among (d ∷ ds) p h = refl

degrade-IsPartial : (c : Collection) (d : Degradation) → IsPartial (degrade c d)
unfolding degrade
degrade-IsPartial c d = elim (Bool-cases (any (λ e. same_step e d) c.degradations)) [
  | inl h ↦ rw h (known_among c.degradations (λ e. same_step e d) h)
  | inr h ↦ rw h (extended c.degradations d)
]

-- A step with the resource and the reason of d is among those left out.
abbrev pub names_step : Degradation → List Degradation → Bool
names_step d ds = any (λ e. e.resource == d.resource && e.reason == d.reason) ds

-- Between the two collections d was recorded as left out, unless such a step was before.
abbrev pub Recorded : Collection → Degradation → Collection → Type 0
Recorded c d c' =
    (names_step d c'.degradations ≡ true)
    × (names_step d c.degradations ≡ false → c'.degradations ≡ c.degradations ++ d ∷ [])

names_step-itself : (d : Degradation) → names_step d (d ∷ []) ≡ true
unfolding any
names_step-itself d =
    ground (arith, text_eq_iff d.resource d.resource, text_eq_iff d.reason d.reason)

degrade-Recorded : (c : Collection) (d : Degradation) → Recorded c d (degrade c d)
unfolding degrade same_step
degrade-Recorded c d = elim (Bool-cases (names_step d c.degradations)) [
  | inl h ↦ rw h (h, λ e. absurd (ground arith))
  | inr h ↦
      rw h (any-append _ c.degradations (d ∷ []) ∙ rw (h, names_step-itself d) refl, λ e. refl)
]

pub inspect-IsPartial : (c : Collection) (what : String) → IsPartial c → IsPartial (inspect c what)
inspect-IsPartial c what h = ap is_empty (inspect-degradations c what) ∙ h

noted_in :
    (a b : Bool) (x y z : List Pod × Collection)
    → IsPartial x.1
    → IsPartial y.1
    → IsPartial z.1
    → IsPartial (if a then x else if b then y else z).1
noted_in true b x y z h k l = h
noted_in false true x y z h k l = k
noted_in false false x y z h k l = l

module _ {E : Type 0} (api : ApiErrors E) where
  pub degrade_read-IsPartial :
      (c : Collection) (resource required_for : String) (err : E)
      → IsPartial (degrade_read api c resource required_for err)
  unfolding degrade_read
  degrade_read-IsPartial c resource required_for err = degrade-IsPartial c _

  abbrev pub says_not_found : Option E → Bool
  says_not_found none = false
  says_not_found (some err) = api.is_not_found err

  -- What is recorded of a read that failed, where the object was not said to be missing.
  abbrev pub failed_read : (resource required_for : String) → E → Degradation
  failed_read resource required_for err = record {
    resource = resource;
    reason =
        if api.is_forbidden err || api.is_unauthorized err
        then "Forbidden"
        else if api.is_timeout err
        then "Timeout"
        else "Error";
    required_for = required_for;
    detail = api.message err;
  }

  degrade_read-Recorded :
      (c : Collection) (resource required_for : String) (err : E)
      → api.is_not_found err ≡ false
      → Recorded c
          (failed_read resource required_for err)
          (degrade_read api c resource required_for err)
  unfolding degrade_read
  degrade_read-Recorded c resource required_for err h =
      rw h (degrade-Recorded c (failed_read resource required_for err))

  -- An object is taken for missing exactly where the API server says that it is not found. Where it is
  -- not known whether the object exists, the read failed, and a step with its resource and reason is
  -- recorded as left out: with the purpose and the message of the error, unless one with that resource
  -- and reason was recorded before. Where it is known, nothing is recorded.
  pub existence_lem :
      (c : Collection) (resource required_for : String) (err : Option E)
      → let (exists, after) = existence api c resource required_for err in
        (is_missing exists ≡ says_not_found err)
        × (exists ≢ unknown → after ≡ c)
        × (exists ≡ unknown
            → (e : E) × (err ≡ some e) × Recorded c (failed_read resource required_for e) after)
  unfolding existence
  existence_lem c resource required_for none = (refl, (λ known. refl), λ e. absurd (ground arith))
  existence_lem c resource required_for (some err) = elim (Bool-cases (api.is_not_found err)) [
    | inl h ↦ rw h (refl, (λ known. refl), λ e. absurd (ground arith))
    | inr h ↦ rw h (
      refl,
      (λ known. absurd (known refl)),
      λ e. (err, refl, degrade_read-Recorded c resource required_for err h),
    )
  ]

  legacy_found-IsPartial :
      (c : Collection) (name : String) (a : E ⊎ List EndpointSubset)
      → (legacy_found api c name a).0.known ≡ false
      → IsPartial (legacy_found api c name a).1
  legacy_found-IsPartial c name (inr subsets) h = absurd (ground arith)
  legacy_found-IsPartial c name (inl err) h = elim (Bool-cases (api.is_not_found err)) [
    | inl e ↦ absurd (ground arith)
    | inr e ↦ rw e (degrade_read-IsPartial c "endpoints" purpose err)
  ]

  module _ (cl : Cluster E) where
    slices_found-IsPartial :
        (c : Collection) (namespace name : String) (a : E ⊎ List (List SliceEndpoint))
        → (slices_found api c name a (legacy_endpoints_for api cl c namespace name)).0.known ≡ false
        → IsPartial (slices_found api c name a (legacy_endpoints_for api cl c namespace name)).1
    slices_found-IsPartial c namespace name (inr slices) h =
        absurd (unfold from_endpoint_slices in ground arith)
    slices_found-IsPartial c namespace name (inl err) h = elim (Bool-cases (api.is_not_found err)) [
      | inl e ↦
          let legacy : (legacy_endpoints_for api cl c namespace name).0.known ≡ false = rw e at h in
          rw e (
            unfold legacy_endpoints_for in
            legacy_found-IsPartial c name (cl.endpoints namespace name) legacy)
      | inr e ↦ rw e (degrade_read-IsPartial c "endpointslices" purpose err)
    ]

    -- Where the endpoints of a Service are not known, that is recorded as left out.
    pub endpoints_for-IsPartial :
        (c : Collection) (namespace name : String)
        → (endpoints_for api cl c namespace name).0.known ≡ false
        → IsPartial (endpoints_for api cl c namespace name).1
    unfolding endpoints_for
    endpoints_for-IsPartial c namespace name h =
        slices_found-IsPartial c namespace name (cl.endpoint_slices namespace name) h

    with_events-IsPartial :
        (c : Collection) (pod : PodObject) (a : E ⊎ List Event)
        → IsPartial c
        → IsPartial (with_events api cl c pod a).1
    with_events-IsPartial c pod (inl err) h =
        degrade_read-IsPartial c "events" "explaining why backend Pods are not ready" err
    with_events-IsPartial c pod (inr events) h = h

    needy_snapshot-IsPartial :
        (c : Collection) (pod : PodObject) → IsPartial c → IsPartial (needy_snapshot api cl c pod).1
    unfolding needy_snapshot
    needy_snapshot-IsPartial c pod h =
        with_events-IsPartial c pod (events_for cl (pod_ref (plain_snapshot api cl pod [])) pod.uid)
          h

    snapshots_from-IsPartial :
        (left : ℕ) (c : Collection) (pods : List PodObject)
        → IsPartial c
        → IsPartial (snapshots_from api cl left c pods).1
    unfolding snapshots_from
    snapshots_from-IsPartial left c [] h = h
    snapshots_from-IsPartial zero c (pod ∷ pods) h = snapshots_from-IsPartial zero c pods h
    snapshots_from-IsPartial (suc left) c (pod ∷ pods) h = elim (Bool-cases (pod_ready pod)) [
      | inl e ↦ rw e (snapshots_from-IsPartial (suc left) c pods h)
      | inr e ↦ rw e (
          snapshots_from-IsPartial left (needy_snapshot api cl c pod).1 pods
            (needy_snapshot-IsPartial c pod h))
    ]

    -- What was recorded as left out stays recorded while the Pods behind a Service are read.
    pub backend_snapshots-IsPartial :
        (c : Collection) (pods : List PodObject)
        → IsPartial c
        → IsPartial (backend_snapshots api cl c pods).1
    unfolding backend_snapshots
    backend_snapshots-IsPartial c pods h =
        let read = snapshots_from-IsPartial max_backend_events c pods h in
        let noted = inspect-IsPartial _ "events for unready backend Pods" read in
        noted_in (count_needed api cl max_backend_events pods == 0)
          (count_needed api cl max_backend_events pods == max_backend_events) _ _ _ read
          (inspect-IsPartial _ _ noted) noted
