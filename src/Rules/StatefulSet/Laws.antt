-- ===== src/Rules/StatefulSet/Laws.antt =====
-- The replicas and their claims in internal/diagnosis/rules/statefulset.
use mathlib.Core.List.{Mem}
use kubewhy.Base.{
  ℕ, ◌≤◌, ◌==◌, ◌≡◌, refl, ap, ◌∙◌, Bool, true, false, String, String_eq, text_eq_iff, List, some,
  arith, any, any-gather, any_of_Mem,
}
use kubewhy.Base.Time.{max_int64}
use kubewhy.Diagnosis.{Diagnosis}
use kubewhy.Diagnosis.Engine.{evaluate}
use kubewhy.Snapshot.Pod.{Pod, PvcRef}
use kubewhy.Snapshot.StatefulSet.{StatefulSet, ordinal, claim_name}
use kubewhy.Snapshot.StatefulSet.Names.{ordinal-claim_name}
use kubewhy.Rules.Pod.{pod_rules}
use kubewhy.Rules.Pod.Scheduling.{QuantityOps}
use kubewhy.Rules.Pod.Unexplained.{fallback}
use kubewhy.Rules.StatefulSet.{said_or, explain_replica}
use kubewhy.Rules.StatefulSet.Ordering.{replica_name}
use kubewhy.Rules.StatefulSet.Volumes.{
  owner_pod, is_usable_or_unknown, blocked_replica, pods_blocked_by_their_claim,
}

-- A claim that a StatefulSet made from one of its templates is put down to the replica that it was made
-- for, whatever hyphens and digits the names have, as far as the ordinal is an int64.
pub owner_pod-claim_name :
    (snap : StatefulSet) (template : String) (n : ℕ)
    → n ≤ max_int64
    → owner_pod snap (claim_name snap template n) ≡ replica_name snap n
unfolding owner_pod
owner_pod-claim_name snap template n h = rw (ordinal-claim_name snap template n h) refl

same_text : (s : String) → (s == s) ≡ true
same_text s = (text_eq_iff s s).1 refl

blocked_replica-named :
    (snap : StatefulSet) (name : String) (claim : PvcRef) (n : ℕ)
    → ordinal name ≡ some n
    → is_usable_or_unknown claim claim.exists ≡ false
    → any (λ m. m == replica_name snap n) (blocked_replica snap (name, claim)) ≡ true
unfolding any
blocked_replica-named snap name claim n h blocked =
    rw (blocked, h) (rw (same_text (replica_name snap n)) refl)

-- The replica of a claim that is missing or not bound is among those that its claim explains.
pods_blocked-claim_name :
    (snap : StatefulSet) (template : String) (n : ℕ) (claim : PvcRef)
    → n ≤ max_int64
    → Mem (claim_name snap template n, claim) snap.claims
    → is_usable_or_unknown claim claim.exists ≡ false
    → any (λ m. m == replica_name snap n) (pods_blocked_by_their_claim snap) ≡ true
unfolding pods_blocked_by_their_claim
pods_blocked-claim_name snap template n claim h there blocked =
    any-gather _ (blocked_replica snap) snap.claims
    ∙ any_of_Mem _ (claim_name snap template n, claim) snap.claims there
        (blocked_replica-named snap (claim_name snap template n) claim n
          (ordinal-claim_name snap template n h) blocked)

said_or_explained : (ds es : List Diagnosis) → said_or ds true es ≡ ds
said_or_explained ds es = ground arith

-- Of a replica whose claim from a template is missing or not bound, only what the Pod rules find is
-- said: it is never called unready without a cause.
pub explain_replica_blocked :
    (ops : QuantityOps) (expired : List Bool) (snap : StatefulSet) (template : String) (n : ℕ)
    (claim : PvcRef) (pod : Pod)
    → n ≤ max_int64
    → Mem (claim_name snap template n, claim) snap.claims
    → is_usable_or_unknown claim claim.exists ≡ false
    → pod.pod.name ≡ replica_name snap n
    → explain_replica ops (pods_blocked_by_their_claim snap) (expired, pod)
      ≡ evaluate expired (pod_rules ops) pod
unfolding explain_replica
explain_replica_blocked ops expired snap template n claim pod h there blocked named =
    let said = evaluate expired (pod_rules ops) pod in
    let explained =
      ap (λ s. any (λ m. m == s) (pods_blocked_by_their_claim snap)) named
      ∙ pods_blocked-claim_name snap template n claim h there blocked in
    ap (λ b. said_or said b (fallback pod)) explained ∙ said_or_explained said (fallback pod)
