-- ===== src/Rules/StatefulSet/Ordering.antt =====
-- orderingRule of internal/diagnosis/rules/statefulset/statefulset.go.
use kubewhy.Base.{
  ℕ, ◌==◌, not, ◌||◌, String, String_eq, ℕ_eq, List, [], ◌∷◌, Option, none, some, if◌then◌else◌,
  is_empty, length, map,
}
use kubewhy.Base.Int.{pos, ℤ_eq}
use kubewhy.Base.Text.{◌<>◌, itoa, join}
use kubewhy.Diagnosis.{critical, Diagnosis}
use kubewhy.Format.{count_text}
use kubewhy.Snapshot.Pod.{Pod}
use kubewhy.Snapshot.StatefulSet.{
  StatefulSet, set_ref, desired_replicas, is_ordered_start, first_unready, missing_ordinals,
  ordinal,
}
use kubewhy.Rules.Pod.Ids.{certainly, fact, suggest}
use kubewhy.Rules.StatefulSet.Ids.{id_ordered_rollout_blocked}

-- fmt.Sprintf("%s-%d", snap.StatefulSet.Name, n)
unfoldable pub replica_name : StatefulSet → ℕ → String
replica_name snap n = snap.set.name <> "-" <> itoa n

-- pluralVerb
unfoldable pub plural_verb : ℕ → String → String → String
plural_verb n singular plural = if n == 1 then singular else plural

abbrev or_zero : Option ℕ → ℕ
or_zero none = 0
or_zero (some n) = n

unfoldable pub blocked_diagnosis : StatefulSet → Pod → List ℕ → Diagnosis
unfolding set_ref ordinal count_text plural_verb replica_name
blocked_diagnosis snap blocker absent =
    record (certainly id_ordered_rollout_blocked (set_ref snap) blocker.pod.name critical (
      blocker.pod.name
      <> " is not ready, so the "
      <> count_text (pos (length absent)) "replica" "replicas"
      <> " after it "
      <> plural_verb (length absent) "has" "have"
      <> " not been created")) {
        explanation =
            "This StatefulSet uses podManagementPolicy OrderedReady, so it creates one Pod at a time and "
            <> "waits for each to be ready before starting the next. Pod "
            <> itoa (or_zero (ordinal blocker.pod.name))
            <> " is not ready, so nothing "
            <> "after it exists yet. Those replicas are not failing; the controller has not created "
            <> "them. Fixing this one Pod releases the rest.";
        evidence =
            fact "statefulSet" "spec.podManagementPolicy" "OrderedReady"
            ∷ fact "api" "blockedBy" blocker.pod.name
            ∷ fact "api" "neverCreated" (join ", " (map (replica_name snap) absent))
            ∷ [];
        suggestions =
            suggest
              "Diagnose the blocking Pod; every replica behind it is waiting on that one answer."
              ("kubectl why pod " <> blocker.pod.name <> " -n " <> snap.set.namespace ∷ [])
            ∷ [];
      }

abbrev pub blocked_by : StatefulSet → Option Pod → List ℕ → List Diagnosis
blocked_by snap none absent = []
blocked_by snap (some blocker) absent =
    if is_empty absent then [] else blocked_diagnosis snap blocker absent ∷ []

-- evaluateOrdering
unfoldable pub evaluate_ordering : StatefulSet → List Diagnosis
unfolding is_ordered_start desired_replicas first_unready missing_ordinals blocked_diagnosis
evaluate_ordering snap =
    if not (is_ordered_start snap) || desired_replicas snap == pos 0
    then []
    else blocked_by snap (first_unready snap) (missing_ordinals snap)
