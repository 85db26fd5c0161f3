-- ===== src/Rules/StatefulSet/Updates.antt =====
-- updateStrategyRule of internal/diagnosis/rules/statefulset/statefulset.go.
use Prim.Native.Char.{code}
use Prim.Native.String.{len}
use kubewhy.Base.{
  ◌==◌, ltb, ◌&&◌, String, String_eq, ℕ_eq, List, [], ◌∷◌, ◌++◌, Option, none, some, if◌then◌else◌,
}
use kubewhy.Base.Int.{pos, ℤ_eq, exceeds, minus_one, int_text}
use kubewhy.Base.Text.{◌<>◌}
use kubewhy.Diagnosis.{info, Diagnosis}
use kubewhy.Snapshot.StatefulSet.{
  StatefulSet, set_ref, desired_replicas, updates_on_delete, partition, is_rollout_pending,
}
use kubewhy.Rules.Pod.Ids.{certainly, fact, suggest}
use kubewhy.Rules.StatefulSet.Ids.{
  id_update_on_delete, id_update_partitioned, id_set_scaled_to_zero,
}

-- The text behind the last hyphen, where there is one.
behind_last_hyphen : String → Option String
behind_last_hyphen String.[] = none
behind_last_hyphen (String.◌∷◌ c s) =
    let rest = behind_last_hyphen s in
    elim rest [ some t ↦ some t | none ↦ if code c == 45 then some s else none ]

abbrev revision_or : String → Option String → String
revision_or whole none = whole
revision_or whole (some t) = if ltb 5 (len t) then t else whole

-- shortRevision
unfoldable pub short_revision : String → String
unfolding behind_last_hyphen
short_revision revision = revision_or revision (behind_last_hyphen revision)

unfoldable pub zero_replicas_diagnosis : StatefulSet → Diagnosis
unfolding set_ref
zero_replicas_diagnosis snap =
    record (certainly id_set_scaled_to_zero (set_ref snap) "" info
      "The StatefulSet is scaled to zero, so it runs no Pods") {
        explanation =
            "This is what the spec asks for. Note that scaling a StatefulSet down does not "
            <> "delete the claims its replicas were using; they are kept so the data survives.";
        evidence = fact "statefulSet" "spec.replicas" "0" ∷ [];
      }

unfoldable pub on_delete_diagnosis : StatefulSet → Diagnosis
unfolding set_ref short_revision
on_delete_diagnosis snap =
    record (certainly id_update_on_delete (set_ref snap) "" info
      "Pods are on an older revision, and will stay there until they are deleted") {
        explanation =
            "The update strategy is OnDelete, so the controller never replaces a Pod on its "
            <> "own. The spec has changed and the running Pods have not, which is the intended behaviour "
            <> "rather than a rollout that stalled.";
        evidence =
            fact "statefulSet" "spec.updateStrategy.type" "OnDelete"
            ∷ fact "statefulSet" "status.currentRevision" (short_revision snap.set.current_revision)
            ∷ fact "statefulSet" "status.updateRevision" (short_revision snap.set.update_revision)
            ∷ [];
        suggestions =
            suggest
              "Deleting a Pod is what applies the new revision to it, one replica at a time and in your own order."
              []
            ∷ [];
      }

unfoldable pub partitioned_diagnosis : StatefulSet → Diagnosis
unfolding set_ref partition
partitioned_diagnosis snap =
    let n = int_text (partition snap) in
    record (certainly id_update_partitioned (set_ref snap) "" info
      ("Only replicas " <> n <> " and above are being updated")) {
        explanation =
            "The rolling update is partitioned at "
            <> n
            <> ", so replicas 0 to "
            <> int_text (minus_one (partition snap))
            <> " keep the old revision on "
            <> "purpose. This is how a staged rollout is held part-way; the replicas below the "
            <> "partition are not stuck.";
        evidence =
            fact "statefulSet" "spec.updateStrategy.rollingUpdate.partition" n
            ∷ fact "statefulSet" "status.updatedReplicas" (int_text snap.set.updated_replicas)
            ∷ [];
        suggestions =
            suggest
              "Lower the partition to continue the rollout, or remove it to update every replica."
              []
            ∷ [];
      }

-- evaluateUpdateStrategy
unfoldable pub evaluate_update_strategy : StatefulSet → List Diagnosis
unfolding desired_replicas updates_on_delete is_rollout_pending partition zero_replicas_diagnosis
    on_delete_diagnosis partitioned_diagnosis
evaluate_update_strategy snap =
    if desired_replicas snap == pos 0
    then zero_replicas_diagnosis snap ∷ []
    else (if updates_on_delete snap && is_rollout_pending snap
        then on_delete_diagnosis snap ∷ []
        else [])
      ++ (if exceeds (partition snap) 0 && is_rollout_pending snap
          then partitioned_diagnosis snap ∷ []
          else [])
