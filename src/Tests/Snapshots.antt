-- ===== src/Tests/Snapshots.antt =====
-- Events, what was left out and the ordinals of a StatefulSet, at values that are written out.
use kubewhy.Base.{
  ◌≡◌, ◌≤◌, ◌==◌, ◌&&◌, ℕ, String_eq, refl, true, String, List, [], ◌∷◌, none, some, any,
}
use kubewhy.Base.Int.{pos}
use kubewhy.Diagnosis.{ResourceRef}
use kubewhy.Diagnosis.Report.{Degradation}
use kubewhy.Snapshot.{Event}
use kubewhy.Snapshot.Events.{sort_events, with_reason, latest}
use kubewhy.Snapshot.Events.Recency.{first, latest-sort_events}
use kubewhy.Snapshot.Pod.{Pod}
use kubewhy.Analyze.PodSilence.{new_pod, waiting_pod}
use kubewhy.Snapshot.{found}
use kubewhy.Snapshot.Events.{dedup}
use kubewhy.Snapshot.Events.Repeats.{occurs, dedup-occurs}
use kubewhy.Snapshot.Collection.{Collection}
use kubewhy.Snapshot.StatefulSet.{
  StatefulSet, desired_replicas, is_present, rounds, missing_ordinals, first_unready,
}
use kubewhy.Snapshot.StatefulSet.Ordinals.{missing_ordinals-any}
use kubewhy.Base.{ltb, not, ℕ_eq}

abbrev web : ResourceRef
web = record { kind = "Pod"; namespace = "shop"; name = "web" }

abbrev event_at : ℕ → String → Event
event_at t reason = record {
  kind = "Warning";
  reason = reason;
  message = "";
  count = pos 1;
  first_seen = t;
  last_seen = t;
  object = web;
  field_path = "";
}

abbrev three_events : List Event
three_events = event_at 3 "Failed" ∷ event_at 5 "BackOff" ∷ event_at 5 "Failed" ∷ []

latest-sort_events_example :
    latest ("Failed" ∷ []) three_events
    ≡ first (sort_events (with_reason ("Failed" ∷ []) three_events))
latest-sort_events_example = latest-sort_events ("Failed" ∷ []) three_events

dedup-occurs_example : occurs (event_at 3 "Failed") (dedup three_events) ≤ 1
dedup-occurs_example = dedup-occurs (event_at 3 "Failed") three_events

abbrev denied_nodes : Degradation
denied_nodes = record {
  resource = "nodes";
  reason = "forbidden";
  required_for = "node health";
  detail = "";
}

abbrev denied_events : Degradation
denied_events = record denied_nodes { resource = "events" }

abbrev some_denied : Collection
some_denied = record { degradations = denied_nodes ∷ []; inspected = [] }

abbrev replica : String → Pod
replica name = record waiting_pod { pod = record new_pod { name = name } }

-- Three replicas are asked for, and the one in the middle has no Pod.
abbrev gapped_set : StatefulSet
gapped_set = record {
  collection = record { degradations = []; inspected = [] };
  set = record {
    name = "db";
    namespace = "shop";
    creation_timestamp = 1;
    replicas = some (pos 3);
    pod_management_policy = "Parallel";
    update_strategy = "RollingUpdate";
    partition = none;
    volume_claim_templates = "data" ∷ [];
    current_revision = "db-1";
    update_revision = "db-1";
    ready_replicas = pos 0;
    current_replicas = pos 2;
    updated_replicas = pos 2;
  };
  events = [];
  pods = replica "db-0" ∷ replica "db-2" ∷ [];
  service = record { name = "db"; exists = found; headless = true; selects = true };
  claims = [];
  now = 60_000_000_001;
}

one_is_missing : missing_ordinals gapped_set ≡ 1 ∷ []
unfolding missing_ordinals
one_is_missing = refl

missing_ordinals-any_example :
    any (λ m. m == 1) (missing_ordinals gapped_set)
    ≡ (ltb 1 (rounds (desired_replicas gapped_set)) && not (is_present gapped_set.pods 1))
missing_ordinals-any_example = missing_ordinals-any gapped_set 1

first_is_unready : first_unready gapped_set ≡ some (replica "db-0")
unfolding first_unready
first_is_unready = refl
