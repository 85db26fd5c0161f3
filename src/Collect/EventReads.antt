-- ===== src/Collect/EventReads.antt =====
-- internal/collect/events.go: the events on one object.
use kubewhy.Base.{
  ◌==◌, Bool, not, ◌&&◌, String, String_eq, List, Option, none, some, ◌⊎◌, inl, inr, if◌then◌else◌,
  select, map,
}
use kubewhy.Base.Int.{ℤ, pos, ℤ_eq}
use kubewhy.Base.Text.{to_lower, trim_space}
use kubewhy.Base.Time.{Time, is_zero}
use kubewhy.Diagnosis.{ResourceRef}
use kubewhy.Snapshot.{Event}
use kubewhy.Snapshot.Api.{EventObject}
use kubewhy.Snapshot.Events.{sort_events}
use kubewhy.Collect.{Cluster}

-- matchesObject
unfoldable pub matches_object : ResourceRef → (uid : String) → EventObject → Bool
matches_object ref uid ev =
    if not (uid == "") && not (ev.object_uid == "")
    then ev.object_uid == uid
    else to_lower ev.object_kind == to_lower ref.kind && ev.object_name == ref.name

abbrev series_count : ℤ → Option (ℤ × Time) → ℤ
series_count count none = count
series_count count (some s) = s.0

abbrev series_seen : Time → Option (ℤ × Time) → Time
series_seen seen none = seen
series_seen seen (some s) = s.1

-- normalizeEvent
unfoldable pub normalize_event : EventObject → Event
normalize_event ev =
    let first = if is_zero ev.first_timestamp then ev.event_time else ev.first_timestamp in
    let last = series_seen ev.last_timestamp ev.series in
    record {
      kind = ev.kind;
      reason = ev.reason;
      message = trim_space ev.message;
      count = series_count (if ev.count == pos 0 then pos 1 else ev.count) ev.series;
      first_seen = first;
      last_seen = if is_zero last then first else last;
      object = record {
        kind = ev.object_kind;
        namespace = ev.object_namespace;
        name = ev.object_name;
      };
      field_path = ev.object_field_path;
    }

-- eventsFor
unfoldable pub events_for : {E : Type 0} → Cluster E → ResourceRef → (uid : String) → E ⊎ List Event
events_for cl ref uid = elim (cl.events ref uid) [
  | inl err ↦ inl err
  | inr items ↦ inr (sort_events (map normalize_event (select (matches_object ref uid) items)))
]
