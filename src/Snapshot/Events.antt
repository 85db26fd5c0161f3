-- ===== src/Snapshot/Events.antt =====
-- The methods of Event and Events in internal/snapshot/snapshot.go.
pub mod Recency
pub mod Repeats
use kubewhy.Base.{
  ℕ, ◌==◌, Bool, true, false, ◌&&◌, ◌||◌, String, String_eq, ℕ_eq, List, [], ◌∷◌, ◌++◌, Option,
  none, some, if◌then◌else◌, select, any,
}
use kubewhy.Base.Int.{ℤ, pos, ℤ_eq, add_int32, at_least_one}
use kubewhy.Base.Sort.{sort_stable}
use kubewhy.Base.Text.{cut_prefix}
use kubewhy.Base.Time.{Time, after, before}
use kubewhy.Snapshot.{Event}
use Prim.Native.Char.{Char, code}
use Prim.Native.String

-- A text without its last character, where that is the given one.
cut_last : ℕ → String → Option String
cut_last c String.[] = none
cut_last c (String.◌∷◌ d String.[]) = if code d == c then some "" else none
cut_last c (String.◌∷◌ d (String.◌∷◌ e s)) = elim (cut_last c (String.◌∷◌ e s)) [
  | none ↦ none
  | some r ↦ some (String.◌∷◌ d r)
]

-- The text between a prefix and a closing brace.
between : String → String → Option String
unfolding cut_last
between prefix s = elim (cut_prefix s prefix) [ none ↦ none | some rest ↦ cut_last b'}' rest ]

-- Event.Container: the container that the event refers to, or "".
unfoldable pub event_container : Event → String
unfolding between
event_container e = elim (between "spec.containers{" e.field_path) [
  | some name ↦ name
  | none ↦ elim (between "spec.initContainers{" e.field_path) [ some name ↦ name | none ↦ "" ]
]

unfoldable pub is_warning : Event → Bool
is_warning e = e.kind == "Warning"

-- Events.Sort: the most recent first.
abbrev pub more_recent : Event → Event → Bool
more_recent a b = after a.last_seen b.last_seen

unfoldable pub sort_events : List Event → List Event
unfolding sort_stable
sort_events evs = sort_stable more_recent evs

-- Events.WithReason
abbrev pub has_reason : List String → Event → Bool
has_reason reasons e = any (λ r. e.reason == r) reasons

unfoldable pub with_reason : List String → List Event → List Event
unfolding select any
with_reason reasons evs = select (has_reason reasons) evs

-- Events.Warnings
unfoldable pub warnings : List Event → List Event
unfolding select is_warning
warnings evs = select is_warning evs

-- The loop of Latest, with `best` none until one is found.
abbrev pub newer : Option Event → Event → Option Event
newer none e = some e
newer (some best) e = if after e.last_seen best.last_seen then some e else some best

unfoldable pub latest_from : Option Event → List Event → Option Event
latest_from best [] = best
latest_from best (e ∷ evs) = latest_from (newer best e) evs

unfoldable pub latest : List String → List Event → Option Event
unfolding latest_from with_reason
latest reasons evs = latest_from none (with_reason reasons evs)

-- The key of Dedup.
unfoldable pub same_event : Event → Event → Bool
same_event a b = a.reason == b.reason && a.message == b.message && a.field_path == b.field_path

abbrev pub repeat_of : Event → Event → Event
repeat_of o e = record o {
  count = add_int32 o.count (at_least_one e.count);
  first_seen = if before e.first_seen o.first_seen then e.first_seen else o.first_seen;
}

abbrev pub first_of_kind : Event → Event
first_of_kind e = if e.count == pos 0 then record e { count = pos 1 } else e

-- One round of the loop of Dedup: the event joins the one with its key, or is appended.
unfoldable pub join_event : List Event → Event → List Event
unfolding same_event
join_event [] e = first_of_kind e ∷ []
join_event (o ∷ out) e =
    let rest = join_event out e in if same_event o e then repeat_of o e ∷ out else o ∷ rest

unfoldable pub join_events : List Event → List Event → List Event
unfolding join_event
join_events out [] = out
join_events out (e ∷ evs) = join_events (join_event out e) evs

unfoldable pub dedup : List Event → List Event
unfolding join_events sort_events
dedup evs = join_events [] (sort_events evs)
