-- ===== src/Snapshot/Events/Repeats.antt =====
-- The repeats of an event: Dedup of internal/snapshot/snapshot.go.
use Prim.Native.Nat.{max}
use kubewhy.Base.{
  ℕ, ◌≤◌, ◌≡◌, ◌↔◌, refl, ◌∙◌, true, false, ◌||◌, String_eq, text_eq_iff, List, [], ◌∷◌,
  if◌then◌else◌, arith, any, any-perm, select, length, Bool-cases, inl, inr,
}
use kubewhy.Base.Sort.{sort_stable}
use kubewhy.Base.Sort.Laws.{sort_stable-perm}
use kubewhy.Snapshot.{Event}
use kubewhy.Snapshot.Events.{
  more_recent, sort_events, same_event, repeat_of, first_of_kind, join_event, join_events, dedup,
}

-- `same_event` is equality of the three fields of the key.
same_event_iff :
    (a b : Event)
    → (same_event a b ≡ true)
      ↔ ((a.reason ≡ b.reason) × (a.message ≡ b.message) × (a.field_path ≡ b.field_path))
unfolding same_event
same_event_iff a b = ground (
  arith,
  text_eq_iff a.reason b.reason,
  text_eq_iff a.message b.message,
  text_eq_iff a.field_path b.field_path,
)

same_event_sym : (a b : Event) → same_event a b ≡ same_event b a
same_event_sym a b = ground (arith, same_event_iff a b, same_event_iff b a)

same_event_third : (k a b : Event) → same_event a b ≡ true → same_event k a ≡ same_event k b
same_event_third k a b h =
    ground (arith, same_event_iff a b, same_event_iff k a, same_event_iff k b)

-- Counting keeps the key.
same_event-repeat_of : (k o e : Event) → same_event k (repeat_of o e) ≡ same_event k o
unfolding same_event
same_event-repeat_of k o e = refl

same_event-first_of_kind : (k e : Event) → same_event k (first_of_kind e) ≡ same_event k e
unfolding same_event
same_event-first_of_kind k e = ground arith

join_event-any :
    (k : Event) (out : List Event) (e : Event)
    → any (same_event k) (join_event out e) ≡ (any (same_event k) out || same_event k e)
unfolding join_event any
join_event-any k [] e = ground (arith, same_event-first_of_kind k e)
join_event-any k (o ∷ out) e = elim (Bool-cases (same_event o e)) [
  | inl h ↦ rw (h, same_event-repeat_of k o e) (ground (arith, same_event_third k o e h))
  | inr h ↦ rw h (ground (arith, join_event-any k out e))
]

join_events-any :
    (k : Event) (out evs : List Event)
    → any (same_event k) (join_events out evs) ≡ (any (same_event k) out || any (same_event k) evs)
unfolding join_events any
join_events-any k out [] = ground arith
join_events-any k out (e ∷ evs) =
    join_events-any k (join_event out e) evs ∙ rw (join_event-any k out e) (ground arith)

-- Dedup lists an event of a key exactly when it is given one.
pub dedup-any :
    (k : Event) (evs : List Event) → any (same_event k) (dedup evs) ≡ any (same_event k) evs
unfolding dedup sort_events
dedup-any k evs =
    join_events-any k [] (sort_stable more_recent evs)
    ∙ (unfold any in any-perm (same_event k) (sort_stable-perm more_recent evs))

-- How often the key of an event stands in a list.
abbrev pub occurs : Event → List Event → ℕ
occurs k evs = length (select (same_event k) evs)

apart : (k o e : Event) → same_event o e ≡ false → same_event k e ≡ true → same_event k o ≡ false
apart k o e h m = ground (arith, same_event_iff k e, same_event_iff k o, same_event_iff o e)

join_event-occurs :
    (k : Event) (out : List Event) (e : Event)
    → occurs k (join_event out e) ≡ (if same_event k e then max (occurs k out) 1 else occurs k out)
unfolding join_event select
join_event-occurs k [] e = ground (arith, same_event-first_of_kind k e)
join_event-occurs k (o ∷ out) e = elim (Bool-cases (same_event o e)) [
  | inl h ↦ rw (h, same_event-repeat_of k o e) (ground (arith, same_event_third k o e h))
  | inr h ↦ rw h (ground (arith, join_event-occurs k out e, apart k o e h))
]

join_events-occurs :
    (k : Event) (out evs : List Event) → occurs k out ≤ 1 → occurs k (join_events out evs) ≤ 1
unfolding join_events
join_events-occurs k out [] h = h
join_events-occurs k out (e ∷ evs) h =
    join_events-occurs k (join_event out e) evs (ground (arith, join_event-occurs k out e))

-- Dedup lists one event of a key at most.
pub dedup-occurs : (k : Event) (evs : List Event) → occurs k (dedup evs) ≤ 1
unfolding dedup
dedup-occurs k evs = join_events-occurs k [] (sort_events evs) (unfold select in omega arith)
