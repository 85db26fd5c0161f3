-- ===== src/Snapshot/Events/Recency.antt =====
-- The order of events: Sort and Latest of internal/snapshot/snapshot.go.
use mathlib.Core.List.{Perm, Pairwise}
use mathlib.Core.List.Pairwise
use kubewhy.Base.{
  ◌≤◌, ◌≡◌, refl, sym, ap, ◌∙◌, String, List, [], ◌∷◌, Option, none, some, if◌then◌else◌, arith,
}
use kubewhy.Base.Sort.{insert_stable, sort_stable}
use kubewhy.Base.Sort.Laws.{WeakOrder, sort_stable-perm, sort_stable-Pairwise}
use kubewhy.Snapshot.{Event}
use kubewhy.Snapshot.Events.{more_recent, sort_events, with_reason, newer, latest_from, latest}

more_recent-WeakOrder : WeakOrder more_recent
more_recent-WeakOrder = record { asym = λ a b h. ground arith; trans = λ a b c h e. ground arith }

-- Sort returns the events that it is given, with no event before a more recent one.
pub sort_events-perm :
    (evs : List Event)
    → Perm (sort_events evs) evs × Pairwise (λ a b. b.last_seen ≤ a.last_seen) (sort_events evs)
unfolding sort_events
sort_events-perm evs = (
  sort_stable-perm more_recent evs,
  Pairwise.imp (λ a b h. ground arith) (sort_stable-Pairwise more_recent more_recent-WeakOrder evs),
)

abbrev pub first : List Event → Option Event
first [] = none
first (e ∷ evs) = some e

-- The first of a sorted list after one more event: that event, unless the old one is more recent.
abbrev lead : Option Event → Event → Event
lead none x = x
lead (some y) x = if more_recent y x then y else x

first-insert_stable :
    (x : Event) (l : List Event) → first (insert_stable more_recent x l) ≡ some (lead (first l) x)
unfolding insert_stable
first-insert_stable x [] = refl
first-insert_stable x (y ∷ ys) = ground arith

abbrev winner : Event → Event → Event
winner b e = if more_recent e b then e else b

lead-newer :
    (o : Option Event) (b e : Event) → some (lead (some (lead o e)) b) ≡ some (lead o (winner b e))
lead-newer none b e = refl
lead-newer (some y) b e = ground arith

newer-some : (b e : Event) → newer (some b) e ≡ some (winner b e)
newer-some b e = ground arith

latest_from-sort_stable :
    (b : Event) (evs : List Event)
    → latest_from (some b) evs ≡ first (sort_stable more_recent (b ∷ evs))
unfolding latest_from sort_stable
latest_from-sort_stable b [] = refl
latest_from-sort_stable b (e ∷ evs) =
    let sorted = sort_stable more_recent evs in
    ap (λ o. latest_from o evs) (newer-some b e)
    ∙ latest_from-sort_stable (winner b e) evs
    ∙ first-insert_stable (winner b e) sorted
    ∙ sym (lead-newer (first sorted) b e)
    ∙ ap (λ o. some (lead o b)) (sym (first-insert_stable e sorted))
    ∙ sym (first-insert_stable b (insert_stable more_recent e sorted))

latest_from-none : (evs : List Event) → latest_from none evs ≡ first (sort_stable more_recent evs)
latest_from-none [] = (unfold latest_from sort_stable in refl)
latest_from-none (e ∷ evs) = (unfold latest_from in latest_from-sort_stable e evs)

-- Latest answers the first of the events with the reasons, once they are in the order of Sort.
pub latest-sort_events :
    (reasons : List String) (evs : List Event)
    → latest reasons evs ≡ first (sort_events (with_reason reasons evs))
unfolding latest sort_events
latest-sort_events reasons evs = latest_from-none (with_reason reasons evs)
