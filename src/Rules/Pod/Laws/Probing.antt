-- ===== src/Rules/Pod/Laws/Probing.antt =====
-- The probes of a Pod: internal/diagnosis/rules/pod/probes.go.
use mathlib.Core.List.{Mem, Pairwise, mem-cons_self, mem-cons_of_mem}
use kubewhy.Base.{
  ℕ, ◌≡◌, refl, ap, ◌∙◌, Bool, true, false, ◌&&◌, ◌||◌, not, String, ◌==◌, String_eq, text_eq_iff,
  List, [], ◌∷◌, Option, none, some, arith, any, any_agree, any-perm, is_some, ◌+◌, ◌≤◌, leb,
  if◌then◌else◌, Bool-cases, Option-cases, inl, inr, select,
}
use kubewhy.Base.Text.{has_prefix}
use kubewhy.Base.Time.{sub}
use kubewhy.Diagnosis.{Severity, critical, warning, Diagnosis}
use kubewhy.Snapshot.{Event}
use kubewhy.Snapshot.Events.{event_container, sort_events, with_reason, has_reason}
use kubewhy.Snapshot.Events.Recency.{sort_events-perm}
use kubewhy.Snapshot.Pod.{Pod, Container, is_ready, is_terminal, containers}
use kubewhy.Rules.Pod.Probes.{
  ProbeKind, failing_now, seen_lately, probe_severity, probe_diagnosis, last_named, which_probe,
  already_seen, probes_from, evaluate_probes,
}

-- It weighs on the verdict.
abbrev pub is_issue_severity : Severity → Bool
is_issue_severity critical = true
is_issue_severity warning = true
is_issue_severity _ = false

abbrev pub is_unready : Option Container → Bool
is_unready none = false
is_unready (some c) = not (is_ready c)

-- The event is of a probe, and it is of the last ten minutes or of a container that is not ready.
abbrev pub is_warm : Pod → Event → Bool
is_warm snap ev =
    is_unready (last_named (containers snap) (event_container ev))
    || leb snap.now (ev.last_seen + 600_000_000_000)

abbrev pub is_current : Pod → Event → Bool
is_current snap ev =
    ev.reason == "Unhealthy"
    && (has_prefix ev.message "Readiness probe failed"
        || has_prefix ev.message "Liveness probe failed"
        || has_prefix ev.message "Startup probe failed")
    && is_warm snap ev

which_probe-is_some :
    (m : String)
    → is_some (which_probe m) ≡ (
        has_prefix m "Readiness probe failed"
        || has_prefix m "Liveness probe failed"
        || has_prefix m "Startup probe failed")
which_probe-is_some m = ground arith

probe_severity-issue :
    (kind : ProbeKind) (failing restarted recent : Bool)
    → is_issue_severity (probe_severity kind failing restarted recent) ≡ (failing || recent)
unfolding probe_severity
probe_severity-issue kind failing restarted recent = ground arith

failing_now-is_unready : (c : Option Container) → failing_now c ≡ is_unready c
failing_now-is_unready none = refl
failing_now-is_unready (some c) = refl

seen_lately-leb :
    (snap : Pod) (ev : Event) → seen_lately snap ev ≡ leb snap.now (ev.last_seen + 600_000_000_000)
unfolding seen_lately sub
seen_lately-leb snap ev = ground arith

probe_diagnosis-issue :
    (snap : Pod) (ev : Event) (kind : ProbeKind)
    → is_issue_severity
        (probe_diagnosis snap ev kind (last_named (containers snap) (event_container ev))).severity
      ≡ is_warm snap ev
unfolding probe_diagnosis
probe_diagnosis-issue snap ev kind =
    probe_severity-issue kind _ _ _
    ∙ rw
        (
          failing_now-is_unready (last_named (containers snap) (event_container ev)),
          seen_lately-leb snap ev,
        )
        refl

leb_moves :
    (now last before window : ℕ)
    → before ≤ last
    → leb now (before + window) ≡ true
    → leb now (last + window) ≡ true
leb_moves now last before window h k = ground arith

module _ (snap : Pod) where
  unready_name : String → Bool
  unready_name name = is_unready (last_named (containers snap) name)

  -- An event of the same container that is as recent is warm too.
  is_warm-moves :
      (ev e : Event)
      → event_container ev ≡ event_container e
      → e.last_seen ≤ ev.last_seen
      → is_warm snap e ≡ true
      → is_warm snap ev ≡ true
  is_warm-moves ev e same before h =
      let moved = leb_moves snap.now ev.last_seen e.last_seen 600_000_000_000 before in
      rw same (ground (arith, moved))

  -- The event is of a probe that is not yet reported, and it is warm.
  abbrev wanted : List (String × ProbeKind) → Event → Option ProbeKind → Bool
  wanted seen ev none = false
  wanted seen ev (some kind) = not (already_seen seen (event_container ev) kind) && is_warm snap ev

  abbrev is_wanted : List (String × ProbeKind) → Event → Bool
  is_wanted seen ev = wanted seen ev (which_probe ev.message)

  wanted-covered :
      (seen : List (String × ProbeKind)) (ev e : Event) (kind : ProbeKind) (o : Option ProbeKind)
      → e.last_seen ≤ ev.last_seen
      → (is_warm snap ev || wanted ((event_container ev, kind) ∷ seen) e o)
        ≡ (is_warm snap ev || wanted seen e o)
  unfolding already_seen any
  wanted-covered seen ev e kind none before = refl
  wanted-covered seen ev e kind (some k) before =
      elim (Bool-cases (event_container ev == event_container e)) [
        | inl same ↦
            let moves =
              is_warm-moves ev e ((text_eq_iff (event_container ev) (event_container e)).0 same)
                before in
            ground (arith, moves)
        | inr other ↦ rw other refl
      ]

  covered :
      (seen : List (String × ProbeKind)) (ev : Event) (kind : ProbeKind) (evs : List Event)
      → ((e : Event) → Mem e evs → e.last_seen ≤ ev.last_seen)
      → (is_warm snap ev || any (is_wanted ((event_container ev, kind) ∷ seen)) evs)
        ≡ (is_warm snap ev || any (is_wanted seen) evs)
  unfolding any
  covered seen ev kind [] before = refl
  covered seen ev kind (e ∷ evs) before =
      let here = wanted-covered seen ev e kind (which_probe e.message) (before e mem-cons_self) in
      let there = covered seen ev kind evs (λ x m. before x (mem-cons_of_mem e m)) in
      ground (arith, here, there)

  probe_step :
      (seen : List (String × ProbeKind)) (ev : Event) (evs : List Event)
      → ((e : Event) → Mem e evs → e.last_seen ≤ ev.last_seen)
      → ((known : List (String × ProbeKind))
          → any (λ d. is_issue_severity d.severity) (probes_from snap known evs)
            ≡ any (is_wanted known) evs)
      → any (λ d. is_issue_severity d.severity) (probes_from snap seen (ev ∷ evs))
        ≡ (is_wanted seen ev || any (is_wanted seen) evs)
  unfolding probes_from any
  probe_step seen ev evs before rest = elim (Option-cases (which_probe ev.message)) [
    | inl h ↦ rw (h, probes_from) (rest seen)
    | inr (kind, h) ↦ elim (Bool-cases (already_seen seen (event_container ev) kind)) [
      | inl e ↦ rw (h, probes_from, e) (rest seen)
      | inr e ↦
          rw
            (
              h,
              probes_from,
              e,
              probe_diagnosis-issue snap ev kind,
              rest ((event_container ev, kind) ∷ seen),
            )
            (covered seen ev kind evs before)
    ]
  ]

  probes_from-any :
      (seen : List (String × ProbeKind)) {evs : List Event}
      → Pairwise (λ a b. b.last_seen ≤ a.last_seen) evs
      → any (λ d. is_issue_severity d.severity) (probes_from snap seen evs)
        ≡ any (is_wanted seen) evs
  probes_from-any seen Pairwise.nil = (unfold probes_from any in refl)
  probes_from-any seen (Pairwise.cons {a = ev} {l = evs} before sorted) =
      probe_step seen ev evs before (λ known. probes_from-any known sorted) ∙ (unfold any in refl)

any-select :
    {A : Type 0} → (p q : A → Bool) (xs : List A) → any p (select q xs) ≡ any (λ x. q x && p x) xs
unfolding any select
any-select p q [] = refl
any-select p q (x ∷ xs) = elim (Bool-cases (q x)) [
  | inl e ↦ rw (e, any-select p q xs) refl
  | inr e ↦ rw (e, any-select p q xs) refl
]

is_wanted-is_current :
    (snap : Pod) (ev : Event)
    → (has_reason ("Unhealthy" ∷ []) ev && is_wanted snap [] ev) ≡ is_current snap ev
unfolding any already_seen
is_wanted-is_current snap ev =
    ap (λ b. has_reason ("Unhealthy" ∷ []) ev && b) (wanted_first (which_probe ev.message))
    ∙ rw (which_probe-is_some ev.message) (ground arith)
  where
    wanted_first : (o : Option ProbeKind) → wanted snap [] ev o ≡ (is_some o && is_warm snap ev)
    wanted_first none = refl
    wanted_first (some kind) = refl

guarded :
    (p : Diagnosis → Bool) (finished : Bool) (ds : List Diagnosis)
    → any p (if finished then [] else ds) ≡ (not finished && any p ds)
unfolding any
guarded p true ds = refl
guarded p false ds = refl

-- The probe rule finds something critical or a warning in a Pod exactly where the Pod is not finished
-- and an event says that a probe failed, in the last ten minutes or of a container that is not ready:
-- neither an older event nor one that was seen in the loop before hides another.
pub evaluate_probes-any :
    (snap : Pod)
    → any (λ d. is_issue_severity d.severity) (evaluate_probes snap)
      ≡ (not (is_terminal snap) && any (is_current snap) snap.events)
unfolding evaluate_probes with_reason
evaluate_probes-any snap =
    let failures = with_reason ("Unhealthy" ∷ []) snap.events in
    let (same, sorted) = sort_events-perm failures in
    guarded _ (is_terminal snap) (probes_from snap [] (sort_events failures))
    ∙ ap (◌&&◌ (not (is_terminal snap))) (
        probes_from-any snap [] sorted
        ∙ any-perm (is_wanted snap []) same
        ∙ any-select (is_wanted snap []) (has_reason ("Unhealthy" ∷ [])) snap.events
        ∙ any_agree _ _ snap.events (is_wanted-is_current snap))
