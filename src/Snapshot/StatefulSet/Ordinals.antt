-- ===== src/Snapshot/StatefulSet/Ordinals.antt =====
-- Missing and unready Pods: MissingOrdinals and FirstUnready of internal/snapshot/statefulset.go.
use kubewhy.Base.{
  ℕ, zero, suc, ◌+◌, ltb, leb, ◌≡◌, sym, ap, ◌∙◌, Bool, true, false, not, ◌&&◌, ◌==◌, ℕ_eq, List,
  [], ◌∷◌, ◌++◌, some, arith, any, All, Bool-cases, inl, inr, find_first,
}
use kubewhy.Snapshot.Pod.{Pod}
use kubewhy.Snapshot.StatefulSet.{
  StatefulSet, desired_replicas, is_present, missing_from, rounds, missing_ordinals,
  replica_is_ready, first_unready,
}

missing_from-any :
    (present : ℕ → Bool) (left i n : ℕ)
    → any (λ m. m == n) (missing_from present left i)
      ≡ (leb i n && ltb n (i + left) && not (present n))
unfolding missing_from any
missing_from-any present zero i n = ground arith
missing_from-any present (suc left) i n = elim (Bool-cases (present i)) [
  | inl e ↦ rw e (ground (arith, missing_from-any present left (suc i) n, e))
  | inr e ↦ rw e (ground (arith, missing_from-any present left (suc i) n, e))
]

-- An ordinal is missing exactly when it is below the number of replicas that is asked for and no Pod
-- of the StatefulSet has it.
pub missing_ordinals-any :
    (s : StatefulSet) (n : ℕ)
    → any (λ m. m == n) (missing_ordinals s)
      ≡ (ltb n (rounds (desired_replicas s)) && not (is_present s.pods n))
unfolding missing_ordinals
missing_ordinals-any s n =
    missing_from-any (is_present s.pods) (rounds (desired_replicas s)) 0 n ∙ ground arith

find_first-split :
    (p : Pod → Bool) (pods : List Pod) (x : Pod)
    → find_first p pods ≡ some x
    → (before : List Pod) × (after : List Pod) × (pods ≡ before ++ x ∷ after)
      × All (λ q. p q ≡ false) before
      × (p x ≡ true)
unfolding find_first
find_first-split p [] x h = absurd (ground arith)
find_first-split p (y ∷ pods) x h = elim (Bool-cases (p y)) [
  | inl e ↦
      let same : y ≡ x = ground (arith, e) in
      ([], pods, ap (λ z. z ∷ pods) same, tt, ap p (sym same) ∙ e)
  | inr e ↦
      let rest : find_first p pods ≡ some x = ground (arith, e) in
      let (before, after, split, passed, found) = find_first-split p pods x rest in
      (y ∷ before, after, ap (◌∷◌ y) split, (e, passed), found)
]

-- The Pod that FirstUnready answers is not ready, and all Pods before it are.
first_unready-split :
    (s : StatefulSet) (x : Pod)
    → first_unready s ≡ some x
    → (before : List Pod) × (after : List Pod) × (s.pods ≡ before ++ x ∷ after)
      × All (λ q. not (replica_is_ready q) ≡ false) before
      × (not (replica_is_ready x) ≡ true)
unfolding first_unready
first_unready-split s x h = find_first-split (λ p. not (replica_is_ready p)) s.pods x h
