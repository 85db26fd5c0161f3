-- ===== src/Snapshot/Collection/Steps.antt =====
-- The steps that are recorded as left out: Collection.Degrade of internal/snapshot/snapshot.go.
use kubewhy.Base.{
  ◌≡◌, refl, ◌∙◌, true, ◌||◌, String_eq, text_eq_iff, List, [], ◌∷◌, ◌++◌, arith, any, any-append,
  Bool-cases, inl, inr,
}
use kubewhy.Diagnosis.Report.{Degradation}
use kubewhy.Snapshot.Collection.{Collection, same_step, degrade}

same_step_third :
    (x d e : Degradation) → same_step x d ≡ true → same_step d e ≡ true → same_step x e ≡ true
unfolding same_step
same_step_third x d e h k = ground (
  arith,
  text_eq_iff x.resource d.resource,
  text_eq_iff d.resource e.resource,
  text_eq_iff x.resource e.resource,
  text_eq_iff x.reason d.reason,
  text_eq_iff d.reason e.reason,
  text_eq_iff x.reason e.reason,
)

known_third :
    (d e : Degradation) (known : List Degradation)
    → any (λ x. same_step x d) known ≡ true
    → same_step d e ≡ true
    → any (λ x. same_step x e) known ≡ true
unfolding any
known_third d e [] h k = h
known_third d e (x ∷ known) h k = ground (arith, same_step_third x d e, known_third d e known)

recorded :
    (d e : Degradation) (known : List Degradation)
    → any (λ x. same_step x d) known ≡ true
    → any (λ x. same_step x e) known ≡ (any (λ x. same_step x e) known || same_step d e)
recorded d e known h = ground (arith, known_third d e known h)

one_more :
    (d e : Degradation) (known : List Degradation)
    → any (λ x. same_step x e) (known ++ d ∷ []) ≡ (any (λ x. same_step x e) known || same_step d e)
one_more d e known = any-append _ known (d ∷ []) ∙ (unfold any in ground arith)

-- After Degrade, the steps that are recorded as left out are those recorded before and the new one.
pub degrade-any :
    (c : Collection) (d e : Degradation)
    → any (λ x. same_step x e) (degrade c d).degradations
      ≡ (any (λ x. same_step x e) c.degradations || same_step d e)
unfolding degrade
degrade-any c d e = elim (Bool-cases (any (λ x. same_step x d) c.degradations)) [
  | inl h ↦ rw h (recorded d e c.degradations h)
  | inr h ↦ rw h (one_more d e c.degradations)
]

same_step_refl : (d : Degradation) → same_step d d ≡ true
unfolding same_step
same_step_refl d = ground (arith, text_eq_iff d.resource d.resource, text_eq_iff d.reason d.reason)

known_already :
    (c : Collection) (d : Degradation)
    → any (λ x. same_step x d) c.degradations ≡ true
    → degrade c d ≡ c
unfolding degrade
known_already c d h = rw h refl

-- A step that is degraded twice is recorded once.
pub degrade_again : (c : Collection) (d : Degradation) → degrade (degrade c d) d ≡ degrade c d
degrade_again c d =
    known_already (degrade c d) d (degrade-any c d d ∙ ground (arith, same_step_refl d))
