-- ===== src/Rules/Pvc/Laws.antt =====
-- The rules of internal/diagnosis/rules/pvc together.
use kubewhy.Base.{
  ◌≡◌, ◌≢◌, refl, Bool, true, false, String_eq, text_eq_iff, List, [], ◌∷◌, arith, if◌then◌else◌,
  is_empty,
}
use kubewhy.Diagnosis.{Diagnosis}
use kubewhy.Diagnosis.Engine.{evaluate}
use kubewhy.Diagnosis.Engine.Runs.{evaluate_silent}
use kubewhy.Snapshot.Pvc.{Pvc, is_bound}
use kubewhy.Rules.Pvc.{pvc_rules, pvc_fallback, explain_pvc}
use kubewhy.Rules.Pvc.Classes.{evaluate_storage_class}
use kubewhy.Rules.Pvc.Provisioning.{evaluate_provisioning}
use kubewhy.Rules.Pvc.Consumers.{evaluate_consumers}
use kubewhy.Rules.Pvc.Losses.{is_lost, evaluate_lost}

bound_not_lost : (snap : Pvc) → is_bound snap ≡ true → is_lost snap ≡ false
unfolding is_bound is_lost
bound_not_lost snap h = let phase = (text_eq_iff snap.claim.phase "Bound").0 h in rw phase refl

module _ (snap : Pvc) (bound : is_bound snap ≡ true) where
  storage_class_silent : evaluate_storage_class snap ≡ []
  unfolding evaluate_storage_class
  storage_class_silent = rw bound refl

  provisioning_silent : evaluate_provisioning snap ≡ []
  unfolding evaluate_provisioning
  provisioning_silent = rw bound refl

  consumers_silent : evaluate_consumers snap ≡ []
  unfolding evaluate_consumers
  consumers_silent = rw bound refl

  lost_silent : evaluate_lost snap ≡ []
  unfolding evaluate_lost
  lost_silent = rw (bound_not_lost snap bound) refl

  rules_silent : (expired : List Bool) → evaluate expired pvc_rules snap ≡ []
  rules_silent expired =
      evaluate_silent snap expired pvc_rules
        (storage_class_silent, (provisioning_silent, (consumers_silent, (lost_silent, tt))))

  -- Nothing is said of a claim that is bound, wherever the context ends.
  pub explain_pvc_bound : (expired : List Bool) → explain_pvc expired snap ≡ []
  unfolding explain_pvc pvc_fallback
  explain_pvc_bound expired = rw (rules_silent expired, bound) refl

fallback_speaks :
    (snap : Pvc) → is_bound snap ≡ false → is_lost snap ≡ false → pvc_fallback snap ≢ []
unfolding pvc_fallback
fallback_speaks snap h k = rw (h, k) (λ e. ground arith)

or_fallback : (ds es : List Diagnosis) → es ≢ [] → (if is_empty ds then es else ds) ≢ []
or_fallback [] es h = h
or_fallback (d ∷ ds) es h = λ e. ground arith

-- Of a claim that is neither bound nor lost something is always said, whatever the rules find and
-- wherever the context ends.
pub explain_pvc_speaks :
    (expired : List Bool) (snap : Pvc)
    → is_bound snap ≡ false
    → is_lost snap ≡ false
    → explain_pvc expired snap ≢ []
unfolding explain_pvc
explain_pvc_speaks expired snap h k =
    or_fallback (evaluate expired pvc_rules snap) (pvc_fallback snap) (fallback_speaks snap h k)
