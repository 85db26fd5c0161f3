-- ===== src/Diagnosis/Engine/Rules.antt =====
-- The loop over a rule set: Evaluate of internal/diagnosis/engine.go.
use mathlib.Core.List.{Perm}
use kubewhy.Base.{
  ℕ, zero, suc, ◌≡◌, refl, ap, Bool, true, false, List, [], ◌∷◌, ◌++◌, gather, take, replicate,
}
use kubewhy.Diagnosis.{Diagnosis}
use kubewhy.Diagnosis.Engine.{run_rules, evaluate}
use kubewhy.Diagnosis.Engine.Order.{prioritize-perm}

module _ {S : Type 0} where
  run_rules_alive :
      (rules : List (S → List Diagnosis)) (snap : S)
      → run_rules [] rules snap ≡ gather (λ r. r snap) rules
  unfolding run_rules gather
  run_rules_alive [] snap = refl
  run_rules_alive (r ∷ rs) snap = ap (◌++◌ (r snap)) (run_rules_alive rs snap)

  run_rules_expired :
      (n : ℕ) (later : List Bool) (rules : List (S → List Diagnosis)) (snap : S)
      → run_rules (replicate n false ++ true ∷ later) rules snap
        ≡ gather (λ r. r snap) (take n rules)
  unfolding run_rules gather take replicate
  run_rules_expired zero later [] snap = refl
  run_rules_expired zero later (r ∷ rs) snap = refl
  run_rules_expired (suc n) later [] snap = refl
  run_rules_expired (suc n) later (r ∷ rs) snap =
      ap (◌++◌ (r snap)) (run_rules_expired n later rs snap)

  -- While the context lives, the findings are those of all rules, each as often.
  pub evaluate_alive :
      (rules : List (S → List Diagnosis)) (snap : S)
      → Perm (evaluate [] rules snap) (gather (λ r. r snap) rules)
  unfolding evaluate
  evaluate_alive rules snap =
      rw (← run_rules_alive rules snap) (prioritize-perm (run_rules [] rules snap))

  -- Where the context is first found ended before rule n, the findings are those of the n rules
  -- before it, each as often.
  pub evaluate_expired :
      (n : ℕ) (later : List Bool) (rules : List (S → List Diagnosis)) (snap : S)
      → Perm
          (evaluate (replicate n false ++ true ∷ later) rules snap)
          (gather (λ r. r snap) (take n rules))
  unfolding evaluate
  evaluate_expired n later rules snap =
      rw (← run_rules_expired n later rules snap)
        (prioritize-perm (run_rules (replicate n false ++ true ∷ later) rules snap))
