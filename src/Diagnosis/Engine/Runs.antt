-- ===== src/Diagnosis/Engine/Runs.antt =====
-- What a rule set says as a whole, from what each rule says: Evaluate of internal/diagnosis/engine.go.
use kubewhy.Base.{
  ◌≡◌, refl, ◌∙◌, Bool, true, false, List, [], ◌∷◌, any, any-append, any-gather, any-perm, All,
}
use kubewhy.Diagnosis.{Diagnosis}
use kubewhy.Diagnosis.Engine.{run_rules, prioritize, evaluate}
use kubewhy.Diagnosis.Engine.Order.{prioritize-perm}
use kubewhy.Diagnosis.Engine.Rules.{evaluate_alive}

module _ {S : Type 0} (snap : S) where
  -- Rules that find nothing.
  run_rules_silent :
      (expired : List Bool) (rules : List (S → List Diagnosis))
      → All (λ rule. rule snap ≡ []) rules
      → run_rules expired rules snap ≡ []
  unfolding run_rules
  run_rules_silent expired [] h = refl
  run_rules_silent [] (r ∷ rs) (h, hs) = rw (h, run_rules_silent [] rs hs) refl
  run_rules_silent (true ∷ expired) (r ∷ rs) h = refl
  run_rules_silent (false ∷ expired) (r ∷ rs) (h, hs) = rw (h, run_rules_silent expired rs hs) refl

  pub evaluate_silent :
      (expired : List Bool) (rules : List (S → List Diagnosis))
      → All (λ rule. rule snap ≡ []) rules
      → evaluate expired rules snap ≡ []
  unfolding evaluate prioritize
  evaluate_silent expired rules h = rw (run_rules_silent expired rules h) refl

  module _ (p : Diagnosis → Bool) where
    run_rules-none :
        (expired : List Bool) (rules : List (S → List Diagnosis))
        → All (λ rule. any p (rule snap) ≡ false) rules
        → any p (run_rules expired rules snap) ≡ false
    unfolding run_rules any
    run_rules-none expired [] h = refl
    run_rules-none [] (r ∷ rs) (h, hs) = any-append p (r snap) _ ∙ rw h (run_rules-none [] rs hs)
    run_rules-none (true ∷ expired) (r ∷ rs) h = refl
    run_rules-none (false ∷ expired) (r ∷ rs) (h, hs) =
        any-append p (r snap) _ ∙ rw h (run_rules-none expired rs hs)

    -- No finding passes a test where none of any rule does.
    pub evaluate-none :
        (expired : List Bool) (rules : List (S → List Diagnosis))
        → All (λ rule. any p (rule snap) ≡ false) rules
        → any p (evaluate expired rules snap) ≡ false
    unfolding evaluate
    evaluate-none expired rules h = any-perm p (prioritize-perm _) ∙ run_rules-none expired rules h

    -- While the context lives, some finding passes a test where some of a rule does.
    pub evaluate-any :
        (rules : List (S → List Diagnosis))
        → any p (evaluate [] rules snap) ≡ any (λ rule. any p (rule snap)) rules
    evaluate-any rules = any-perm p (evaluate_alive rules snap) ∙ any-gather p (λ r. r snap) rules
