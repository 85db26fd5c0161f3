-- ===== src/Rules/Pod/Laws/Unknowns.antt =====
-- Objects that are missing and objects of which nothing is known: config.go and claim.go of
-- internal/diagnosis/rules/pod.
use kubewhy.Base.{
  ◌≡◌, refl, ◌∙◌, Bool, false, ◌&&◌, List, [], ◌∷◌, String, String_eq, arith, any, any-perm,
  any-gather, any_agree, ◌==◌, Bool-cases, inl, inr,
}
use kubewhy.Base.Sort.{sort_stable}
use kubewhy.Base.Sort.Laws.{sort_stable-perm}
use kubewhy.Base.Text.{text_less}
use kubewhy.Diagnosis.{Diagnosis}
use kubewhy.Snapshot.{Existence, found, missing, unknown, is_missing}
use kubewhy.Snapshot.Pod.{Pod, PvcRef, is_terminal}
use kubewhy.Rules.Pod.Ids.{id_pvc_not_found, id_pvc_not_bound}
use kubewhy.Rules.Pod.ConfigRefs.{missing_among, missing_names}
use kubewhy.Rules.Pod.Claims.{
  claim_of, claim_found, missing_claim_diagnosis, unbound_claim_diagnosis, by_name, evaluate_claims,
}

missing_among-any :
    (name : String) (refs : List (String × Existence))
    → any (λ m. m == name) (missing_among refs) ≡ any (λ e. is_missing e.1 && e.0 == name) refs
unfolding missing_among any
missing_among-any name [] = refl
missing_among-any name ((j, s) ∷ refs) = ground (arith, missing_among-any name refs)

-- A name is among the missing ones exactly when some reference of that name is known to be missing.
pub missing_names-any :
    (name : String) (refs : List (String × Existence))
    → any (λ m. m == name) (missing_names refs) ≡ any (λ e. is_missing e.1 && e.0 == name) refs
unfolding missing_names
missing_names-any name refs =
    any-perm _ (sort_stable-perm text_less (missing_among refs)) ∙ missing_among-any name refs

-- The finding that a claim of a name does not exist.
abbrev pub says_missing : String → Diagnosis → Bool
says_missing name d = d.id == id_pvc_not_found && d.subject.name == name

unbound_claim-id :
    (snap : Pod) (claim : PvcRef) → (unbound_claim_diagnosis snap claim).id ≡ id_pvc_not_bound
unfolding unbound_claim_diagnosis
unbound_claim-id snap claim = ground arith

claim_found-any :
    (snap : Pod) (name n : String) (claim : PvcRef) (e : Existence)
    → any (says_missing name) (claim_found snap n claim e) ≡ (is_missing e && n == name)
unfolding any missing_claim_diagnosis
claim_found-any snap name n claim missing = ground arith
claim_found-any snap name n claim found = elim (Bool-cases (claim.phase == "Bound")) [
  | inl e ↦ rw e refl
  | inr e ↦ rw (e, unbound_claim-id snap claim) refl
]
claim_found-any snap name n claim unknown = refl

claim_of-any :
    (snap : Pod) (name : String) (e : String × PvcRef)
    → any (says_missing name) (claim_of snap e) ≡ (is_missing e.1.exists && e.0 == name)
unfolding claim_of
claim_of-any snap name (n, claim) = claim_found-any snap name n claim claim.exists

-- For a Pod that is not finished, a claim is reported as not existing exactly when a claim of that name
-- is known to be missing.
pub evaluate_claims-any :
    (snap : Pod) (name : String)
    → is_terminal snap ≡ false
    → any (says_missing name) (evaluate_claims snap)
      ≡ any (λ e. is_missing e.1.exists && e.0 == name) snap.pvcs
unfolding evaluate_claims
evaluate_claims-any snap name h =
    rw h (any-gather (says_missing name) (claim_of snap) (sort_stable by_name snap.pvcs))
    ∙ any_agree _ _ (sort_stable by_name snap.pvcs) (claim_of-any snap name)
    ∙ any-perm _ (sort_stable-perm by_name snap.pvcs)
