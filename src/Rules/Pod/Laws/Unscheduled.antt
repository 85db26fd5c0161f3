-- ===== src/Rules/Pod/Laws/Unscheduled.antt =====
-- The scheduler's reasons and the claims of a Pod: internal/diagnosis/rules/pod/scheduling.go.
use mathlib.Core.List.{Perm}
use mathlib.Core.List.Perm
use kubewhy.Base.{
  ◌≡◌, ◌∙◌, Bool, true, ◌&&◌, ◌||◌, not, String, String_eq, ◌==◌, text_eq_iff, List, [], ◌∷◌, some,
  arith, any, all, All, All-map, Bool-cases, inl, inr,
}
use kubewhy.Snapshot.{found, missing, is_missing}
use kubewhy.Snapshot.Pod.{PvcRef}
use kubewhy.Rules.Pod.Ids.{id_pvc_not_found, id_pvc_not_bound}
use kubewhy.Rules.Pod.Scheduling.{claim_cause, claims_cause}
use kubewhy.Rules.Pod.Scheduling.Message.{Category, Reason, same_category, category_id, dominant_id}

same_category-eq : (a b : Category) → same_category a b ≡ true → category_id a ≡ category_id b
same_category-eq a b h = ground arith

all_of_category :
    (c : Category) (rs : List Reason)
    → all (λ s. same_category s.category c) rs ≡ true
    → All (λ r. category_id r.category ≡ category_id c) rs
unfolding all
all_of_category c [] h = tt
all_of_category c (r ∷ rs) h =
    (same_category-eq r.category c (ground arith), all_of_category c rs (ground arith))

-- Where the scheduler's reasons give a specific identifier, it is the identifier of the category of
-- every one of them.
pub dominant_id-All :
    (rs : List Reason) (id : String)
    → dominant_id rs ≡ some id
    → All (λ r. category_id r.category ≡ some id) rs
unfolding dominant_id
dominant_id-All [] id h = tt
dominant_id-All (r ∷ rs) id h =
    elim (Bool-cases (all (λ s. same_category s.category r.category) rs)) [
      | inl e ↦
          let first : category_id r.category ≡ some id = rw (← h) (ground (arith, e)) in
          (first, All-map rs (λ s same. same ∙ first) (all_of_category r.category rs e))
      | inr e ↦ absurd (ground (arith, e))
    ]

-- A claim that the loop takes for a cause.
abbrev pub holds_up : String × PvcRef → Bool
holds_up e = is_missing e.1.exists || e.1.phase == "Pending"

claim_cause-empty :
    (cause : String) (claim : PvcRef)
    → (claim_cause cause claim == "")
      ≡ (cause == "" && not (is_missing claim.exists || claim.phase == "Pending"))
claim_cause-empty cause claim = elim (Bool-cases (is_missing claim.exists)) [
  | inl h ↦ rw h (ground arith)
  | inr h ↦ elim (Bool-cases (claim.phase == "Pending")) [
    | inl k ↦ rw (h, k) (ground arith)
    | inr k ↦ rw (h, k) (ground arith)
  ]
]

claims_cause-empty_from :
    (cause : String) (claims : List (String × PvcRef))
    → (claims_cause cause claims == "") ≡ (cause == "" && not (any holds_up claims))
unfolding claims_cause any
claims_cause-empty_from cause [] = ground arith
claims_cause-empty_from cause ((name, claim) ∷ claims) =
    claims_cause-empty_from (claim_cause cause claim) claims
    ∙ rw (claim_cause-empty cause claim) (ground arith)

-- The scheduling rule names no claim as the cause exactly when no claim is missing or Pending.
claims_cause-empty :
    (claims : List (String × PvcRef)) → (claims_cause "" claims == "") ≡ not (any holds_up claims)
claims_cause-empty claims = claims_cause-empty_from "" claims

abbrev lost_claim : PvcRef
lost_claim = record {
  name = "a";
  exists = missing;
  phase = "";
  storage_class = "";
  binding_mode = "";
}

abbrev slow_claim : PvcRef
slow_claim = record {
  name = "b";
  exists = found;
  phase = "Pending";
  storage_class = "";
  binding_mode = "";
}

-- It does not hold that the claim that the scheduling rule names as the cause is the same for every
-- order in which the loop visits the claims.
pub claims_cause_order : ¬ (
    (claims others : List (String × PvcRef))
    → Perm claims others
    → claims_cause "" claims ≡ claims_cause "" others)
unfolding claims_cause
claims_cause_order h =
    let same =
      h (("a", lost_claim) ∷ ("b", slow_claim) ∷ []) (("b", slow_claim) ∷ ("a", lost_claim) ∷ [])
        (Perm.swap _ _ []) in
    ground (arith, (text_eq_iff id_pvc_not_bound id_pvc_not_found).1 same)
