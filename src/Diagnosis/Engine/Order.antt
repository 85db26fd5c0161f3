-- ===== src/Diagnosis/Engine/Order.antt =====
-- The order of findings: Prioritize of internal/diagnosis/engine.go.
use mathlib.Core.List.{Mem, Perm, Pairwise}
use mathlib.Core.List.Perm
use mathlib.Core.List.Pairwise
use kubewhy.Base.{
  ℕ, ◌+◌, ◌*◌, ◌≤◌, ◌<◌, ltb, ◌==◌, ◌≡◌, ◌≢◌, ◌⊎◌, refl, Bool, true, false, ◌&&◌, List, [], ◌∷◌,
  String, String_eq, ℕ_eq, text_eq_iff, any_of_Mem, arith, All, select,
}
use kubewhy.Base.Sort.{sort_stable}
use kubewhy.Base.Sort.Laws.{
  WeakOrder, sort_stable-perm, sort_stable-Pairwise, sort_stable-select, sort_stable_agree,
}
use kubewhy.Diagnosis.{
  Severity, Confidence, Diagnosis, severity_rank, confidence_rank, same_severity, IsDeclared,
  critical, warning, info, other_severity,
}
use kubewhy.Diagnosis.Engine.{is_cause, weight, before_in, prioritize}

-- The severities of all findings are among the declared ones.
abbrev pub AllDeclared : List Diagnosis → Type 0
AllDeclared = All (λ d. IsDeclared d.severity)

-- The three ranks of a finding as one number.
abbrev pub tier : List Diagnosis → Diagnosis → ℕ
tier ds d = severity_rank d.severity * 12 + weight ds d * 4 + confidence_rank d.confidence

same_severity-rank :
    (s t : Severity)
    → IsDeclared s
    → IsDeclared t
    → severity_rank s ≡ severity_rank t
    → same_severity s t ≡ true
same_severity-rank critical critical h k e = refl
same_severity-rank warning warning h k e = refl
same_severity-rank info info h k e = refl
same_severity-rank (other_severity x) t h k e = elim h [ ]
same_severity-rank s (other_severity x) h k e = elim k [ ]
same_severity-rank s t h k e = absurd (omega arith)

rank-same_severity : (s t : Severity) → same_severity s t ≡ true → severity_rank s ≡ severity_rank t
rank-same_severity critical critical e = refl
rank-same_severity warning warning e = refl
rank-same_severity info info e = refl
rank-same_severity (other_severity x) (other_severity y) e = refl
rank-same_severity s t e = cc

confidence_rank-le : (c : Confidence) → confidence_rank c ≤ 3
confidence_rank-le c = ground arith

pub weight-le : (ds : List Diagnosis) (d : Diagnosis) → weight ds d ≤ 2
unfolding weight
weight-le ds d = ground arith

-- For declared severities the comparison is that of the tiers.
before_in-tier :
    (ds : List Diagnosis) (a b : Diagnosis)
    → IsDeclared a.severity
    → IsDeclared b.severity
    → before_in ds a b ≡ ltb (tier ds a) (tier ds b)
unfolding before_in
before_in-tier ds a b h k = ground (
  arith,
  same_severity-rank a.severity b.severity h k,
  rank-same_severity a.severity b.severity,
  confidence_rank-le a.confidence,
  confidence_rank-le b.confidence,
  weight-le ds a,
  weight-le ds b,
)

abbrev tier_less : List Diagnosis → Diagnosis → Diagnosis → Bool
tier_less ds a b = ltb (tier ds a) (tier ds b)

ltb_asym : (m n : ℕ) → ltb m n ≡ true → ltb n m ≡ false
ltb_asym m n h = ground arith

ltb_trans : (m n k : ℕ) → ltb n m ≡ false → ltb k n ≡ false → ltb k m ≡ false
ltb_trans m n k h e = ground arith

tier_less-WeakOrder : (ds : List Diagnosis) → WeakOrder (tier_less ds)
tier_less-WeakOrder ds = record {
  asym = λ a b. ltb_asym (tier ds a) (tier ds b);
  trans = λ a b c. ltb_trans (tier ds a) (tier ds b) (tier ds c);
}

prioritize-tier :
    (ds : List Diagnosis) → AllDeclared ds → prioritize ds ≡ sort_stable (tier_less ds) ds
unfolding prioritize
prioritize-tier [] h = refl
prioritize-tier (d ∷ []) h = refl
prioritize-tier (d ∷ e ∷ rest) h =
    let all = d ∷ e ∷ rest in
    sort_stable_agree (λ x. IsDeclared x.severity) (before_in all) (tier_less all)
      (before_in-tier all) all h

-- a stands before b by severity; at one severity by the place in a chain of causes; at one place
-- by confidence, or the two are equal in all three.
abbrev pub ComesFirst : List Diagnosis → Diagnosis → Diagnosis → Type 0
ComesFirst ds a b =
    (severity_rank a.severity < severity_rank b.severity)
    ⊎ ((severity_rank a.severity ≡ severity_rank b.severity)
        × ((weight ds a < weight ds b)
            ⊎ ((weight ds a ≡ weight ds b)
                × (confidence_rank a.confidence ≤ confidence_rank b.confidence))))

tier-ComesFirst :
    (ds : List Diagnosis) (a b : Diagnosis) → tier_less ds b a ≡ false → ComesFirst ds a b
tier-ComesFirst ds a b h = ground (
  arith,
  weight-le ds a,
  weight-le ds b,
  confidence_rank-le a.confidence,
  confidence_rank-le b.confidence,
)

-- Prioritize returns the findings that it is given, each as often.
pub prioritize-perm : (ds : List Diagnosis) → Perm (prioritize ds) ds
unfolding prioritize
prioritize-perm [] = Perm.rfl
prioritize-perm (d ∷ []) = Perm.rfl
prioritize-perm (d ∷ e ∷ rest) = sort_stable-perm (before_in (d ∷ e ∷ rest)) (d ∷ e ∷ rest)

-- Where all severities are declared ones, every finding comes first, in the sense of `ComesFirst`,
-- of each that Prioritize puts behind it.
pub prioritize-ComesFirst :
    (ds : List Diagnosis) → AllDeclared ds → Pairwise (ComesFirst ds) (prioritize ds)
prioritize-ComesFirst ds h = rw (prioritize-tier ds h) (
    Pairwise.imp (λ a b. tier-ComesFirst ds a b)
      (sort_stable-Pairwise (tier_less ds) (tier_less-WeakOrder ds) ds))

-- The findings of one severity rank, one weight and one confidence rank.
abbrev pub in_tier : List Diagnosis → ℕ → ℕ → ℕ → Diagnosis → Bool
in_tier ds s w c d =
    severity_rank d.severity == s && weight ds d == w && confidence_rank d.confidence == c

in_tier-tied :
    (ds : List Diagnosis) (s w c : ℕ) (a b : Diagnosis)
    → in_tier ds s w c a ≡ true
    → in_tier ds s w c b ≡ true
    → tier_less ds a b ≡ false
in_tier-tied ds s w c a b h k = ground arith

-- Where all severities are declared ones, the findings of a tier keep the order that they are given
-- in, which is the order of the rules.
pub prioritize-select_tier :
    (ds : List Diagnosis) (s w c : ℕ)
    → AllDeclared ds
    → select (in_tier ds s w c) (prioritize ds) ≡ select (in_tier ds s w c) ds
prioritize-select_tier ds s w c h =
    rw (prioritize-tier ds h)
      (sort_stable-select (tier_less ds) (in_tier ds s w c) (in_tier-tied ds s w c) ds)

is_cause_of_Mem :
    (ds : List Diagnosis) (x : Diagnosis) (id : String)
    → Mem x ds
    → x.caused_by ≢ ""
    → x.caused_by ≡ id
    → is_cause ds id ≡ true
unfolding is_cause
is_cause_of_Mem ds x id m named same =
    any_of_Mem _ x ds m (ground (arith, text_eq_iff x.caused_by "", text_eq_iff x.caused_by id))

-- y names the id of x as its cause.
abbrev pub Explains : Diagnosis → Diagnosis → Type 0
Explains x y = (y.caused_by ≢ "") × (y.caused_by ≡ x.id)

explained_first :
    (ds : List Diagnosis) (a b : Diagnosis)
    → Mem a ds
    → ComesFirst ds a b
    → severity_rank a.severity ≡ severity_rank b.severity
    → Explains b a
    → is_cause ds a.id ≡ true
explained_first ds a b m first same (named, cause) =
    let explains = is_cause_of_Mem ds a b.id m named cause in
    (unfold weight in ground (arith, text_eq_iff a.caused_by ""))

-- Where all severities are declared ones and a finding stands before one of its own severity that
-- explains it, it explains a finding itself: within a severity, what is only a consequence stands
-- behind its cause.
pub prioritize-cause_first :
    (ds : List Diagnosis)
    → AllDeclared ds
    → Pairwise
        (λ a b.
          severity_rank a.severity ≡ severity_rank b.severity
          → Explains b a
          → is_cause ds a.id ≡ true)
        (prioritize ds)
prioritize-cause_first ds h =
    Pairwise.imp_of_mem
      (λ a b m _ first. explained_first ds a b ((Perm.mem_iff (prioritize-perm ds)).0 m) first)
      (prioritize-ComesFirst ds h)
