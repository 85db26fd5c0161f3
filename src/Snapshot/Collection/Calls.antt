-- ===== src/Snapshot/Collection/Calls.antt =====
-- The calls of Degrade and Inspect that a collector makes, one after the other, against what they are
-- for: the set of the steps that are left out, and the set of the objects that are read.
use kubewhy.Base.{
  ◌==◌, ◌≡◌, refl, sym, ap, ◌∙◌, Bool, true, false, ◌||◌, String, String_eq, text_eq_iff, List, [],
  ◌∷◌, ◌++◌, arith, any, any-append, Bool-cases, inl, inr,
}
use kubewhy.Diagnosis.Report.{Degradation}
use kubewhy.Snapshot.Collection.{Collection, same_step, degrade, inspect}
use kubewhy.Snapshot.Collection.Steps.{degrade-any}

pub data Call : Type 0 where
  left_out : Degradation → Call
  read : String → Call

abbrev pub call : Collection → Call → Collection
call c (left_out d) = degrade c d
call c (read what) = inspect c what

abbrev pub calls : Collection → List Call → Collection
calls c [] = c
calls c (k ∷ ks) = calls (call c k) ks

-- The two sets, each by the test whether something is in it.
pub record Knowledge : Type 0 where
  pub is_left_out : Degradation → Bool
  pub is_read : String → Bool

abbrev pub learn : Knowledge → Call → Knowledge
learn k (left_out d) = record k { is_left_out = λ e. k.is_left_out e || same_step d e }
learn k (read what) = record k { is_read = λ w. k.is_read w || what == w }

abbrev pub learn_all : Knowledge → List Call → Knowledge
learn_all k [] = k
learn_all k (c ∷ cs) = learn_all (learn k c) cs

-- The lists of a collection have what the sets have.
abbrev pub Represents : Collection → Knowledge → Type 0
Represents c k =
    ((e : Degradation) → any (λ x. same_step x e) c.degradations ≡ k.is_left_out e)
    × ((w : String) → any (λ x. x == w) c.inspected ≡ k.is_read w)

absorbed : (a b : Bool) → a ≡ true → a ≡ (a || b)
absorbed a b h = ground arith

unchanged : (a b : Bool) → b ≡ false → a ≡ (a || b)
unchanged a b h = ground arith

read_already :
    (what w : String) (known : List String)
    → any (λ x. x == what) known ≡ true
    → any (λ x. x == w) known ≡ (any (λ x. x == w) known || what == w)
read_already what w known h = elim (Bool-cases (what == w)) [
  | inl e ↦
      let same = (text_eq_iff what w).0 e in
      let there : any (λ x. x == w) known ≡ true =
        ap (λ v. any (λ x. x == v) known) (sym same) ∙ h in
      absorbed (any (λ x. x == w) known) (what == w) there
  | inr e ↦ unchanged (any (λ x. x == w) known) (what == w) e
]

one_more :
    (what w : String) (known : List String)
    → any (λ x. x == w) (known ++ what ∷ []) ≡ (any (λ x. x == w) known || what == w)
one_more what w known = any-append _ known (what ∷ []) ∙ (unfold any in ground arith)

inspect-any :
    (c : Collection) (what w : String)
    → any (λ x. x == w) (inspect c what).inspected ≡ (any (λ x. x == w) c.inspected || what == w)
unfolding inspect
inspect-any c what w = elim (Bool-cases (any (λ x. x == what) c.inspected)) [
  | inl h ↦ rw h (read_already what w c.inspected h)
  | inr h ↦ rw h (one_more what w c.inspected)
]

degrade-inspected : (c : Collection) (d : Degradation) → (degrade c d).inspected ≡ c.inspected
unfolding degrade
degrade-inspected c d = elim (Bool-cases (any (λ x. same_step x d) c.degradations)) [
  | inl h ↦ rw h refl
  | inr h ↦ rw h refl
]

pub inspect-degradations :
    (c : Collection) (what : String) → (inspect c what).degradations ≡ c.degradations
unfolding inspect
inspect-degradations c what = elim (Bool-cases (any (λ x. x == what) c.inspected)) [
  | inl h ↦ rw h refl
  | inr h ↦ rw h refl
]

call-Represents :
    (c : Collection) (k : Knowledge) (a : Call) → Represents c k → Represents (call c a) (learn k a)
call-Represents c k (left_out d) (h, h') = (
  λ e. degrade-any c d e ∙ ap (λ b. b || same_step d e) (h e),
  λ w. ap (any (λ x. x == w)) (degrade-inspected c d) ∙ h' w,
)
call-Represents c k (read what) (h, h') = (
  λ e. ap (any (λ x. same_step x e)) (inspect-degradations c what) ∙ h e,
  λ w. inspect-any c what w ∙ ap (λ b. b || what == w) (h' w),
)

-- Whatever calls of Degrade and Inspect a collector makes, in whatever order, its lists have the steps
-- that were left out and the objects that were read, as the two sets that the calls only add to.
pub calls-Represents :
    (c : Collection) (k : Knowledge) (later : List Call)
    → Represents c k
    → Represents (calls c later) (learn_all k later)
calls-Represents c k [] h = h
calls-Represents c k (a ∷ later) h =
    calls-Represents (call c a) (learn k a) later (call-Represents c k a h)
