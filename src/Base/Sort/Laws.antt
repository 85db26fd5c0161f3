-- ===== src/Base/Sort/Laws.antt =====
-- Laws of the stable sort: its elements, its order and the order of equals.
use mathlib.Core.Path.{◌≡◌, refl, sym, ap, ◌∙◌}
use mathlib.Core.Logic.{inl, inr}
use mathlib.Core.Logic.Or
use mathlib.Core.Bool.{Bool, true, false}
use mathlib.Core.List.{List, [], ◌∷◌, Perm, Pairwise, Pairwise-singleton, mem-cons}
use mathlib.Core.List.Perm
use native.Mathlib.Omega.{arith}
use kubewhy.Base.Bools.{Bool-cases}
use kubewhy.Base.Lists.{All, select, length}
use Prim.Native.Nat.{◌≤◌}
use kubewhy.Base.Sort.{insert_stable, sort_stable}

-- What a `less` function has to satisfy for the result to be fixed.
pub record WeakOrder {ℓ} {A : Type ℓ} (less : A → A → Bool) : Type ℓ where
  pub asym : (a b : A) → less a b ≡ true → less b a ≡ false
  pub trans : (a b c : A) → less b a ≡ false → less c b ≡ false → less c a ≡ false

module _ {ℓ} {A : Type ℓ} (less : A → A → Bool) where
  insert_stable-perm : (x : A) (l : List A) → Perm (insert_stable less x l) (x ∷ l)
  unfolding insert_stable
  insert_stable-perm x [] = Perm.rfl
  insert_stable-perm x (y ∷ ys) = elim (Bool-cases (less y x)) [
    | inl e ↦ rw e (Perm.trans (Perm.cons y (insert_stable-perm x ys)) (Perm.swap x y ys))
    | inr e ↦ rw e Perm.rfl
  ]

  -- A sorted list holds the same elements.
  pub sort_stable-perm : (l : List A) → Perm (sort_stable less l) l
  unfolding sort_stable
  sort_stable-perm [] = Perm.rfl
  sort_stable-perm (x ∷ xs) =
      Perm.trans (insert_stable-perm x (sort_stable less xs)) (Perm.cons x (sort_stable-perm xs))

  -- No element stands behind one that it comes before.
  abbrev pub InOrder : A → A → Type 0
  InOrder a b = less b a ≡ false

  InOrder-prop : (a b : A) → IsProp (InOrder a b)
  InOrder-prop a b = hlevel

  module _ (order : WeakOrder less) where
    insert_stable-Pairwise :
        (x : A) {l : List A} → Pairwise InOrder l → Pairwise InOrder (insert_stable less x l)
    unfolding insert_stable
    insert_stable-Pairwise x Pairwise.nil = Pairwise-singleton _ x
    insert_stable-Pairwise x (Pairwise.cons {a = y} {l = ys} below s) =
        elim (Bool-cases (less y x)) [
          | inl e ↦ rw e (
              Pairwise.cons
                (λ z m.
                  Or.elim (InOrder-prop y z)
                    (mem-cons.0 ((Perm.mem_iff (insert_stable-perm x ys)).0 m))
                    (λ same. rw same (order.asym y x e)) (below z))
                (insert_stable-Pairwise x s))
          | inr e ↦ rw e (
              Pairwise.cons
                (λ z m.
                  Or.elim (InOrder-prop x z) (mem-cons.0 m) (λ same. rw same e)
                    (λ later. order.trans x y z e (below z later)))
                (Pairwise.cons below s))
        ]

    -- Under a weak order a sorted list is in order.
    pub sort_stable-Pairwise : (l : List A) → Pairwise InOrder (sort_stable less l)
    unfolding sort_stable
    sort_stable-Pairwise [] = Pairwise.nil
    sort_stable-Pairwise (x ∷ xs) = insert_stable-Pairwise x (sort_stable-Pairwise xs)

  -- Elements of which none comes before another.
  abbrev pub AreTied : (A → Bool) → Type ℓ
  AreTied p = (a b : A) → p a ≡ true → p b ≡ true → less a b ≡ false

  insert_stable-select :
      (p : A → Bool)
      → AreTied p
      → (x : A) (l : List A) → select p (insert_stable less x l) ≡ select p (x ∷ l)
  unfolding insert_stable select
  insert_stable-select p tied x [] = refl
  insert_stable-select p tied x (y ∷ ys) =
      ground (arith, tied y x, insert_stable-select p tied x ys)

  select-cons :
      (p : A → Bool) (x : A) (l r : List A)
      → select p l ≡ select p r
      → select p (x ∷ l) ≡ select p (x ∷ r)
  unfolding select
  select-cons p x l r e = rw e

  -- Tied elements keep their order.
  pub sort_stable-select :
      (p : A → Bool) → AreTied p → (l : List A) → select p (sort_stable less l) ≡ select p l
  unfolding sort_stable
  sort_stable-select p tied [] = refl
  sort_stable-select p tied (x ∷ xs) =
      insert_stable-select p tied x (sort_stable less xs)
      ∙ select-cons p x (sort_stable less xs) xs (sort_stable-select p tied xs)

module _ {ℓ} {A : Type ℓ} (less : A → A → Bool) where
  insert_stable-All {κ} :
      (P : A → Type κ) (x : A) (l : List A) → P x → All P l → All P (insert_stable less x l)
  unfolding insert_stable
  insert_stable-All P x [] h hs = (h, tt)
  insert_stable-All P x (y ∷ ys) h (k, ks) = elim (Bool-cases (less y x)) [
    | inl e ↦ rw e (k, insert_stable-All P x ys h ks)
    | inr e ↦ rw e (h, (k, ks))
  ]

  -- What holds of every element holds of the sorted ones.
  pub sort_stable-All {κ} : (P : A → Type κ) (l : List A) → All P l → All P (sort_stable less l)
  unfolding sort_stable
  sort_stable-All P [] h = tt
  sort_stable-All P (x ∷ xs) (h, hs) =
      insert_stable-All P x (sort_stable less xs) h (sort_stable-All P xs hs)

module _ {ℓ κ} {A : Type ℓ} (P : A → Type κ) (less less' : A → A → Bool)
    (agree : (a b : A) → P a → P b → less a b ≡ less' a b) where
  insert_stable_agree :
      (x : A) (l : List A) → P x → All P l → insert_stable less x l ≡ insert_stable less' x l
  unfolding insert_stable
  insert_stable_agree x [] h hs = refl
  insert_stable_agree x (y ∷ ys) h (k, ks) = rw (agree y x k h, insert_stable_agree x ys h ks)

  -- Two tests that agree on the elements sort alike.
  pub sort_stable_agree : (l : List A) → All P l → sort_stable less l ≡ sort_stable less' l
  unfolding sort_stable
  sort_stable_agree [] hs = refl
  sort_stable_agree (x ∷ xs) (h, hs) =
      insert_stable_agree x (sort_stable less xs) h (sort_stable-All less P xs hs)
      ∙ ap (insert_stable less' x) (sort_stable_agree xs hs)

module _ {ℓ} {A : Type ℓ} (less : A → A → Bool) (p : A → Bool) where
  insert_stable-select_drop :
      (x : A) (l : List A) → p x ≡ false → select p (insert_stable less x l) ≡ select p l
  unfolding insert_stable select
  insert_stable-select_drop x [] h = rw h
  insert_stable-select_drop x (y ∷ ys) h = ground (arith, insert_stable-select_drop x ys h)

  insert_stable-select_keep :
      (x : A) (l : List A)
      → p x ≡ true
      → select p l ≡ []
      → select p (insert_stable less x l) ≡ x ∷ []
  unfolding insert_stable select
  insert_stable-select_keep x [] h e = rw h
  insert_stable-select_keep x (y ∷ ys) h e = ground (arith, insert_stable-select_keep x ys h)

  select_keep : (x : A) (xs : List A) → p x ≡ true → select p (x ∷ xs) ≡ x ∷ select p xs
  unfolding select
  select_keep x xs h = rw h

  select_drop : (x : A) (xs : List A) → p x ≡ false → select p (x ∷ xs) ≡ select p xs
  unfolding select
  select_drop x xs h = rw h

  nil_of_length : (l : List A) → length l ≤ 0 → l ≡ []
  nil_of_length [] h = refl
  nil_of_length (x ∷ xs) h = absurd (omega arith)

  -- Where one element at most passes a test, sorting does not change what passes.
  pub sort_stable-select_unique :
      (l : List A) → length (select p l) ≤ 1 → select p (sort_stable less l) ≡ select p l
  unfolding sort_stable
  sort_stable-select_unique [] h = refl
  sort_stable-select_unique (x ∷ xs) h = elim (Bool-cases (p x)) [
    | inl e ↦
        let few = rw (select_keep x xs e) at h in
        let alone = nil_of_length (select p xs) (omega arith) in
        let sorted = sort_stable-select_unique xs (rw alone (omega arith)) in
        insert_stable-select_keep x (sort_stable less xs) e (sorted ∙ alone)
        ∙ rw (select_keep x xs e, alone) refl
    | inr e ↦
        let few = rw (select_drop x xs e) at h in
        insert_stable-select_drop x (sort_stable less xs) e
        ∙ sort_stable-select_unique xs few
        ∙ sym (select_drop x xs e)
  ]
