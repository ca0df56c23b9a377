-- ===== src/Prelude/Sorting.antt =====
-- `sort.Slice`: insertion from the left, which is what Go does with at most twelve elements. Nothing
-- proved of a sorted list depends on the order of equal elements.
use mathlib.Core.Path.{◌≡◌, refl, sym, ap, subst, ◌∙◌}
use mathlib.Core.Logic.{inl, inr}
use mathlib.Core.Bool.{Bool, true, false}
use mathlib.Core.List.{List, [], ◌∷◌, Memᴰ}
use mathlib.Core.List.Memᴰ
use godiam.Prelude.Tests.{if◌then◌else◌, if_both, if_split, of_if}
use godiam.Prelude.Lists.{All, keep}

module _ {ℓ} {A : Type ℓ} (less : A → A → Bool) where
  unfoldable pub insert_by : A → List A → List A
  insert_by x [] = x ∷ []
  insert_by x (y ∷ l) = let rest = insert_by x l in if less x y then x ∷ y ∷ l else y ∷ rest

  unfoldable pub sort_onto : List A → List A → List A
  sort_onto done [] = done
  sort_onto done (x ∷ l) = sort_onto (insert_by x done) l

  unfoldable pub sort : List A → List A
  unfolding sort_onto
  sort l = sort_onto [] l

  -- No later element is before an earlier one.
  unfoldable pub IsSorted : List A → Type ℓ
  IsSorted [] = Unit
  IsSorted (x ∷ l) = All (λ y. less y x ≡ false) l × IsSorted l

module _ {ℓ κ} {A : Type ℓ} (P : A → Type κ) where
  pub All_mem : (l : List A) {x : A} → All P l → Memᴰ x l → P x
  All_mem [] h m = absurd (Memᴰ.not-nil m)
  All_mem (y ∷ l) h m = elim (Memᴰ.cases_cons m) [
    | inl e ↦ subst P (sym e) h.0
    | inr m' ↦ All_mem l h.1 m'
  ]

  pub All-intro : (l : List A) → ((x : A) → Memᴰ x l → P x) → All P l
  All-intro [] f = tt
  All-intro (y ∷ l) f = (f y (Memᴰ.head refl), All-intro l (λ x m. f x (Memᴰ.tail m)))

module _ {ℓ κ} {A : Type ℓ} (less : A → A → Bool) (P : A → Type κ) where
  pub All-insert_by : (x : A) (l : List A) → P x → All P l → All P (insert_by less x l)
  unfolding insert_by
  All-insert_by x [] p h = (p, tt)
  All-insert_by x (y ∷ l) p h = if_both (All P) (less x y) _ _ (p, h) (h.0, All-insert_by x l p h.1)

  All-of_insert_by : (x : A) (l : List A) → All P (insert_by less x l) → P x × All P l
  unfolding insert_by
  All-of_insert_by x [] h = h
  All-of_insert_by x (y ∷ l) h =
      of_if (All P) (P x × All P (y ∷ l)) (less x y) (x ∷ y ∷ l) (y ∷ insert_by less x l) (λ k. k)
        (λ k. let ih = All-of_insert_by x l k.1 in (ih.0, (k.0, ih.1))) h

  All-sort_onto : (done l : List A) → All P done → All P l → All P (sort_onto less done l)
  unfolding sort_onto
  All-sort_onto done [] h k = h
  All-sort_onto done (x ∷ l) h k =
      All-sort_onto (insert_by less x done) l (All-insert_by x done k.0 h) k.1

  All-of_sort_onto : (done l : List A) → All P (sort_onto less done l) → All P done × All P l
  unfolding sort_onto
  All-of_sort_onto done [] h = (h, tt)
  All-of_sort_onto done (x ∷ l) h =
      let ih = All-of_sort_onto (insert_by less x done) l h in
      let jh = All-of_insert_by x done ih.0 in (jh.1, (jh.0, ih.1))

  pub All-sort : (l : List A) → All P l → All P (sort less l)
  unfolding sort
  All-sort l h = All-sort_onto [] l tt h

  pub All-of_sort : (l : List A) → All P (sort less l) → All P l
  unfolding sort
  All-of_sort l h = (All-of_sort_onto [] l h).1

module _ {ℓ} {A : Type ℓ} (less : A → A → Bool) where
  pub mem-sort : (l : List A) {x : A} → Memᴰ x l → Memᴰ x (sort less l)
  mem-sort l m =
      All_mem (λ z. Memᴰ z (sort less l)) l
        (All-of_sort less (λ z. Memᴰ z (sort less l)) l
          (All-intro (λ z. Memᴰ z (sort less l)) (sort less l) (λ z k. k)))
        m

  pub mem_of_sort : (l : List A) {x : A} → Memᴰ x (sort less l) → Memᴰ x l
  mem_of_sort l m =
      All_mem (λ z. Memᴰ z l) (sort less l)
        (All-sort less (λ z. Memᴰ z l) l (All-intro (λ z. Memᴰ z l) l (λ z k. k))) m

-- The order of a test that is asymmetric and whose complement is transitive.
module _ {ℓ} {A : Type ℓ} (less : A → A → Bool)
    (asym : (a b : A) → less a b ≡ true → less b a ≡ false)
    (trans : (a b c : A) → less b a ≡ false → less c b ≡ false → less c a ≡ false) where
  pub insert_by-IsSorted :
      (x : A) (l : List A) → IsSorted less l → IsSorted less (insert_by less x l)
  unfolding IsSorted insert_by
  insert_by-IsSorted x [] h = (tt, tt)
  insert_by-IsSorted x (y ∷ l) h =
      if_split (IsSorted less) (less x y) (x ∷ y ∷ l) (y ∷ insert_by less x l)
        (λ e.
          let below : All (λ z. less z x ≡ false) l =
            All-intro (λ z. less z x ≡ false) l
              (λ z m. trans x y z (asym x y e) (All_mem (λ z. less z y ≡ false) l h.0 m)) in
          ((asym x y e, below), h))
        (λ e. (All-insert_by less (λ z. less z y ≡ false) x l e h.0, insert_by-IsSorted x l h.1))

  sort_onto-IsSorted :
      (done l : List A) → IsSorted less done → IsSorted less (sort_onto less done l)
  unfolding sort_onto
  sort_onto-IsSorted done [] h = h
  sort_onto-IsSorted done (x ∷ l) h =
      sort_onto-IsSorted (insert_by less x done) l (insert_by-IsSorted x done h)

  pub sort-IsSorted : (l : List A) → IsSorted less (sort less l)
  unfolding sort IsSorted
  sort-IsSorted l = sort_onto-IsSorted [] l tt

pub true_ne_false : ¬ (true ≡ false)
true_ne_false e = cc

module _ {ℓ} {A : Type ℓ} (p : A → Bool) where
  pub All-keep : (l : List A) → All (λ x. p x ≡ true) (keep p l)
  All-keep [] = tt
  All-keep (x ∷ l) =
      if_split (All (λ x. p x ≡ true)) (p x) (x ∷ keep p l) (keep p l) (λ e. (e, All-keep l))
        (λ e. All-keep l)

  pub All-keep_of {κ} : (P : A → Type κ) (l : List A) → All P l → All P (keep p l)
  All-keep_of P [] h = tt
  All-keep_of P (x ∷ l) h =
      if_both (All P) (p x) _ _ (h.0, All-keep_of P l h.1) (All-keep_of P l h.1)

  pub mem-keep : (l : List A) {x : A} → Memᴰ x l → p x ≡ true → Memᴰ x (keep p l)
  mem-keep [] m e = absurd (Memᴰ.not-nil m)
  mem-keep (y ∷ l) {x} m e =
      if_split (Memᴰ x) (p y) (y ∷ keep p l) (keep p l)
        (λ q. elim (Memᴰ.cases_cons m) [ inl h ↦ Memᴰ.head h | inr k ↦ Memᴰ.tail (mem-keep l k e) ])
        (λ q. elim (Memᴰ.cases_cons m) [
          | inl h ↦ absurd (true_ne_false (sym e ∙ ap p h ∙ q))
          | inr k ↦ mem-keep l k e
        ])

  pub keep-IsSorted :
      (less : A → A → Bool) (l : List A) → IsSorted less l → IsSorted less (keep p l)
  unfolding IsSorted
  keep-IsSorted less [] h = tt
  keep-IsSorted less (x ∷ l) h =
      if_both (IsSorted less) (p x) _ _
        (All-keep_of (λ y. less y x ≡ false) l h.0, keep-IsSorted less l h.1)
        (keep-IsSorted less l h.1)
