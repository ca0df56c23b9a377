-- ===== src/LoadBalance/Least.antt =====
-- pkg/extensions/rt_load_balance/rt_load_balance.go: the highest score and the fewest pending requests.
use mathlib.Core.List.{Memᴰ}
use godiam.Prelude.{
  ℕ, ◌≡◌, refl, sym, ap, ◌∙◌, ◌⊎◌, inl, inr, Bool, true, false, ◌&&◌, List, [], ◌∷◌, Option, none,
  some, ◌==◌, arith, if◌then◌else◌, All, if_split, Bool-cases,
}
use godiam.Prelude.Ints.{ℤ, ltz, eqz, ltz_trans, ltz_asym, ltz_irrefl}
use godiam.Prelude.Sorting.{true_ne_false}
use godiam.Routing.{Name, Route}
use godiam.LoadBalance.{pending_of, max_score, min_pending, fewer}

-- No score of the list is above the maximum, and the first value is not.
pub max_score-All :
    (s : ℤ) (l : List Route)
    → (ltz (max_score s l) s ≡ false) × All (λ x. ltz (max_score s l) x.score ≡ false) l
unfolding max_score
max_score-All s [] = (ltz_irrefl s, tt)
max_score-All s (c ∷ l) =
    let s' = if ltz s c.score then c.score else s in
    let (above, all) = max_score-All s' l in
    let first : ltz s' s ≡ false =
      if_split (λ t. ltz t s ≡ false) (ltz s c.score) c.score s (λ e. ltz_asym s c.score e)
        (λ e. ltz_irrefl s) in
    let head : ltz s' c.score ≡ false =
      if_split (λ t. ltz t c.score ≡ false) (ltz s c.score) c.score s (λ e. ltz_irrefl c.score)
        (λ e. e) in
    (
      ltz_trans s s' (max_score s' l) first above,
      (ltz_trans c.score s' (max_score s' l) head above, all),
    )

-- The maximum is the first value or a score of the list.
pub max_score-mem :
    (s : ℤ) (l : List Route)
    → (max_score s l ≡ s) ⊎ ((x : Route) × Memᴰ x l × (x.score ≡ max_score s l))
unfolding max_score
max_score-mem s [] = inl refl
max_score-mem s (c ∷ l) =
    let s' = if ltz s c.score then c.score else s in
    elim (max_score-mem s' l) [
      | inr (x, at, e) ↦ inr (x, Memᴰ.tail at, e)
      | inl e ↦ elim (Bool-cases (ltz s c.score)) [
        | inl up ↦ inr (c, Memᴰ.head refl, sym (e ∙ ap (λ b. if b then c.score else s) up))
        | inr stays ↦ inl (e ∙ ap (λ b. if b then c.score else s) stays)
      ]
    ]

fewer_self : (k : ℕ) → fewer (some k) k ≡ false
fewer_self k = ground arith

fewer_trans :
    (best : Option ℕ) (k n : ℕ)
    → fewer best k ≡ true
    → fewer best n ≡ false
    → fewer (some k) n ≡ false
fewer_trans none k n h e = absurd (true_ne_false e)
fewer_trans (some b) k n h e = ground arith

and_false : (a b : Bool) → (a && b) ≡ false → (a ≡ false) ⊎ (b ≡ false)
and_false true b e = inr e
and_false false b e = inl refl

false_and : (a b : Bool) → b ≡ false → (a && b) ≡ false
false_and true b e = e
false_and false b e = refl

-- Of the candidates with the score `top`, by the table `m`.
module _ (m : List (Name × ℕ)) (top : ℤ) where
  abbrev of_top : Route → Bool
  of_top c = eqz c.score top

  abbrev pending : Route → ℕ
  pending c = pending_of m c.peer_identity

  abbrev pub Found : List Route → ℕ → Type 0
  Found l k = (x : Route) × Memᴰ x l × ((of_top x && (pending x == k)) ≡ true)

  min_pending-fewer :
      (best : Option ℕ) (l : List Route) (n : ℕ)
      → fewer best n ≡ false
      → fewer (min_pending m top best l) n ≡ false
  unfolding min_pending
  min_pending-fewer best [] n h = h
  min_pending-fewer best (c ∷ l) n h =
      min_pending-fewer (if of_top c && fewer best (pending c) then some (pending c) else best) l n
        (if_split (λ b. fewer b n ≡ false) (of_top c && fewer best (pending c)) (some (pending c))
          best (λ e. fewer_trans best (pending c) n (ground arith) h) (λ e. h))

  pub min_pending-All :
      (best : Option ℕ) (l : List Route)
      → All (λ x. (of_top x && fewer (min_pending m top best l) (pending x)) ≡ false) l
  unfolding min_pending
  min_pending-All best [] = tt
  min_pending-All best (c ∷ l) =
      let best' = if of_top c && fewer best (pending c) then some (pending c) else best in
      let least = min_pending m top best' l in
      let head : (of_top c && fewer least (pending c)) ≡ false = elim (Bool-cases (of_top c)) [
        | inr below ↦ ap (λ b. b && fewer least (pending c)) below
        | inl tops ↦ false_and (of_top c) (fewer least (pending c)) (
            min_pending-fewer best' l (pending c) (
              if_split (λ b. fewer b (pending c) ≡ false) (of_top c && fewer best (pending c))
                (some (pending c)) best (λ e. fewer_self (pending c))
                (λ e. sym (ap (λ b. b && fewer best (pending c)) tops) ∙ e)))
      ] in
      (head, min_pending-All best' l)

  -- The least number is the first one or that of a candidate.
  pub min_pending-Found :
      (best : Option ℕ) (l : List Route)
      → (min_pending m top best l ≡ best)
        ⊎ ((k : ℕ) × (min_pending m top best l ≡ some k) × Found l k)
  unfolding min_pending
  min_pending-Found best [] = inl refl
  min_pending-Found best (c ∷ l) =
      let best' = if of_top c && fewer best (pending c) then some (pending c) else best in
      elim (min_pending-Found best' l) [
        | inr (k, e, (x, at, is)) ↦ inr (k, e, (x, Memᴰ.tail at, is))
        | inl e ↦ elim (Bool-cases (of_top c && fewer best (pending c))) [
          | inr stays ↦ inl (e ∙ ap (λ b. if b then some (pending c) else best) stays)
          | inl less ↦ inr (
            pending c,
            e ∙ ap (λ b. if b then some (pending c) else best) less,
            (c, Memᴰ.head refl, ground arith),
          )
        ]
      ]
