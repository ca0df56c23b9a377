-- ===== src/Routing/Best.antt =====
-- The next hop that is chosen has the highest score of those that are not excluded.
use godiam.Prelude.{
  ◌≡◌, refl, sym, subst, inl, inr, false, List, [], ◌∷◌, ◌++◌, if◌then◌else◌, All, if_both,
  if_split,
}
use mathlib.Core.List.{Memᴰ}
use mathlib.Core.List.Memᴰ
use godiam.Prelude.Ints.{ℤ, ltz, eqz, ltz_irrefl, eqz_sound, eqz_refl}
use godiam.Prelude.Sorting.{IsSorted, All_mem, All-intro}
use godiam.Routing.{Name, Route}
use godiam.Routing.Candidates.{has}
use godiam.Routing.Choice.{better, join, tiers, tier_choices}

-- Not empty, and each element has the property.
abbrev pub SomeAll : (Route → Type 0) → List Route → Type 0
SomeAll P [] = ⊥
SomeAll P (t ∷ ts) = All P (t ∷ ts)

pub All-concat :
    (P : Route → Type 0) (l : List Route) (c : Route) → All P l → P c → All P (l ++ c ∷ [])
All-concat P [] c h p = (p, tt)
All-concat P (x ∷ l) c h p = (h.0, All-concat P l c h.1 p)

module _ (exclude : List Name) (P : Route → Type 0) where
  All-join :
      (choices : List Route) (c : Route)
      → All P choices
      → (has exclude c.peer_identity ≡ false → P c)
      → All P (join exclude choices c)
  unfolding join
  All-join choices c h f =
      if_split (All P) (has exclude c.peer_identity) choices (choices ++ c ∷ []) (λ e. h)
        (λ e. All-concat P choices c h (f e))

  All-tiers :
      (top : ℤ) (choices l : List Route)
      → All P choices
      → All (λ c. has exclude c.peer_identity ≡ false → P c) l
      → All P (tiers exclude top choices l)
  unfolding tiers
  All-tiers top choices [] h k = h
  All-tiers top [] (c ∷ l) h k =
      if_both (All P) (eqz c.score top) _ _ (All-tiers top _ l (All-join [] c h k.0) k.1)
        (All-tiers c.score _ l (All-join [] c h k.0) k.1)
  All-tiers top (d ∷ ds) (c ∷ l) h k =
      if_both (All P) (eqz c.score top) _ _ (All-tiers top _ l (All-join (d ∷ ds) c h k.0) k.1) h

  pub All-tier_choices :
      (l : List Route)
      → All (λ c. has exclude c.peer_identity ≡ false → P c) l
      → All P (tier_choices exclude l)
  unfolding tier_choices
  All-tier_choices [] h = tt
  All-tier_choices (c ∷ l) h = All-tiers c.score _ l (All-join [] c tt h.0) h.1

-- A tier that has a choice keeps it, and the result is of its score.
module _ (exclude : List Name) where
  Some-join :
      (P : Route → Type 0) (d : Route) (ds : List Route) (c : Route)
      → All P (d ∷ ds)
      → P c
      → SomeAll P (join exclude (d ∷ ds) c)
  unfolding join
  Some-join P d ds c h p =
      if_both (SomeAll P) (has exclude c.peer_identity) _ _ h (h.0, All-concat P ds c h.1 p)

  kept :
      (top : ℤ) (choices l : List Route)
      → SomeAll (λ c. c.score ≡ top) choices
      → SomeAll (λ c. c.score ≡ top) (tiers exclude top choices l)
  unfolding tiers
  kept top choices [] h = h
  kept top [] (c ∷ l) h = absurd h
  kept top (d ∷ ds) (c ∷ l) h =
      if_split (SomeAll (λ c. c.score ≡ top)) (eqz c.score top)
        (tiers exclude top (join exclude (d ∷ ds) c) l) (d ∷ ds)
        (λ e.
          kept top (join exclude (d ∷ ds) c) l
            (Some-join (λ c. c.score ≡ top) d ds c h (eqz_sound _ _ e)))
        (λ e. h)

  join_first :
      (P : Route → Type 0) (c : Route)
      → has exclude c.peer_identity ≡ false
      → P c
      → SomeAll P (join exclude [] c)
  unfolding join
  join_first P c e p = subst (λ b. SomeAll P (if b then [] else c ∷ [])) (sym e) (p, tt)

  -- A candidate that is not excluded, and those that are not below it.
  module _ (c0 : Route) (open0 : has exclude c0.peer_identity ≡ false) where
    abbrev IsAbove : Route → Type 0
    IsAbove t = ltz t.score c0.score ≡ false

    IsAbove-score :
        (top : ℤ) (ts : List Route)
        → ltz top c0.score ≡ false
        → SomeAll (λ t. t.score ≡ top) ts
        → SomeAll IsAbove ts
    IsAbove-score top [] e h = h
    IsAbove-score top (t ∷ ts) e h = All-intro IsAbove (t ∷ ts) (λ x m.
        subst (λ z. ltz z c0.score ≡ false) (sym (All_mem (λ t. t.score ≡ top) (t ∷ ts) h m)) e)

    above :
        (top : ℤ) (choices l : List Route)
        → All (λ c. c.score ≡ top) choices
        → IsSorted better l
        → All (λ c. ltz top c.score ≡ false) l
        → Memᴰ c0 l
        → SomeAll IsAbove (tiers exclude top choices l)
    unfolding tiers IsSorted better
    above top choices [] h s b m = absurd (Memᴰ.not-nil m)
    above top (d ∷ ds) (c ∷ l) h s b m =
        IsAbove-score top (tiers exclude top (d ∷ ds) (c ∷ l))
          (All_mem (λ c. ltz top c.score ≡ false) (c ∷ l) b m) (kept top (d ∷ ds) (c ∷ l) h)
    above top [] (c ∷ l) h s b m = elim (Memᴰ.cases_cons m) [
      | inl e ↦
          if_split (SomeAll IsAbove) (eqz c.score top) _ _
            (λ q. IsAbove-score top _ (subst (λ x. ltz top x.score ≡ false) (sym e) b.0) (
              kept top _ l (
                join_first (λ x. x.score ≡ top) c
                  (subst (λ x. has exclude x.peer_identity ≡ false) e open0) (eqz_sound _ _ q))))
            (λ q.
              IsAbove-score c.score _
                (subst (λ x. ltz c.score x.score ≡ false) (sym e) (ltz_irrefl c.score))
                (kept c.score _ l (
                  join_first (λ x. x.score ≡ c.score) c
                    (subst (λ x. has exclude x.peer_identity ≡ false) e open0) refl)))
      | inr k ↦
          if_split (SomeAll IsAbove) (eqz c.score top) _ _
            (λ q.
              above top _ l (All-join exclude (λ x. x.score ≡ top) [] c tt (λ _. eqz_sound _ _ q))
                s.1 b.1 k)
            (λ q.
              above c.score _ l (All-join exclude (λ x. x.score ≡ c.score) [] c tt (λ _. refl)) s.1
                s.0 k)
    ]

    pub IsAbove-choices :
        (l : List Route) → IsSorted better l → Memᴰ c0 l → SomeAll IsAbove (tier_choices exclude l)
    unfolding tier_choices IsSorted better
    IsAbove-choices [] s m = absurd (Memᴰ.not-nil m)
    IsAbove-choices (c ∷ l) s m =
        subst
          (λ b. SomeAll IsAbove (
            if b
            then tiers exclude c.score (join exclude [] c) l
            else tiers exclude c.score (join exclude [] c) l))
          (eqz_refl c.score) (above c.score [] (c ∷ l) tt s (ltz_irrefl c.score, s.0) m)
