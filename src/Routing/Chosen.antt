-- ===== src/Routing/Chosen.antt =====
-- The choice of a next hop, for any candidates, random numbers and handlers.
use godiam.Prelude.{
  ℕ, zero, suc, ◌%◌, ◌<◌, ◌≡◌, refl, sym, ap, subst, ◌⊎◌, inl, inr, true, false, List, [], ◌∷◌,
  none, some, arith, Bool-cases, All, length, get_elem?,
}
use mathlib.Core.List.{Memᴰ}
use godiam.Prelude.Ints.{ltz, ltz_trans, ltz_asym}
use godiam.Prelude.Sorting.{All_mem, All-intro, sort, sort-IsSorted, mem-sort, mem_of_sort}
use godiam.Message.{Message}
use godiam.Routing.{Name, Route, no_routes_left, offered, Outside, Router}
use godiam.Routing.Candidates.{has}
use godiam.Routing.Choice.{
  better, tier_choices, pick, Choice, chosen, unroutable, choose, candidates_for,
  route_out_with_exclusion,
}
use godiam.Routing.Best.{SomeAll, All-tier_choices, IsAbove-choices}

better_asym : (a b : Route) → better a b ≡ true → better b a ≡ false
unfolding better
better_asym a b h = ltz_asym b.score a.score h

better_trans : (a b c : Route) → better b a ≡ false → better c b ≡ false → better c a ≡ false
unfolding better
better_trans a b c h k = ltz_trans c.score b.score a.score k h

get_elem?_mem :
    {A : Type 0} (l : List A) (i : ℕ) → i < length l → (a : A) × Memᴰ a l × (get_elem? l i ≡ some a)
get_elem?_mem [] i h = absurd (omega arith)
get_elem?_mem (x ∷ l) zero h = (x, Memᴰ.head refl, refl)
get_elem?_mem (x ∷ l) (suc i) h =
    let r = get_elem?_mem l i (omega arith) in (r.0, Memᴰ.tail r.1, r.2)

module _ {W P S : Type 0} (o : Outside W P S) where
  pick_cases :
      (w : W) (l : List Route)
      → ((l ≡ []) × ((pick o w l).1 ≡ none))
        ⊎ ((t : Route) × Memᴰ t l × ((pick o w l).1 ≡ some t.peer_identity))
  unfolding pick
  pick_cases w [] = inl (refl, refl)
  pick_cases w (c ∷ []) = inr (c, Memᴰ.head refl, refl)
  pick_cases w (c ∷ d ∷ l) =
      let n = length (c ∷ d ∷ l) in
      let r = get_elem?_mem (c ∷ d ∷ l) ((o.random w).1 % n) (omega arith) in
      inr (r.0, r.1, ap (λ e. elim e [ none ↦ none | some t ↦ some t.peer_identity ]) r.2)

-- A choice from candidates: one of them, not excluded and none of those that are not excluded has
-- a higher score; or none is left.
unfoldable pub IsBest : List Name → List Route → Choice → Type 0
IsBest exclude l (chosen peer) =
    (c : Route) × Memᴰ c l
    × (c.peer_identity ≡ peer)
    × (has exclude peer ≡ false)
    × ((d : Route) → Memᴰ d l → has exclude d.peer_identity ≡ false → ltz c.score d.score ≡ false)
IsBest exclude l (unroutable e) =
    (e ≡ no_routes_left) × ((d : Route) → Memᴰ d l → has exclude d.peer_identity ≡ true)

SomeAll_mem : (P : Route → Type 0) (l : List Route) {c : Route} → SomeAll P l → Memᴰ c l → P c
SomeAll_mem P [] h m = absurd h
SomeAll_mem P (t ∷ ts) h m = All_mem P (t ∷ ts) h m

module _ (exclude : List Name) (cs : List Route) where
  abbrev Offer : Route → Type 0
  Offer c = (has exclude c.peer_identity ≡ false) × Memᴰ c cs

  from_Offer : All Offer (tier_choices exclude (sort better cs))
  from_Offer = All-tier_choices exclude Offer (sort better cs) (
      All-intro (λ c. has exclude c.peer_identity ≡ false → Offer c) (sort better cs)
        (λ c m e. (e, mem_of_sort better cs m)))

  above_all :
      (d : Route)
      → Memᴰ d cs
      → has exclude d.peer_identity ≡ false
      → SomeAll (λ t. ltz t.score d.score ≡ false) (tier_choices exclude (sort better cs))
  above_all d m e =
      IsAbove-choices exclude d e (sort better cs)
        (sort-IsSorted better better_asym better_trans cs) (mem-sort better cs m)

module _ {W P S : Type 0} (o : Outside W P S) (r : Router W P S) where
  choose-none :
      (exclude : List Name) (w : W) (m : Message) (cs : List Route)
      → (pick o w (tier_choices exclude (sort better cs))).1 ≡ none
      → (choose o r exclude w m cs).2 ≡ unroutable no_routes_left
  unfolding choose
  choose-none exclude w m cs h = ground arith

  choose-some :
      (exclude : List Name) (w : W) (m : Message) (cs : List Route) (peer : Name)
      → (pick o w (tier_choices exclude (sort better cs))).1 ≡ some peer
      → (choose o r exclude w m cs).2 ≡ chosen peer
  unfolding choose
  choose-some exclude w m cs peer h = ground arith

  pub choose-IsBest :
      (exclude : List Name) (w : W) (m : Message) (cs : List Route)
      → IsBest exclude cs (choose o r exclude w m cs).2
  unfolding IsBest
  choose-IsBest exclude w m cs =
      let ts = tier_choices exclude (sort better cs) in
      elim (pick_cases o w ts) [
        | inl e ↦ subst (IsBest exclude cs) (sym (choose-none exclude w m cs e.1)) (
          refl,
          λ d k. elim (Bool-cases (has exclude d.peer_identity)) [
            | inl q ↦ q
            | inr q ↦ absurd (
                subst (SomeAll (λ t. ltz t.score d.score ≡ false)) e.0 (above_all exclude cs d k q))
          ],
        )
        | inr t ↦
            let offer = All_mem (Offer exclude cs) ts (from_Offer exclude cs) t.1 in
            subst (IsBest exclude cs) (sym (choose-some exclude w m cs t.0.peer_identity t.2)) (
              t.0,
              offer.1,
              refl,
              offer.0,
              λ d k q.
                  SomeAll_mem (λ t. ltz t.score d.score ≡ false) ts (above_all exclude cs d k q)
                    t.1,
            )
      ]

  offered_choice :
      (exclude : List Name) (w : W) (m : Message) (l : List Route)
      → (candidates_for o r w m).2 ≡ offered l
      → (route_out_with_exclusion o r exclude w m).2
        ≡ (choose o r exclude (candidates_for o r w m).0 (candidates_for o r w m).1 l).2
  unfolding route_out_with_exclusion
  offered_choice exclude w m l h = ground arith

  -- If the outgoing handlers leave a list of candidates, then RouteOutWithExclusion either returns
  -- the name of one of them that is not excluded, and no candidate that is not excluded has a
  -- higher score; or it returns the error that no route is left, and every candidate is excluded.
  pub route_out-IsBest :
      (exclude : List Name) (w : W) (m : Message) (l : List Route)
      → (candidates_for o r w m).2 ≡ offered l
      → IsBest exclude l (route_out_with_exclusion o r exclude w m).2
  route_out-IsBest exclude w m l h =
      subst (IsBest exclude l) (sym (offered_choice exclude w m l h))
        (choose-IsBest exclude (candidates_for o r w m).0 (candidates_for o r w m).1 l)
