-- ===== src/Sessions/CloseAll.antt =====
-- pkg/core/session/manager.go: `CloseAll` leaves no session behind.
use godiam.Prelude.{
  ℕ, ◌≡◌, refl, sym, ap, subst, ◌∙◌, ◌⊎◌, inl, inr, false, List, [], ◌∷◌, map, none, some, if_pos,
  if_neg, ℕ_discrete, Option-cases,
}
use godiam.Prelude.Assoc.{lookup}
use godiam.Sessions.{
  SessionId, SessionId-discrete, disconnected, Session, Manager, terminate, terminate_all,
  close_all,
}
use godiam.Sessions.Indexed.{Indexed, none_ne_some, some_inj}
use godiam.Sessions.Keeps.{terminate-Indexed}
use godiam.Sessions.Closing.{
  IsManaged, Shrinks, disconnect, stored, terminate-Shrinks, terminate-heap, terminate-gone,
}

-- A session in a list.
unfoldable pub Listed : ℕ → List ℕ → Type 0
Listed p [] = ⊥
Listed p (q ∷ l) = (q ≡ p) ⊎ Listed p l

-- Every session of the manager is in the list.
unfoldable Covers : List ℕ → Manager → Type 0
Covers l m =
    (id : SessionId) (p : ℕ) → lookup SessionId-discrete id m.sessions ≡ some p → Listed p l

unfoldable pub IsEnded : Session → Type 0
IsEnded s = (s.state ≡ disconnected) × (s.timer ≡ false)

lookup-Listed :
    (id : SessionId) (p : ℕ) (l : List (SessionId × ℕ))
    → lookup SessionId-discrete id l ≡ some p
    → Listed p (map (λ (e : SessionId × ℕ). e.1) l)
unfolding lookup Listed
lookup-Listed id p [] x = absurd (none_ne_some x)
lookup-Listed id p ((j, q) ∷ l) x = elim (SessionId-discrete j id) [
  | yes y ↦ inl (some_inj (sym (if_pos (SessionId-discrete j id) y _ _) ∙ x))
  | no n ↦ inr (lookup-Listed id p l (sym (if_neg (SessionId-discrete j id) n _ _) ∙ x))
]

disconnect-on_terminate :
    (p q : ℕ) (m : Manager) → ((disconnect p m).heap q).on_terminate ≡ (m.heap q).on_terminate
disconnect-on_terminate p q m = elim (ℕ_discrete p q) [
  | yes x ↦
      ap (λ (s : Session). s.on_terminate) (if_pos (ℕ_discrete p q) x _ (m.heap q))
      ∙ ap (λ r. (m.heap r).on_terminate) x
  | no n ↦ ap (λ (s : Session). s.on_terminate) (if_neg (ℕ_discrete p q) n _ (m.heap q))
]

terminate-IsManaged : (p : ℕ) (m : Manager) → IsManaged m → IsManaged (terminate p m)
unfolding IsManaged Shrinks
terminate-IsManaged p m h id q x =
    let (c, e) = h id q (terminate-Shrinks p m id q x) in
    (c, ap (λ k. (k q).on_terminate) (terminate-heap p m) ∙ disconnect-on_terminate p q m ∙ e)

terminate-Covers :
    (p : ℕ) (l : List ℕ) (m : Manager)
    → Indexed m
    → IsManaged m
    → Covers (p ∷ l) m
    → Covers l (terminate p m)
unfolding Covers IsManaged Shrinks Listed
terminate-Covers p l m i h k id q x =
    let y = terminate-Shrinks p m id q x in
    elim (k id q y) [
      | inl e ↦
          (let (c, f) = h id q y in
            absurd (
              none_ne_some (
                sym (terminate-gone p m c (ap (λ r. (m.heap r).on_terminate) e ∙ f))
                ∙ ap (λ j. lookup SessionId-discrete j (terminate p m).sessions)
                    (ap (λ r. (m.heap r).id) e ∙ (i.sound id q y).0)
                ∙ x)))
      | inr r ↦ r
    ]

terminate_all-none :
    (l : List ℕ) (m : Manager)
    → Indexed m
    → IsManaged m
    → Covers l m
    → (id : SessionId) → lookup SessionId-discrete id (terminate_all l m).sessions ≡ none
unfolding terminate_all Covers Listed
terminate_all-none [] m i h k id = elim (Option-cases (lookup SessionId-discrete id m.sessions)) [
  | inl e ↦ e
  | inr (p, e) ↦ absurd (k id p e)
]
terminate_all-none (p ∷ l) m i h k id =
    terminate_all-none l (terminate p m) (terminate-Indexed p m i) (terminate-IsManaged p m h)
      (terminate-Covers p l m i h k) id

none-empty :
    (l : List (SessionId × ℕ)) → ((id : SessionId) → lookup SessionId-discrete id l ≡ none) → l ≡ []
unfolding lookup
none-empty [] h = refl
none-empty ((j, q) ∷ l) h =
    absurd (none_ne_some (sym (h j) ∙ if_pos (SessionId-discrete j j) refl _ _))

disconnect-IsEnded :
    (p q : ℕ) (m : Manager) → IsEnded (m.heap q) → IsEnded ((disconnect p m).heap q)
unfolding IsEnded
disconnect-IsEnded p q m h = elim (ℕ_discrete p q) [
  | yes x ↦ subst IsEnded (sym (if_pos (ℕ_discrete p q) x _ (m.heap q))) (refl, refl)
  | no n ↦ subst IsEnded (sym (if_neg (ℕ_discrete p q) n _ (m.heap q))) h
]

terminate-IsEnded :
    (p q : ℕ) (m : Manager) → (p ≡ q) ⊎ IsEnded (m.heap q) → IsEnded ((terminate p m).heap q)
unfolding IsEnded
terminate-IsEnded p q m (inl e) =
    subst (λ r. IsEnded ((terminate p m).heap r)) e
      (subst (λ (k : ℕ → Session). IsEnded (k p)) (sym (terminate-heap p m))
        (subst IsEnded (sym (stored p _ m)) (refl, refl)))
terminate-IsEnded p q m (inr h) =
    subst (λ (k : ℕ → Session). IsEnded (k q)) (sym (terminate-heap p m))
      (disconnect-IsEnded p q m h)

terminate_all-IsEnded :
    (l : List ℕ) (q : ℕ) (m : Manager)
    → Listed q l ⊎ IsEnded (m.heap q)
    → IsEnded ((terminate_all l m).heap q)
unfolding terminate_all Listed
terminate_all-IsEnded [] q m (inl x) = absurd x
terminate_all-IsEnded [] q m (inr h) = h
terminate_all-IsEnded (p ∷ l) q m (inl (inl e)) =
    terminate_all-IsEnded l q (terminate p m) (inr (terminate-IsEnded p q m (inl e)))
terminate_all-IsEnded (p ∷ l) q m (inl (inr x)) = terminate_all-IsEnded l q (terminate p m) (inl x)
terminate_all-IsEnded (p ∷ l) q m (inr h) =
    terminate_all-IsEnded l q (terminate p m) (inr (terminate-IsEnded p q m (inr h)))

-- If the indices agree and the manager's callback is still on every session, `CloseAll` leaves the
-- manager empty, and every session that it had is disconnected, with no timer.
pub close_all_lem :
    (m : Manager)
    → Indexed m
    → IsManaged m
    → ((close_all m).sessions ≡ [])
      × ((id : SessionId) (p : ℕ)
          → lookup SessionId-discrete id m.sessions ≡ some p
          → IsEnded ((close_all m).heap p))
unfolding close_all Covers
close_all_lem m i h =
    let l = map (λ (e : SessionId × ℕ). e.1) m.sessions in
    (
      none-empty _ (terminate_all-none l m i h (λ id p x. lookup-Listed id p m.sessions x)),
      (λ id p x. terminate_all-IsEnded l p m (inl (lookup-Listed id p m.sessions x))),
    )
