-- ===== src/Sessions/Closing.antt =====
-- pkg/core/session/manager.go: what terminating sessions leaves behind.
use godiam.Prelude.{
  ℕ, ◌≡◌, ◌≢◌, refl, sym, ap, ◌∙◌, inl, inr, false, none, some, if_pos, if_neg, ℕ_discrete,
  Option-cases,
}
use godiam.Prelude.Assoc.{lookup, insert, delete}
use godiam.Sessions.{
  SessionId, SessionId-discrete, disconnected, Callback, unset, application, removing, Session,
  Manager, store, add_session, drop_session, remove, call, terminate,
}
use godiam.Sessions.Indexed.{
  none_ne_some, some_inj, insert_here, insert_away, delete_here, delete_away,
}
use godiam.Sessions.Keeps.{remove-some, remove-none}

-- The manager's callback is on every session that it knows.
unfoldable pub IsManaged : Manager → Type 0
IsManaged m =
    (id : SessionId) (p : ℕ)
    → lookup SessionId-discrete id m.sessions ≡ some p
    → (c : Callback) × ((m.heap p).on_terminate ≡ removing c)

found_before :
    (i id : SessionId) (p q : ℕ) (m : Manager)
    → p ≢ q
    → lookup SessionId-discrete id (insert SessionId-discrete i p m.sessions) ≡ some q
    → lookup SessionId-discrete id m.sessions ≡ some q
found_before i id p q m n x = elim (SessionId-discrete i id) [
  | yes e ↦ absurd (
      n (
        some_inj (
          sym (insert_here i p m.sessions)
          ∙ ap (λ j. lookup SessionId-discrete j (insert SessionId-discrete i p m.sessions)) e
          ∙ x)))
  | no k ↦ sym (insert_away i id p m.sessions k) ∙ x
]

-- Registering a session under a new ID puts the callback on it.
pub add_session-IsManaged : (p : ℕ) (m : Manager) → IsManaged m → IsManaged (add_session p m)
unfolding IsManaged add_session
add_session-IsManaged p m h id q x = elim (ℕ_discrete p q) [
  | yes e ↦ (
    (m.heap p).on_terminate,
    ap (λ (s : Session). s.on_terminate) (if_pos (ℕ_discrete p q) e _ (m.heap q)),
  )
  | no n ↦
      (let (c, f) = h id q (found_before (m.heap p).id id p q m n x) in
        (c, ap (λ (s : Session). s.on_terminate) (if_neg (ℕ_discrete p q) n _ (m.heap q)) ∙ f))
]

-- Nothing new is found.
unfoldable pub Shrinks : Manager → Manager → Type 0
Shrinks n m =
    (id : SessionId) (p : ℕ)
    → lookup SessionId-discrete id n.sessions ≡ some p
    → lookup SessionId-discrete id m.sessions ≡ some p

remove-Shrinks : (i : SessionId) (m : Manager) → Shrinks (remove i m) m
unfolding Shrinks drop_session
remove-Shrinks i m id q x = elim (Option-cases (lookup SessionId-discrete i m.sessions)) [
  | inl e ↦ ap (λ n. lookup SessionId-discrete id n.sessions) (sym (remove-none i m e)) ∙ x
  | inr (p, e) ↦
      (let y = ap (λ n. lookup SessionId-discrete id n.sessions) (sym (remove-some i p m e)) ∙ x in
        elim (SessionId-discrete i id) [
          | yes z ↦ absurd (
              none_ne_some (
                sym (delete_here i m.sessions)
                ∙ ap (λ j. lookup SessionId-discrete j (delete SessionId-discrete i m.sessions)) z
                ∙ y))
          | no n ↦ sym (delete_away i id m.sessions n) ∙ y
        ])
]

remove-gone :
    (i : SessionId) (m : Manager) → lookup SessionId-discrete i (remove i m).sessions ≡ none
unfolding drop_session
remove-gone i m = elim (Option-cases (lookup SessionId-discrete i m.sessions)) [
  | inl e ↦ ap (λ n. lookup SessionId-discrete i n.sessions) (remove-none i m e) ∙ e
  | inr (p, e) ↦
      ap (λ n. lookup SessionId-discrete i n.sessions) (remove-some i p m e)
      ∙ delete_here i m.sessions
]

remove-heap : (i : SessionId) (m : Manager) → (remove i m).heap ≡ m.heap
unfolding drop_session
remove-heap i m = elim (Option-cases (lookup SessionId-discrete i m.sessions)) [
  | inl e ↦ ap (λ n. n.heap) (remove-none i m e)
  | inr (p, e) ↦ ap (λ n. n.heap) (remove-some i p m e)
]

call-heap : (c : Callback) (p : ℕ) (m : Manager) → (call c p m).heap ≡ m.heap
unfolding call
call-heap unset p m = refl
call-heap (application n) p m = refl
call-heap (removing c) p m = call-heap c p (remove (m.heap p).id m) ∙ remove-heap (m.heap p).id m

call-Shrinks : (c : Callback) (p : ℕ) (m : Manager) → Shrinks (call c p m) m
unfolding call Shrinks
call-Shrinks unset p m id q x = x
call-Shrinks (application n) p m id q x = x
call-Shrinks (removing c) p m id q x =
    remove-Shrinks (m.heap p).id m id q (call-Shrinks c p (remove (m.heap p).id m) id q x)

-- What is gone stays gone.
still_gone :
    (n m : Manager) (id : SessionId)
    → Shrinks n m
    → lookup SessionId-discrete id m.sessions ≡ none
    → lookup SessionId-discrete id n.sessions ≡ none
unfolding Shrinks
still_gone n m id s e = elim (Option-cases (lookup SessionId-discrete id n.sessions)) [
  | inl x ↦ x
  | inr (p, x) ↦ absurd (none_ne_some (sym e ∙ s id p x))
]

call-gone :
    (c : Callback) (p : ℕ) (m : Manager)
    → lookup SessionId-discrete (m.heap p).id (call (removing c) p m).sessions ≡ none
unfolding call
call-gone c p m =
    let r = remove (m.heap p).id m in
    still_gone (call c p r) r (m.heap p).id (call-Shrinks c p r) (remove-gone (m.heap p).id m)

-- `Terminate` before it calls back.
abbrev pub disconnect : ℕ → Manager → Manager
disconnect p m = store p (record (m.heap p) { state = disconnected; timer = false }) m

pub stored : (p : ℕ) (s : Session) (m : Manager) → (store p s m).heap p ≡ s
stored p s m = if_pos (ℕ_discrete p p) refl s (m.heap p)

pub terminate-Shrinks : (p : ℕ) (m : Manager) → Shrinks (terminate p m) m
unfolding terminate Shrinks
terminate-Shrinks p m = call-Shrinks (m.heap p).on_terminate p (disconnect p m)

pub terminate-heap : (p : ℕ) (m : Manager) → (terminate p m).heap ≡ (disconnect p m).heap
unfolding terminate
terminate-heap p m = call-heap (m.heap p).on_terminate p (disconnect p m)

pub terminate-gone :
    (p : ℕ) (m : Manager) (c : Callback)
    → (m.heap p).on_terminate ≡ removing c
    → lookup SessionId-discrete (m.heap p).id (terminate p m).sessions ≡ none
unfolding terminate
terminate-gone p m c e =
    let d = disconnect p m in
    ap (λ (f : Callback). lookup SessionId-discrete (m.heap p).id (call f p d).sessions) e
    ∙ ap (λ i. lookup SessionId-discrete i (call (removing c) p d).sessions)
        (sym (ap (λ (s : Session). s.id) (stored p _ m)))
    ∙ call-gone c p d
