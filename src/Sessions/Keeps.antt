-- ===== src/Sessions/Keeps.antt =====
-- Every operation of the session manager keeps its two indices in agreement.
use godiam.Prelude.{
  ℕ, ◌≡◌, ◌≢◌, refl, sym, ap, subst, ◌∙◌, inl, inr, Bool, true, false, List, [], ◌∷◌, none, some,
  ℕ_discrete, arith, Option-cases, ltb, if◌then◌else◌,
}
use godiam.Prelude.Assoc.{lookup, insert, delete}
use godiam.Sessions.{
  SessionId, SessionId-discrete, Callback, unset, application, removing, created, Session, Manager,
  store, refresh_timeout, index, unindex, add_session, register, drop_session, remove, call,
  terminate, terminate_all,
}
use godiam.Sessions.Indexed.{
  in_app, Indexed, none_ne_some, some_inj, index_here, index_away, unindex_here, unindex_away,
  insert_here, insert_away, delete_here, delete_away, heap-Indexed, log-Indexed, store-Indexed,
  stored-SameKeys,
}

added_sound :
    (p : ℕ) (m : Manager) (id : SessionId) (q : ℕ)
    → (m.heap p).id ≡ id
    → lookup SessionId-discrete id (insert SessionId-discrete (m.heap p).id p m.sessions) ≡ some q
    → ((m.heap q).id ≡ id)
      × (in_app (m.heap q).app_id id (index (m.heap p).id (m.heap p).app_id p m.by_app_id) ≡ some q)
added_sound p m id q y x =
    let i = (m.heap p).id in
    let idx = index i (m.heap p).app_id p m.by_app_id in
    let same : p ≡ q = some_inj (
      sym (insert_here i p m.sessions)
      ∙ ap (λ z. lookup SessionId-discrete z (insert SessionId-discrete i p m.sessions)) y
      ∙ x) in
    (
      ap (λ z. (m.heap z).id) (sym same) ∙ y,
      ap (λ z. in_app (m.heap z).app_id id idx) (sym same)
          ∙ ap (λ z. in_app (m.heap p).app_id z idx) (sym y)
          ∙ index_here (m.heap p).app_id i p m.by_app_id
          ∙ ap some same,
    )

added_complete :
    (p : ℕ) (m : Manager) (a : ℕ) (id : SessionId) (q : ℕ)
    → lookup SessionId-discrete (m.heap p).id m.sessions ≡ none
    → Indexed m
    → (m.heap p).id ≡ id
    → in_app a id (index (m.heap p).id (m.heap p).app_id p m.by_app_id) ≡ some q
    → (lookup SessionId-discrete id (insert SessionId-discrete (m.heap p).id p m.sessions) ≡ some q)
      × ((m.heap q).app_id ≡ a)
added_complete p m a id q free h y x =
    let i = (m.heap p).id in
    let idx = index i (m.heap p).app_id p m.by_app_id in
    elim (ℕ_discrete (m.heap p).app_id a) [
      | yes z ↦
          (let same : p ≡ q = some_inj (
              sym (index_here (m.heap p).app_id i p m.by_app_id)
              ∙ ap (λ b. in_app b i idx) z
              ∙ ap (λ j. in_app a j idx) y
              ∙ x) in
            (
              ap (λ j. lookup SessionId-discrete j (insert SessionId-discrete i p m.sessions))
                    (sym y)
                  ∙ insert_here i p m.sessions
                  ∙ ap some same,
              ap (λ r. (m.heap r).app_id) (sym same) ∙ z,
            ))
      | no n ↦
          (let old =
              h.complete a id q
                (sym (index_away (m.heap p).app_id a i id p m.by_app_id (inl n)) ∙ x) in
            absurd (
              none_ne_some (sym free ∙ ap (λ j. lookup SessionId-discrete j m.sessions) y ∙ old.0)))
    ]

-- The manager after the indices got a session.
unfoldable with_session : ℕ → Manager → Manager
with_session p m = record m {
  sessions = insert SessionId-discrete (m.heap p).id p m.sessions;
  by_app_id = index (m.heap p).id (m.heap p).app_id p m.by_app_id;
}

with_session-Indexed :
    (p : ℕ) (m : Manager)
    → lookup SessionId-discrete (m.heap p).id m.sessions ≡ none
    → Indexed m
    → Indexed (with_session p m)
unfolding with_session
with_session-Indexed p m free h = record {
  sound = λ id q x. elim (SessionId-discrete (m.heap p).id id) [
    | yes y ↦ added_sound p m id q y x
    | no n ↦
        (let old = h.sound id q (sym (insert_away (m.heap p).id id p m.sessions n) ∙ x) in
          (
            old.0,
            index_away (m.heap p).app_id (m.heap q).app_id (m.heap p).id id p m.by_app_id (inr n)
                ∙ old.1,
          ))
  ];
  complete = λ a id q x. elim (SessionId-discrete (m.heap p).id id) [
    | yes y ↦ added_complete p m a id q free h y x
    | no n ↦
        (let old =
            h.complete a id q
              (sym (index_away (m.heap p).app_id a (m.heap p).id id p m.by_app_id (inr n)) ∙ x) in
          (insert_away (m.heap p).id id p m.sessions n ∙ old.0, old.1))
  ];
}

dropped_complete :
    (i : SessionId) (p : ℕ) (m : Manager) (a : ℕ) (id : SessionId) (q : ℕ)
    → lookup SessionId-discrete i m.sessions ≡ some p
    → Indexed m
    → i ≡ id
    → in_app a id (unindex i (m.heap p).app_id m.by_app_id) ≢ some q
dropped_complete i p m a id q e h y x =
    let idx = unindex i (m.heap p).app_id m.by_app_id in
    elim (ℕ_discrete (m.heap p).app_id a) [
      | yes z ↦ none_ne_some (
          sym (unindex_here (m.heap p).app_id i m.by_app_id)
          ∙ ap (λ b. in_app b i idx) z
          ∙ ap (λ j. in_app a j idx) y
          ∙ x)
      | no n ↦
          (let old =
              h.complete a id q
                (sym (unindex_away (m.heap p).app_id a i id m.by_app_id (inl n)) ∙ x) in
            n (
              ap (λ r. (m.heap r).app_id)
                (some_inj (sym e ∙ ap (λ j. lookup SessionId-discrete j m.sessions) y ∙ old.0))
              ∙ old.1))
    ]

drop_session-Indexed :
    (i : SessionId) (p : ℕ) (m : Manager)
    → lookup SessionId-discrete i m.sessions ≡ some p
    → Indexed m
    → Indexed (drop_session i p m)
unfolding drop_session
drop_session-Indexed i p m e h = record {
  sound = λ id q x. elim (SessionId-discrete i id) [
    | yes y ↦ absurd (
        none_ne_some (
          sym (delete_here i m.sessions)
          ∙ ap (λ j. lookup SessionId-discrete j (delete SessionId-discrete i m.sessions)) y
          ∙ x))
    | no n ↦
        (let old = h.sound id q (sym (delete_away i id m.sessions n) ∙ x) in
          (
            old.0,
            unindex_away (m.heap p).app_id (m.heap q).app_id i id m.by_app_id (inr n) ∙ old.1,
          ))
  ];
  complete = λ a id q x. elim (SessionId-discrete i id) [
    | yes y ↦ absurd (dropped_complete i p m a id q e h y x)
    | no n ↦
        (let old =
            h.complete a id q
              (sym (unindex_away (m.heap p).app_id a i id m.by_app_id (inr n)) ∙ x) in
          (delete_away i id m.sessions n ∙ old.0, old.1))
  ];
}

either-Indexed : (b : Bool) (m n : Manager) → Indexed m → Indexed n → Indexed (if b then m else n)
either-Indexed true m n h k = h
either-Indexed false m n h k = k

pub add_session-Indexed :
    (p : ℕ) (m : Manager)
    → lookup SessionId-discrete (m.heap p).id m.sessions ≡ none
    → Indexed m
    → Indexed (add_session p m)
unfolding add_session with_session
add_session-Indexed p m e h =
    let s = m.heap p in
    let t : Session = record s { on_terminate = removing s.on_terminate } in
    log-Indexed _ (created p ∷ m.log) (
      heap-Indexed (with_session p m) (store p t m).heap (stored-SameKeys p t m refl refl)
        (with_session-Indexed p m e h))

register-some :
    (p q : ℕ) (m : Manager)
    → lookup SessionId-discrete (m.heap p).id m.sessions ≡ some q
    → register p m ≡ (m, false)
unfolding register
register-some p q m e = ground arith

register-none :
    (p : ℕ) (m : Manager)
    → lookup SessionId-discrete (m.heap p).id m.sessions ≡ none
    → register p m ≡ (add_session p m, true)
unfolding register
register-none p m e = ground arith

pub register-Indexed : (p : ℕ) (m : Manager) → Indexed m → Indexed (register p m).0
register-Indexed p m h = elim (Option-cases (lookup SessionId-discrete (m.heap p).id m.sessions)) [
  | inl e ↦
      subst (λ (x : Manager × Bool). Indexed x.0) (sym (register-none p m e))
        (add_session-Indexed p m e h)
  | inr (q, e) ↦ subst (λ (x : Manager × Bool). Indexed x.0) (sym (register-some p q m e)) h
]

pub remove-some :
    (i : SessionId) (p : ℕ) (m : Manager)
    → lookup SessionId-discrete i m.sessions ≡ some p
    → remove i m ≡ drop_session i p m
unfolding remove
remove-some i p m e = ground arith

pub remove-none :
    (i : SessionId) (m : Manager) → lookup SessionId-discrete i m.sessions ≡ none → remove i m ≡ m
unfolding remove
remove-none i m e = ground arith

pub remove-Indexed : (i : SessionId) (m : Manager) → Indexed m → Indexed (remove i m)
remove-Indexed i m h = elim (Option-cases (lookup SessionId-discrete i m.sessions)) [
  | inl e ↦ subst (λ x. Indexed x) (sym (remove-none i m e)) h
  | inr (p, e) ↦ subst (λ x. Indexed x) (sym (remove-some i p m e)) (drop_session-Indexed i p m e h)
]

call-Indexed : (c : Callback) (p : ℕ) (m : Manager) → Indexed m → Indexed (call c p m)
unfolding call
call-Indexed unset p m h = h
call-Indexed (application n) p m h = log-Indexed m _ h
call-Indexed (removing c) p m h =
    call-Indexed c p (remove (m.heap p).id m) (remove-Indexed (m.heap p).id m h)

pub terminate-Indexed : (p : ℕ) (m : Manager) → Indexed m → Indexed (terminate p m)
unfolding terminate
terminate-Indexed p m h = call-Indexed (m.heap p).on_terminate p _ (store-Indexed p _ m refl refl h)

pub terminate_all-Indexed : (l : List ℕ) (m : Manager) → Indexed m → Indexed (terminate_all l m)
unfolding terminate_all
terminate_all-Indexed [] m h = h
terminate_all-Indexed (p ∷ l) m h =
    terminate_all-Indexed l (terminate p m) (terminate-Indexed p m h)

pub refresh_timeout-Indexed :
    (now p : ℕ) (m : Manager) → Indexed m → Indexed (refresh_timeout now p m)
unfolding refresh_timeout
refresh_timeout-Indexed now p m h =
    either-Indexed (ltb 0 (m.heap p).timeout) _ m (store-Indexed p _ m refl refl h) h
