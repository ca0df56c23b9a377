-- ===== src/Sessions/Indexed.antt =====
-- The two indices of the session manager agree.
use godiam.Prelude.{
  ℕ, ◌≡◌, ◌≢◌, refl, ap, ◌∙◌, ◌⊎◌, inl, inr, List, Option, none, some, ite, if_pos, if_neg,
  ℕ_discrete, arith, Option-cases,
}
use godiam.Prelude.Assoc.{lookup, insert, delete, lookup-insert, lookup-delete}
use godiam.Sessions.{
  SessionId, SessionId-discrete, Notice, Session, Manager, store, or_empty, index, unindex,
}

-- The session that an application has under an ID.
unfoldable pub in_app : ℕ → SessionId → List (ℕ × List (SessionId × ℕ)) → Option ℕ
in_app a id m = lookup SessionId-discrete id (or_empty (lookup ℕ_discrete a m))

pub record Indexed (m : Manager) : Type 0 where
  pub sound :
      (id : SessionId) (p : ℕ)
      → lookup SessionId-discrete id m.sessions ≡ some p
      → ((m.heap p).id ≡ id) × (in_app (m.heap p).app_id id m.by_app_id ≡ some p)
  pub complete :
      (a : ℕ) (id : SessionId) (p : ℕ)
      → in_app a id m.by_app_id ≡ some p
      → (lookup SessionId-discrete id m.sessions ≡ some p) × ((m.heap p).app_id ≡ a)

in_app-index :
    (a b : ℕ) (i j : SessionId) (p : ℕ) (m : List (ℕ × List (SessionId × ℕ)))
    → in_app b j (index i a p m)
      ≡ ite (ℕ_discrete a b) (ite (SessionId-discrete i j) (some p) (in_app b j m)) (in_app b j m)
unfolding in_app
in_app-index a b i j p m =
    let l = or_empty (lookup ℕ_discrete a m) in
    ground (
      arith,
      lookup-insert ℕ_discrete a b (insert SessionId-discrete i p l) m,
      lookup-insert SessionId-discrete i j p l,
    )

in_app-unindex :
    (a b : ℕ) (i j : SessionId) (m : List (ℕ × List (SessionId × ℕ)))
    → in_app b j (unindex i a m)
      ≡ ite (ℕ_discrete a b) (ite (SessionId-discrete i j) none (in_app b j m)) (in_app b j m)
unfolding in_app lookup
in_app-unindex a b i j m = elim (Option-cases (lookup ℕ_discrete a m)) [
  | inl e ↦ ground (arith, e)
  | inr (l, e) ↦ ground (
    arith,
    e,
    lookup-insert ℕ_discrete a b (delete SessionId-discrete i l) m,
    lookup-delete SessionId-discrete i j l,
  )
]

-- A heap in which sessions keep their IDs and applications.
unfoldable pub SameKeys : (ℕ → Session) → (ℕ → Session) → Type 0
SameKeys h k = (p : ℕ) → ((h p).id ≡ (k p).id) × ((h p).app_id ≡ (k p).app_id)

pub stored-SameKeys :
    (p : ℕ) (s : Session) (m : Manager)
    → s.id ≡ (m.heap p).id
    → s.app_id ≡ (m.heap p).app_id
    → SameKeys (store p s m).heap m.heap
unfolding SameKeys
stored-SameKeys p s m e f q = elim (ℕ_discrete p q) [
  | yes x ↦
      (let at = if_pos (ℕ_discrete p q) x s (m.heap q) in
        (
          ap (λ (y : Session). y.id) at ∙ e ∙ ap (λ y. (m.heap y).id) x,
          ap (λ (y : Session). y.app_id) at ∙ f ∙ ap (λ y. (m.heap y).app_id) x,
        ))
  | no n ↦
      (let at = if_neg (ℕ_discrete p q) n s (m.heap q) in
        (ap (λ (y : Session). y.id) at, ap (λ (y : Session). y.app_id) at))
]

pub heap-Indexed :
    (m : Manager) (h : ℕ → Session)
    → SameKeys h m.heap
    → Indexed m
    → Indexed (record m { heap = h })
unfolding SameKeys
heap-Indexed m h k i = record {
  sound = λ id p e. (
    (k p).0 ∙ (i.sound id p e).0,
    ap (λ a. in_app a id m.by_app_id) (k p).1 ∙ (i.sound id p e).1,
  );
  complete = λ a id p e. ((i.complete a id p e).0, (k p).1 ∙ (i.complete a id p e).1);
}

pub store-Indexed :
    (p : ℕ) (s : Session) (m : Manager)
    → s.id ≡ (m.heap p).id
    → s.app_id ≡ (m.heap p).app_id
    → Indexed m
    → Indexed (store p s m)
store-Indexed p s m e f h = heap-Indexed m (store p s m).heap (stored-SameKeys p s m e f) h

-- The log is no part of the indices.
pub log-Indexed : (m : Manager) (l : List Notice) → Indexed m → Indexed (record m { log = l })
log-Indexed m l h = record { sound = h.sound; complete = h.complete }

pub none_ne_some : {A : Type 0} {a : A} → none ≢ some a
none_ne_some h = absurd (ground arith)

ite_same : {A P : Type 0} (d : Dec P) (a : A) → ite d a a ≡ a
ite_same (yes p) a = refl
ite_same (no n) a = refl

pub some_inj : {A : Type 0} {a b : A} → some a ≡ some b → a ≡ b
some_inj h = cc

-- One entry of an index or a map after an update.
pub index_here :
    (a : ℕ) (i : SessionId) (p : ℕ) (m : List (ℕ × List (SessionId × ℕ)))
    → in_app a i (index i a p m) ≡ some p
index_here a i p m =
    in_app-index a a i i p m
    ∙ if_pos (ℕ_discrete a a) refl _ _
    ∙ if_pos (SessionId-discrete i i) refl _ _

pub index_away :
    (a b : ℕ) (i j : SessionId) (p : ℕ) (m : List (ℕ × List (SessionId × ℕ)))
    → (a ≢ b) ⊎ (i ≢ j)
    → in_app b j (index i a p m) ≡ in_app b j m
index_away a b i j p m (inl n) = in_app-index a b i j p m ∙ if_neg (ℕ_discrete a b) n _ _
index_away a b i j p m (inr n) =
    in_app-index a b i j p m
    ∙ ap (λ x. ite (ℕ_discrete a b) x (in_app b j m)) (if_neg (SessionId-discrete i j) n _ _)
    ∙ ite_same (ℕ_discrete a b) (in_app b j m)

pub unindex_here :
    (a : ℕ) (i : SessionId) (m : List (ℕ × List (SessionId × ℕ)))
    → in_app a i (unindex i a m) ≡ none
unindex_here a i m =
    in_app-unindex a a i i m
    ∙ if_pos (ℕ_discrete a a) refl _ _
    ∙ if_pos (SessionId-discrete i i) refl _ _

pub unindex_away :
    (a b : ℕ) (i j : SessionId) (m : List (ℕ × List (SessionId × ℕ)))
    → (a ≢ b) ⊎ (i ≢ j)
    → in_app b j (unindex i a m) ≡ in_app b j m
unindex_away a b i j m (inl n) = in_app-unindex a b i j m ∙ if_neg (ℕ_discrete a b) n _ _
unindex_away a b i j m (inr n) =
    in_app-unindex a b i j m
    ∙ ap (λ x. ite (ℕ_discrete a b) x (in_app b j m)) (if_neg (SessionId-discrete i j) n _ _)
    ∙ ite_same (ℕ_discrete a b) (in_app b j m)

pub insert_here :
    (i : SessionId) (p : ℕ) (l : List (SessionId × ℕ))
    → lookup SessionId-discrete i (insert SessionId-discrete i p l) ≡ some p
insert_here i p l =
    lookup-insert SessionId-discrete i i p l ∙ if_pos (SessionId-discrete i i) refl _ _

pub insert_away :
    (i j : SessionId) (p : ℕ) (l : List (SessionId × ℕ))
    → i ≢ j
    → lookup SessionId-discrete j (insert SessionId-discrete i p l) ≡ lookup SessionId-discrete j l
insert_away i j p l n =
    lookup-insert SessionId-discrete i j p l ∙ if_neg (SessionId-discrete i j) n _ _

pub delete_here :
    (i : SessionId) (l : List (SessionId × ℕ))
    → lookup SessionId-discrete i (delete SessionId-discrete i l) ≡ none
delete_here i l = lookup-delete SessionId-discrete i i l ∙ if_pos (SessionId-discrete i i) refl _ _

pub delete_away :
    (i j : SessionId) (l : List (SessionId × ℕ))
    → i ≢ j
    → lookup SessionId-discrete j (delete SessionId-discrete i l) ≡ lookup SessionId-discrete j l
delete_away i j l n = lookup-delete SessionId-discrete i j l ∙ if_neg (SessionId-discrete i j) n _ _
