-- ===== src/Routing/RelayEnds.antt =====
-- The relay's loop returns: each round that does not return excludes another candidate.
use godiam.Prelude.{
  ℕ, zero, suc, ◌+◌, ◌%◌, ◌^◌, ◌≤◌, ◌<◌, ◌≡◌, refl, sym, subst, ◌∙◌, ◌⊎◌, inl, inr, true, false,
  not, List, [], ◌∷◌, Option, none, some, arith, bytes_eq, keep, length, option_both, All,
  bytes_eq_refl,
}
use mathlib.Core.List.{Memᴰ}
use mathlib.Core.List.Memᴰ
use godiam.Message.{Message}
use godiam.Routing.{
  Name, Route, Error, OutOutcome, offered, refused, RelayKey, Target, full, sender, useless,
  OutHandlerEntry, Outside, Router,
}
use godiam.Routing.Candidates.{has}
use godiam.Routing.Choice.{Choice, chosen, unroutable, route_out_with_exclusion, candidates_for}
use godiam.Prelude.Sorting.{All_mem}
use godiam.Routing.Proxy.{Done}
use godiam.Routing.Chosen.{IsBest, route_out-IsBest}
use godiam.Routing.Relay.{
  Relaying, Round, finished, again, store_txn, forward, set_hbh, undo, try_target, via_peer,
  via_sender, relay_peer_identity, round, relay,
}

-- The names of the pool that are not excluded.
abbrev pub open_of : List Name → List Name → ℕ
open_of pool exclude = length (keep (λ x. not (has exclude x)) pool)

open_of_le :
    (pool exclude : List Name) (name : Name) → open_of pool (name ∷ exclude) ≤ open_of pool exclude
unfolding has
open_of_le [] exclude name = omega arith
open_of_le (x ∷ pool) exclude name = ground (arith, open_of_le pool exclude name)

-- Excluding a name of the pool that was not excluded leaves fewer.
pub open_of_lt :
    (pool exclude : List Name) (name : Name)
    → Memᴰ name pool
    → has exclude name ≡ false
    → open_of pool (name ∷ exclude) < open_of pool exclude
unfolding has
open_of_lt [] exclude name m h = absurd (Memᴰ.not-nil m)
open_of_lt (x ∷ pool) exclude name m h = elim (Memᴰ.cases_cons m) [
  | inl e ↦ ground (
    arith,
    open_of_le pool exclude name,
    subst (λ z. bytes_eq name z ≡ true) e (bytes_eq_refl name),
    subst (λ z. has exclude z ≡ false) e h,
  )
  | inr k ↦ ground (arith, open_of_lt pool exclude name k h)
]

-- A property of the state with which a round goes on, if it does.
abbrev pub OnAgain : {W P S : Type 0} → (Relaying W P S → Type 0) → Round W P S → Type 0
OnAgain C (finished d) = Unit
OnAgain C (again st) = C st

OnAgain-map :
    {W P S : Type 0} (C D : Relaying W P S → Type 0)
    → ((st : Relaying W P S) → C st → D st)
    → (r : Round W P S) → OnAgain C r
    → OnAgain D r
OnAgain-map C D f (finished d) h = tt
OnAgain-map C D f (again st) h = f st h

pub choice_both :
    {X : Type 0} (C : X → Type 0) (c : Choice) (x : Error → X) (f : Name → X)
    → ((e : Error) → C (x e))
    → ((n : Name) → c ≡ chosen n → C (f n))
    → C (elim c [ unroutable e ↦ x e | chosen n ↦ f n ])
choice_both C (unroutable e) x f p q = p e
choice_both C (chosen n) x f p q = q n refl

out_cases :
    (c : OutOutcome) → ((e : Error) × (c ≡ refused e)) ⊎ ((l : List Route) × (c ≡ offered l))
out_cases (refused e) = inl (e, refl)
out_cases (offered l) = inr (l, refl)

refused_chosen :
    {W P S : Type 0} (o : Outside W P S) (r : Router W P S) (exclude : List Name) (w : W)
    (m : Message) (n : Name) (e : Error)
    → (candidates_for o r w m).2 ≡ refused e
    → ¬ ((route_out_with_exclusion o r exclude w m).2 ≡ chosen n)
unfolding route_out_with_exclusion
refused_chosen o r exclude w m n e h k = ground arith

module _ {W P S : Type 0} (o : Outside W P S) (p : Option P) where
  -- One more name is excluded, and the outgoing handlers are the same.
  abbrev Excludes : Name → Relaying W P S → Relaying W P S → Type 0
  Excludes n st st' =
      (st'.exclude ≡ n ∷ st.exclude) × (st'.router.out_handlers ≡ st.router.out_handlers)

  store_txn-out_handlers :
      (q : Option P) (key : RelayKey) (n : Name) (m : Message) (w : W) (r : Router W P S)
      → (store_txn o q key n m w r).out_handlers ≡ r.out_handlers
  unfolding store_txn
  store_txn-out_handlers none key n m w r = refl
  store_txn-out_handlers (some q) key n m w r = refl

  forward-Excludes :
      (key : RelayKey) (n : Name) (send : W → Message → W × Message × Option Error)
      (st : Relaying W P S)
      → OnAgain (Excludes n st) (forward o p key n send st)
  unfolding forward
  forward-Excludes key n send st =
      let r = store_txn o p key n st.message st.world st.router in
      let out = send st.world (set_hbh key.1 st.message) in
      option_both (OnAgain (Excludes n st)) out.2 _ (λ e. again (undo key n st r out.0 out.1)) tt
        (λ e. (refl, store_txn-out_handlers p key n st.message st.world st.router))

  try_target-Excludes :
      (n : Name) (t : Option (Target P S)) (st : Relaying W P S)
      → OnAgain (Excludes n st) (try_target o p n t st)
  unfolding try_target via_peer via_sender
  try_target-Excludes n none st = (refl, refl)
  try_target-Excludes n (some useless) st = (refl, refl)
  try_target-Excludes n (some (full q)) st =
      let minted = o.next_hop_by_hop_id st.world q in
      forward-Excludes (relay_peer_identity o minted.0 q, minted.1) n (λ w m. o.send w q m)
        (record st { world = minted.0 })
  try_target-Excludes n (some (sender s)) st =
      let id = (st.router.next_hbh + 1) % 2 ^ 32 in
      forward-Excludes (n, id) n (λ w m. o.send_to w s m)
        (record st { router = record st.router { next_hbh = id } })

  abbrev IsNext : Relaying W P S → Relaying W P S → Type 0
  IsNext st st' =
      (n : Name) × Excludes n st st'
      × ((route_out_with_exclusion o st.router st.exclude st.world st.message).2 ≡ chosen n)

  -- The name that a round excludes is the one that was chosen.
  round-Excludes : (st : Relaying W P S) → OnAgain (IsNext st) (round o p st)
  unfolding round
  round-Excludes st =
      let out = route_out_with_exclusion o st.router st.exclude st.world st.message in
      choice_both (OnAgain (IsNext st)) out.2 _ _ (λ e. tt)
        (λ n c. option_both (OnAgain (IsNext st)) st.router.peer_lookup _ _ tt (λ find.
          OnAgain-map (Excludes n st) (IsNext st) (λ st' x. (n, x, c))
            (try_target o p n (find out.0 n) (record st { world = out.0; message = out.1 }))
            (try_target-Excludes n (find out.0 n) (record st { world = out.0; message = out.1 }))))

  -- A name that is chosen is one of the candidates and was not excluded.
  chosen_offer :
      (r : Router W P S) (exclude : List Name) (w : W) (m : Message) (n : Name)
      → (route_out_with_exclusion o r exclude w m).2 ≡ chosen n
      → (l : List Route) × ((candidates_for o r w m).2 ≡ offered l)
        × (c : Route) × Memᴰ c l
        × (c.peer_identity ≡ n)
        × (has exclude n ≡ false)
  unfolding IsBest
  chosen_offer r exclude w m n e = elim (out_cases (candidates_for o r w m).2) [
    | inl q ↦ absurd (refused_chosen o r exclude w m n q.0 q.1 e)
    | inr q ↦
        let b = subst (IsBest exclude q.0) e (route_out-IsBest o r exclude w m q.0 q.1) in
        (q.0, q.1, b.0, b.1, b.2, b.3)
  ]

round_returns :
    {W P S : Type 0} (C : Relaying W P S → Type 0) (f : Relaying W P S → Option (Done W P S))
    (rd : Round W P S)
    → OnAgain C rd
    → ((st : Relaying W P S) → C st → (d : Done W P S) × (f st ≡ some d))
    → (d : Done W P S) × (elim rd [ finished d ↦ some d | again st ↦ f st ] ≡ some d)
round_returns C f (finished d) h k = (d, refl)
round_returns C f (again st) h k = k st h

module _ {W P S : Type 0} (o : Outside W P S) (p : Option P) (handlers : List (OutHandlerEntry W))
    (pool : List Name)
    (offers : (r : Router W P S) (w : W) (m : Message) (l : List Route)
      → r.out_handlers ≡ handlers
      → (candidates_for o r w m).2 ≡ offered l
      → All (λ c. Memᴰ c.peer_identity pool) l) where
  pub relay_ends :
      (fuel : ℕ) (st : Relaying W P S)
      → st.router.out_handlers ≡ handlers
      → open_of pool st.exclude < fuel
      → (d : Done W P S) × (relay o fuel p st ≡ some d)
  unfolding relay
  relay_ends zero st h b = absurd (omega arith)
  relay_ends (suc fuel) st h b =
      round_returns (IsNext o p st) (relay o fuel p) (round o p st) (round-Excludes o p st)
        (λ st' x.
          let c = chosen_offer o p st.router st.exclude st.world st.message x.0 x.2 in
          let inside =
            subst (λ n. Memᴰ n pool) c.4
              (All_mem (λ c. Memᴰ c.peer_identity pool) c.0
                (offers st.router st.world st.message c.0 h c.1) c.3) in
          relay_ends fuel st' (x.1.1 ∙ h)
            (fewer st' x.0 x.1.0 (open_of_lt pool st.exclude x.0 inside c.5)))
    where
      fewer :
          (st' : Relaying W P S) (n : Name)
          → st'.exclude ≡ n ∷ st.exclude
          → open_of pool (n ∷ st.exclude) < open_of pool st.exclude
          → open_of pool st'.exclude < fuel
      fewer st' n e q = subst (λ x. open_of pool x < fuel) (sym e) (omega arith)
