-- ===== src/Bindings/Lookups.antt =====
-- What `Get` finds after the other operations.
use godiam.Prelude.{
  ℕ, ◌+◌, ◌≤◌, ◌≡◌, refl, sym, ap, ◌∙◌, inl, inr, true, List, [], ◌∷◌, Option, none, some, ite,
  if_pos, ltb, arith, if◌then◌else◌, length, bytes_eq, Option-cases,
}
use godiam.Prelude.Assoc.{lookup, lookup-insert}
use godiam.Prelude.Distinct.{unless, delete_where, lookup-delete_where}
use godiam.Bindings.{
  Key, Key-discrete, Binding, Store, is_expired, get, set, remove_by_peer, cleanup, count_expired,
  len, put, is_full,
}
use godiam.Bindings.Keeps.{IsStore, bound_to, set_old, set_new}

-- What `Get` makes of an entry.
abbrev answer : ℕ → Option Binding → Option (List ℕ)
answer now none = none
answer now (some b) = if is_expired now b then none else some b.peer_identity

get-answer :
    (now : ℕ) (key : Key) (s : Store)
    → (get now key s).1 ≡ answer now (lookup Key-discrete key s.bindings)
unfolding get
get-answer now key s = ground arith

put-lookup :
    (key j : Key) (b : Binding) (s : Store)
    → lookup Key-discrete j (put key b s).bindings
      ≡ ite (Key-discrete key j) (some b) (lookup Key-discrete j s.bindings)
put-lookup key j b s = lookup-insert Key-discrete key j b s.bindings

put-answer :
    (later : ℕ) (key : Key) (b : Binding) (s : Store)
    → (get later key (put key b s)).1 ≡ answer later (some b)
put-answer later key b s =
    get-answer later key (put key b s)
    ∙ ap (answer later) (put-lookup key key b s ∙ if_pos (Key-discrete key key) refl _ _)

-- After `Set`, whether the key was bound before or not and whether the store was full, `Get` finds
-- the peer up to the time to live after it, and nothing later.
pub get-set :
    (now later : ℕ) (key : Key) (peer : List ℕ) (s : Store)
    → (get later key (set now key peer s)).1 ≡ (if ltb (now + s.ttl) later then none else some peer)
get-set now later key peer s = elim (Option-cases (lookup Key-discrete key s.bindings)) [
  | inl e ↦
      ap (λ x. (get later key x).1) (set_new now key peer s e)
      ∙ put-answer later key (bound_to now peer s) _
  | inr (c, e) ↦
      ap (λ x. (get later key x).1) (set_old now key peer s c e) ∙ put-answer later key _ s
]

-- An entry of a full store that nothing is older than.
abbrev pub IsVictim : Key → Store → Type 0
IsVictim j s =
    (b : Binding) × (lookup Key-discrete j s.bindings ≡ some b)
    × (is_full s ≡ true)
    × ((i : Key) (c : Binding)
        → lookup Key-discrete i s.bindings ≡ some c
        → b.last_used ≤ c.last_used)

answer-unless :
    (now later : ℕ) (o : Option Binding)
    → now ≤ later
    → answer later (unless (is_expired now) o) ≡ answer later o
answer-unless now later none le = refl
answer-unless now later (some b) le = ground arith

answer_of_peer :
    (later : ℕ) (peer : List ℕ) (o : Option Binding)
    → answer later (unless (λ (b : Binding). bytes_eq b.peer_identity peer) o)
      ≡ unless (λ bound. bytes_eq bound peer) (answer later o)
answer_of_peer later peer none = refl
answer_of_peer later peer (some b) = ground arith

-- `Cleanup` on a store with distinct keys is invisible: from then on, `Get` answers every key as it
-- would have without.
pub get-cleanup :
    (now later : ℕ) (key : Key) (s : Store)
    → IsStore s
    → now ≤ later
    → (get later key (cleanup now s).0).1 ≡ (get later key s).1
unfolding cleanup
get-cleanup now later key s h le =
    get-answer later key (cleanup now s).0
    ∙ ap (answer later)
        (lookup-delete_where Key-discrete (is_expired now) key s.bindings h.distinct)
    ∙ answer-unless now later (lookup Key-discrete key s.bindings) le
    ∙ sym (get-answer later key s)

-- `RemoveByPeer` on a store with distinct keys unbinds the keys of that peer, at any time, and no
-- other.
pub get-remove_by_peer :
    (later : ℕ) (key : Key) (peer : List ℕ) (s : Store)
    → IsStore s
    → (get later key (remove_by_peer peer s)).1
      ≡ unless (λ bound. bytes_eq bound peer) (get later key s).1
unfolding remove_by_peer
get-remove_by_peer later key peer s h =
    get-answer later key (remove_by_peer peer s)
    ∙ ap (answer later) (
        lookup-delete_where Key-discrete (λ (b : Binding). bytes_eq b.peer_identity peer) key
          s.bindings h.distinct)
    ∙ answer_of_peer later peer (lookup Key-discrete key s.bindings)
    ∙ ap (unless (λ bound. bytes_eq bound peer)) (sym (get-answer later key s))

count-delete_where :
    (now : ℕ) (m : List (Key × Binding))
    → count_expired now m + length (delete_where (is_expired now) m) ≡ length m
unfolding count_expired delete_where
count-delete_where now [] = refl
count-delete_where now ((k, b) ∷ m) = ground (arith, count-delete_where now m)

-- `Cleanup` returns how many bindings it removed: these and the ones that are left are what was
-- there, for any store.
cleanup-len : (now : ℕ) (s : Store) → (cleanup now s).1 + len (cleanup now s).0 ≡ len s
unfolding cleanup len
cleanup-len now s = count-delete_where now s.bindings
