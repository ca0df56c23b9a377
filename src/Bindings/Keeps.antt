-- ===== src/Bindings/Keeps.antt =====
-- Every operation of the binding store keeps its keys distinct, its size within the bound and its
-- counters balanced.
use godiam.Prelude.{
  ℕ, suc, ◌+◌, ◌≤◌, ◌≡◌, refl, sym, ap, subst, ◌∙◌, ◌⊎◌, inl, inr, Bool, true, false, List, none,
  some, ite, ℕ_discrete, arith, if◌then◌else◌, length, bytes_eq, Option-cases,
}
use godiam.Prelude.Assoc.{lookup}
use godiam.Prelude.Distinct.{
  delete_where, IsDistinct, insert-IsDistinct, delete-IsDistinct, delete_where-IsDistinct,
  length-insert_new, length-insert_old, length-delete_le, length-delete_where_le,
}
use godiam.Bindings.{
  Key, Key-discrete, Binding, Store, u64, is_expired, get, set, touch, remove_by_peer, remove,
  cleanup, len, evict_oldest, put, is_full,
}
use godiam.Bindings.Eviction.{evict_oldest_lem, evict_oldest-IsDistinct}

-- Within the bound, if there is one.
abbrev pub Bounded : ℕ → List (Key × Binding) → Type 0
Bounded size m = (size ≡ 0) ⊎ (length m ≤ size)

pub record IsStore (s : Store) : Type 0 where
  pub distinct : IsDistinct Key-discrete s.bindings
  pub bounded : Bounded s.max_size s.bindings
  pub counted : s.lookups ≡ u64 (s.hits + s.misses)

shrunk : (n : ℕ) (m k : List (Key × Binding)) → length k ≤ length m → Bounded n m → Bounded n k
shrunk n m k h (inl z) = inl z
shrunk n m k h (inr b) = inr (omega arith)

pub remove-IsStore : (key : Key) (s : Store) → IsStore s → IsStore (remove key s)
unfolding remove
remove-IsStore key s h = record {
  distinct = delete-IsDistinct Key-discrete key s.bindings h.distinct;
  bounded = shrunk s.max_size s.bindings _ (length-delete_le Key-discrete key s.bindings) h.bounded;
  counted = h.counted;
}

delete_where-IsStore :
    (gone : Binding → Bool) (s : Store) (n : ℕ)
    → IsStore s
    → IsStore (record s { bindings = delete_where gone s.bindings; cleanups = n })
delete_where-IsStore gone s n h = record {
  distinct = delete_where-IsDistinct Key-discrete gone s.bindings h.distinct;
  bounded = shrunk s.max_size s.bindings _ (length-delete_where_le gone s.bindings) h.bounded;
  counted = h.counted;
}

get-same :
    (now : ℕ) (key : Key) (s : Store)
    → ((get now key s).0.bindings ≡ s.bindings) × ((get now key s).0.max_size ≡ s.max_size)
unfolding get
get-same now key s = (ground arith, ground arith)

get-counted :
    (now : ℕ) (key : Key) (s : Store)
    → ((get now key s).0.lookups ≡ u64 (s.lookups + 1))
      × (u64 ((get now key s).0.hits + (get now key s).0.misses) ≡ u64 (s.hits + s.misses + 1))
unfolding get
get-counted now key s = (ground arith, ground arith)

pub get-IsStore : (now : ℕ) (key : Key) (s : Store) → IsStore s → IsStore (get now key s).0
get-IsStore now key s h =
    let (same, size) = get-same now key s in
    let (asked, answered) = get-counted now key s in
    record {
      distinct = subst (IsDistinct Key-discrete) (sym same) h.distinct;
      bounded =
          subst (λ n. Bounded n (get now key s).0.bindings) (sym size)
            (subst (Bounded s.max_size) (sym same) h.bounded);
      counted = omega (arith, asked, answered, h.counted);
    }

put_old-IsStore :
    (key : Key) (b c : Binding) (s : Store)
    → lookup Key-discrete key s.bindings ≡ some c
    → IsStore s
    → IsStore (put key b s)
put_old-IsStore key b c s e h = record {
  distinct = insert-IsDistinct Key-discrete key b s.bindings h.distinct;
  bounded =
      shrunk s.max_size s.bindings _
        (omega (arith, length-insert_old Key-discrete key b c s.bindings e)) h.bounded;
  counted = h.counted;
}

abbrev pub bound_to : ℕ → List ℕ → Store → Binding
bound_to now peer s = record {
  peer_identity = peer;
  created_at = now;
  last_used = now;
  expires_at = now + s.ttl;
}

pub set_old :
    (now : ℕ) (key : Key) (peer : List ℕ) (s : Store) (c : Binding)
    → lookup Key-discrete key s.bindings ≡ some c
    → set now key peer s
      ≡ put key (record c { peer_identity = peer; last_used = now; expires_at = now + s.ttl }) s
unfolding set
set_old now key peer s c e = ground arith

pub set_new :
    (now : ℕ) (key : Key) (peer : List ℕ) (s : Store)
    → lookup Key-discrete key s.bindings ≡ none
    → set now key peer s ≡ put key (bound_to now peer s) (if is_full s then evict_oldest s else s)
unfolding set
set_new now key peer s e = ground arith

pub touch_old :
    (now : ℕ) (key : Key) (s : Store) (c : Binding)
    → lookup Key-discrete key s.bindings ≡ some c
    → touch now key s ≡ put key (record c { last_used = now; expires_at = now + s.ttl }) s
unfolding touch
touch_old now key s c e = ground arith

touch-none :
    (now : ℕ) (key : Key) (s : Store)
    → lookup Key-discrete key s.bindings ≡ none
    → touch now key s ≡ s
unfolding touch
touch-none now key s e = ground arith

pub touch-IsStore : (now : ℕ) (key : Key) (s : Store) → IsStore s → IsStore (touch now key s)
touch-IsStore now key s h = elim (Option-cases (lookup Key-discrete key s.bindings)) [
  | inl e ↦ subst (λ x. IsStore x) (sym (touch-none now key s e)) h
  | inr (c, e) ↦
      subst (λ x. IsStore x) (sym (touch_old now key s c e)) (put_old-IsStore key _ c s e h)
]

put_new-IsStore :
    (key : Key) (b : Binding) (s : Store)
    → lookup Key-discrete key s.bindings ≡ none
    → (s.max_size ≡ 0) ⊎ (suc (length s.bindings) ≤ s.max_size)
    → IsStore s
    → IsStore (put key b s)
put_new-IsStore key b s e room h = record {
  distinct = insert-IsDistinct Key-discrete key b s.bindings h.distinct;
  bounded = elim room [
    | inl z ↦ inl z
    | inr r ↦ inr (omega (arith, length-insert_new Key-discrete key b s.bindings e))
  ];
  counted = h.counted;
}

evict_oldest-same :
    (s : Store)
    → ((evict_oldest s).max_size ≡ s.max_size)
      × ((evict_oldest s).ttl ≡ s.ttl)
      × ((evict_oldest s).lookups ≡ s.lookups)
      × ((evict_oldest s).hits ≡ s.hits)
      × ((evict_oldest s).misses ≡ s.misses)
unfolding evict_oldest
evict_oldest-same s = (ground arith, ground arith, ground arith, ground arith, ground arith)

ite_same : {A P : Type 0} (d : Dec P) (a : A) → ite d a a ≡ a
ite_same (yes p) a = refl
ite_same (no n) a = refl

-- A store with room for one more binding, in which a key that was not bound still is not.
Room : Key → Store → Type 0
Room key s =
    IsStore s
    × ((s.max_size ≡ 0) ⊎ (suc (length s.bindings) ≤ s.max_size))
    × (lookup Key-discrete key s.bindings ≡ none)

room_after :
    (n size : ℕ) (m k : List (Key × Binding))
    → n ≡ size
    → suc (length k) ≤ length m
    → Bounded size m
    → (n ≡ 0) ⊎ (suc (length k) ≤ n)
room_after n size m k e less (inl z) = inl (e ∙ z)
room_after n size m k e less (inr r) = inr (omega arith)

evict_oldest-Room :
    (key : Key) (s : Store)
    → IsStore s
    → lookup Key-discrete key s.bindings ≡ none
    → 1 ≤ len s
    → Room key (evict_oldest s)
unfolding len Room
evict_oldest-Room key s h e pos =
    let (victim, b, f, old, others, less) = evict_oldest_lem s h.distinct pos in
    let (size, ttl, asked, hits, misses) = evict_oldest-same s in
    let room = room_after (evict_oldest s).max_size s.max_size s.bindings _ size less h.bounded in
    (
      record {
        distinct = evict_oldest-IsDistinct s h.distinct pos;
        bounded =
            shrunk (evict_oldest s).max_size s.bindings _ (omega (arith, less))
              (subst (λ n. Bounded n s.bindings) (sym size) h.bounded);
        counted = omega (arith, asked, hits, misses, h.counted);
      },
      room,
      others key
          ∙ ap (λ x. ite (Key-discrete victim key) none x) e
          ∙ ite_same (Key-discrete victim key) none,
    )

pub full_len : (s : Store) → is_full s ≡ true → 1 ≤ len s
unfolding len
full_len s h = ground arith

free_room :
    (s : Store) → is_full s ≡ false → (s.max_size ≡ 0) ⊎ (suc (length s.bindings) ≤ s.max_size)
free_room s h = elim (ℕ_discrete s.max_size 0) [ yes z ↦ inl z | no n ↦ inr (ground arith) ]

made-Room :
    (key : Key) (s : Store) (full : Bool)
    → is_full s ≡ full
    → IsStore s
    → lookup Key-discrete key s.bindings ≡ none
    → Room key (if full then evict_oldest s else s)
unfolding Room
made-Room key s true f h e = evict_oldest-Room key s h e (full_len s f)
made-Room key s false f h e = (h, free_room s f, e)

pub set-IsStore :
    (now : ℕ) (key : Key) (peer : List ℕ) (s : Store) → IsStore s → IsStore (set now key peer s)
unfolding Room
set-IsStore now key peer s h = elim (Option-cases (lookup Key-discrete key s.bindings)) [
  | inl e ↦
      (let (t, room, n) = made-Room key s (is_full s) refl h e in
        subst (λ x. IsStore x) (sym (set_new now key peer s e))
          (put_new-IsStore key (bound_to now peer s) _ n room t))
  | inr (c, e) ↦
      subst (λ x. IsStore x) (sym (set_old now key peer s c e)) (put_old-IsStore key _ c s e h)
]

pub remove_by_peer-IsStore :
    (peer : List ℕ) (s : Store) → IsStore s → IsStore (remove_by_peer peer s)
unfolding remove_by_peer
remove_by_peer-IsStore peer s h =
    delete_where-IsStore (λ (b : Binding). bytes_eq b.peer_identity peer) s s.cleanups h

pub cleanup-IsStore : (now : ℕ) (s : Store) → IsStore s → IsStore (cleanup now s).0
unfolding cleanup
cleanup-IsStore now s h = delete_where-IsStore (is_expired now) s _ h
