-- ===== src/Bindings.antt =====
-- pkg/extensions/rt_session_bind/binding_store.go: which peer a session is bound to. Time is a
-- number, and `now` an argument of each operation; a map is a list in the order in which Go may
-- iterate over it.
pub mod Keeps
pub mod Runs
pub mod Lookups
pub mod Eviction
mod Examples
use godiam.Prelude.{
  ℕ, ◌+◌, ◌%◌, ◌^◌, Bool, true, false, ◌&&◌, List, [], ◌∷◌, Option, none, some, ltb, leb, ◌==◌,
  if◌then◌else◌, length, bytes_eq, ℕ_discrete,
}
use godiam.Prelude.Assoc.{lookup, insert, delete}
use godiam.Prelude.Distinct.{delete_where}

abbrev pub Key : Type 0
Key = List ℕ

pub Key-discrete : Discrete Key
Key-discrete = hlevel (ℕ_discrete)

pub record Binding : Type 0 where
  pub peer_identity : List ℕ
  pub created_at : ℕ
  pub last_used : ℕ
  pub expires_at : ℕ

-- The counters have 64 bits. A size that is not positive is 0: there is no bound.
pub record Store : Type 0 where
  pub bindings : List (Key × Binding)
  pub max_size : ℕ
  pub ttl : ℕ
  pub lookups : ℕ
  pub hits : ℕ
  pub misses : ℕ
  pub evictions : ℕ
  pub cleanups : ℕ

unfoldable pub new_binding_store : ℕ → ℕ → Store
new_binding_store ttl max_size = record {
  bindings = [];
  max_size = max_size;
  ttl = ttl;
  lookups = 0;
  hits = 0;
  misses = 0;
  evictions = 0;
  cleanups = 0;
}

abbrev pub u64 : ℕ → ℕ
u64 n = n % 2 ^ 64

-- `now.After(b.ExpiresAt)`
abbrev pub is_expired : ℕ → Binding → Bool
is_expired now b = ltb b.expires_at now

abbrev found : Store → Store
found s = record s { hits = u64 (s.hits + 1) }

abbrev missed : Store → Store
missed s = record s { misses = u64 (s.misses + 1) }

unfoldable pub get : ℕ → Key → Store → Store × Option (List ℕ)
get now key s =
    let s1 : Store = record s { lookups = u64 (s.lookups + 1) } in
    elim (lookup Key-discrete key s.bindings) [
      | none ↦ (missed s1, none)
      | some b ↦ if is_expired now b then (missed s1, none) else (found s1, some b.peer_identity)
    ]

-- The loop of `evictOldest`: the key and the time of the oldest binding so far.
unfoldable pub oldest : Option (Key × ℕ) → List (Key × Binding) → Option (Key × ℕ)
oldest best [] = best
oldest none ((key, b) ∷ m) = oldest (some (key, b.last_used)) m
oldest (some (k, t)) ((key, b) ∷ m) =
    oldest (some (if ltb b.last_used t then (key, b.last_used) else (k, t))) m

unfoldable pub evict_oldest : Store → Store
unfolding oldest
evict_oldest s = elim (oldest none s.bindings) [
  | none ↦ s
  | some (key, t) ↦ record s {
    bindings = delete Key-discrete key s.bindings;
    evictions = u64 (s.evictions + 1);
  }
]

abbrev pub put : Key → Binding → Store → Store
put key b s = record s { bindings = insert Key-discrete key b s.bindings }

abbrev pub is_full : Store → Bool
is_full s = ltb 0 s.max_size && leb s.max_size (length s.bindings)

unfoldable pub set : ℕ → Key → List ℕ → Store → Store
unfolding evict_oldest
set now key peer_identity s = elim (lookup Key-discrete key s.bindings) [
  | some existing ↦
      put key
        (record existing {
          peer_identity = peer_identity;
          last_used = now;
          expires_at = now + s.ttl;
        })
        s
  | none ↦
      put key
        (record {
          peer_identity = peer_identity;
          created_at = now;
          last_used = now;
          expires_at = now + s.ttl;
        })
        (if is_full s then evict_oldest s else s)
]

unfoldable pub touch : ℕ → Key → Store → Store
touch now key s = elim (lookup Key-discrete key s.bindings) [
  | none ↦ s
  | some b ↦ put key (record b { last_used = now; expires_at = now + s.ttl }) s
]

unfoldable pub remove_by_peer : List ℕ → Store → Store
remove_by_peer peer_identity s = record s {
  bindings = delete_where (λ (b : Binding). bytes_eq b.peer_identity peer_identity) s.bindings;
}

unfoldable pub remove : Key → Store → Store
remove key s = record s { bindings = delete Key-discrete key s.bindings }

-- How many the loop of `Cleanup` removes.
unfoldable pub count_expired : ℕ → List (Key × Binding) → ℕ
count_expired now [] = 0
count_expired now ((key, b) ∷ m) =
    let rest = count_expired now m in if is_expired now b then 1 + rest else rest

unfoldable pub cleanup : ℕ → Store → Store × ℕ
unfolding count_expired
cleanup now s =
    let removed = count_expired now s.bindings in
    (
      record s {
        bindings = delete_where (is_expired now) s.bindings;
        cleanups = u64 (s.cleanups + removed);
      },
      removed,
    )

-- `Len`
unfoldable pub len : Store → ℕ
len s = length s.bindings
