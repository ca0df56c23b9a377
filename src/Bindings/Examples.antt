-- ===== src/Bindings/Examples.antt =====
-- Three sessions in a store for two.
use godiam.Prelude.{
  suc, ◌+◌, ◌≤◌, ◌≡◌, refl, List, [], ◌∷◌, none, some, ltb, arith, if◌then◌else◌, bytes_eq, ite,
  ℕ_discrete,
}
use godiam.Prelude.Assoc.{lookup, insert, delete}
use godiam.Prelude.Distinct.{unless}
use godiam.Bindings.{
  Key, Key-discrete, Binding, Store, new_binding_store, get, set, remove_by_peer, cleanup, len,
  evict_oldest,
}
use godiam.Bindings.Eviction.{evict_oldest_lem}
use godiam.Bindings.Keeps.{IsStore}
use godiam.Bindings.Runs.{Operation, run, run-IsStore, gets, sets}
use godiam.Bindings.Lookups.{get-set, get-cleanup, get-remove_by_peer}

abbrev calls : List Operation
calls = sets 10 (1 ∷ []) (97 ∷ []) ∷ sets 20 (2 ∷ []) (98 ∷ []) ∷ gets 25 (1 ∷ []) ∷ []

abbrev full : Store
full = run calls (new_binding_store 100 2)

run-IsStore_example : IsStore full
run-IsStore_example = run-IsStore calls 100 2

full-IsStore : IsStore full
full-IsStore = run-IsStore calls 100 2

full-len : len full ≡ 2
unfolding len run new_binding_store set get lookup insert Key-discrete ℕ_discrete
full-len = refl

evict_oldest_lem_example :
    (key : Key) × (b : Binding) × (lookup Key-discrete key full.bindings ≡ some b)
    × ((j : Key) (c : Binding)
        → lookup Key-discrete j full.bindings ≡ some c
        → b.last_used ≤ c.last_used)
    × ((j : Key)
        → lookup Key-discrete j (evict_oldest full).bindings
          ≡ ite (Key-discrete key j) none (lookup Key-discrete j full.bindings))
    × (suc (len (evict_oldest full)) ≤ len full)
evict_oldest_lem_example = evict_oldest_lem full full-IsStore.distinct (omega (arith, full-len))

-- The third session drives out the first.
third_evicts : lookup Key-discrete (1 ∷ []) (set 30 (3 ∷ []) (98 ∷ []) full).bindings ≡ none
unfolding run new_binding_store set get lookup insert delete Key-discrete ℕ_discrete
third_evicts = refl

get-set_example :
    (get 131 (3 ∷ []) (set 30 (3 ∷ []) (98 ∷ []) full)).1
    ≡ (if ltb (30 + full.ttl) 131 then none else some (98 ∷ []))
get-set_example = get-set 30 131 (3 ∷ []) (98 ∷ []) full

get-cleanup_example : (get 120 (2 ∷ []) (cleanup 115 full).0).1 ≡ (get 120 (2 ∷ []) full).1
get-cleanup_example = get-cleanup 115 120 (2 ∷ []) full full-IsStore (omega arith)

get-remove_by_peer_example :
    (get 50 (2 ∷ []) (remove_by_peer (98 ∷ []) full)).1
    ≡ unless (λ bound. bytes_eq bound (98 ∷ [])) (get 50 (2 ∷ []) full).1
get-remove_by_peer_example = get-remove_by_peer 50 (2 ∷ []) (98 ∷ []) full full-IsStore
