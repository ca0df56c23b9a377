-- ===== src/Bindings/Runs.antt =====
-- Whatever sequence of calls a binding store answers, it stays well-formed.
use godiam.Prelude.{ℕ, refl, inr, List, [], ◌∷◌, arith}
use godiam.Prelude.Distinct.{IsDistinct}
use godiam.Bindings.{
  Key, Store, new_binding_store, get, set, touch, remove_by_peer, remove, cleanup,
}
use godiam.Bindings.Keeps.{
  IsStore, remove-IsStore, get-IsStore, touch-IsStore, set-IsStore, remove_by_peer-IsStore,
  cleanup-IsStore,
}

-- A call of the store, each with the time at which it runs.
pub data Operation : Type 0 where
  gets touches removes : ℕ → Key → Operation
  sets : ℕ → Key → List ℕ → Operation
  removes_peer : List ℕ → Operation
  cleans : ℕ → Operation

unfoldable pub apply : Operation → Store → Store
apply (gets now key) s = (get now key s).0
apply (touches now key) s = touch now key s
apply (removes now key) s = remove key s
apply (sets now key peer) s = set now key peer s
apply (removes_peer peer) s = remove_by_peer peer s
apply (cleans now) s = (cleanup now s).0

unfoldable pub run : List Operation → Store → Store
unfolding apply
run [] s = s
run (o ∷ l) s = run l (apply o s)

apply-IsStore : (o : Operation) (s : Store) → IsStore s → IsStore (apply o s)
unfolding apply
apply-IsStore (gets now key) s h = get-IsStore now key s h
apply-IsStore (touches now key) s h = touch-IsStore now key s h
apply-IsStore (removes now key) s h = remove-IsStore key s h
apply-IsStore (sets now key peer) s h = set-IsStore now key peer s h
apply-IsStore (removes_peer peer) s h = remove_by_peer-IsStore peer s h
apply-IsStore (cleans now) s h = cleanup-IsStore now s h

run_from : (l : List Operation) (s : Store) → IsStore s → IsStore (run l s)
unfolding run
run_from [] s h = h
run_from (o ∷ l) s h = run_from l (apply o s) (apply-IsStore o s h)

-- Whatever calls a new store has answered, in any order and at any times: a key has one binding,
-- there are no more bindings than the configured size unless it is 0, and the lookups are the hits
-- and the misses together, counted modulo 2^64.
pub run-IsStore : (l : List Operation) (ttl size : ℕ) → IsStore (run l (new_binding_store ttl size))
unfolding new_binding_store IsDistinct
run-IsStore l ttl size =
    run_from l (new_binding_store ttl size)
      (record { distinct = tt; bounded = inr (omega arith); counted = refl })
