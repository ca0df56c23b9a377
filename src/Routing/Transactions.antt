-- ===== src/Routing/Transactions.antt =====
-- pkg/core/routing/router.go: the relay transactions, their failover and their expiry. A time is a
-- number of nanoseconds; a time to live is an integer.
use godiam.Prelude.{
  ℕ, ◌+◌, Bool, ◌||◌, List, [], ◌∷◌, Option, none, some, if◌then◌else◌, bytes_eq, length, ltb,
}
use godiam.Prelude.Assoc.{lookup}
use godiam.Prelude.Distinct.{delete_where}
use godiam.Prelude.Ints.{ℤ, pos, negsuc}
use godiam.Routing.{Name, RelayKey, RelayKey-discrete, RelayTxn, Router}

-- How many entries the loops over the map remove.
unfoldable pub count_where : {K V : Type 0} → (V → Bool) → List (K × V) → ℕ
count_where gone [] = 0
count_where gone ((k, v) ∷ m) = let rest = count_where gone m in if gone v then 1 + rest else rest

-- The test of `FailoverPeer`.
unfoldable pub involves : Name → RelayTxn → Bool
involves identity t = bytes_eq t.original_peer identity || bytes_eq t.outbound_peer identity

-- `txn.CreatedAt.Before(now - ttl)`, without subtraction.
unfoldable pub outlived : ℕ → ℕ → RelayTxn → Bool
outlived now ttl t = ltb (t.created_at + ttl) now

module _ {W P S : Type 0} where
  unfoldable pub relay_origin : Router W P S → RelayKey → Option Name
  relay_origin r key = elim (lookup RelayKey-discrete key r.prev_hop_by_hop) [
    | none ↦ none
    | some t ↦ some t.original_peer
  ]

  unfoldable pub drop_txns : (RelayTxn → Bool) → Router W P S → Router W P S × ℕ
  unfolding count_where
  drop_txns gone r = (
    record r { prev_hop_by_hop = delete_where gone r.prev_hop_by_hop },
    count_where gone r.prev_hop_by_hop,
  )

  unfoldable pub failover_peer : Name → Router W P S → Router W P S × ℕ
  unfolding drop_txns involves
  failover_peer identity r = drop_txns (involves identity) r

  unfoldable pub relay_txn_count : Router W P S → ℕ
  relay_txn_count r = length r.prev_hop_by_hop

  -- Nothing expires if the time to live is not positive.
  unfoldable pub sweep_from : ℕ → ℤ → Router W P S → Router W P S × ℕ
  unfolding drop_txns outlived
  sweep_from now (negsuc n) r = (r, 0)
  sweep_from now (pos ttl) r = if ltb 0 ttl then drop_txns (outlived now ttl) r else (r, 0)

  unfoldable pub sweep_expired : ℕ → Router W P S → Router W P S × ℕ
  unfolding sweep_from
  sweep_expired now r = sweep_from now r.sweep_ttl r

  -- The part of `StartRelaySweep` that is not the goroutine.
  unfoldable pub start_relay_sweep : ℤ → Router W P S → Router W P S
  start_relay_sweep ttl r = record r { sweep_ttl = ttl }
