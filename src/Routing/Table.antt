-- ===== src/Routing/Table.antt =====
-- The relay transactions as a map: what the router's table holds is what a function holds that is
-- changed at one key at a time.
use godiam.Prelude.{ℕ, ◌≡◌, Bool, false, List, [], ◌∷◌, Option, none, some, if◌then◌else◌, ite, ltb}
use godiam.Prelude.Assoc.{lookup}
use godiam.Prelude.Distinct.{IsDistinct, unless}
use godiam.Prelude.Ints.{ℤ, pos, negsuc}
use godiam.Message.{Message}
use godiam.Routing.{Name, RelayKey, RelayKey-discrete, RelayTxn, Outside, Router}
use godiam.Routing.Relay.{relay_peer_identity, store_txn}
use godiam.Routing.Incoming.{drop_txn}
use godiam.Routing.Transactions.{involves, outlived, failover_peer, sweep_expired}

-- What becomes of the table: a request is relayed, an answer arrives, a peer fails, time passes.
pub data TableCall (W P : Type 0) : Type 0 where
  stores : P → RelayKey → Name → Message → W → TableCall W P
  takes : P → W → Message → TableCall W P
  fails_over : Name → TableCall W P
  sweeps : ℕ → TableCall W P

-- A time to live that is not positive is none.
abbrev pub is_swept : ℕ → ℤ → RelayTxn → Bool
is_swept now (negsuc n) t = false
is_swept now (pos ttl) t = if ltb 0 ttl then outlived now ttl t else false

-- The abstract table.
abbrev pub Txns : Type 0
Txns = RelayKey → Option RelayTxn

module _ {W P S : Type 0} (o : Outside W P S) where
  unfoldable pub table_step : TableCall W P → Router W P S → Router W P S
  table_step (stores p key n m w) r = store_txn o (some p) key n m w r
  table_step (takes p w m) r = drop_txn o (some p) r w m
  table_step (fails_over identity) r = (failover_peer identity r).0
  table_step (sweeps now) r = (sweep_expired now r).0

  unfoldable pub table_run : List (TableCall W P) → Router W P S → Router W P S
  unfolding table_step
  table_run [] r = r
  table_run (c ∷ l) r = table_run l (table_step c r)

  unfoldable pub spec_step : ℤ → TableCall W P → Txns → Txns
  spec_step ttl (stores p key n m w) f j =
      ite (RelayKey-discrete key j)
        (some (record {
          original_peer = o.diameter_id w p;
          original_hbh_id = m.hop_by_hop_id;
          outbound_peer = n;
          created_at = o.now w;
        }))
        (f j)
  spec_step ttl (takes p w m) f j =
      ite (RelayKey-discrete (relay_peer_identity o w p, m.hop_by_hop_id) j) none (f j)
  spec_step ttl (fails_over identity) f j = unless (involves identity) (f j)
  spec_step ttl (sweeps now) f j = unless (is_swept now ttl) (f j)

  unfoldable pub spec_run : ℤ → List (TableCall W P) → Txns → Txns
  unfolding spec_step
  spec_run ttl [] f = f
  spec_run ttl (c ∷ l) f = spec_run ttl l (spec_step ttl c f)

-- The table of a router, its keys distinct, holds what the abstract one does.
unfoldable pub Refines : {W P S : Type 0} → ℤ → Router W P S → Txns → Type 0
Refines ttl r f =
    IsDistinct RelayKey-discrete r.prev_hop_by_hop
    × ((j : RelayKey) → lookup RelayKey-discrete j r.prev_hop_by_hop ≡ f j)
    × (r.sweep_ttl ≡ ttl)
