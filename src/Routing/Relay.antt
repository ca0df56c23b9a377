-- ===== src/Routing/Relay.antt =====
-- pkg/core/routing/router.go: the loop of `RouteIn` that forwards a message to a next hop.
-- The text of an error is left out, and so is the last send error, which only chooses that text.
use godiam.Prelude.{ℕ, zero, suc, ◌+◌, ◌%◌, ◌^◌, List, ◌∷◌, Option, none, some, if◌then◌else◌}
use godiam.Prelude.Assoc.{insert, delete}
use godiam.Message.{Message}
use godiam.Routing.{
  Name, RelayKey, RelayKey-discrete, Error, Target, full, sender, useless, Outside, Router,
  RouterStats,
}
use godiam.Routing.Choice.{chosen, unroutable, route_out_with_exclusion}
use godiam.Routing.Candidates.{is_empty}
use godiam.Routing.Proxy.{Done, error_answer, unable_to_deliver, with_stats, u64}

-- The state of the loop.
pub record Relaying (W P S : Type 0) : Type 0 where
  pub router : Router W P S
  pub world : W
  pub message : Message
  pub exclude : List Name

-- What one round does: it returns, or it goes on with a name excluded.
pub data Round (W P S : Type 0) : Type 0 where
  finished : Done W P S → Round W P S
  again : Relaying W P S → Round W P S

abbrev pub set_hbh : ℕ → Message → Message
set_hbh id m = record m { hop_by_hop_id = id }

module _ {W P S : Type 0} where
  unfoldable pub count_relayed : Router W P S → Router W P S
  unfolding with_stats
  count_relayed r =
      with_stats (λ (s : RouterStats). record s { requests_relayed = u64 (s.requests_relayed + 1) })
        r

  -- After a send that failed: the transaction is deleted, the hop-by-hop ID restored and the next
  -- hop excluded.
  abbrev pub undo : RelayKey → Name → Relaying W P S → Router W P S → W → Message → Relaying W P S
  undo key next_hop st r w m = record {
    router = record r { prev_hop_by_hop = delete RelayKey-discrete key r.prev_hop_by_hop };
    world = w;
    message = set_hbh st.message.hop_by_hop_id m;
    exclude = next_hop ∷ st.exclude;
  }

module _ {W P S : Type 0} (o : Outside W P S) where
  unfoldable pub relay_peer_identity : W → P → Name
  relay_peer_identity w p =
      if is_empty (o.diameter_id w p) then o.config_identity w p else o.diameter_id w p

  -- `if p != nil { r.prevHopByHop.Store(...) }`
  unfoldable pub store_txn : Option P → RelayKey → Name → Message → W → Router W P S → Router W P S
  store_txn none key next_hop m w r = r
  store_txn (some p) key next_hop m w r = record r {
    prev_hop_by_hop =
        insert RelayKey-discrete key
          (record {
            original_peer = o.diameter_id w p;
            original_hbh_id = m.hop_by_hop_id;
            outbound_peer = next_hop;
            created_at = o.now w;
          })
          r.prev_hop_by_hop;
  }

  -- The part that the two kinds of next hop share, from the new hop-by-hop ID on: the transaction is
  -- stored, the message sent, and both undone if that fails.
  unfoldable pub forward :
      Option P
      → RelayKey
      → Name
      → (W → Message → W × Message × Option Error)
      → Relaying W P S
      → Round W P S
  unfolding store_txn count_relayed
  forward p key next_hop send st =
      let r = store_txn p key next_hop st.message st.world st.router in
      let out = send st.world (set_hbh key.1 st.message) in
      elim out.2 [
        | none ↦
            finished
              (record { router = count_relayed r; world = out.0; message = out.1; error = none })
        | some e ↦ again (undo key next_hop st r out.0 out.1)
      ]

  unfoldable pub via_peer : Option P → Name → P → Relaying W P S → Round W P S
  unfolding forward relay_peer_identity
  via_peer p next_hop out_peer st =
      let minted = o.next_hop_by_hop_id st.world out_peer in
      forward p (relay_peer_identity minted.0 out_peer, minted.1) next_hop
        (λ w m. o.send w out_peer m) (record st { world = minted.0 })

  unfoldable pub via_sender : Option P → Name → S → Relaying W P S → Round W P S
  unfolding forward
  via_sender p next_hop out st =
      let id = (st.router.next_hbh + 1) % 2 ^ 32 in
      forward p (next_hop, id) next_hop (λ w m. o.send_to w out m)
        (record st { router = record st.router { next_hbh = id } })

  -- What becomes of a next hop that the lookup finds or not.
  unfoldable pub try_target : Option P → Name → Option (Target P S) → Relaying W P S → Round W P S
  unfolding via_peer via_sender
  try_target p next_hop none st = again (record st { exclude = next_hop ∷ st.exclude })
  try_target p next_hop (some useless) st = again (record st { exclude = next_hop ∷ st.exclude })
  try_target p next_hop (some (full out_peer)) st = via_peer p next_hop out_peer st
  try_target p next_hop (some (sender out)) st = via_sender p next_hop out st

  -- One round of the loop.
  unfoldable pub round : Option P → Relaying W P S → Round W P S
  unfolding try_target route_out_with_exclusion error_answer
  round p st =
      let out = route_out_with_exclusion o st.router st.exclude st.world st.message in
      elim out.2 [
        | unroutable e ↦ finished (error_answer o p st.router out.0 out.1 unable_to_deliver)
        | chosen next_hop ↦ elim st.router.peer_lookup [
          | none ↦ finished (error_answer o p st.router out.0 out.1 unable_to_deliver)
          | some find ↦
              try_target p next_hop (find out.0 next_hop)
                (record st { world = out.0; message = out.1 })
        ]
      ]

  -- The loop, on fuel; `none` is no result of the code but the end of the fuel.
  unfoldable pub relay : ℕ → Option P → Relaying W P S → Option (Done W P S)
  unfolding round
  relay zero p st = none
  relay (suc fuel) p st = elim (round p st) [ finished d ↦ some d | again st' ↦ relay fuel p st' ]
