-- ===== src/Routing/Answered.antt =====
-- The answer to a relayed request goes back to where the request came from.
use godiam.Prelude.{
  ℕ, ◌≡◌, refl, ap, ap₂, ◌∙◌, List, Option, none, some, if_pos, elim_some, elim_none,
}
use godiam.Prelude.Assoc.{lookup, insert, delete, lookup-insert, lookup-delete}
use godiam.Message.{Message}
use godiam.Routing.{
  Name, Error, RelayKey, RelayKey-discrete, RelayTxn, full, Outside, Router, lookup_peer,
}
use godiam.Routing.Proxy.{Done, remove_local_proxy_info}
use godiam.Routing.Relay.{
  Relaying, finished, store_txn, forward, set_hbh, via_peer, relay_peer_identity, count_relayed,
}
use godiam.Routing.Incoming.{
  route_request, route_answer, txn_of, drop_txn, restored, send_back, count_relayed_answer, done,
}

lookup-insert_same :
    (key : RelayKey) (t : RelayTxn) (m : List (RelayKey × RelayTxn))
    → lookup RelayKey-discrete key (insert RelayKey-discrete key t m) ≡ some t
lookup-insert_same key t m =
    lookup-insert RelayKey-discrete key key t m ∙ if_pos (RelayKey-discrete key key) refl _ _

lookup-delete_same :
    (key : RelayKey) (m : List (RelayKey × RelayTxn))
    → lookup RelayKey-discrete key (delete RelayKey-discrete key m) ≡ none
lookup-delete_same key m =
    lookup-delete RelayKey-discrete key key m ∙ if_pos (RelayKey-discrete key key) refl _ _

module _ {W P S : Type 0} (o : Outside W P S) where
  -- The transaction of a request from `a` that goes to `n`.
  abbrev txn_from : P → Name → W → Message → RelayTxn
  txn_from a n w m = record {
    original_peer = o.diameter_id w a;
    original_hbh_id = m.hop_by_hop_id;
    outbound_peer = n;
    created_at = o.now w;
  }

  -- An answer whose transaction is known is sent to the peer of the request.
  known_answer :
      (fuel : ℕ) (q b : P) (r : Router W P S) (w : W) (ans : Message) (t : RelayTxn)
      → txn_of o (some q) r w ans ≡ some t
      → lookup_peer r w t.original_peer ≡ some (full b)
      → let r' = drop_txn o (some q) r w ans in
        let out = o.send w b (restored r t ans) in
        route_answer o fuel (some q) r w ans
        ≡ some (done (count_relayed_answer r') out.0 out.1 out.2)
  unfolding route_answer send_back lookup_peer drop_txn
  known_answer fuel q b r w ans t h k =
      elim_some _ _ h
      ∙ ap
          (λ found. elim (send_back o (drop_txn o (some q) r w ans) w (restored r t ans) found) [
            | none ↦
                route_request o fuel (some q) (drop_txn o (some q) r w ans) w (restored r t ans)
            | some d ↦ some d
          ])
          k

  abbrev minted : Relaying W P S → P → W × ℕ
  minted st q = o.next_hop_by_hop_id st.world q

  pub answered :
      (fuel : ℕ) (a q b : P) (n : Name) (st : Relaying W P S) (w : W) (ans : Message)
      → (o.send (minted st q).0 q (set_hbh (minted st q).1 st.message)).2 ≡ none
      → ans.hop_by_hop_id ≡ (minted st q).1
      → relay_peer_identity o w q ≡ relay_peer_identity o (minted st q).0 q
      → lookup_peer st.router w (o.diameter_id (minted st q).0 a) ≡ some (full b)
      → (d : Done W P S) × (via_peer o (some a) n q st ≡ finished d)
        × (d.error ≡ none)
        × (let back =
              set_hbh st.message.hop_by_hop_id
                (remove_local_proxy_info ans st.router.local_identity) in
            let r' = drop_txn o (some q) d.router w ans in
            let out = o.send w b back in
            (route_answer o fuel (some q) d.router w ans
              ≡ some (done (count_relayed_answer r') out.0 out.1 out.2))
            × (txn_of o (some q) r' w ans ≡ none))
  unfolding via_peer forward store_txn count_relayed lookup_peer txn_of drop_txn restored
  answered fuel a q b n st w ans took id same found = (
    record {
      router = count_relayed (store_txn o (some a) key n st.message sent st.router);
      world = out.0;
      message = out.1;
      error = none;
    },
    elim_none _ _ took,
    refl,
    (
      known_answer fuel q b (count_relayed (store_txn o (some a) key n st.message sent st.router)) w
          ans (txn_from a n sent st.message)
          (ap
              (λ k.
                lookup RelayKey-discrete k
                  (store_txn o (some a) key n st.message sent st.router).prev_hop_by_hop)
              (ap₂ (λ x y. (x, y)) same id)
            ∙ lookup-insert_same key _ st.router.prev_hop_by_hop)
          found,
      lookup-delete_same (relay_peer_identity o w q, ans.hop_by_hop_id) _,
    ),
  )
    where
      sent : W
      sent = (minted st q).0

      key : RelayKey
      key = (relay_peer_identity o sent q, (minted st q).1)

      out : W × Message × Option Error
      out = o.send sent q (set_hbh (minted st q).1 st.message)
