-- ===== src/Peer/Requests.antt =====
-- pkg/core/peer: a request that is sent, and the answers that come back.
use godiam.Prelude.{
  ℕ, ◌≡◌, refl, sym, ap, ◌∙◌, true, false, List, ◌∷◌, if_pos, none, some, ℕ_discrete, arith,
}
use godiam.Prelude.Assoc.{lookup, delete, lookup-insert, lookup-delete}
use godiam.Message.{Message, Result, ok, err, stuck}
use godiam.Message.Encode.{encode}
use godiam.Message.Fields.{is_request, is_retransmit}
use godiam.Peer.{Peer, World, delivered}
use godiam.Peer.Send.{
  track_pending, send_on_conn, write_bytes, pop_pending, prepare, with_hop_by_hop, with_end_to_end,
  deliver, answers, process_inbound,
}

tracked :
    (m : Message) (p : Peer)
    → lookup ℕ_discrete m.hop_by_hop_id (track_pending m p).pending ≡ some m.end_to_end_id
unfolding track_pending
tracked m p =
    lookup-insert ℕ_discrete m.hop_by_hop_id m.hop_by_hop_id m.end_to_end_id p.pending
    ∙ if_pos (ℕ_discrete m.hop_by_hop_id m.hop_by_hop_id) refl _ _

-- `prepare` tracks a request under the identifiers that it goes out with.
prepare-tracks :
    (m : Message) (p : Peer)
    → is_request m ≡ true
    → lookup ℕ_discrete (prepare m p).1.hop_by_hop_id (prepare m p).0.pending
      ≡ some (prepare m p).1.end_to_end_id
unfolding prepare
prepare-tracks m p r =
    let a = with_hop_by_hop m p in
    let b = with_end_to_end a.1 a.0 in ground (arith, tracked b.1 b.0)

write_bytes-pending :
    (w : World) (c : ℕ) (m : Message) (r : Result (List ℕ)) (p : Peer)
    → (write_bytes w c m r p).0.pending ≡ p.pending
unfolding write_bytes
write_bytes-pending w c m (ok b) p = ground arith
write_bytes-pending w c m (err e) p = refl
write_bytes-pending w c m stuck p = refl

sent-tracks :
    (w : World) (c : ℕ) (m : Message) (p : Peer)
    → is_request m ≡ true
    → lookup ℕ_discrete (prepare m p).1.hop_by_hop_id (send_on_conn w (some c) m p).0.pending
      ≡ some (prepare m p).1.end_to_end_id
unfolding send_on_conn
sent-tracks w c m p r =
    ap (lookup ℕ_discrete (prepare m p).1.hop_by_hop_id)
      (write_bytes-pending w c (prepare m p).1 (encode w.pools (prepare m p).1) (prepare m p).0)
    ∙ prepare-tracks m p r

delivered_answer :
    (a : Message) (p : Peer) (e2e : ℕ)
    → is_request a ≡ false
    → is_retransmit a ≡ false
    → lookup ℕ_discrete a.hop_by_hop_id p.pending ≡ some e2e
    → answers e2e a ≡ true
    → process_inbound a p
      ≡ (deliver a (record p { pending = delete ℕ_discrete a.hop_by_hop_id p.pending }), true)
unfolding process_inbound pop_pending
delivered_answer a p e2e r t l o = ground arith

dropped_answer :
    (a : Message) (p : Peer)
    → is_request a ≡ false
    → lookup ℕ_discrete a.hop_by_hop_id p.pending ≡ none
    → process_inbound a p ≡ (p, false)
unfolding process_inbound pop_pending
dropped_answer a p r l = ground arith

answers_refl : (e : ℕ) (a : Message) → a.end_to_end_id ≡ e → answers e a ≡ true
answers_refl e a h = ground arith

forgotten :
    (a : Message) (p : Peer) (h : ℕ)
    → h ≡ a.hop_by_hop_id
    → lookup ℕ_discrete h
        (deliver a (record p { pending = delete ℕ_discrete a.hop_by_hop_id p.pending })).pending
      ≡ none
unfolding deliver
forgotten a p h e =
    lookup-delete ℕ_discrete a.hop_by_hop_id h p.pending
    ∙ if_pos (ℕ_discrete a.hop_by_hop_id h) (sym e) _ _

-- Once a request is sent on a connection, whether or not the write went through, an answer that is
-- no retransmission and carries the identifiers that the request went out with is delivered, and
-- its request is forgotten: any later answer with the same Hop-by-Hop ID is dropped, and changes
-- nothing.
pub answered_once :
    (w : World) (c : ℕ) (m a b : Message) (p : Peer)
    → is_request m ≡ true
    → is_request a ≡ false
    → is_retransmit a ≡ false
    → a.hop_by_hop_id ≡ (prepare m p).1.hop_by_hop_id
    → a.end_to_end_id ≡ (prepare m p).1.end_to_end_id
    → is_request b ≡ false
    → b.hop_by_hop_id ≡ a.hop_by_hop_id
    → let sent = (send_on_conn w (some c) m p).0 in
      let after = (process_inbound a sent).0 in
      ((process_inbound a sent).1 ≡ true)
      × (after.log ≡ delivered a ∷ sent.log)
      × (process_inbound b after ≡ (after, false))
unfolding deliver
answered_once w c m a b p r ra rt h e rb hb =
    let sent = (send_on_conn w (some c) m p).0 in
    let at =
      delivered_answer a sent (prepare m p).1.end_to_end_id ra rt
        (ap (λ x. lookup ℕ_discrete x sent.pending) h ∙ sent-tracks w c m p r)
        (answers_refl (prepare m p).1.end_to_end_id a e) in
    (
      ap (λ z. z.1) at,
      ap (λ z. z.0.log) at,
      dropped_answer b (process_inbound a sent).0 rb (
          ap (λ z. lookup ℕ_discrete b.hop_by_hop_id z.0.pending) at
          ∙ forgotten a sent b.hop_by_hop_id hb),
    )
