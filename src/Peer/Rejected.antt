-- ===== src/Peer/Rejected.antt =====
-- pkg/core/peer/state_machine.go: a CER that is rejected in the state Closed.
use godiam.Prelude.{ℕ, ◌≡◌, refl, ap, ◌∙◌, Option, none, some, arith, List, [], ◌∷◌, All}
use godiam.Message.{Message}
use godiam.Peer.{closed, r_conn_cer, Error, responder_exists, EventMessage, Peer, Core, World}
use godiam.Peer.Connect.{accept_responder, reset_conn_done}
use godiam.Peer.Capabilities.{process_cer, reject_code}
use godiam.Peer.Send.{result_unable_to_comply}
use godiam.Peer.Opening.{accept_cer, closed_r_conn_cer, on_closed}
use godiam.Peer.Machine.{dispatch, handle_event}
use godiam.Peer.Keeps.{reject_connection-control, process_cer-control}

-- In Closed, an inbound connection goes to `closed_r_conn_cer`.
inbound-at :
    (w : World) (ev : EventMessage) (p : Peer)
    → p.state ≡ closed
    → ev.event ≡ r_conn_cer
    → handle_event w ev p ≡ closed_r_conn_cer w ev p
unfolding handle_event dispatch on_closed
inbound-at w ev p s e = ap (λ t. dispatch t w ev p) s ∙ ap (λ x. on_closed x w ev p) e

busy-refused :
    (w : World) (ev : EventMessage) (p : Peer) (c : ℕ)
    → p.r_conn ≡ some c
    → ((closed_r_conn_cer w ev p).1 ≡ some responder_exists)
      × ((closed_r_conn_cer w ev p).0.control ≡ (reset_conn_done p).control)
unfolding closed_r_conn_cer accept_cer accept_responder reset_conn_done
busy-refused w ev p c h = (
  ground arith,
  (let kept = reject_connection-control w ev result_unable_to_comply (reset_conn_done p) in
      ground (arith, kept)),
)

process_cer-again :
    (m : Option Message) (p : Peer) (c : Core)
    → (process_cer m (record p { control = c })).1 ≡ (process_cer m p).1
unfolding process_cer
process_cer-again none p c = refl
process_cer-again (some m) p c = ground arith

accept_cer-rejected :
    (w : World) (ev : EventMessage) (p : Peer) (e : Error)
    → p.r_conn ≡ none
    → (process_cer ev.msg p).1 ≡ some e
    → ((accept_cer w ev p).1 ≡ some e)
      × ((accept_cer w ev p).0.control ≡ record p.control { r_conn = ev.conn })
unfolding accept_cer accept_responder
accept_cer-rejected w ev p e n x =
    let q : Peer = record p { control = record p.control { r_conn = ev.conn } } in
    let r = process_cer ev.msg q in
    let again = process_cer-again ev.msg p q.control in
    let kept = reject_connection-control w ev (reject_code e) r.0 ∙ process_cer-control ev.msg q in
    (ground (arith, again), ground (arith, again, kept))

closed_r_conn_cer-refused :
    (w : World) (ev : EventMessage) (p : Peer) (e : Error)
    → (accept_cer w ev (reset_conn_done p)).1 ≡ some e
    → closed_r_conn_cer w ev p ≡ ((accept_cer w ev (reset_conn_done p)).0, some e)
unfolding closed_r_conn_cer
closed_r_conn_cer-refused w ev p e h = ground arith

rejected_cer-kept :
    (w : World) (ev : EventMessage) (p : Peer) (c : ℕ) (e : Error)
    → p.state ≡ closed
    → p.r_conn ≡ none
    → ev.conn ≡ some c
    → (process_cer ev.msg p).1 ≡ some e
    → ((closed_r_conn_cer w ev p).1 ≡ some e)
      × ((closed_r_conn_cer w ev p).0.state ≡ closed)
      × ((closed_r_conn_cer w ev p).0.r_conn ≡ some c)
unfolding reset_conn_done
rejected_cer-kept w ev p c e s n h x =
    let q = reset_conn_done p in
    let r = accept_cer-rejected w ev q e n (process_cer-again ev.msg p q.control ∙ x) in
    let out = closed_r_conn_cer-refused w ev p e r.0 in
    (
      ap (λ z. z.1) out,
      ap (λ z. z.0.state) out ∙ ap (λ z. z.state) r.1 ∙ s,
      ap (λ z. z.0.r_conn) out ∙ ap (λ z. z.r_conn) r.1 ∙ h,
    )

-- A peer in Closed whose responder slot is taken.
abbrev IsBlocked : ℕ → Peer → Type 0
IsBlocked c p = (p.state ≡ closed) × (p.r_conn ≡ some c)

blocked :
    (w : World) (ev : EventMessage) (p : Peer) (c : ℕ)
    → ev.event ≡ r_conn_cer
    → IsBlocked c p
    → ((handle_event w ev p).1 ≡ some responder_exists) × IsBlocked c (handle_event w ev p).0
unfolding reset_conn_done
blocked w ev p c r (s, k) =
    let at = inbound-at w ev p s r in
    let busy = busy-refused w ev p c k in
    (
      ap (λ z. z.1) at ∙ busy.0,
      (
        ap (λ z. z.0.state) at ∙ ap (λ z. z.state) busy.1 ∙ s,
        ap (λ z. z.0.r_conn) at ∙ ap (λ z. z.r_conn) busy.1 ∙ k,
      ),
    )

-- Connections that come in one after the other.
unfoldable pub arrive : World → List EventMessage → Peer → Peer
arrive w [] p = p
arrive w (ev ∷ evs) p = arrive w evs (handle_event w ev p).0

arrive-IsBlocked :
    (w : World) (evs : List EventMessage) (p : Peer) (c : ℕ)
    → All (λ (e : EventMessage). e.event ≡ r_conn_cer) evs
    → IsBlocked c p
    → IsBlocked c (arrive w evs p)
unfolding arrive
arrive-IsBlocked w [] p c h b = b
arrive-IsBlocked w (ev ∷ evs) p c h b =
    arrive-IsBlocked w evs (handle_event w ev p).0 c h.1 (blocked w ev p c h.0 b).1

-- A CER that fails in Closed while no responder connection is there, for any reason and also by the
-- accept policy, leaves its closed connection in the responder slot: the peer stays in Closed with
-- the slot taken, and of any number of inbound connections after it, each is turned away with the
-- error that a responder connection exists.
pub rejected_cer-blocks :
    (w w2 : World) (ev ev2 : EventMessage) (evs : List EventMessage) (p : Peer) (c : ℕ) (e : Error)
    → p.state ≡ closed
    → p.r_conn ≡ none
    → ev.event ≡ r_conn_cer
    → ev.conn ≡ some c
    → (process_cer ev.msg p).1 ≡ some e
    → All (λ (x : EventMessage). x.event ≡ r_conn_cer) evs
    → ev2.event ≡ r_conn_cer
    → let q = arrive w2 evs (handle_event w ev p).0 in
      ((handle_event w ev p).1 ≡ some e)
      × (q.state ≡ closed)
      × (q.r_conn ≡ some c)
      × ((handle_event w2 ev2 q).1 ≡ some responder_exists)
rejected_cer-blocks w w2 ev ev2 evs p c e s n r h x l r2 =
    let at = inbound-at w ev p s r in
    let kept = rejected_cer-kept w ev p c e s n h x in
    let after =
      arrive-IsBlocked w2 evs (handle_event w ev p).0 c l
        (ap (λ z. z.0.state) at ∙ kept.1, ap (λ z. z.0.r_conn) at ∙ kept.2) in
    (
      ap (λ z. z.1) at ∙ kept.0,
      after.0,
      after.1,
      (blocked w2 ev2 (arrive w2 evs (handle_event w ev p).0) c r2 after).0,
    )
