-- ===== src/Peer/InvariantOpening.antt =====
-- pkg/core/peer/state_machine.go: the states before a connection is open keep the invariant.
use godiam.Prelude.{ℕ, ◌≡◌, refl, sym, ap, subst, ◌∙◌, false, Option, none, some, arith}
use godiam.Message.{Message}
use godiam.Peer.{
  closed, wait_conn_ack, wait_i_cea, wait_conn_ack_elect, wait_returns, Event, start, r_conn_cer,
  i_rcv_conn_ack, i_rcv_conn_nack, timeout, i_rcv_cea, i_rcv_non_cea, i_peer_disc, Error,
  EventMessage, Core, Peer, World,
}
use godiam.Peer.Connect.{
  set_state, stop_timeout, start_timeout, start_watchdog, accept_responder, perform_election,
  set_pending_cer, reset_conn_done, close_r_conn,
}
use godiam.Peer.Capabilities.{process_cer, process_cea, reject_code}
use godiam.Peer.Send.{result_success, result_unable_to_comply}
use godiam.Peer.Messages.{send_cer, send_cea}
use godiam.Peer.Opening.{
  enter_r_open, accept_cer, closed_r_conn_cer, on_closed, wait_conn_ack_ack, second_conn,
  on_wait_conn_ack, wait_i_cea_cea, on_wait_i_cea,
}
use godiam.Peer.Keeps.{
  send_cer-control, send_cea-control, send_cea-conn, process_cer-control, process_cea-control,
  reject_connection-control,
}
use godiam.Peer.Invariant.{
  Timers, IsHeld, In, Inv, Admits, Inv-kept, i-kept, r-kept, cer-kept, watchdog-kept, timeout-kept,
  give_up-Inv, retried-Inv, In-Inv, split, split-Inv,
}

wait_conn_ack_ack-Inv :
    (w : World) (p : Peer)
    → IsHeld p.i_conn
    → In wait_conn_ack p.control
    → Inv (wait_conn_ack_ack w p).0
unfolding wait_conn_ack_ack Inv Timers stop_timeout start_timeout set_state
wait_conn_ack_ack-Inv w p i k =
    split-Inv (send_cer w (stop_timeout p)).1 _ _
      (λ e q. give_up-Inv (some e) (send_cer w (stop_timeout p)).0)
      (λ q.
        let e = send_cer-control w (stop_timeout p) in (i-kept e i, (watchdog-kept e k.0, refl)))

accept_responder-free :
    (conn : Option ℕ) (p : Peer)
    → (accept_responder conn p).1 ≡ none
    → (accept_responder conn p).0.control ≡ record p.control { r_conn = conn }
unfolding accept_responder
accept_responder-free conn p = ground arith

accept_responder-busy :
    (conn : Option ℕ) (p : Peer) (e : Error)
    → (accept_responder conn p).1 ≡ some e
    → (accept_responder conn p).0.control ≡ p.control
unfolding accept_responder
accept_responder-busy conn p e = ground arith

process_cer-IsHeld : (m : Option Message) (p : Peer) → (process_cer m p).1 ≡ none → IsHeld m
unfolding process_cer
process_cer-IsHeld none p h = absurd (ground arith)
process_cer-IsHeld (some m) p h = refl

second_conn-Inv :
    (w : World) (ev : EventMessage) (next : Peer → Peer) (p : Peer)
    → Inv p
    → ((q : Peer) → q.control ≡ record p.control { r_conn = none } → Inv q)
    → ((q : Peer)
        → q.control ≡ record p.control { r_conn = ev.conn; pending_cer = ev.msg }
        → IsHeld ev.msg
        → Inv (next q))
    → Inv (second_conn w ev next p).0
unfolding second_conn close_r_conn
second_conn-Inv w ev next p h drop go =
    let a = accept_responder ev.conn p in
    let c = process_cer ev.msg a.0 in
    split-Inv a.1 _ _
      (λ e k.
        Inv-kept _ p
          (reject_connection-control w ev result_unable_to_comply a.0
            ∙ accept_responder-busy ev.conn p e k)
          h)
      (λ k.
        split-Inv c.1 _ _
          (λ e q. drop _ (
            ap (λ (x : Core). record x { r_conn = none })
              (reject_connection-control w ev (reject_code e) c.0
                ∙ process_cer-control ev.msg a.0
                ∙ accept_responder-free ev.conn p k)))
          (λ q.
            go (set_pending_cer ev.msg c.0)
              (ap (λ (x : Core). record x { pending_cer = ev.msg })
                (process_cer-control ev.msg a.0 ∙ accept_responder-free ev.conn p k))
              (process_cer-IsHeld ev.msg a.0 q)))

-- Entering R-Open with a responder connection.
pub enter_r_open-Inv : (p : Peer) → IsHeld p.r_conn → p.timeout_timer ≡ false → Inv (enter_r_open p)
unfolding Inv Timers set_state start_watchdog
enter_r_open-Inv p r t = (r, (refl, t))

-- Closed, with both timers off.
unfoldable IsIdle : Core → Type 0
unfolding Timers
IsIdle c = (c.state ≡ closed) × Timers c false false

idle-Inv : (p : Peer) → IsIdle p.control → Inv p
unfolding Inv IsIdle
idle-Inv p k = In-Inv closed p k.0 k.1

IsIdle-kept : {a b : Core} → a ≡ b → IsIdle b → IsIdle a
IsIdle-kept e = subst IsIdle (sym e)

accept_cer-IsIdle :
    (w : World) (ev : EventMessage) (p : Peer)
    → IsIdle p.control
    → IsIdle (accept_cer w ev p).0.control
unfolding accept_cer IsIdle Timers
accept_cer-IsIdle w ev p k =
    let a = accept_responder ev.conn p in
    let c = process_cer ev.msg a.0 in
    split (λ r. IsIdle r.0.control) a.1 _ _
      (λ e q.
        IsIdle-kept
          (reject_connection-control w ev result_unable_to_comply a.0
            ∙ accept_responder-busy ev.conn p e q)
          k)
      (λ q.
        let kept = process_cer-control ev.msg a.0 ∙ accept_responder-free ev.conn p q in
        split (λ r. IsIdle r.0.control) c.1 _ _
          (λ e q. IsIdle-kept (reject_connection-control w ev (reject_code e) c.0 ∙ kept) k)
          (λ q. IsIdle-kept kept k))

closed_r_conn_cer-Inv :
    (w : World) (ev : EventMessage) (p : Peer) → IsIdle p.control → Inv (closed_r_conn_cer w ev p).0
unfolding closed_r_conn_cer reset_conn_done IsIdle Timers close_r_conn
closed_r_conn_cer-Inv w ev p k =
    let a = accept_cer w ev (reset_conn_done p) in
    let c = send_cea w a.0.r_conn ev.msg result_success a.0 in
    let idle = accept_cer-IsIdle w ev (reset_conn_done p) k in
    let idle_c = IsIdle-kept (send_cea-control w a.0.r_conn ev.msg result_success a.0) idle in
    split-Inv a.1 _ _ (λ e q. idle-Inv a.0 idle)
      (λ q.
        split-Inv c.1 _ _ (λ e q. idle-Inv (close_r_conn c.0) idle_c)
          (λ q.
            enter_r_open-Inv c.0
              (r-kept (send_cea-control w a.0.r_conn ev.msg result_success a.0)
                (send_cea-conn w a.0.r_conn ev.msg result_success a.0 q))
              idle_c.1.1))

pub on_closed-Inv :
    (e : Event) (w : World) (ev : EventMessage) (p : Peer)
    → p.state ≡ closed
    → Inv p
    → In closed p.control
    → Admits e ev p
    → Inv (on_closed e w ev p).0
unfolding on_closed IsIdle Inv Timers start_timeout set_state reset_conn_done
on_closed-Inv start w ev p s h k a = (k.0, refl)
on_closed-Inv r_conn_cer w ev p s h k a = closed_r_conn_cer-Inv w ev p (s, k)
on_closed-Inv _ w ev p s h k a = h

pub on_wait_conn_ack-Inv :
    (e : Event) (w : World) (ev : EventMessage) (p : Peer)
    → p.state ≡ wait_conn_ack
    → Inv p
    → In wait_conn_ack p.control
    → Admits e ev p
    → Inv (on_wait_conn_ack e w ev p).0
unfolding on_wait_conn_ack Admits Inv Timers set_state
on_wait_conn_ack-Inv i_rcv_conn_ack w ev p s h k a = wait_conn_ack_ack-Inv w p a k
on_wait_conn_ack-Inv i_rcv_conn_nack w ev p s h k a = retried-Inv (stop_timeout p)
on_wait_conn_ack-Inv r_conn_cer w ev p s h k a =
    second_conn-Inv w ev (set_state wait_conn_ack_elect) p h
      (λ q e.
        In-Inv wait_conn_ack q (ap (λ c. c.state) e ∙ s) (watchdog-kept e k.0, timeout-kept e k.1))
      (λ q e m. (r-kept e a, cer-kept e m, (watchdog-kept e k.0, timeout-kept e k.1)))
on_wait_conn_ack-Inv timeout w ev p s h k a = retried-Inv p
on_wait_conn_ack-Inv _ w ev p s h k a = h

wait_i_cea_cea-Inv :
    (ev : EventMessage) (p : Peer) → In wait_i_cea p.control → Inv (wait_i_cea_cea ev p).0
unfolding wait_i_cea_cea Inv Timers stop_timeout start_watchdog set_state
wait_i_cea_cea-Inv ev p k =
    let c = process_cea ev.msg (stop_timeout p) in
    let e = process_cea-control ev.msg (stop_timeout p) in
    split-Inv c.1 _ _ (λ x q. give_up-Inv (some x) c.0)
      (λ q. (i-kept e k.0, (refl, timeout-kept e refl)))

pub on_wait_i_cea-Inv :
    (e : Event) (w : World) (ev : EventMessage) (p : Peer)
    → p.state ≡ wait_i_cea
    → Inv p
    → In wait_i_cea p.control
    → Admits e ev p
    → Inv (on_wait_i_cea e w ev p).0
unfolding on_wait_i_cea Admits Inv Timers set_state perform_election
on_wait_i_cea-Inv i_rcv_cea w ev p s h k a = wait_i_cea_cea-Inv ev p k
on_wait_i_cea-Inv r_conn_cer w ev p s h k a =
    second_conn-Inv w ev (λ q. perform_election w (set_state wait_returns q)) p h
      (λ q e.
        In-Inv wait_i_cea q (ap (λ c. c.state) e ∙ s)
          (i-kept e k.0, (watchdog-kept e k.1.0, timeout-kept e k.1.1)))
      (λ q e m.
        (i-kept e k.0, r-kept e a, cer-kept e m, (watchdog-kept e k.1.0, timeout-kept e k.1.1)))
on_wait_i_cea-Inv i_peer_disc w ev p s h k a = retried-Inv p
on_wait_i_cea-Inv i_rcv_non_cea w ev p s h k a = retried-Inv p
on_wait_i_cea-Inv timeout w ev p s h k a = retried-Inv p
on_wait_i_cea-Inv _ w ev p s h k a = h
