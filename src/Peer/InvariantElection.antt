-- ===== src/Peer/InvariantElection.antt =====
-- pkg/core/peer/state_machine.go: the states with a connection on each side keep the invariant.
use godiam.Prelude.{◌≡◌, refl, false, none, some}
use godiam.Peer.{
  wait_conn_ack_elect, wait_returns, Event, r_conn_cer, i_rcv_conn_ack, i_rcv_conn_nack, timeout,
  i_rcv_cea, i_peer_disc, r_peer_disc, win_election, EventMessage, Peer, World,
}
use godiam.Peer.Connect.{
  set_state, stop_timeout, start_timeout, start_watchdog, perform_election, set_pending_cer,
  close_i_conn, close_r_conn,
}
use godiam.Peer.Capabilities.{process_cea}
use godiam.Peer.Send.{result_success, result_unable_to_comply}
use godiam.Peer.Messages.{send_cer, send_cea}
use godiam.Peer.Opening.{
  reject_connection, open_responder, elect_ack, on_wait_conn_ack_elect, returns_cea,
  on_wait_returns,
}
use godiam.Peer.Keeps.{
  send_cer-control, send_cea-control, send_cea-conn, process_cea-control, reject_connection-control,
}
use godiam.Peer.Invariant.{
  Timers, IsHeld, In, Inv, Admits, Inv-kept, i-kept, r-kept, cer-kept, watchdog-kept, timeout-kept,
  give_up-Inv, retried-Inv, split-Inv,
}
use godiam.Peer.InvariantOpening.{enter_r_open-Inv}

open_responder-Inv :
    (w : World) (p : Peer) → Timers p.control false false → Inv (open_responder w p).0
unfolding open_responder Inv Timers set_state close_r_conn
open_responder-Inv w p k =
    let c = send_cea w p.r_conn p.pending_cer result_success p in
    let e = send_cea-control w p.r_conn p.pending_cer result_success p in
    split-Inv c.1 _ _ (λ x q. (watchdog-kept e k.0, timeout-kept e k.1))
      (λ q.
        enter_r_open-Inv (set_pending_cer none c.0)
          (r-kept e (send_cea-conn w p.r_conn p.pending_cer result_success p q))
          (timeout-kept e k.1))

elect_ack-Inv :
    (w : World) (p : Peer)
    → IsHeld p.i_conn
    → In wait_conn_ack_elect p.control
    → Inv (elect_ack w p).0
unfolding elect_ack Inv Timers stop_timeout start_timeout set_state perform_election
elect_ack-Inv w p i k =
    let e = send_cer-control w (stop_timeout p) in
    split-Inv (send_cer w (stop_timeout p)).1 _ _
      (λ x q. give_up-Inv (some x) (send_cer w (stop_timeout p)).0)
      (λ q. (i-kept e i, r-kept e k.0, cer-kept e k.1, (watchdog-kept e k.2.0, refl)))

pub on_wait_conn_ack_elect-Inv :
    (e : Event) (w : World) (ev : EventMessage) (p : Peer)
    → p.state ≡ wait_conn_ack_elect
    → Inv p
    → In wait_conn_ack_elect p.control
    → Admits e ev p
    → Inv (on_wait_conn_ack_elect e w ev p).0
unfolding on_wait_conn_ack_elect Admits Inv Timers set_state stop_timeout close_r_conn
on_wait_conn_ack_elect-Inv i_rcv_conn_ack w ev p s h k a = elect_ack-Inv w p a k
on_wait_conn_ack_elect-Inv i_rcv_conn_nack w ev p s h k a =
    open_responder-Inv w (stop_timeout p) (k.2.0, refl)
on_wait_conn_ack_elect-Inv r_peer_disc w ev p s h k a = k.2
on_wait_conn_ack_elect-Inv r_conn_cer w ev p s h k a =
    Inv-kept (reject_connection w ev result_unable_to_comply p) p
      (reject_connection-control w ev result_unable_to_comply p) h
on_wait_conn_ack_elect-Inv timeout w ev p s h k a = retried-Inv p
on_wait_conn_ack_elect-Inv _ w ev p s h k a = h

returns_cea-Inv :
    (ev : EventMessage) (p : Peer) → In wait_returns p.control → Inv (returns_cea ev p).0
unfolding returns_cea Inv Timers stop_timeout start_watchdog set_state close_r_conn close_i_conn
returns_cea-Inv ev p k =
    let q = set_pending_cer none (close_r_conn (stop_timeout p)) in
    let e = process_cea-control ev.msg q in
    split-Inv (process_cea ev.msg q).1 _ _ (λ x y. (watchdog-kept e k.3.0, timeout-kept e refl))
      (λ y. (i-kept e k.0, (refl, timeout-kept e refl)))

pub on_wait_returns-Inv :
    (e : Event) (w : World) (ev : EventMessage) (p : Peer)
    → p.state ≡ wait_returns
    → Inv p
    → In wait_returns p.control
    → Admits e ev p
    → Inv (on_wait_returns e w ev p).0
unfolding on_wait_returns Inv Timers set_state stop_timeout close_i_conn close_r_conn
on_wait_returns-Inv win_election w ev p s h k a =
    open_responder-Inv w (close_i_conn (stop_timeout p)) (k.3.0, refl)
on_wait_returns-Inv i_peer_disc w ev p s h k a =
    open_responder-Inv w (close_i_conn (stop_timeout p)) (k.3.0, refl)
on_wait_returns-Inv i_rcv_cea w ev p s h k a = returns_cea-Inv ev p k
on_wait_returns-Inv r_peer_disc w ev p s h k a = (k.0, k.3)
on_wait_returns-Inv r_conn_cer w ev p s h k a =
    Inv-kept (reject_connection w ev result_unable_to_comply p) p
      (reject_connection-control w ev result_unable_to_comply p) h
on_wait_returns-Inv timeout w ev p s h k a = retried-Inv p
on_wait_returns-Inv _ w ev p s h k a = h
