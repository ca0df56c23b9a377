-- ===== src/Peer/Opening.antt =====
-- pkg/core/peer/state_machine.go: the states before a connection is open.
use godiam.Prelude.{ℕ, Option, none, some}
use godiam.Peer.{
  closed, wait_conn_ack, wait_i_cea, wait_conn_ack_elect, wait_returns, r_open, i_open, Event,
  start, r_conn_cer, i_rcv_conn_ack, i_rcv_conn_nack, timeout, i_rcv_cea, i_rcv_non_cea,
  i_peer_disc, r_peer_disc, win_election, Error, non_cea, EventMessage, initiate_connection,
  read_loop_i, read_loop_r, write_loop, Peer, World,
}
use godiam.Peer.Connect.{
  go, set_state, accept_responder, close_i_conn, close_r_conn, close_conn, start_timeout,
  stop_timeout, start_watchdog, set_pending_cer, reset_conn_done, error_cleanup, schedule_reconnect,
  perform_election,
}
use godiam.Peer.Send.{result_success, result_unable_to_comply}
use godiam.Peer.Messages.{send_cer, send_cea}
use godiam.Peer.Capabilities.{process_cer, process_cea, reject_code}

-- `rejectConnection`: a CEA with the error's code, then the connection is closed.
unfoldable pub reject_connection : World → EventMessage → ℕ → Peer → Peer
unfolding close_conn
reject_connection w ev code p = close_conn ev.conn (send_cea w ev.conn ev.msg code p).0

-- What the state R-Open is entered with.
abbrev pub enter_r_open : Peer → Peer
enter_r_open p = go write_loop (go read_loop_r (start_watchdog (set_state r_open p)))

-- The common start on R-Conn-CER: accept the connection and process the CER. `inl` is the error.
unfoldable pub accept_cer : World → EventMessage → Peer → Peer × Option Error
unfolding accept_responder reject_connection process_cer reject_code
accept_cer w ev p =
    let (q, busy) = accept_responder ev.conn p in
    elim busy [
      | some e ↦ (reject_connection w ev result_unable_to_comply q, some e)
      | none ↦
          (let (q2, refused) = process_cer ev.msg q in
            elim refused [
              | some e ↦ (reject_connection w ev (reject_code e) q2, some e)
              | none ↦ (q2, none)
            ])
    ]

unfoldable pub closed_r_conn_cer : World → EventMessage → Peer → Peer × Option Error
unfolding accept_cer send_cea close_r_conn set_state start_watchdog reset_conn_done
closed_r_conn_cer w ev p =
    let (q, refused) = accept_cer w ev (reset_conn_done p) in
    elim refused [
      | some e ↦ (q, some e)
      | none ↦
          (let (q2, failed) = send_cea w q.r_conn ev.msg result_success q in
            elim failed [ some e ↦ (close_r_conn q2, some e) | none ↦ (enter_r_open q2, none) ])
    ]

unfoldable pub on_closed : Event → World → EventMessage → Peer → Peer × Option Error
unfolding closed_r_conn_cer start_timeout
on_closed start w ev p =
    (go initiate_connection (start_timeout (set_state wait_conn_ack (reset_conn_done p))), none)
on_closed r_conn_cer w ev p = closed_r_conn_cer w ev p
on_closed _ w ev p = (p, none)

abbrev pub give_up : Option Error → Peer → Peer × Option Error
give_up e p = (set_state closed (error_cleanup p), e)

abbrev pub give_up_and_retry : Option Error → Peer → Peer × Option Error
give_up_and_retry e p = (schedule_reconnect (set_state closed (error_cleanup p)), e)

unfoldable pub wait_conn_ack_ack : World → Peer → Peer × Option Error
unfolding stop_timeout start_timeout send_cer error_cleanup set_state
wait_conn_ack_ack w p =
    let (q, failed) = send_cer w (stop_timeout p) in
    elim failed [
      | some e ↦ give_up (some e) q
      | none ↦ (go read_loop_i (start_timeout (set_state wait_i_cea q)), none)
    ]

-- A second connection while this node is connecting: an accept that fails leaves the responder
-- connection that was there, a CER that fails closes the new one.
unfoldable pub second_conn : World → EventMessage → (Peer → Peer) → Peer → Peer × Option Error
unfolding accept_responder reject_connection process_cer reject_code close_r_conn
second_conn w ev next p =
    let (q, busy) = accept_responder ev.conn p in
    elim busy [
      | some e ↦ (reject_connection w ev result_unable_to_comply q, none)
      | none ↦
          (let (q2, refused) = process_cer ev.msg q in
            elim refused [
              | some e ↦ (close_r_conn (reject_connection w ev (reject_code e) q2), none)
              | none ↦ (next (set_pending_cer ev.msg q2), none)
            ])
    ]

unfoldable pub on_wait_conn_ack : Event → World → EventMessage → Peer → Peer × Option Error
unfolding wait_conn_ack_ack second_conn stop_timeout error_cleanup set_state schedule_reconnect
on_wait_conn_ack i_rcv_conn_ack w ev p = wait_conn_ack_ack w p
on_wait_conn_ack i_rcv_conn_nack w ev p = give_up_and_retry ev.error (stop_timeout p)
on_wait_conn_ack r_conn_cer w ev p = second_conn w ev (set_state wait_conn_ack_elect) p
on_wait_conn_ack timeout w ev p = give_up_and_retry none p
on_wait_conn_ack _ w ev p = (p, none)

unfoldable pub wait_i_cea_cea : EventMessage → Peer → Peer × Option Error
unfolding stop_timeout process_cea error_cleanup set_state start_watchdog
wait_i_cea_cea ev p =
    let (q, failed) = process_cea ev.msg (stop_timeout p) in
    elim failed [
      | some e ↦ give_up (some e) q
      | none ↦ (go write_loop (start_watchdog (set_state i_open q)), none)
    ]

unfoldable pub on_wait_i_cea : Event → World → EventMessage → Peer → Peer × Option Error
unfolding wait_i_cea_cea second_conn error_cleanup set_state schedule_reconnect perform_election
on_wait_i_cea i_rcv_cea w ev p = wait_i_cea_cea ev p
on_wait_i_cea r_conn_cer w ev p =
    second_conn w ev (λ q. perform_election w (set_state wait_returns q)) p
on_wait_i_cea i_peer_disc w ev p = give_up_and_retry none p
on_wait_i_cea i_rcv_non_cea w ev p = give_up_and_retry (some non_cea) p
on_wait_i_cea timeout w ev p = give_up_and_retry none p
on_wait_i_cea _ w ev p = (p, none)

-- R-Snd-CEA with the CER that waited, and R-Open.
unfoldable pub open_responder : World → Peer → Peer × Option Error
unfolding send_cea close_r_conn set_state start_watchdog
open_responder w p =
    let (q, failed) = send_cea w p.r_conn p.pending_cer result_success p in
    elim failed [
      | some e ↦ (set_state closed (close_r_conn q), some e)
      | none ↦ (enter_r_open (set_pending_cer none q), none)
    ]

unfoldable pub elect_ack : World → Peer → Peer × Option Error
unfolding stop_timeout send_cer error_cleanup set_state start_timeout perform_election
elect_ack w p =
    let (q, failed) = send_cer w (stop_timeout p) in
    elim failed [
      | some e ↦ give_up (some e) q
      | none ↦
          (perform_election w (go read_loop_i (start_timeout (set_state wait_returns q))), none)
    ]

unfoldable pub on_wait_conn_ack_elect : Event → World → EventMessage → Peer → Peer × Option Error
unfolding elect_ack open_responder stop_timeout close_r_conn set_state reject_connection
    error_cleanup schedule_reconnect
on_wait_conn_ack_elect i_rcv_conn_ack w ev p = elect_ack w p
on_wait_conn_ack_elect i_rcv_conn_nack w ev p = open_responder w (stop_timeout p)
on_wait_conn_ack_elect r_peer_disc w ev p =
    (set_state wait_conn_ack (set_pending_cer none (close_r_conn p)), none)
on_wait_conn_ack_elect r_conn_cer w ev p = (reject_connection w ev result_unable_to_comply p, none)
on_wait_conn_ack_elect timeout w ev p = give_up_and_retry none p
on_wait_conn_ack_elect _ w ev p = (p, none)

unfoldable pub returns_cea : EventMessage → Peer → Peer × Option Error
unfolding stop_timeout close_r_conn process_cea close_i_conn set_state start_watchdog
returns_cea ev p =
    let (q, failed) = process_cea ev.msg (set_pending_cer none (close_r_conn (stop_timeout p))) in
    elim failed [
      | some e ↦ (set_state closed (close_i_conn q), some e)
      | none ↦ (go write_loop (start_watchdog (set_state i_open q)), none)
    ]

unfoldable pub on_wait_returns : Event → World → EventMessage → Peer → Peer × Option Error
unfolding returns_cea open_responder stop_timeout close_i_conn close_r_conn set_state
    reject_connection error_cleanup schedule_reconnect
on_wait_returns win_election w ev p = open_responder w (close_i_conn (stop_timeout p))
on_wait_returns i_peer_disc w ev p = open_responder w (close_i_conn (stop_timeout p))
on_wait_returns i_rcv_cea w ev p = returns_cea ev p
on_wait_returns r_peer_disc w ev p =
    (set_state wait_i_cea (set_pending_cer none (close_r_conn p)), none)
on_wait_returns r_conn_cer w ev p = (reject_connection w ev result_unable_to_comply p, none)
on_wait_returns timeout w ev p = give_up_and_retry none p
on_wait_returns _ w ev p = (p, none)
