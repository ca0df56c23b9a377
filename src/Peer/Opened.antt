-- ===== src/Peer/Opened.antt =====
-- pkg/core/peer/state_machine.go: the states of an open connection and its end.
use godiam.Prelude.{ℕ, Option, none, some, ite}
use godiam.Message.{Message}
use godiam.Peer.{
  State, closed, r_open, i_open, closing, suspect, State-discrete, Event, r_conn_cer, timeout,
  i_peer_disc, r_peer_disc, i_rcv_dwr, i_rcv_dwa, r_rcv_dwr, r_rcv_dwa, i_rcv_dpr, i_rcv_dpa,
  r_rcv_dpr, r_rcv_dpa, i_rcv_message, r_rcv_message, stop, Error, nil_dereference, EventMessage,
  Peer, World,
}
use godiam.Peer.Connect.{
  set_state, start_timeout, start_watchdog, stop_watchdog, reset_watchdog, error_cleanup,
  schedule_reconnect,
}
use godiam.Peer.Send.{process_inbound, result_unable_to_comply}
use godiam.Peer.Messages.{send_dwr, send_dwa, send_dpr, send_dpa}
use godiam.Peer.Opening.{reject_connection}

abbrev pub end_and_retry : Peer → Peer × Option Error
end_and_retry p = (schedule_reconnect (set_state closed (error_cleanup p)), none)

-- An application message: the watchdog is set back, and the message delivered if it may be.
unfoldable pub inbound : Option Message → Peer → Peer × Option Error
unfolding reset_watchdog process_inbound
inbound none p = (p, some nil_dereference)
inbound (some m) p = ((process_inbound m (reset_watchdog p)).0, none)

-- `if p.state == StateSuspect`, in a handler that runs in an open state.
abbrev pub back_from_suspect : State → Peer → Peer
back_from_suspect s p = ite (State-discrete p.state suspect) (set_state s p) p

abbrev pub cause_rebooting : ℕ
cause_rebooting = 0

-- The errors of the two sends are dropped.
unfoldable pub stop_open : World → Option ℕ → Peer → Peer × Option Error
unfolding stop_watchdog send_dpr set_state start_timeout
stop_open w conn p =
    (start_timeout (set_state closing (send_dpr w conn cause_rebooting (stop_watchdog p)).0), none)

unfoldable pub peer_disconnects : World → Option ℕ → EventMessage → Peer → Peer × Option Error
unfolding stop_watchdog send_dpa set_state
peer_disconnects w conn ev p =
    (set_state closing (send_dpa w conn ev.msg (stop_watchdog p)).0, none)

-- The watchdog ran out: Suspect, the timer is armed again, and a DWR asks for a sign of life.
unfoldable pub watchdog_expired : World → (Peer → Option ℕ) → Peer → Peer × Option Error
unfolding set_state start_watchdog send_dwr
watchdog_expired w conn p = let q = start_watchdog (set_state suspect p) in send_dwr w (conn q) q

unfoldable pub on_r_open : Event → World → EventMessage → Peer → Peer × Option Error
unfolding inbound reset_watchdog send_dwa set_state reject_connection stop_open peer_disconnects
    error_cleanup schedule_reconnect watchdog_expired
on_r_open r_rcv_message w ev p = inbound ev.msg p
on_r_open r_rcv_dwr w ev p = send_dwa w p.r_conn ev.msg (reset_watchdog p)
on_r_open r_rcv_dwa w ev p = (back_from_suspect r_open (reset_watchdog p), none)
on_r_open r_conn_cer w ev p = (reject_connection w ev result_unable_to_comply p, none)
on_r_open stop w ev p = stop_open w p.r_conn p
on_r_open r_rcv_dpr w ev p = peer_disconnects w p.r_conn ev p
on_r_open r_peer_disc w ev p = end_and_retry p
on_r_open timeout w ev p = watchdog_expired w (λ q. q.r_conn) p
on_r_open _ w ev p = (p, none)

unfoldable pub on_i_open : Event → World → EventMessage → Peer → Peer × Option Error
unfolding inbound reset_watchdog send_dwa set_state reject_connection stop_open peer_disconnects
    error_cleanup schedule_reconnect watchdog_expired
on_i_open i_rcv_message w ev p = inbound ev.msg p
on_i_open i_rcv_dwr w ev p = send_dwa w p.i_conn ev.msg (reset_watchdog p)
on_i_open i_rcv_dwa w ev p = (back_from_suspect i_open (reset_watchdog p), none)
on_i_open r_conn_cer w ev p = (reject_connection w ev result_unable_to_comply p, none)
on_i_open stop w ev p = stop_open w p.i_conn p
on_i_open i_rcv_dpr w ev p = peer_disconnects w p.i_conn ev p
on_i_open i_peer_disc w ev p = end_and_retry p
on_i_open timeout w ev p = watchdog_expired w (λ q. q.i_conn) p
on_i_open _ w ev p = (p, none)

-- I-Open if there is an initiator connection, R-Open if not.
abbrev pub open_again : Option ℕ → State
open_again (some c) = i_open
open_again none = r_open

unfoldable pub alive : Peer → Peer
unfolding set_state reset_watchdog
alive p = reset_watchdog (set_state (open_again p.i_conn) p)

unfoldable pub on_suspect : Event → World → EventMessage → Peer → Peer × Option Error
unfolding alive inbound error_cleanup set_state schedule_reconnect
on_suspect i_rcv_dwa w ev p = (alive p, none)
on_suspect r_rcv_dwa w ev p = (alive p, none)
on_suspect i_rcv_message w ev p = inbound ev.msg (alive p)
on_suspect r_rcv_message w ev p = inbound ev.msg (alive p)
on_suspect timeout w ev p = end_and_retry p
on_suspect i_peer_disc w ev p = end_and_retry p
on_suspect r_peer_disc w ev p = end_and_retry p
on_suspect _ w ev p = (p, none)

unfoldable pub on_closing : Event → World → EventMessage → Peer → Peer × Option Error
unfolding error_cleanup set_state
on_closing i_rcv_dpa w ev p = (set_state closed (error_cleanup p), none)
on_closing r_rcv_dpa w ev p = (set_state closed (error_cleanup p), none)
on_closing timeout w ev p = (set_state closed (error_cleanup p), none)
on_closing i_peer_disc w ev p = (set_state closed (error_cleanup p), none)
on_closing r_peer_disc w ev p = (set_state closed (error_cleanup p), none)
on_closing _ w ev p = (p, none)
