-- ===== src/Peer/Machine.antt =====
-- pkg/core/peer/state_machine.go: one event, a run over events, and what the read loops post.
use godiam.Prelude.{Bool, true, false, List, [], ◌∷◌, Option, none, ◌==◌, if◌then◌else◌}
use godiam.Message.{Message}
use godiam.Message.Fields.{is_request}
use godiam.Peer.{
  State, closed, wait_conn_ack, wait_i_cea, wait_conn_ack_elect, wait_returns, r_open, i_open,
  closing, suspect, zombie, Event, i_rcv_cer, i_rcv_cea, i_rcv_dwr, i_rcv_dwa, i_rcv_dpr, i_rcv_dpa,
  i_rcv_message, r_rcv_cer, r_rcv_cea, r_rcv_dwr, r_rcv_dwa, r_rcv_dpr, r_rcv_dpa, r_rcv_message,
  Error, EventMessage, Peer, World,
}
use godiam.Peer.Connect.{error_cleanup}
use godiam.Peer.Send.{cmd_capabilities_exchange, cmd_device_watchdog, cmd_disconnect_peer}
use godiam.Peer.Opening.{
  on_closed, on_wait_conn_ack, on_wait_i_cea, on_wait_conn_ack_elect, on_wait_returns,
}
use godiam.Peer.Opened.{on_r_open, on_i_open, on_suspect, on_closing}

unfoldable pub dispatch : State → World → EventMessage → Peer → Peer × Option Error
dispatch closed w ev p = on_closed ev.event w ev p
dispatch wait_conn_ack w ev p = on_wait_conn_ack ev.event w ev p
dispatch wait_i_cea w ev p = on_wait_i_cea ev.event w ev p
dispatch wait_conn_ack_elect w ev p = on_wait_conn_ack_elect ev.event w ev p
dispatch wait_returns w ev p = on_wait_returns ev.event w ev p
dispatch r_open w ev p = on_r_open ev.event w ev p
dispatch i_open w ev p = on_i_open ev.event w ev p
dispatch closing w ev p = on_closing ev.event w ev p
dispatch suspect w ev p = on_suspect ev.event w ev p
dispatch zombie w ev p = (p, none)

-- `handleEvent`
unfoldable pub handle_event : World → EventMessage → Peer → Peer × Option Error
unfolding dispatch
handle_event w ev p = dispatch p.state w ev p

abbrev pub is_zombie : State → Bool
is_zombie zombie = true
is_zombie _ = false

-- The loop of `runStateMachine` over the events that arrive; it ends in Zombie, with a cleanup.
unfoldable pub run : World → List EventMessage → Peer → Peer
run w [] p = p
run w (ev ∷ evs) p =
    let q = (handle_event w ev p).0 in
    let rest = run w evs q in if is_zombie q.state then error_cleanup q else rest

abbrev by_request : Bool → Event → Event → Event
by_request request a b = if request then a else b

unfoldable pub classify_i : Message → Event
classify_i m =
    if m.command_code == cmd_capabilities_exchange
    then by_request (is_request m) i_rcv_cer i_rcv_cea
    else if m.command_code == cmd_device_watchdog
    then by_request (is_request m) i_rcv_dwr i_rcv_dwa
    else if m.command_code == cmd_disconnect_peer
    then by_request (is_request m) i_rcv_dpr i_rcv_dpa
    else i_rcv_message

unfoldable pub classify_r : Message → Event
classify_r m =
    if m.command_code == cmd_capabilities_exchange
    then by_request (is_request m) r_rcv_cer r_rcv_cea
    else if m.command_code == cmd_device_watchdog
    then by_request (is_request m) r_rcv_dwr r_rcv_dwa
    else if m.command_code == cmd_disconnect_peer
    then by_request (is_request m) r_rcv_dpr r_rcv_dpa
    else r_rcv_message
