-- ===== src/Peer/Lifecycle.antt =====
-- pkg/core/peer/state_machine.go: how a connection is opened by this node, and how it is stopped.
use godiam.Prelude.{
  ℕ, ◌≡◌, ◌≢◌, refl, sym, ap, subst, ◌∙◌, inl, inr, Bool, true, false, List, ◌∷◌, ◌++◌, Option,
  none, some, arith, Option-cases,
}
use godiam.Message.{Message}
use godiam.Message.Fields.{get_result_code, get_origin_host, get_origin_realm}
use godiam.Peer.{
  closed, wait_conn_ack, wait_i_cea, r_open, i_open, closing, Event, read_loop_i, write_loop, start,
  i_rcv_conn_ack, i_rcv_cea, i_rcv_dpa, r_rcv_dpa, timeout, i_peer_disc, r_peer_disc, stop, Error,
  EventMessage, Core, Peer, World, connected,
}
use godiam.Peer.Connect.{
  go, event_only, set_state, error_cleanup, start_timeout, stop_timeout, start_watchdog,
  stop_watchdog, reset_conn_done, close_i_conn, close_r_conn, clear_pending, close_conn_done,
  dial_peer,
}
use godiam.Peer.Send.{result_success}
use godiam.Peer.Messages.{send_cer}
use godiam.Peer.Capabilities.{process_cea, identified}
use godiam.Peer.Opening.{
  on_closed, on_wait_conn_ack, wait_conn_ack_ack, on_wait_i_cea, wait_i_cea_cea,
}
use godiam.Peer.Opened.{on_r_open, on_i_open, stop_open, on_closing}
use godiam.Peer.Machine.{dispatch, handle_event}
use godiam.Peer.Keeps.{send_cer-control}
use godiam.Peer.Dialling.{AllRefused, dial_peer-first}
use godiam.Peer.Watchdog.{IsOpen, IsDown, at_state}

none_ne_some : {A : Type 0} {a : A} → none ≢ some a
none_ne_some h = absurd (ground arith)

start-control :
    (w : World) (p : Peer)
    → p.state ≡ closed
    → ((handle_event w (event_only start) p).0.control
        ≡ record p.control { state = wait_conn_ack; timeout_timer = true; conn_done = false })
      × ((handle_event w (event_only start) p).0.config ≡ p.config)
unfolding dispatch on_closed set_state start_timeout reset_conn_done
start-control w p s =
    let at = at_state w (event_only start) p closed s in
    (ap (λ z. z.0.control) at, ap (λ z. z.0.config) at)

cer-sent :
    (w : World) (p : Peer)
    → (send_cer w (stop_timeout p)).1 ≡ none
    → wait_conn_ack_ack w p ≡ (
      go read_loop_i (start_timeout (set_state wait_i_cea (send_cer w (stop_timeout p)).0)),
      none,
    )
unfolding wait_conn_ack_ack
cer-sent w p h = ground arith

cer-failed :
    (w : World) (p : Peer) (e : Error)
    → (send_cer w (stop_timeout p)).1 ≡ some e
    → (wait_conn_ack_ack w p).1 ≡ some e
unfolding wait_conn_ack_ack
cer-failed w p e h = ground arith

-- The CER went out.
acknowledged :
    (w : World) (p : Peer)
    → (wait_conn_ack_ack w p).1 ≡ none
    → (wait_conn_ack_ack w p).0.control
      ≡ record p.control { state = wait_i_cea; timeout_timer = true }
unfolding stop_timeout start_timeout set_state
acknowledged w p h = elim (Option-cases (send_cer w (stop_timeout p)).1) [
  | inl e ↦
      ap (λ z. z.0.control) (cer-sent w p e)
      ∙ ap (λ (c : Core). record c { state = wait_i_cea; timeout_timer = true })
          (send_cer-control w (stop_timeout p))
  | inr (e, x) ↦ absurd (none_ne_some (sym h ∙ cer-failed w p e x))
]

ack-control :
    (w : World) (p : Peer)
    → p.state ≡ wait_conn_ack
    → (handle_event w (event_only i_rcv_conn_ack) p).1 ≡ none
    → (handle_event w (event_only i_rcv_conn_ack) p).0.control
      ≡ record p.control { state = wait_i_cea; timeout_timer = true }
unfolding dispatch on_wait_conn_ack
ack-control w p s h =
    let at = at_state w (event_only i_rcv_conn_ack) p wait_conn_ack s in
    ap (λ z. z.0.control) at ∙ acknowledged w p (sym (ap (λ z. z.1) at) ∙ h)

process_cea-success :
    (m : Message) (host realm : List ℕ) (p : Peer)
    → get_result_code m ≡ some result_success
    → get_origin_host m ≡ some host
    → get_origin_realm m ≡ some realm
    → process_cea (some m) p ≡ (identified host realm p, none)
unfolding process_cea
process_cea-success m host realm p c h r = ground arith

cea-accepted :
    (ev : EventMessage) (p q : Peer)
    → process_cea ev.msg (stop_timeout p) ≡ (q, none)
    → wait_i_cea_cea ev p ≡ (go write_loop (start_watchdog (set_state i_open q)), none)
unfolding wait_i_cea_cea
cea-accepted ev p q h = ground (arith, h)

cea-opens :
    (m : Message) (host realm : List ℕ) (ev : EventMessage) (p : Peer)
    → ev.msg ≡ some m
    → get_result_code m ≡ some result_success
    → get_origin_host m ≡ some host
    → get_origin_realm m ≡ some realm
    → ((wait_i_cea_cea ev p).0.control
        ≡ record p.control { state = i_open; watchdog_timer = true; timeout_timer = false })
      × ((wait_i_cea_cea ev p).0.diameter_id ≡ host)
unfolding stop_timeout set_state start_watchdog
cea-opens m host realm ev p e c h r =
    let q = identified host realm (stop_timeout p) in
    let at = cea-accepted ev p q (
      ap (λ x. process_cea x (stop_timeout p)) e
      ∙ process_cea-success m host realm (stop_timeout p) c h r) in
    (ap (λ z. z.0.control) at, ap (λ z. z.0.diameter_id) at)

cea-control :
    (w : World) (m : Message) (host realm : List ℕ) (ev : EventMessage) (p : Peer)
    → p.state ≡ wait_i_cea
    → ev.event ≡ i_rcv_cea
    → ev.msg ≡ some m
    → get_result_code m ≡ some result_success
    → get_origin_host m ≡ some host
    → get_origin_realm m ≡ some realm
    → ((handle_event w ev p).0.control
        ≡ record p.control { state = i_open; watchdog_timer = true; timeout_timer = false })
      × ((handle_event w ev p).0.diameter_id ≡ host)
unfolding dispatch on_wait_i_cea
cea-control w m host realm ev p s v e c h r =
    let at = at_state w ev p wait_i_cea s ∙ ap (λ x. on_wait_i_cea x w ev p) v in
    let done = cea-opens m host realm ev p e c h r in
    (ap (λ z. z.0.control) at ∙ done.0, ap (λ z. z.0.diameter_id) at ∙ done.1)

-- A closed peer that is started is connected: if an address takes the connection after the ones
-- before it refused, the step that sends the CER returns no error, and the CEA is a success and
-- names host and realm, then the four steps end in I-Open on that connection, with the watchdog set,
-- the timeout timer stopped, and the peer known by the host of the CEA.
pub start-opens :
    (w : World) (p : Peer) (l rest : List (List ℕ)) (a : List ℕ) (c : ℕ) (cea : EventMessage)
    (m : Message) (host realm : List ℕ)
    → p.state ≡ closed
    → p.config.addresses ≡ l ++ a ∷ rest
    → AllRefused w l
    → w.dial a ≡ connected c
    → let dialled = dial_peer w (handle_event w (event_only start) p).0 in
      (handle_event w (event_only i_rcv_conn_ack) dialled).1 ≡ none
      → cea.event ≡ i_rcv_cea
      → cea.msg ≡ some m
      → get_result_code m ≡ some result_success
      → get_origin_host m ≡ some host
      → get_origin_realm m ≡ some realm
      → let waiting = (handle_event w (event_only i_rcv_conn_ack) dialled).0 in
        let q = (handle_event w cea waiting).0 in
        (q.state ≡ i_open)
        × (q.i_conn ≡ some c)
        × (q.watchdog_timer ≡ true)
        × (q.timeout_timer ≡ false)
        × (q.diameter_id ≡ host)
start-opens w p l rest a c cea m host realm s e ref d sent v g rc oh or =
    let p1 = (handle_event w (event_only start) p).0 in
    let first = start-control w p s in
    let dial = dial_peer-first w p1 l rest a c (ap (λ k. k.addresses) first.1 ∙ e) ref d in
    let p2 = dial_peer w p1 in
    let p3 = (handle_event w (event_only i_rcv_conn_ack) p2).0 in
    let second = ack-control w p2 (dial.2 ∙ ap (λ k. k.state) first.0) sent in
    let last = cea-control w m host realm cea p3 (ap (λ k. k.state) second) v g rc oh or in
    (
      ap (λ k. k.state) last.0,
      ap (λ k. k.i_conn) last.0 ∙ ap (λ k. k.i_conn) second ∙ dial.0,
      ap (λ k. k.watchdog_timer) last.0,
      ap (λ k. k.timeout_timer) last.0,
      last.1,
    )

stop_open-state : (w : World) (conn : Option ℕ) (p : Peer) → (stop_open w conn p).0.state ≡ closing
unfolding stop_open set_state start_timeout
stop_open-state w conn p = refl

stop-closing :
    (w : World) (ev : EventMessage) (p : Peer)
    → IsOpen p.state
    → ev.event ≡ stop
    → (handle_event w ev p).0.state ≡ closing
unfolding IsOpen dispatch on_r_open on_i_open
stop-closing w ev p (inl s) e =
    ap (λ z. z.0.state) (at_state w ev p r_open s ∙ ap (λ x. on_r_open x w ev p) e)
    ∙ stop_open-state w p.r_conn p
stop-closing w ev p (inr s) e =
    ap (λ z. z.0.state) (at_state w ev p i_open s ∙ ap (λ x. on_i_open x w ev p) e)
    ∙ stop_open-state w p.i_conn p

-- What ends the state Closing.
abbrev pub ends_closing : Event → Bool
ends_closing i_rcv_dpa = true
ends_closing r_rcv_dpa = true
ends_closing timeout = true
ends_closing i_peer_disc = true
ends_closing r_peer_disc = true
ends_closing _ = false

on_closing-end :
    (e : Event) (w : World) (ev : EventMessage) (p : Peer)
    → ends_closing e ≡ true
    → on_closing e w ev p ≡ (set_state closed (error_cleanup p), none)
unfolding on_closing
on_closing-end i_rcv_dpa w ev p h = refl
on_closing-end r_rcv_dpa w ev p h = refl
on_closing-end timeout w ev p h = refl
on_closing-end i_peer_disc w ev p h = refl
on_closing-end r_peer_disc w ev p h = refl
on_closing-end _ w ev p h = absurd (ground arith)

cleaned-IsDown :
    (p : Peer)
    → IsDown (set_state closed (error_cleanup p))
      × ((set_state closed (error_cleanup p)).state ≡ closed)
unfolding IsDown set_state error_cleanup stop_timeout stop_watchdog close_i_conn close_r_conn
    clear_pending close_conn_done
cleaned-IsDown p = ((refl, refl, refl, refl, refl, refl, refl), refl)

-- A peer with an open connection that is stopped goes down with the next DPA, timeout or end of a
-- connection, whether or not its DPR could be sent: it is Closed then, with no connection, no
-- pending request and no timer.
pub stopped-IsDown :
    (w w2 : World) (ev ev2 : EventMessage) (p : Peer)
    → IsOpen p.state
    → ev.event ≡ stop
    → ends_closing ev2.event ≡ true
    → let q = (handle_event w2 ev2 (handle_event w ev p).0).0 in IsDown q × (q.state ≡ closed)
unfolding dispatch
stopped-IsDown w w2 ev ev2 p o e e2 =
    let m = (handle_event w ev p).0 in
    let at =
      ap (λ z. z.0)
        (at_state w2 ev2 m closing (stop-closing w ev p o e)
          ∙ on_closing-end ev2.event w2 ev2 m e2) in
    let down = cleaned-IsDown m in (subst IsDown (sym at) down.0, ap (λ z. z.state) at ∙ down.1)
