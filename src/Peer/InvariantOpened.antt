-- ===== src/Peer/InvariantOpened.antt =====
-- pkg/core/peer/state_machine.go: the states of an open connection keep the invariant.
use godiam.Prelude.{ℕ, ◌≡◌, refl, sym, subst, true, false, Option, none, some, ite, arith}
use godiam.Message.{Message}
use godiam.Peer.{
  State, closed, r_open, i_open, suspect, State-discrete, Event, r_conn_cer, timeout, i_peer_disc,
  r_peer_disc, i_rcv_dwr, i_rcv_dwa, r_rcv_dwr, r_rcv_dwa, i_rcv_dpr, i_rcv_dpa, r_rcv_dpr,
  r_rcv_dpa, i_rcv_message, r_rcv_message, stop, EventMessage, Core, Peer, World,
}
use godiam.Peer.Connect.{
  set_state, error_cleanup, start_timeout, start_watchdog, stop_watchdog, reset_watchdog,
}
use godiam.Peer.Send.{result_unable_to_comply}
use godiam.Peer.Messages.{send_dwr, send_dwa}
use godiam.Peer.Opening.{reject_connection}
use godiam.Peer.Opened.{
  inbound, back_from_suspect, stop_open, peer_disconnects, watchdog_expired, on_r_open, on_i_open,
  open_again, alive, on_suspect, on_closing, cause_rebooting,
}
use godiam.Peer.Keeps.{
  send_dwr-control, send_dwa-control, send_dpr-control, send_dpa-control, inbound-control,
  reject_connection-control,
}
use godiam.Peer.Invariant.{
  Timers, IsHeld, In, Inv, Inv-kept, watchdog-kept, retried-Inv, give_up-Inv, either,
}

stop_open-Inv : (w : World) (conn : Option ℕ) (p : Peer) → Inv (stop_open w conn p).0
unfolding stop_open Inv set_state start_timeout stop_watchdog
stop_open-Inv w conn p =
    watchdog-kept (send_dpr-control w conn cause_rebooting (stop_watchdog p)) refl

peer_disconnects-Inv :
    (w : World) (conn : Option ℕ) (ev : EventMessage) (p : Peer)
    → Inv (peer_disconnects w conn ev p).0
unfolding peer_disconnects Inv set_state stop_watchdog
peer_disconnects-Inv w conn ev p =
    watchdog-kept (send_dpa-control w conn ev.msg (stop_watchdog p)) refl

suspect-Inv :
    (p : Peer)
    → IsHeld (either p.i_conn p.r_conn)
    → p.timeout_timer ≡ false
    → Inv (start_watchdog (set_state suspect p))
unfolding Inv Timers set_state start_watchdog
suspect-Inv p c t = (c, (refl, t))

watchdog_expired-Inv :
    (w : World) (conn : Peer → Option ℕ) (p : Peer)
    → IsHeld (either p.i_conn p.r_conn)
    → p.timeout_timer ≡ false
    → Inv (watchdog_expired w conn p).0
unfolding watchdog_expired
watchdog_expired-Inv w conn p c t =
    let q = start_watchdog (set_state suspect p) in
    Inv-kept (send_dwr w (conn q) q).0 q (send_dwr-control w (conn q) q) (suspect-Inv p c t)

ite-Inv : {P : Type 0} (d : Dec P) (x y : Peer) → Inv x → Inv y → Inv (ite d x y)
ite-Inv (yes e) x y h k = h
ite-Inv (no e) x y h k = k

back_from_suspect-Inv :
    (s : State) (p : Peer) → Inv p → Inv (set_state s p) → Inv (back_from_suspect s p)
back_from_suspect-Inv s p h k = ite-Inv (State-discrete p.state suspect) _ _ k h

either-left : (a b : Option ℕ) → IsHeld a → IsHeld (either a b)
either-left (some a) b h = refl
either-left none b h = absurd (ground arith)

either-right : (a b : Option ℕ) → IsHeld b → IsHeld (either a b)
either-right (some a) b h = refl
either-right none b h = h

inbound-Inv : (m : Option Message) (p : Peer) → Inv p → Inv (inbound m p).0
inbound-Inv m p h = Inv-kept (inbound m p).0 p (inbound-control m p) h

pub on_r_open-Inv :
    (e : Event) (w : World) (ev : EventMessage) (p : Peer)
    → Inv p
    → In r_open p.control
    → Inv (on_r_open e w ev p).0
unfolding on_r_open reset_watchdog Timers In Inv set_state
on_r_open-Inv r_rcv_message w ev p h k = inbound-Inv ev.msg p h
on_r_open-Inv r_rcv_dwr w ev p h k =
    Inv-kept (send_dwa w p.r_conn ev.msg p).0 p (send_dwa-control w p.r_conn ev.msg p) h
on_r_open-Inv r_rcv_dwa w ev p h k = back_from_suspect-Inv r_open p h k
on_r_open-Inv r_conn_cer w ev p h k =
    Inv-kept (reject_connection w ev result_unable_to_comply p) p
      (reject_connection-control w ev result_unable_to_comply p) h
on_r_open-Inv stop w ev p h k = stop_open-Inv w p.r_conn p
on_r_open-Inv r_rcv_dpr w ev p h k = peer_disconnects-Inv w p.r_conn ev p
on_r_open-Inv r_peer_disc w ev p h k = retried-Inv p
on_r_open-Inv timeout w ev p h k =
    watchdog_expired-Inv w (λ q. q.r_conn) p (either-right p.i_conn p.r_conn k.0) k.1.1
on_r_open-Inv _ w ev p h k = h

pub on_i_open-Inv :
    (e : Event) (w : World) (ev : EventMessage) (p : Peer)
    → Inv p
    → In i_open p.control
    → Inv (on_i_open e w ev p).0
unfolding on_i_open reset_watchdog Timers In Inv set_state
on_i_open-Inv i_rcv_message w ev p h k = inbound-Inv ev.msg p h
on_i_open-Inv i_rcv_dwr w ev p h k =
    Inv-kept (send_dwa w p.i_conn ev.msg p).0 p (send_dwa-control w p.i_conn ev.msg p) h
on_i_open-Inv i_rcv_dwa w ev p h k = back_from_suspect-Inv i_open p h k
on_i_open-Inv r_conn_cer w ev p h k =
    Inv-kept (reject_connection w ev result_unable_to_comply p) p
      (reject_connection-control w ev result_unable_to_comply p) h
on_i_open-Inv stop w ev p h k = stop_open-Inv w p.i_conn p
on_i_open-Inv i_rcv_dpr w ev p h k = peer_disconnects-Inv w p.i_conn ev p
on_i_open-Inv i_peer_disc w ev p h k = retried-Inv p
on_i_open-Inv timeout w ev p h k =
    watchdog_expired-Inv w (λ q. q.i_conn) p (either-left p.i_conn p.r_conn k.0) k.1.1
on_i_open-Inv _ w ev p h k = h

open_again-In :
    (i : Option ℕ) (c : Core)
    → c.i_conn ≡ i
    → IsHeld (either i c.r_conn)
    → Timers c true false
    → In (open_again i) c
unfolding In
open_again-In (some i) c e h t = (subst IsHeld (sym e) refl, t)
open_again-In none c e h t = (h, t)

alive-Inv : (p : Peer) → In suspect p.control → Inv (alive p)
unfolding alive Inv set_state reset_watchdog Timers
alive-Inv p k =
    open_again-In p.i_conn (record p.control { state = open_again p.i_conn }) refl k.0 k.1

pub on_suspect-Inv :
    (e : Event) (w : World) (ev : EventMessage) (p : Peer)
    → Inv p
    → In suspect p.control
    → Inv (on_suspect e w ev p).0
unfolding on_suspect
on_suspect-Inv i_rcv_dwa w ev p h k = alive-Inv p k
on_suspect-Inv r_rcv_dwa w ev p h k = alive-Inv p k
on_suspect-Inv i_rcv_message w ev p h k = inbound-Inv ev.msg (alive p) (alive-Inv p k)
on_suspect-Inv r_rcv_message w ev p h k = inbound-Inv ev.msg (alive p) (alive-Inv p k)
on_suspect-Inv timeout w ev p h k = retried-Inv p
on_suspect-Inv i_peer_disc w ev p h k = retried-Inv p
on_suspect-Inv r_peer_disc w ev p h k = retried-Inv p
on_suspect-Inv _ w ev p h k = h

ended-Inv : (p : Peer) → Inv (set_state closed (error_cleanup p))
ended-Inv p = give_up-Inv none p

pub on_closing-Inv :
    (e : Event) (w : World) (ev : EventMessage) (p : Peer) → Inv p → Inv (on_closing e w ev p).0
unfolding on_closing
on_closing-Inv i_rcv_dpa w ev p h = ended-Inv p
on_closing-Inv r_rcv_dpa w ev p h = ended-Inv p
on_closing-Inv timeout w ev p h = ended-Inv p
on_closing-Inv i_peer_disc w ev p h = ended-Inv p
on_closing-Inv r_peer_disc w ev p h = ended-Inv p
on_closing-Inv _ w ev p h = h
