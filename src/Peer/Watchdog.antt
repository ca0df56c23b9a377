-- ===== src/Peer/Watchdog.antt =====
-- pkg/core/peer/state_machine.go: the watchdog finds a dead peer, and a sign of life brings the
-- connection back.
use godiam.Prelude.{
  ℕ, ◌≡◌, ◌⊎◌, inl, inr, refl, sym, ap, subst, ◌∙◌, Bool, true, false, List, [], Option, none, some,
  if◌then◌else◌, arith,
}
use godiam.Message.{Message, Result, ok, err, stuck}
use godiam.Message.Encode.{encode}
use godiam.Peer.{
  State, closed, r_open, i_open, suspect, zombie, Event, timeout, i_rcv_dwa, r_rcv_dwa,
  EventMessage, Core, Peer, World,
}
use godiam.Peer.Connect.{
  set_state, error_cleanup, schedule_reconnect, start_watchdog, reset_watchdog, stop_timeout,
  stop_watchdog, close_i_conn, close_r_conn, clear_pending, close_conn_done,
}
use godiam.Peer.Send.{prepare, write_bytes, send_on_conn, next_hop_by_hop_id, next_end_to_end_id}
use godiam.Peer.Messages.{send_dwr}
use godiam.Peer.Opened.{
  watchdog_expired, end_and_retry, on_r_open, on_i_open, on_suspect, alive, open_again,
}
use godiam.Peer.Machine.{dispatch, handle_event}
use godiam.Peer.Keeps.{is_some, send_dwr-control}

prepare-config : (m : Message) (p : Peer) → (prepare m p).0.config ≡ p.config
unfolding prepare
prepare-config m p = ground arith

write_bytes-config :
    (w : World) (c : ℕ) (m : Message) (r : Result (List ℕ)) (p : Peer)
    → (write_bytes w c m r p).0.config ≡ p.config
unfolding write_bytes
write_bytes-config w c m (ok b) p = ground arith
write_bytes-config w c m (err e) p = refl
write_bytes-config w c m stuck p = refl

send_on_conn-config :
    (w : World) (conn : Option ℕ) (m : Message) (p : Peer)
    → (send_on_conn w conn m p).0.config ≡ p.config
unfolding send_on_conn
send_on_conn-config w none m p = refl
send_on_conn-config w (some c) m p =
    write_bytes-config w c (prepare m p).1 (encode w.pools (prepare m p).1) (prepare m p).0
    ∙ prepare-config m p

send_dwr-config : (w : World) (conn : Option ℕ) (p : Peer) → (send_dwr w conn p).0.config ≡ p.config
unfolding send_dwr next_hop_by_hop_id next_end_to_end_id
send_dwr-config w conn p =
    send_on_conn-config w conn _ (next_end_to_end_id (next_hop_by_hop_id p).0).0

-- The two states of an open connection.
unfoldable pub IsOpen : State → Type 0
IsOpen s = (s ≡ r_open) ⊎ (s ≡ i_open)

-- What a timeout makes of an open connection.
abbrev suspected : Peer → Core
suspected p = record p.control { state = suspect; watchdog_timer = true }

expired-control :
    (w : World) (conn : Peer → Option ℕ) (p : Peer)
    → (watchdog_expired w conn p).0.control ≡ suspected p
unfolding watchdog_expired set_state start_watchdog
expired-control w conn p =
    let q = start_watchdog (set_state suspect p) in send_dwr-control w (conn q) q

expired-config :
    (w : World) (conn : Peer → Option ℕ) (p : Peer)
    → (watchdog_expired w conn p).0.config ≡ p.config
unfolding watchdog_expired set_state start_watchdog
expired-config w conn p =
    let q = start_watchdog (set_state suspect p) in send_dwr-config w (conn q) q

-- One event in a known state.
pub at_state :
    (w : World) (ev : EventMessage) (p : Peer) (s : State)
    → p.state ≡ s
    → handle_event w ev p ≡ dispatch s w ev p
unfolding handle_event
at_state w ev p s h = ap (λ t. dispatch t w ev p) h

open-timeout :
    (w : World) (ev : EventMessage) (p : Peer)
    → IsOpen p.state
    → ev.event ≡ timeout
    → ((handle_event w ev p).0.control ≡ suspected p) × ((handle_event w ev p).0.config ≡ p.config)
unfolding IsOpen dispatch on_r_open on_i_open
open-timeout w ev p (inl s) e =
    let at = at_state w ev p r_open s ∙ ap (λ x. on_r_open x w ev p) e in
    (
      ap (λ z. z.0.control) at ∙ expired-control w (λ q. q.r_conn) p,
      ap (λ z. z.0.config) at ∙ expired-config w (λ q. q.r_conn) p,
    )
open-timeout w ev p (inr s) e =
    let at = at_state w ev p i_open s ∙ ap (λ x. on_i_open x w ev p) e in
    (
      ap (λ z. z.0.control) at ∙ expired-control w (λ q. q.i_conn) p,
      ap (λ z. z.0.config) at ∙ expired-config w (λ q. q.i_conn) p,
    )

-- A connection that is gone: nothing open, no timer, no request that waits.
unfoldable pub IsDown : Peer → Type 0
IsDown p =
    (p.i_conn ≡ none)
    × (p.r_conn ≡ none)
    × (p.pending_cer ≡ none)
    × (p.pending ≡ [])
    × (p.watchdog_timer ≡ false)
    × (p.timeout_timer ≡ false)
    × (p.conn_done ≡ true)

abbrev pub after_failure : Bool → State
after_failure persistent = if persistent then closed else zombie

either-IsDown :
    (b : Bool) (x y : Peer)
    → IsDown x
    → IsDown y
    → x.state ≡ closed
    → y.state ≡ zombie
    → IsDown (if b then x else y) × ((if b then x else y).state ≡ after_failure b)
either-IsDown true x y h k s t = (h, s)
either-IsDown false x y h k s t = (k, t)

retry-IsDown :
    (p : Peer)
    → IsDown (end_and_retry p).0 × ((end_and_retry p).0.state ≡ after_failure p.config.persistent)
unfolding IsDown error_cleanup schedule_reconnect set_state stop_timeout stop_watchdog close_i_conn
    close_r_conn clear_pending close_conn_done
retry-IsDown p =
    either-IsDown p.config.persistent _ _ (refl, refl, refl, refl, refl, refl, refl)
      (refl, refl, refl, refl, refl, refl, refl) refl refl

suspect-timeout :
    (w : World) (ev : EventMessage) (p : Peer)
    → p.state ≡ suspect
    → ev.event ≡ timeout
    → handle_event w ev p ≡ end_and_retry p
unfolding dispatch on_suspect
suspect-timeout w ev p s e = at_state w ev p suspect s ∙ ap (λ x. on_suspect x w ev p) e

-- A peer that stays silent is given up: two timeouts in a row in an open state close both
-- connections, drop the pending requests and stop the timers; the peer is Closed if it is
-- persistent, and Zombie if it is not.
pub silent_peer-IsDown :
    (w w2 : World) (ev ev2 : EventMessage) (p : Peer)
    → IsOpen p.state
    → ev.event ≡ timeout
    → ev2.event ≡ timeout
    → let q = (handle_event w2 ev2 (handle_event w ev p).0).0 in
      IsDown q × (q.state ≡ after_failure p.config.persistent)
silent_peer-IsDown w w2 ev ev2 p o e e2 =
    let m = (handle_event w ev p).0 in
    let first = open-timeout w ev p o e in
    let at = ap (λ z. z.0) (suspect-timeout w2 ev2 m (ap (λ c. c.state) first.0) e2) in
    let down = retry-IsDown m in
    (
      subst IsDown (sym at) down.0,
      ap (λ z. z.state) at ∙ down.1 ∙ ap (λ c. after_failure c.persistent) first.1,
    )

-- The side on which an open connection is, and the answer to a watchdog request there.
unfoldable pub IsOn : State → Peer → Type 0
IsOn i_open p = (p.state ≡ i_open) × (is_some p.i_conn ≡ true)
IsOn r_open p = (p.state ≡ r_open) × (p.i_conn ≡ none)
IsOn _ p = ⊥

abbrev is_dwa : Event → Bool
is_dwa i_rcv_dwa = true
is_dwa r_rcv_dwa = true
is_dwa _ = false

on_suspect-dwa :
    (e : Event) (w : World) (ev : EventMessage) (p : Peer)
    → is_dwa e ≡ true
    → on_suspect e w ev p ≡ (alive p, none)
unfolding on_suspect
on_suspect-dwa i_rcv_dwa w ev p h = refl
on_suspect-dwa r_rcv_dwa w ev p h = refl
on_suspect-dwa _ w ev p h = absurd (ground arith)

IsOn-IsOpen : (s : State) (p : Peer) → IsOn s p → IsOpen p.state
unfolding IsOn IsOpen
IsOn-IsOpen i_open p h = inr h.0
IsOn-IsOpen r_open p h = inl h.0
IsOn-IsOpen _ p h = absurd h

open_again-held : (i : Option ℕ) → is_some i ≡ true → open_again i ≡ i_open
open_again-held (some c) h = refl
open_again-held none h = absurd (ground arith)

open_again-IsOn : (s : State) (p : Peer) → IsOn s p → open_again p.i_conn ≡ s
unfolding IsOn
open_again-IsOn i_open p h = open_again-held p.i_conn h.1
open_again-IsOn r_open p h = ap open_again h.1
open_again-IsOn _ p h = absurd h

alive-control : (p : Peer) → (alive p).control ≡ record p.control { state = open_again p.i_conn }
unfolding alive set_state reset_watchdog
alive-control p = refl

-- A watchdog that runs out in I-Open with an initiator connection, or in R-Open without one, and is
-- then answered by a DWA on either side changes nothing of the machine but the watchdog, which is
-- set: the peer is back in the open state that it was in, with the same connections.
pub watchdog_answered :
    (w w2 : World) (ev ev2 : EventMessage) (p : Peer) (s : State)
    → IsOn s p
    → ev.event ≡ timeout
    → is_dwa ev2.event ≡ true
    → (handle_event w2 ev2 (handle_event w ev p).0).0.control
      ≡ record p.control { state = s; watchdog_timer = true }
unfolding dispatch
watchdog_answered w w2 ev ev2 p s o e e2 =
    let m = (handle_event w ev p).0 in
    let first = (open-timeout w ev p (IsOn-IsOpen s p o) e).0 in
    let at =
      ap (λ z. z.0.control)
        (at_state w2 ev2 m suspect (ap (λ c. c.state) first)
          ∙ on_suspect-dwa ev2.event w2 ev2 m e2) in
    at
    ∙ alive-control m
    ∙ ap (λ (c : Core). record c { state = open_again c.i_conn }) first
    ∙ ap (λ t. record p.control { state = t; watchdog_timer = true }) (open_again-IsOn s p o)
