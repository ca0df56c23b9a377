-- ===== src/Peer/Reaches.antt =====
-- pkg/core/peer: every state that the machine reaches is sound.
use godiam.Prelude.{ℕ, ◌≡◌, ◌≢◌, refl, List, [], ◌∷◌, some}
use godiam.Peer.{
  State, closed, wait_conn_ack, wait_i_cea, wait_conn_ack_elect, wait_returns, r_open, i_open,
  closing, suspect, zombie, EventMessage, Peer, World, Dialled, refused, tls_config_failed,
  connected,
}
use godiam.Peer.Connect.{dial_addresses, dial_peer}
use godiam.Peer.Machine.{dispatch, handle_event}
use godiam.Peer.Invariant.{In, Inv, Admits}
use godiam.Peer.InvariantOpening.{on_closed-Inv, on_wait_conn_ack-Inv, on_wait_i_cea-Inv}
use godiam.Peer.InvariantElection.{on_wait_conn_ack_elect-Inv, on_wait_returns-Inv}
use godiam.Peer.InvariantOpened.{on_r_open-Inv, on_i_open-Inv, on_suspect-Inv, on_closing-Inv}

dispatch-Inv :
    (s : State) (w : World) (ev : EventMessage) (p : Peer)
    → p.state ≡ s
    → Inv p
    → In s p.control
    → Admits ev.event ev p
    → Inv (dispatch s w ev p).0
unfolding dispatch
dispatch-Inv closed w ev p e h k a = on_closed-Inv ev.event w ev p e h k a
dispatch-Inv wait_conn_ack w ev p e h k a = on_wait_conn_ack-Inv ev.event w ev p e h k a
dispatch-Inv wait_i_cea w ev p e h k a = on_wait_i_cea-Inv ev.event w ev p e h k a
dispatch-Inv wait_conn_ack_elect w ev p e h k a = on_wait_conn_ack_elect-Inv ev.event w ev p e h k a
dispatch-Inv wait_returns w ev p e h k a = on_wait_returns-Inv ev.event w ev p e h k a
dispatch-Inv r_open w ev p e h k a = on_r_open-Inv ev.event w ev p h k
dispatch-Inv i_open w ev p e h k a = on_i_open-Inv ev.event w ev p h k
dispatch-Inv closing w ev p e h k a = on_closing-Inv ev.event w ev p h
dispatch-Inv suspect w ev p e h k a = on_suspect-Inv ev.event w ev p h k
dispatch-Inv zombie w ev p e h k a = h

pub handle_event-Inv :
    (w : World) (ev : EventMessage) (p : Peer)
    → Admits ev.event ev p
    → Inv p
    → Inv (handle_event w ev p).0
unfolding handle_event Inv
handle_event-Inv w ev p a h = dispatch-Inv p.state w ev p refl h h a

-- The machine's step: an event is handled, or the goroutine that dials comes back.
pub data Step : Peer → Peer → Type 0 where
  handles :
      (w : World) (ev : EventMessage) (p : Peer)
      → Admits ev.event ev p
      → Step p (handle_event w ev p).0
  dials : (w : World) (p : Peer) → p.state ≢ zombie → Step p (dial_peer w p)

pub data Reaches : Peer → Peer → Type 0 where
  here : (p : Peer) → Reaches p p
  step : {p q r : Peer} → Reaches p q → Step q r → Reaches p r

-- A connection more on the initiator's side keeps what is held.
connected-In :
    (s : State) (c : ℕ) (p : Peer)
    → s ≢ zombie
    → In s p.control
    → In s (record p.control { i_conn = some c })
unfolding In
connected-In closed c p z k = k
connected-In wait_conn_ack c p z k = k
connected-In wait_i_cea c p z k = (refl, k.1)
connected-In wait_conn_ack_elect c p z k = k
connected-In wait_returns c p z k = (refl, k.1, k.2, k.3)
connected-In r_open c p z k = k
connected-In i_open c p z k = (refl, k.1)
connected-In closing c p z k = k
connected-In suspect c p z k = (refl, k.1)
connected-In zombie c p z k = absurd (z refl)

dialled-Inv :
    (d : Dialled) (next failed : Peer) (opened : ℕ → Peer)
    → Inv next
    → Inv failed
    → ((c : ℕ) → Inv (opened c))
    → Inv (elim d as (λ x. Peer) [
      | refused ↦ next
      | tls_config_failed ↦ failed
      | connected c ↦ opened c
    ])
dialled-Inv refused next failed opened h k l = h
dialled-Inv tls_config_failed next failed opened h k l = k
dialled-Inv (connected c) next failed opened h k l = l c

dial_addresses-Inv :
    (w : World) (l : List (List ℕ)) (p : Peer)
    → p.state ≢ zombie
    → Inv p
    → Inv (dial_addresses w l p)
unfolding dial_addresses Inv
dial_addresses-Inv w [] p z h = h
dial_addresses-Inv w (a ∷ l) p z h =
    dialled-Inv (w.dial a) _ _ _ (dial_addresses-Inv w l p z h) h
      (λ c. connected-In p.state c p z h)

Step-Inv : {p q : Peer} → Step p q → Inv p → Inv q
unfolding dial_peer
Step-Inv (handles w ev p a) h = handle_event-Inv w ev p a h
Step-Inv (dials w p z) h = dial_addresses-Inv w p.config.addresses p z h

-- Whatever sequence of events and dials a peer goes through from a state in which this holds, as it
-- does of a new peer, if acknowledged dials and inbound connections come with their connection and
-- no dial comes back in Zombie: in each state the machine holds the connections and the CER that the
-- state works with, the watchdog is set exactly in the open states and Suspect, the timeout timer
-- exactly in the connecting ones (in Closing it may be either), and a Zombie has no connection.
pub Reaches-Inv : {p q : Peer} → Reaches p q → Inv p → Inv q
Reaches-Inv (here p) h = h
Reaches-Inv (step r s) h = Step-Inv s (Reaches-Inv r h)
