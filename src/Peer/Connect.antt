-- ===== src/Peer/Connect.antt =====
-- pkg/core/peer: state changes, connections, timers, the election and the cleanup.
use godiam.Prelude.{
  ℕ, ◌+◌, Bool, true, false, ◌&&◌, List, [], ◌∷◌, ◌++◌, map, Option, none, some, ite, ltb, leb,
  ◌==◌, if◌then◌else◌,
}
use godiam.Message.{Message}
use godiam.Peer.{
  State, zombie, State-discrete, Event, win_election, i_rcv_conn_ack, i_rcv_conn_nack, Error,
  responder_exists, connect_failed, EventMessage, Task, Effect, closed_conn, spawned, changed,
  reconnect_scheduled, LocalConfig, Peer, World, refused, tls_config_failed, connected,
}

abbrev pub note : Effect → Peer → Peer
note e p = record p { log = e ∷ p.log }

abbrev pub go : Task → Peer → Peer
go t p = note (spawned t) p

-- `setState`: the callback runs if the state is another one.
unfoldable pub set_state : State → Peer → Peer
set_state s p = record p {
  control = record p.control { state = s };
  log = ite (State-discrete p.state s) p.log (changed p.state s ∷ p.log);
}

-- `acceptResponderConnection`
unfoldable pub accept_responder : Option ℕ → Peer → Peer × Option Error
accept_responder conn p = elim p.r_conn [
  | none ↦ (record p { control = record p.control { r_conn = conn } }, none)
  | some c ↦ (p, some responder_exists)
]

abbrev log_close : Option ℕ → List Effect → List Effect
log_close none l = l
log_close (some c) l = closed_conn c ∷ l

unfoldable pub close_i_conn : Peer → Peer
close_i_conn p = record p {
  control = record p.control { i_conn = none };
  log = log_close p.i_conn p.log;
}

unfoldable pub close_r_conn : Peer → Peer
close_r_conn p = record p {
  control = record p.control { r_conn = none };
  log = log_close p.r_conn p.log;
}

-- `conn.Close()` on the connection of an event.
unfoldable pub close_conn : Option ℕ → Peer → Peer
close_conn conn p = record p { log = log_close conn p.log }

abbrev pub set_timeout_timer : Bool → Peer → Peer
set_timeout_timer b p = record p { control = record p.control { timeout_timer = b } }

abbrev pub set_watchdog_timer : Bool → Peer → Peer
set_watchdog_timer b p = record p { control = record p.control { watchdog_timer = b } }

unfoldable pub start_timeout : Peer → Peer
start_timeout p = set_timeout_timer true p

unfoldable pub stop_timeout : Peer → Peer
stop_timeout p = set_timeout_timer false p

unfoldable pub start_watchdog : Peer → Peer
start_watchdog p = set_watchdog_timer true p

-- The timer is set back if there is one; whether there is one does not change.
unfoldable pub reset_watchdog : Peer → Peer
reset_watchdog p = p

unfoldable pub stop_watchdog : Peer → Peer
stop_watchdog p = set_watchdog_timer false p

abbrev pub set_pending_cer : Option Message → Peer → Peer
set_pending_cer m p = record p { control = record p.control { pending_cer = m } }

unfoldable pub clear_pending : Peer → Peer
clear_pending p = record p { pending = [] }

-- `connDone` is closed once; an open one is left.
unfoldable pub close_conn_done : Peer → Peer
close_conn_done p = record p { control = record p.control { conn_done = true } }

unfoldable pub reset_conn_done : Peer → Peer
reset_conn_done p = record p { control = record p.control { conn_done = false } }

unfoldable pub error_cleanup : Peer → Peer
unfolding stop_timeout stop_watchdog close_i_conn close_r_conn clear_pending close_conn_done
error_cleanup p = close_conn_done (
    set_pending_cer none
      (clear_pending (close_r_conn (close_i_conn (stop_watchdog (stop_timeout p))))))

unfoldable pub schedule_reconnect : Peer → Peer
unfolding set_state
schedule_reconnect p =
    if p.config.persistent then note reconnect_scheduled p else set_state zombie p

-- `strings.ToLower` on an ASCII identity.
abbrev lower_byte : ℕ → ℕ
lower_byte c = if leb b'A' c && leb c b'Z' then c + 32 else c

unfoldable pub to_lower : List ℕ → List ℕ
to_lower = map lower_byte

-- Go's `a > b` on strings.
unfoldable pub string_gt : List ℕ → List ℕ → Bool
string_gt [] b = false
string_gt (x ∷ a) [] = true
string_gt (x ∷ a) (y ∷ b) = if x == y then string_gt a b else ltb y x

-- Whether the local host wins the election against the peer's.
unfoldable pub wins_election : List ℕ → List ℕ → Bool
unfolding to_lower string_gt
wins_election local_host peer_host = string_gt (to_lower local_host) (to_lower peer_host)

abbrev override_or : Option LocalConfig → LocalConfig → LocalConfig
override_or none cfg = cfg
override_or (some own) cfg = own

unfoldable pub effective_local_config : World → Peer → LocalConfig
effective_local_config w p = override_or p.local_override w.local_config

abbrev pub event_only : Event → EventMessage
event_only e = record { event = e; msg = none; conn = none; error = none }

abbrev pub post : EventMessage → Peer → Peer
post e p = record p { queue = p.queue ++ e ∷ [] }

unfoldable pub perform_election : World → Peer → Peer
unfolding wins_election effective_local_config
perform_election w p =
    let local_host = (effective_local_config w p).diameter_identity in
    record p {
      queue =
          if wins_election local_host p.diameter_id
          then p.queue ++ event_only win_election ∷ []
          else p.queue;
    }

abbrev pub nack : EventMessage
nack = record { event = i_rcv_conn_nack; msg = none; conn = none; error = some connect_failed }

-- `initiateConnection`: the addresses in turn, until one is connected or TLS cannot be set up.
unfoldable pub dial_addresses : World → List (List ℕ) → Peer → Peer
dial_addresses w [] p = post nack p
dial_addresses w (a ∷ l) p =
    let next = dial_addresses w l p in
    elim (w.dial a) [
      | refused ↦ next
      | tls_config_failed ↦ post nack p
      | connected c ↦
          post (event_only i_rcv_conn_ack)
            (record p { control = record p.control { i_conn = some c } })
    ]

unfoldable pub dial_peer : World → Peer → Peer
unfolding dial_addresses
dial_peer w p = dial_addresses w p.config.addresses p
