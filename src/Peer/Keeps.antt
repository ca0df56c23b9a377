-- ===== src/Peer/Keeps.antt =====
-- Sending and processing messages leaves the state, the connections and the timers alone.
use godiam.Prelude.{ℕ, ◌≡◌, refl, ◌∙◌, Bool, true, false, Option, none, some, List, arith}
use godiam.Message.{Result, ok, err, stuck, Message}
use godiam.Message.Encode.{encode}
use godiam.Peer.{EventMessage, Peer, World}
use godiam.Peer.Connect.{close_conn, reset_watchdog}
use godiam.Peer.Send.{
  prepare, write_bytes, send_on_conn, send_active, active_conn, next_hop_by_hop_id,
  next_end_to_end_id, process_inbound, pop_pending,
}
use godiam.Peer.Messages.{send_cer, send_cea, send_dwr, send_dwa, send_dpr, send_dpa}
use godiam.Peer.Capabilities.{process_cer, process_cea}
use godiam.Peer.Opening.{reject_connection}
use godiam.Peer.Opened.{inbound}

abbrev pub is_some {ℓ} : {A : Type ℓ} → Option A → Bool
is_some none = false
is_some (some a) = true

prepare-control : (m : Message) (p : Peer) → (prepare m p).0.control ≡ p.control
unfolding prepare
prepare-control m p = ground arith

write_bytes-control :
    (w : World) (c : ℕ) (m : Message) (r : Result (List ℕ)) (p : Peer)
    → (write_bytes w c m r p).0.control ≡ p.control
unfolding write_bytes
write_bytes-control w c m (ok b) p = ground arith
write_bytes-control w c m (err e) p = refl
write_bytes-control w c m stuck p = refl

pub send_on_conn-control :
    (w : World) (conn : Option ℕ) (m : Message) (p : Peer)
    → (send_on_conn w conn m p).0.control ≡ p.control
unfolding send_on_conn
send_on_conn-control w none m p = refl
send_on_conn-control w (some c) m p =
    write_bytes-control w c (prepare m p).1 (encode w.pools (prepare m p).1) (prepare m p).0
    ∙ prepare-control m p

pub send_active-control :
    (w : World) (m : Message) (p : Peer) → (send_active w m p).0.control ≡ p.control
unfolding send_active
send_active-control w m p = send_on_conn-control w (active_conn p) m p

pub send_cer-control : (w : World) (p : Peer) → (send_cer w p).0.control ≡ p.control
unfolding send_cer next_hop_by_hop_id
send_cer-control w p = send_active-control w _ (next_hop_by_hop_id p).0

pub send_cea-control :
    (w : World) (conn : Option ℕ) (m : Option Message) (code : ℕ) (p : Peer)
    → (send_cea w conn m code p).0.control ≡ p.control
unfolding send_cea
send_cea-control w conn none code p = refl
send_cea-control w conn (some m) code p = send_on_conn-control w conn _ p

pub send_dwr-control :
    (w : World) (conn : Option ℕ) (p : Peer) → (send_dwr w conn p).0.control ≡ p.control
unfolding send_dwr next_hop_by_hop_id next_end_to_end_id
send_dwr-control w conn p =
    send_on_conn-control w conn _ (next_end_to_end_id (next_hop_by_hop_id p).0).0

pub send_dwa-control :
    (w : World) (conn : Option ℕ) (m : Option Message) (p : Peer)
    → (send_dwa w conn m p).0.control ≡ p.control
unfolding send_dwa
send_dwa-control w conn none p = refl
send_dwa-control w conn (some m) p = send_on_conn-control w conn _ p

pub send_dpr-control :
    (w : World) (conn : Option ℕ) (cause : ℕ) (p : Peer)
    → (send_dpr w conn cause p).0.control ≡ p.control
unfolding send_dpr next_hop_by_hop_id next_end_to_end_id
send_dpr-control w conn cause p =
    send_on_conn-control w conn _ (next_end_to_end_id (next_hop_by_hop_id p).0).0

pub send_dpa-control :
    (w : World) (conn : Option ℕ) (m : Option Message) (p : Peer)
    → (send_dpa w conn m p).0.control ≡ p.control
unfolding send_dpa
send_dpa-control w conn none p = refl
send_dpa-control w conn (some m) p = send_on_conn-control w conn _ p

pub process_inbound-control : (m : Message) (p : Peer) → (process_inbound m p).0.control ≡ p.control
unfolding process_inbound pop_pending
process_inbound-control m p = ground arith

pub inbound-control : (m : Option Message) (p : Peer) → (inbound m p).0.control ≡ p.control
unfolding inbound reset_watchdog
inbound-control none p = refl
inbound-control (some m) p = process_inbound-control m p

pub process_cer-control : (m : Option Message) (p : Peer) → (process_cer m p).0.control ≡ p.control
unfolding process_cer
process_cer-control none p = refl
process_cer-control (some m) p = ground arith

pub process_cea-control : (m : Option Message) (p : Peer) → (process_cea m p).0.control ≡ p.control
unfolding process_cea
process_cea-control none p = refl
process_cea-control (some m) p = ground arith

pub reject_connection-control :
    (w : World) (ev : EventMessage) (code : ℕ) (p : Peer)
    → (reject_connection w ev code p).control ≡ p.control
unfolding reject_connection close_conn
reject_connection-control w ev code p = send_cea-control w ev.conn ev.msg code p

-- A CEA that is sent went out on a connection.
pub send_cea-conn :
    (w : World) (conn : Option ℕ) (m : Option Message) (code : ℕ) (p : Peer)
    → (send_cea w conn m code p).1 ≡ none
    → is_some conn ≡ true
unfolding send_cea send_on_conn
send_cea-conn w (some c) m code p h = refl
send_cea-conn w none none code p h = absurd (ground arith)
send_cea-conn w none (some m) code p h = absurd (ground arith)
