-- ===== src/Peer.antt =====
-- pkg/core/peer: a Diameter peer (RFC 6733 section 5.6). A connection is a number; a timer is
-- whether the field is set; what a handler does to the outside is noted in `log`, newest first.
pub mod Connect
pub mod Send
pub mod Messages
pub mod Capabilities
pub mod Opening
pub mod Opened
pub mod Machine
pub mod Keeps
pub mod Invariant
pub mod InvariantOpening
pub mod InvariantElection
pub mod InvariantOpened
pub mod Reaches
pub mod Election
pub mod Dialling
pub mod Rejected
pub mod Requests
pub mod Watchdog
pub mod Lifecycle
mod Examples
use godiam.Prelude.{ℕ, Bool, true, false, List, [], ◌∷◌, Option, none, some}
use godiam.Message.{Message, Avp}
use godiam.Message.Encode.{Pool}

pub data State : Type 0 where
  closed wait_conn_ack wait_i_cea wait_conn_ack_elect wait_returns : State
  r_open i_open closing suspect zombie : State

pub State-discrete : Discrete State
State-discrete = hlevel

pub data Event : Type 0 where
  start r_conn_cer i_rcv_conn_ack i_rcv_conn_nack timeout i_rcv_cer i_rcv_cea : Event
  r_rcv_cer r_rcv_cea i_rcv_non_cea i_peer_disc r_peer_disc i_rcv_dwr i_rcv_dwa : Event
  r_rcv_dwr r_rcv_dwa i_rcv_dpr i_rcv_dpa r_rcv_dpr r_rcv_dpa win_election : Event
  send_message i_rcv_message r_rcv_message stop : Event

-- `nil_dereference` stands for the panic on a nil message or connection.
pub data Error : Type 0 where
  no_connection encode_failed write_failed responder_exists missing_result_code : Error
  missing_origin_host missing_origin_realm connect_failed non_cea nil_dereference : Error
  cea_result cer_rejected : ℕ → Error

pub record EventMessage : Type 0 where
  pub event : Event
  pub msg : Option Message
  pub conn : Option ℕ
  pub error : Option Error

-- Goroutines that a handler starts.
pub data Task : Type 0 where
  initiate_connection read_loop_i read_loop_r write_loop : Task

pub data Effect : Type 0 where
  wrote : ℕ → Message → Effect
  closed_conn : ℕ → Effect
  spawned : Task → Effect
  delivered : Message → Effect
  changed : State → State → Effect
  reconnect_scheduled : Effect

pub record LocalConfig : Type 0 where
  pub diameter_identity : List ℕ
  pub realm : List ℕ
  pub vendor_id : ℕ
  pub product_name : List ℕ
  pub firmware_revision : ℕ
  pub origin_state_id : ℕ
  pub host_ip_addresses : List (List ℕ)
  pub auth_app_ids : List ℕ
  pub acct_app_ids : List ℕ

pub record Config : Type 0 where
  pub diameter_identity : List ℕ
  pub addresses : List (List ℕ)
  pub persistent : Bool

-- The fields that the state machine turns on.
pub record Core : Type 0 where
  pub state : State
  pub i_conn : Option ℕ
  pub r_conn : Option ℕ
  pub pending_cer : Option Message
  pub watchdog_timer : Bool
  pub timeout_timer : Bool
  pub conn_done : Bool

pub record Peer : Type 0 where
  pub control : Core
  pub open control use *
  pub config : Config
  pub local_override : Option LocalConfig
  pub diameter_id : List ℕ
  pub realm : List ℕ
  pub accept_policy : Option (List ℕ → List ℕ → Bool × ℕ)
  pub hop_by_hop_id : ℕ  -- uint32
  pub next_e2e : ℕ  -- uint32
  pub pending : List (ℕ × ℕ)
  pub messages_sent : ℕ
  pub bytes_sent : ℕ
  pub queue : List EventMessage
  pub recv : List Message
  pub log : List Effect

-- What becomes of one address in `initiateConnection`, TLS included.
pub data Dialled : Type 0 where
  refused : Dialled
  tls_config_failed : Dialled
  connected : ℕ → Dialled

-- What the peer does not decide itself: the network, randomness, the encoder's buffers, and the
-- node's configuration.
pub record World : Type 0 where
  pub pools : Avp → Pool
  pub write_ok : ℕ → List ℕ → Bool
  pub dial : List ℕ → Dialled
  pub random_e2e : ℕ
  pub local_config : LocalConfig
