-- ===== src/Peer/Examples.antt =====
-- A node and its peer `b.example`.
use godiam.Prelude.{
  Option, bytes_eq, ℕ, ◌≡◌, ◌≢◌, refl, inr, true, false, none, some, [], ◌∷◌, replicate,
}
use godiam.Message.{
  new_diameter_identity_avp, new_octet_string_avp, new_unsigned32_avp, has_flag, Message, avp, nil,
}
use godiam.Message.Encode.{encode, encoded_len, encode_to, small_buf_size, medium_buf_size}
use godiam.Message.Fields.{
  get_result_code, add_avp, new_request, matches_avp, get_origin_host, get_origin_realm, is_request,
  is_retransmit,
}
use godiam.Peer.{
  Error, closed, i_open, zombie, start, r_conn_cer, i_rcv_conn_ack, timeout, i_rcv_dwa, i_rcv_cea,
  i_rcv_dpa, stop, cer_rejected, responder_exists, EventMessage, LocalConfig, Peer, World, refused,
  connected, delivered,
}
use godiam.Peer.Connect.{dial_peer, event_only}
use godiam.Peer.Send.{prepare, send_on_conn, process_inbound}
use godiam.Peer.Capabilities.{process_cer}
use godiam.Peer.Opening.{on_closed, on_wait_conn_ack}
use godiam.Peer.Machine.{handle_event}
use godiam.Peer.Invariant.{Inv, Admits}
use godiam.Peer.Reaches.{handles, dials, here, step, Reaches-Inv}
use godiam.Peer.Dialling.{AllRefused}
use godiam.Peer.Rejected.{arrive, rejected_cer-blocks}
use godiam.Peer.Requests.{answered_once}
use godiam.Peer.Send.{result_success}
use godiam.Peer.Lifecycle.{start-opens, stopped-IsDown}
use godiam.Peer.Watchdog.{
  IsOpen, IsDown, IsOn, after_failure, silent_peer-IsDown, watchdog_answered,
}

abbrev local : LocalConfig
local = record {
  diameter_identity = 97 ∷ [];
  realm = 101 ∷ [];
  vendor_id = 10415;
  product_name = [];
  firmware_revision = 1;
  origin_state_id = 1;
  host_ip_addresses = (127 ∷ 0 ∷ 0 ∷ 1 ∷ []) ∷ [];
  auth_app_ids = 4 ∷ [];
  acct_app_ids = [];
}

-- Its second address takes the connection 7.
abbrev node : World
node = record {
  pools = λ a. record { small = replicate small_buf_size 1; medium = replicate medium_buf_size 1 };
  write_ok = λ c bytes. true;
  dial = λ address. elim address [ [] ↦ refused | b ∷ l ↦ connected 7 ];
  random_e2e = 5;
  local_config = local;
}

abbrev new_peer : Peer
new_peer = record {
  control = record {
    state = closed;
    i_conn = none;
    r_conn = none;
    pending_cer = none;
    watchdog_timer = false;
    timeout_timer = false;
    conn_done = false;
  };
  config = record {
    diameter_identity = 98 ∷ [];
    addresses = [] ∷ (10 ∷ []) ∷ [];
    persistent = true;
  };
  local_override = none;
  diameter_id = [];
  realm = [];
  accept_policy = some (λ host realm. (false, 3010));
  hop_by_hop_id = 0;
  next_e2e = 0;
  pending = [];
  messages_sent = 0;
  bytes_sent = 0;
  queue = [];
  recv = [];
  log = [];
}

abbrev started : Peer
started = (handle_event node (event_only start) new_peer).0

abbrev dialled : Peer
dialled = dial_peer node started

started-state : started.state ≢ zombie
unfolding handle_event on_closed
started-state e = cc

dialled-conn : dialled.i_conn ≡ some 7
unfolding handle_event on_closed dial_peer
dialled-conn = refl

Reaches-Inv_example : Inv (handle_event node (event_only i_rcv_conn_ack) dialled).0
unfolding handle_event on_closed dial_peer Admits Inv
Reaches-Inv_example =
    Reaches-Inv
      (step
        (step (step (here new_peer) (handles node (event_only start) new_peer tt))
          (dials node started started-state))
        (handles node (event_only i_rcv_conn_ack) dialled refl))
      (refl, refl)

abbrev cer : Message
cer = record {
  version = 1;
  flags = 0x80;
  command_code = 257;
  application_id = 0;
  hop_by_hop_id = 1;
  end_to_end_id = 1;
  avps = avp 264 0x40 0 (98 ∷ []) nil ∷ avp 296 0x40 0 (101 ∷ []) nil ∷ [];
}

abbrev inbound_cer : ℕ → EventMessage
inbound_cer c = record { event = r_conn_cer; msg = some cer; conn = some c; error = none }

rejected : (process_cer (some cer) new_peer).1 ≡ some (cer_rejected 3010)
unfolding process_cer get_origin_host get_origin_realm matches_avp
rejected = refl

rejected_cer-blocks_example :
    let q =
      arrive node
        (inbound_cer 4 ∷ inbound_cer 5 ∷ [])
        (handle_event node (inbound_cer 3) new_peer).0 in
    ((handle_event node (inbound_cer 3) new_peer).1 ≡ some (cer_rejected 3010))
    × (q.state ≡ closed)
    × (q.r_conn ≡ some 3)
    × ((handle_event node (inbound_cer 6) q).1 ≡ some responder_exists)
rejected_cer-blocks_example =
    rejected_cer-blocks node node (inbound_cer 3) (inbound_cer 6)
      (inbound_cer 4 ∷ inbound_cer 5 ∷ []) new_peer 3 (cer_rejected 3010) refl refl refl refl
      rejected (refl, (refl, tt)) refl

abbrev ccr : Message
ccr = record cer { command_code = 272; application_id = 4; hop_by_hop_id = 0 }

abbrev cca : Message
cca = record ccr { flags = 0; hop_by_hop_id = 1 }

ccr-is_request : is_request ccr ≡ true
unfolding is_request has_flag
ccr-is_request = refl

cca-is_request : is_request cca ≡ false
unfolding is_request has_flag
cca-is_request = refl

cca-is_retransmit : is_retransmit cca ≡ false
unfolding is_retransmit has_flag
cca-is_retransmit = refl

ccr-ids :
    (cca.hop_by_hop_id ≡ (prepare ccr new_peer).1.hop_by_hop_id)
    × (cca.end_to_end_id ≡ (prepare ccr new_peer).1.end_to_end_id)
unfolding prepare is_request has_flag
ccr-ids = (refl, refl)

answered_once_example :
    let sent = (send_on_conn node (some 7) ccr new_peer).0 in
    let after = (process_inbound cca sent).0 in
    ((process_inbound cca sent).1 ≡ true)
    × (after.log ≡ delivered cca ∷ sent.log)
    × (process_inbound cca after ≡ (after, false))
answered_once_example =
    answered_once node 7 ccr cca cca new_peer ccr-is_request cca-is_request cca-is_retransmit
      ccr-ids.0 ccr-ids.1 cca-is_request refl

abbrev open_peer : Peer
open_peer = record new_peer {
  control = record new_peer.control { state = i_open; i_conn = some 7; watchdog_timer = true };
}

silent_peer-IsDown_example :
    let q =
      (handle_event node
        (event_only timeout)
        (handle_event node (event_only timeout) open_peer).0).0 in
    IsDown q × (q.state ≡ after_failure true)
unfolding IsOpen
silent_peer-IsDown_example =
    silent_peer-IsDown node node (event_only timeout) (event_only timeout) open_peer (inr refl) refl
      refl

watchdog_answered_example :
    (handle_event node
      (event_only i_rcv_dwa)
      (handle_event node (event_only timeout) open_peer).0).0.control
    ≡ record open_peer.control { state = i_open; watchdog_timer = true }
unfolding IsOn
watchdog_answered_example =
    watchdog_answered node node (event_only timeout) (event_only i_rcv_dwa) open_peer i_open
      (refl, refl) refl refl

stopped-IsDown_example :
    let q =
      (handle_event node
        (event_only i_rcv_dpa)
        (handle_event node (event_only stop) open_peer).0).0 in
    IsDown q × (q.state ≡ closed)
unfolding IsOpen
stopped-IsDown_example =
    stopped-IsDown node node (event_only stop) (event_only i_rcv_dpa) open_peer (inr refl) refl refl

-- The answer of `b.example` to the CER.
abbrev cea : Message
cea = record cer { flags = 0; avps = avp 268 0x40 0 (0 ∷ 0 ∷ 7 ∷ 209 ∷ []) nil ∷ cer.avps }

abbrev inbound_cea : EventMessage
inbound_cea = record { event = i_rcv_cea; msg = some cea; conn = none; error = none }

abbrev acked : Peer × Option Error
acked = handle_event node (event_only i_rcv_conn_ack) dialled

cer_goes_out : acked.1 ≡ none
unfolding handle_event dial_peer on_closed on_wait_conn_ack encode is_request has_flag bytes_eq
    add_avp new_request encoded_len new_diameter_identity_avp new_octet_string_avp
    new_unsigned32_avp encode_to
cer_goes_out = refl

cea-fields :
    (get_result_code cea ≡ some result_success)
    × (get_origin_host cea ≡ some (98 ∷ []))
    × (get_origin_realm cea ≡ some (101 ∷ []))
unfolding get_result_code get_origin_host get_origin_realm matches_avp
cea-fields = (refl, refl, refl)

start-opens_example :
    let q = (handle_event node inbound_cea acked.0).0 in
    (q.state ≡ i_open)
    × (q.i_conn ≡ some 7)
    × (q.watchdog_timer ≡ true)
    × (q.timeout_timer ≡ false)
    × (q.diameter_id ≡ 98 ∷ [])
unfolding AllRefused
start-opens_example =
    start-opens node new_peer ([] ∷ []) [] (10 ∷ []) 7 inbound_cea cea (98 ∷ []) (101 ∷ []) refl
      refl (refl, tt) refl cer_goes_out refl refl cea-fields.0 cea-fields.1 cea-fields.2
