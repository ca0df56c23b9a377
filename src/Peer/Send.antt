-- ===== src/Peer/Send.antt =====
-- pkg/core/peer: identifiers, pending requests, and the messages that the node sends itself.
use godiam.Prelude.{
  ℕ, ◌+◌, ◌%◌, ◌^◌, Bool, true, false, List, [], ◌∷◌, ◌++◌, Option, none, some, ℕ_discrete, ◌==◌,
  if◌then◌else◌, length, ltb,
}
use godiam.Prelude.Assoc.{lookup, insert, delete}
use godiam.Message.{Result, ok, err, stuck, Message}
use godiam.Message.Encode.{encode}
use godiam.Message.Fields.{is_request, is_retransmit}
use godiam.Peer.{
  State, r_open, Error, no_connection, encode_failed, write_failed, wrote, delivered, Peer, World,
}

-- Codes of pkg/proto/types.
abbrev pub cmd_capabilities_exchange : ℕ
cmd_capabilities_exchange = 257

abbrev pub cmd_device_watchdog : ℕ
cmd_device_watchdog = 280

abbrev pub cmd_disconnect_peer : ℕ
cmd_disconnect_peer = 282

abbrev pub app_common : ℕ
app_common = 0

abbrev pub result_success : ℕ
result_success = 2001

abbrev pub result_unable_to_comply : ℕ
result_unable_to_comply = 5012

abbrev pub u32 : ℕ → ℕ
u32 n = n % 2 ^ 32

abbrev pub u64 : ℕ → ℕ
u64 n = n % 2 ^ 64

-- `NextHopByHopID` and `nextEndToEndID`: the counter is raised, and its new value returned.
unfoldable pub next_hop_by_hop_id : Peer → Peer × ℕ
next_hop_by_hop_id p =
    (record p { hop_by_hop_id = u32 (p.hop_by_hop_id + 1) }, u32 (p.hop_by_hop_id + 1))

unfoldable pub next_end_to_end_id : Peer → Peer × ℕ
next_end_to_end_id p = (record p { next_e2e = u32 (p.next_e2e + 1) }, u32 (p.next_e2e + 1))

unfoldable pub track_pending : Message → Peer → Peer
track_pending m p = record p {
  pending = insert ℕ_discrete m.hop_by_hop_id m.end_to_end_id p.pending;
}

unfoldable pub pop_pending : ℕ → Peer → Peer × Option ℕ
pop_pending hbh p = elim (lookup ℕ_discrete hbh p.pending) [
  | none ↦ (p, none)
  | some e2e ↦ (record p { pending = delete ℕ_discrete hbh p.pending }, some e2e)
]

-- The first half of `sendMessageOnConn`: a request gets the identifiers that it lacks, and is
-- tracked.
unfoldable pub with_hop_by_hop : Message → Peer → Peer × Message
unfolding next_hop_by_hop_id
with_hop_by_hop m p =
    if m.hop_by_hop_id == 0
    then (let (q, i) = next_hop_by_hop_id p in (q, record m { hop_by_hop_id = i }))
    else (p, m)

unfoldable pub with_end_to_end : Message → Peer → Peer × Message
unfolding next_end_to_end_id
with_end_to_end m p =
    if m.end_to_end_id == 0
    then (let (q, i) = next_end_to_end_id p in (q, record m { end_to_end_id = i }))
    else (p, m)

unfoldable pub prepare : Message → Peer → Peer × Message
unfolding with_hop_by_hop with_end_to_end track_pending
prepare m p =
    if is_request m
    then (let (p1, m1) = with_hop_by_hop m p in
        let (p2, m2) = with_end_to_end m1 p1 in (track_pending m2 p2, m2))
    else (p, m)

-- The write, and the counters after it.
unfoldable pub write_bytes : World → ℕ → Message → Result (List ℕ) → Peer → Peer × Option Error
write_bytes w c m (ok bytes) p =
    if w.write_ok c bytes
    then (
      record p {
        messages_sent = u64 (p.messages_sent + 1);
        bytes_sent = u64 (p.bytes_sent + length bytes);
        log = wrote c m ∷ p.log;
      },
      none,
    )
    else (p, some write_failed)
write_bytes w c m (err e) p = (p, some encode_failed)
write_bytes w c m stuck p = (p, some encode_failed)

-- `sendMessageOnConn`
unfoldable pub send_on_conn : World → Option ℕ → Message → Peer → Peer × Option Error
unfolding prepare write_bytes
send_on_conn w none m p = (p, some no_connection)
send_on_conn w (some c) m p = let (q, m') = prepare m p in write_bytes w c m' (encode w.pools m') q

abbrev or_else : Option ℕ → Option ℕ → Option ℕ
or_else none b = b
or_else (some a) b = some a

-- `getActiveConn`
abbrev active_in : State → Option ℕ → Option ℕ → Option ℕ
active_in r_open i r = or_else r i
active_in _ i r = or_else i r

unfoldable pub active_conn : Peer → Option ℕ
active_conn p = active_in p.state p.i_conn p.r_conn

-- `sendMessage`, `sendMessageOnActiveConn`
unfoldable pub send_active : World → Message → Peer → Peer × Option Error
unfolding active_conn send_on_conn
send_active w m p = send_on_conn w (active_conn p) m p

abbrev recv_capacity : ℕ
recv_capacity = 1024

-- `deliverMessage`: the callback, and the receive channel unless it is full.
unfoldable pub deliver : Message → Peer → Peer
deliver m p = record p {
  log = delivered m ∷ p.log;
  recv = if ltb (length p.recv) recv_capacity then p.recv ++ m ∷ [] else p.recv;
}

-- Whether an answer fits the request that was pending under its Hop-by-Hop ID.
abbrev pub answers : ℕ → Message → Bool
answers e2e m = if e2e == 0 then true else e2e == m.end_to_end_id

-- `processInboundMessage`
unfoldable pub process_inbound : Message → Peer → Peer × Bool
unfolding deliver pop_pending
process_inbound m p =
    if is_request m
    then (deliver m p, true)
    else if is_retransmit m
    then (p, false)
    else let (q, found) = pop_pending m.hop_by_hop_id p in
      elim found [
        | none ↦ (q, false)
        | some e2e ↦ if answers e2e m then (deliver m q, true) else (q, false)
      ]
