-- ===== src/Peer/Messages.antt =====
-- pkg/core/peer: the messages that a peer sends itself (state_machine.go and cer_cea.go).
use godiam.Prelude.{
  ℕ, ◌&&◌, List, [], ◌∷◌, ◌++◌, map, Option, none, some, ◌==◌, if◌then◌else◌, length, take, drop,
  replicate, bytes_eq,
}
use godiam.Message.{
  Message, Avp, flag_mandatory, new_diameter_identity_avp, new_unsigned32_avp, new_octet_string_avp,
  be16,
}
use godiam.Message.Fields.{
  new_request, new_answer, add_avp, set_result_code, origin_host, origin_realm,
}
use godiam.Peer.{Error, nil_dereference, LocalConfig, Peer, World}
use godiam.Peer.Connect.{effective_local_config}
use godiam.Peer.Send.{
  cmd_capabilities_exchange, cmd_device_watchdog, cmd_disconnect_peer, app_common, result_success,
  next_hop_by_hop_id, next_end_to_end_id, send_on_conn, send_active,
}

-- `net.IP.To4` on the bytes of an address: four bytes, or an IPv4 address mapped into IPv6.
abbrev mapped_prefix : List ℕ
mapped_prefix = replicate 10 0 ++ 255 ∷ 255 ∷ []

unfoldable pub to4 : List ℕ → Option (List ℕ)
to4 ip =
    if length ip == 4
    then some ip
    else if length ip == 16 && bytes_eq (take 12 ip) mapped_prefix
    then some (drop 12 ip)
    else none

abbrev address_of : Option (List ℕ) → List ℕ → List ℕ
address_of (some ip4) ip = be16 1 ++ ip4
address_of none ip = be16 2 ++ (if length ip == 16 then ip else [])

-- `NewAddressAVP(Host-IP-Address, M, NewAddressFromIP(ip))`
unfoldable pub host_ip_avp : List ℕ → Avp
unfolding to4
host_ip_avp ip = new_octet_string_avp 257 flag_mandatory (address_of (to4 ip) ip)

unfoldable pub add_all : Message → List Avp → Message
add_all m [] = m
add_all m (a ∷ l) = add_all (add_avp m a) l

abbrev origin_avps : LocalConfig → List Avp
origin_avps cfg =
    new_diameter_identity_avp origin_host flag_mandatory cfg.diameter_identity
    ∷ new_diameter_identity_avp origin_realm flag_mandatory cfg.realm
    ∷ []

abbrev app_avps : ℕ → List ℕ → List Avp
app_avps code = map (new_unsigned32_avp code flag_mandatory)

-- What CER and CEA say of this node after Origin-Host and Origin-Realm.
unfoldable pub capability_avps : LocalConfig → List Avp
unfolding host_ip_avp
capability_avps cfg =
    origin_avps cfg
    ++ map host_ip_avp cfg.host_ip_addresses
    ++ new_unsigned32_avp 266 flag_mandatory cfg.vendor_id ∷ []
    ++ (if bytes_eq cfg.product_name []
        then []
        else new_octet_string_avp 269 0 cfg.product_name ∷ [])
    ++ new_unsigned32_avp 278 flag_mandatory cfg.origin_state_id ∷ []
    ++ app_avps 258 cfg.auth_app_ids
    ++ app_avps 259 cfg.acct_app_ids

unfoldable pub send_cer : World → Peer → Peer × Option Error
unfolding next_hop_by_hop_id effective_local_config add_all capability_avps send_active
send_cer w p =
    let cfg = effective_local_config w p in
    let (q, hbh) = next_hop_by_hop_id p in
    let firmware =
      if cfg.firmware_revision == 0
      then []
      else new_unsigned32_avp 267 0 cfg.firmware_revision ∷ [] in
    let m = record (new_request cmd_capabilities_exchange app_common) {
      hop_by_hop_id = hbh;
      end_to_end_id = w.random_e2e;
    } in
    send_active w (add_all m (capability_avps cfg ++ firmware)) q

-- `sendCEAOnConn`; `NewAnswer` reads through the request's pointer.
unfoldable pub send_cea : World → Option ℕ → Option Message → ℕ → Peer → Peer × Option Error
unfolding effective_local_config add_all capability_avps send_on_conn
send_cea w conn none code p = (p, some nil_dereference)
send_cea w conn (some req) code p =
    send_on_conn w conn
      (add_all (set_result_code (new_answer req) code)
        (capability_avps (effective_local_config w p)))
      p

abbrev numbered_request : ℕ → Peer → Peer × Message
numbered_request code p =
    let (p1, hbh) = next_hop_by_hop_id p in
    let (p2, e2e) = next_end_to_end_id p1 in
    (p2, record (new_request code app_common) { hop_by_hop_id = hbh; end_to_end_id = e2e })

unfoldable pub send_dwr : World → Option ℕ → Peer → Peer × Option Error
unfolding next_hop_by_hop_id next_end_to_end_id effective_local_config add_all send_on_conn
send_dwr w conn p =
    let cfg = effective_local_config w p in
    let (q, m) = numbered_request cmd_device_watchdog p in
    send_on_conn w conn
      (add_all m
        (origin_avps cfg ++ new_unsigned32_avp 278 flag_mandatory cfg.origin_state_id ∷ []))
      q

unfoldable pub send_dwa : World → Option ℕ → Option Message → Peer → Peer × Option Error
unfolding effective_local_config add_all send_on_conn
send_dwa w conn none p = (p, some nil_dereference)
send_dwa w conn (some req) p =
    let cfg = effective_local_config w p in
    send_on_conn w conn
      (add_all (set_result_code (new_answer req) result_success)
        (origin_avps cfg ++ new_unsigned32_avp 278 flag_mandatory cfg.origin_state_id ∷ []))
      p

unfoldable pub send_dpr : World → Option ℕ → ℕ → Peer → Peer × Option Error
unfolding next_hop_by_hop_id next_end_to_end_id effective_local_config add_all send_on_conn
send_dpr w conn cause p =
    let cfg = effective_local_config w p in
    let (q, m) = numbered_request cmd_disconnect_peer p in
    send_on_conn w conn
      (add_all m (origin_avps cfg ++ new_unsigned32_avp 273 flag_mandatory cause ∷ [])) q

unfoldable pub send_dpa : World → Option ℕ → Option Message → Peer → Peer × Option Error
unfolding effective_local_config add_all send_on_conn
send_dpa w conn none p = (p, some nil_dereference)
send_dpa w conn (some req) p =
    send_on_conn w conn
      (add_all (set_result_code (new_answer req) result_success)
        (origin_avps (effective_local_config w p)))
      p
