-- ===== src/Edge/Admission.antt =====
-- pkg/core/server/zones.go: whether an inbound peer may connect on a zone.
use godiam.Prelude.{
  ℕ, Bool, true, false, not, ◌&&◌, ◌||◌, List, [], ◌∷◌, Option, none, some, if◌then◌else◌, bytes_eq,
  drop,
}
use godiam.Routing.{Name}
use godiam.Routing.Candidates.{is_empty, has}
use godiam.Peer.Connect.{to_lower}
use godiam.Edge.{ZoneConfig, PeerConfig, Registry, trim_dot, has_prefix, has_suffix}
use godiam.Edge.Lookups.{partner_for_peer, partner_for_realm, realm_matches, bind_peer}

-- The result codes; the reason is text for the log and left out.
abbrev pub success : ℕ
success = 2001

abbrev pub unknown_peer : ℕ
unknown_peer = 3010

pub record AdmissionResult : Type 0 where
  pub accepted : Bool
  pub code : ℕ
  pub partner : Name

abbrev pub admitted : Name → AdmissionResult
admitted partner = record { accepted = true; code = success; partner = partner }

abbrev pub rejected : AdmissionResult
rejected = record { accepted = false; code = unknown_peer; partner = [] }

-- The loop over the identities of a certificate.
unfoldable pub cert_matches : Name → List Name → Bool
unfolding trim_dot has_prefix has_suffix to_lower
cert_matches want [] = false
cert_matches want (id ∷ l) =
    let got = to_lower (trim_dot id) in
    bytes_eq got want
    || (has_prefix got (b'*' ∷ b'.' ∷ []) && has_suffix want (drop 1 got))
    || cert_matches want l

-- `none` is a connection without TLS or without a certificate.
unfoldable pub cert_identity_matches : Option (List Name) → Name → Bool
unfolding cert_matches to_lower trim_dot
cert_identity_matches none identity = false
cert_identity_matches (some ids) identity = cert_matches (to_lower (trim_dot identity)) ids

unfoldable pub allowed_by_zone_policy : ZoneConfig → Name → Bool
unfolding has
allowed_by_zone_policy zone identity = zone.allow_unknown || has zone.allow_identities identity

-- The loop over the configured peers: the first with this identity decides.
unfoldable pub admit_configured : ZoneConfig → Name → Name → List PeerConfig → AdmissionResult
admit_configured zone host realm [] = rejected
admit_configured zone host realm (pc ∷ l) =
    let rest = admit_configured zone host realm l in
    if not (bytes_eq pc.identity host)
    then rest
    else if not (is_empty pc.zone) && not (bytes_eq pc.zone zone.name)
    then rejected
    else if is_empty pc.realm || bytes_eq pc.realm realm
    then admitted []
    else rejected

-- A peer that no partner claims.
unfoldable pub admit_unclaimed :
    List PeerConfig → Registry → ZoneConfig → Name → Name → AdmissionResult
unfolding allowed_by_zone_policy admit_configured partner_for_realm
admit_unclaimed peers reg zone host realm =
    if zone.external
    then elim (partner_for_realm reg realm) [
      | none ↦ if allowed_by_zone_policy zone host then admitted [] else rejected
      | some p ↦
          if bytes_eq p.zone zone.name
          then admitted p.name
          else if allowed_by_zone_policy zone host
          then admitted []
          else rejected
    ]
    else if allowed_by_zone_policy zone host
    then admitted []
    else admit_configured zone host realm peers

unfoldable pub admit_peer :
    List PeerConfig → Registry → ZoneConfig → Option (List Name) → Name → Name → AdmissionResult
unfolding cert_identity_matches partner_for_peer realm_matches admit_unclaimed
admit_peer peers reg zone cert host realm =
    if zone.require_client_cert_identity && not (cert_identity_matches cert host)
    then rejected
    else elim (partner_for_peer reg host) [
      | none ↦ admit_unclaimed peers reg zone host realm
      | some p ↦ if not (bytes_eq p.zone zone.name) then rejected else elim p.realms [
        | [] ↦ admitted p.name
        | x ∷ xs ↦ if realm_matches realm (x ∷ xs) then admitted p.name else rejected
      ]
    ]

-- The part of the accept policy that records a partner that was found by its realm.
unfoldable pub accept : Name → AdmissionResult → Registry → Registry
unfolding bind_peer
accept host res reg =
    if res.accepted && not (is_empty res.partner) then bind_peer host res.partner reg else reg
