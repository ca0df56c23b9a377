-- ===== src/Edge/Lookups.antt =====
-- pkg/core/edge/registry.go: what the handlers ask of the registry, and the bindings of peers.
use godiam.Prelude.{
  Bool, true, false, not, ◌&&◌, ◌||◌, List, [], ◌∷◌, Option, none, some, if◌then◌else◌, ◌==◌,
  bytes_eq,
}
use godiam.Prelude.Assoc.{lookup, insert, delete}
use godiam.Routing.{Name, Name-discrete}
use godiam.Routing.Candidates.{is_empty, has}
use godiam.Edge.{
  ZoneConfig, PartnerConfig, Registry, normalize, has_suffix, has_prefix, wildcard,
  is_external_zone,
}

-- Whether one of the suffixes is the string's.
unfoldable pub any_suffix : Name → List Name → Bool
unfolding has_suffix
any_suffix s [] = false
any_suffix s (suffix ∷ l) = has_suffix s suffix || any_suffix s l

-- The first entry whose suffix is the string's.
unfoldable pub first_suffix : Name → List (Name × PartnerConfig) → Option PartnerConfig
unfolding has_suffix
first_suffix s [] = none
first_suffix s ((suffix, p) ∷ l) =
    let rest = first_suffix s l in if has_suffix s suffix then some p else rest

unfoldable pub serves_realm : Registry → Name → Bool
unfolding normalize has any_suffix
serves_realm r realm =
    let n = normalize realm in
    not (is_empty n) && (has r.served_exact n || any_suffix n r.served_suffix)

-- What follows the first dot, or all of it.
unfoldable pub after_dot : Name → Option Name
after_dot [] = none
after_dot (x ∷ l) = if x == b'.' then some l else after_dot l

unfoldable pub host_realm : Name → Name
unfolding after_dot
host_realm host = elim (after_dot host) [ none ↦ host | some realm ↦ realm ]

unfoldable pub host_in_realm : Name → Name → Bool
unfolding normalize has_suffix
host_in_realm host realm =
    let h = normalize host in
    let n = normalize realm in
    not (is_empty h) && not (is_empty n) && (bytes_eq h n || has_suffix h (b'.' ∷ n))

unfoldable pub in_any_realm : Name → List Name → Bool
unfolding host_in_realm
in_any_realm host [] = false
in_any_realm host (realm ∷ l) = host_in_realm host realm || in_any_realm host l

unfoldable pub host_in_served_realm : Registry → Name → Bool
unfolding host_realm in_any_realm any_suffix has
host_in_served_realm r host =
    has r.served_exact (host_realm host)
    || in_any_realm host r.served_exact
    || any_suffix host r.served_suffix

abbrev is_some : {A : Type 0} → Option A → Bool
is_some none = false
is_some (some a) = true

-- The part of `IsInternalHost` for a host that is not a known peer.
abbrev internal_by_realm : Registry → Name → Bool
internal_by_realm r host =
    not (is_some (lookup Name-discrete (host_realm host) r.realm_exact))
    && not (is_some (first_suffix host r.realm_suffix))
    && host_in_served_realm r host

unfoldable pub is_internal_host : Registry → Name → Bool
unfolding normalize host_realm first_suffix host_in_served_realm is_external_zone
is_internal_host r host =
    let h = normalize host in
    if is_empty h
    then false
    else if bytes_eq h (normalize r.identity)
    then true
    else elim (lookup Name-discrete h r.partner_by_peer) [
      | some p ↦ false
      | none ↦ elim (lookup Name-discrete h r.peer_zone) [
        | some zone ↦ not (is_external_zone r zone)
        | none ↦ internal_by_realm r h
      ]
    ]

unfoldable pub partner_for_peer : Registry → Name → Option PartnerConfig
unfolding normalize
partner_for_peer r identity =
    if is_empty identity
    then none
    else elim (lookup Name-discrete (normalize identity) r.partner_by_peer) [
      | some p ↦ some p
      | none ↦ elim (lookup Name-discrete (normalize identity) r.bound_peers) [
        | none ↦ none
        | some name ↦ lookup Name-discrete name r.partners
      ]
    ]

unfoldable pub bind_peer : Name → Name → Registry → Registry
unfolding normalize
bind_peer identity partner r =
    if is_empty identity || is_empty partner
    then r
    else elim (lookup Name-discrete (normalize identity) r.partner_by_peer) [
      | some p ↦ r
      | none ↦ record r {
        bound_peers = insert Name-discrete (normalize identity) partner r.bound_peers;
      }
    ]

unfoldable pub unbind_peer : Name → Registry → Registry
unfolding normalize
unbind_peer identity r =
    if is_empty identity
    then r
    else record r { bound_peers = delete Name-discrete (normalize identity) r.bound_peers }

unfoldable pub partner_for_realm : Registry → Name → Option PartnerConfig
unfolding normalize first_suffix
partner_for_realm r realm =
    if is_empty realm then none else elim (lookup Name-discrete (normalize realm) r.realm_exact) [
      | some p ↦ some p
      | none ↦ first_suffix (normalize realm) r.realm_suffix
    ]

unfoldable pub zone_name_for_peer : Registry → Name → Name
unfolding normalize
zone_name_for_peer r identity = elim (lookup Name-discrete (normalize identity) r.peer_zone) [
  | some zone ↦ zone
  | none ↦ r.default_zone
]

unfoldable pub zone_for_peer : Registry → Name → Option ZoneConfig
unfolding zone_name_for_peer
zone_for_peer r identity = lookup Name-discrete (zone_name_for_peer r identity) r.zones

-- The loop of `PartnersForZone`.
unfoldable pub partners_in : Registry → Name → List Name → List PartnerConfig
unfolding normalize
partners_in r zone [] = []
partners_in r zone (name ∷ l) =
    let rest = partners_in r zone l in
    elim (lookup Name-discrete name r.partners) [
      | none ↦ rest
      | some p ↦ if bytes_eq (normalize p.zone) zone then p ∷ rest else rest
    ]

unfoldable pub partners_for_zone : Registry → Name → List PartnerConfig
unfolding partners_in normalize
partners_for_zone r zone = partners_in r (normalize zone) r.partner_order

-- The loop of `RealmMatches`.
unfoldable pub matches_any : Name → List Name → Bool
unfolding normalize has_suffix has_prefix
matches_any key [] = false
matches_any key (pattern ∷ l) =
    elim (wildcard (normalize pattern)) [
      | some suffix ↦ has_suffix key suffix
      | none ↦ bytes_eq key (normalize pattern)
    ]
    || matches_any key l

unfoldable pub realm_matches : Name → List Name → Bool
unfolding matches_any normalize
realm_matches realm patterns =
    if is_empty realm then false else matches_any (normalize realm) patterns
