-- ===== src/Edge.antt =====
-- pkg/core/edge/registry.go: the zones and partners of an edge agent, as they are indexed from the
-- configuration (pkg/core/config/edge.go). A name is a list of bytes; a map's entries stand in the
-- order in which they are met.
pub mod Served
pub mod Lookups
pub mod Admission
pub mod Kept
pub mod Claimed
pub mod Longest
mod Examples
use godiam.Prelude.{
  ℕ, ◌-◌, Bool, true, false, not, ◌&&◌, ◌||◌, List, [], ◌∷◌, ◌++◌, map, Option, none, some, ltb,
  leb, ◌==◌, if◌then◌else◌, bytes_eq, length, drop,
}
use godiam.Prelude.Ints.{ℤ}
use godiam.Prelude.Assoc.{lookup, insert}
use godiam.Prelude.Sorting.{sort}
use godiam.Routing.{Name, Name-discrete}
use godiam.Routing.Candidates.{is_empty, has}
use godiam.Peer.Connect.{to_lower, string_gt}

-- The parts of a zone that decide on peers. A role that is not external is internal.
pub record ZoneConfig : Type 0 where
  pub name : Name
  pub external : Bool
  pub realms : List Name
  pub require_client_cert_identity : Bool
  pub allow_unknown : Bool
  pub allow_identities : List Name

-- A peer of a partner; `priority` and `weight` are for the choice among them.
pub record PartnerPeer : Type 0 where
  pub identity : Name
  pub priority : ℤ
  pub weight : ℤ

pub record PartnerConfig : Type 0 where
  pub name : Name
  pub zone : Name
  pub realms : List Name
  pub peers : List PartnerPeer
  pub allow_transit : Bool

pub record PeerConfig : Type 0 where
  pub identity : Name
  pub realm : Name
  pub zone : Name

pub record Config : Type 0 where
  pub identity : Name
  pub realm : Name
  pub zones : List ZoneConfig
  pub partners : List PartnerConfig
  pub peers : List PeerConfig
  pub realm_routes : List (Name × List Name)
  pub allow_unknown : Bool
  pub allow_identities : List Name

pub record Registry : Type 0 where
  pub zones : List (Name × ZoneConfig)
  pub zone_order : List Name
  pub default_zone : Name
  pub partners : List (Name × PartnerConfig)
  pub partner_order : List Name
  pub partner_by_peer : List (Name × PartnerConfig)
  pub realm_exact : List (Name × PartnerConfig)
  pub realm_suffix : List (Name × PartnerConfig)
  pub peer_zone : List (Name × Name)
  pub bound_peers : List (Name × Name)
  pub served_exact : List Name
  pub served_suffix : List Name
  pub served_order : List Name
  pub identity : Name
  pub realm : Name
  pub configured : Bool

-- `strings.HasPrefix`, `strings.HasSuffix` and `strings.TrimSuffix(s, ".")`
unfoldable pub has_prefix : Name → Name → Bool
has_prefix s [] = true
has_prefix [] (x ∷ p) = false
has_prefix (y ∷ s) (x ∷ p) = y == x && has_prefix s p

unfoldable pub has_suffix : Name → Name → Bool
has_suffix s suffix =
    leb (length suffix) (length s) && bytes_eq (drop (length s - length suffix) s) suffix

unfoldable pub trim_dot : Name → Name
trim_dot [] = []
trim_dot (x ∷ []) = if x == b'.' then [] else x ∷ []
trim_dot (x ∷ y ∷ l) = x ∷ trim_dot (y ∷ l)

unfoldable pub normalize : Name → Name
unfolding trim_dot
normalize s = to_lower (trim_dot s)

-- A pattern "*.example.com" is the suffix ".example.com".
abbrev pub wildcard : Name → Option Name
wildcard [] = none
wildcard (x ∷ l) = if has_prefix (x ∷ l) (b'*' ∷ b'.' ∷ []) then some l else none

-- "default"
abbrev default_zone_name : Name
default_zone_name = 100 ∷ 101 ∷ 102 ∷ 97 ∷ 117 ∷ 108 ∷ 116 ∷ []

-- The zone of a configuration without zones takes the node's policy, and no rule on certificates.
unfoldable pub effective_zones : Config → List ZoneConfig
effective_zones cfg = elim cfg.zones [
  | z ∷ zs ↦ z ∷ zs
  | [] ↦
      record {
        name = default_zone_name;
        external = false;
        realms = [];
        require_client_cert_identity = false;
        allow_unknown = cfg.allow_unknown;
        allow_identities = cfg.allow_identities;
      }
      ∷ []
]

abbrev pub empty_of : Registry → Registry
empty_of r = record r {
  zones = [];
  zone_order = [];
  default_zone = [];
  partners = [];
  partner_order = [];
  partner_by_peer = [];
  realm_exact = [];
  realm_suffix = [];
  peer_zone = [];
  served_exact = [];
  served_suffix = [];
  served_order = [];
  configured = false;
}

abbrev pub blank : Registry
blank = record {
  zones = [];
  zone_order = [];
  default_zone = [];
  partners = [];
  partner_order = [];
  partner_by_peer = [];
  realm_exact = [];
  realm_suffix = [];
  peer_zone = [];
  bound_peers = [];
  served_exact = [];
  served_suffix = [];
  served_order = [];
  identity = [];
  realm = [];
  configured = false;
}

-- The loop over the zones.
unfoldable pub add_zones : List ZoneConfig → Registry → Registry
add_zones [] r = r
add_zones (z ∷ l) r = add_zones l (record r {
  zones = insert Name-discrete z.name z r.zones;
  zone_order = r.zone_order ++ z.name ∷ [];
  default_zone = if is_empty r.default_zone && not z.external then z.name else r.default_zone;
})

-- Without an internal zone the default is the first.
unfoldable pub set_default_zone : Registry → Registry
set_default_zone r = elim r.zone_order [
  | [] ↦ r
  | z ∷ l ↦ record r { default_zone = if is_empty r.default_zone then z else r.default_zone }
]

-- The two loops over a partner's peers and realms.
unfoldable pub add_partner_peers : PartnerConfig → List PartnerPeer → Registry → Registry
unfolding normalize
add_partner_peers p [] r = r
add_partner_peers p (pp ∷ l) r = add_partner_peers p l (record r {
  partner_by_peer = insert Name-discrete (normalize pp.identity) p r.partner_by_peer;
  peer_zone = insert Name-discrete (normalize pp.identity) p.zone r.peer_zone;
})

unfoldable pub add_partner_realms : PartnerConfig → List Name → Registry → Registry
unfolding normalize has_prefix
add_partner_realms p [] r = r
add_partner_realms p (realm ∷ l) r = add_partner_realms p l (elim (wildcard (normalize realm)) [
  | some suffix ↦ record r { realm_suffix = r.realm_suffix ++ (suffix, p) ∷ [] }
  | none ↦ record r { realm_exact = insert Name-discrete (normalize realm) p r.realm_exact }
])

unfoldable pub add_partner : PartnerConfig → Registry → Registry
unfolding add_partner_peers add_partner_realms
add_partner p r = add_partner_realms p p.realms (
    add_partner_peers p p.peers (record r {
      partners = insert Name-discrete p.name p r.partners;
      partner_order = r.partner_order ++ p.name ∷ [];
    }))

unfoldable pub add_partners : List PartnerConfig → Registry → Registry
unfolding add_partner
add_partners [] r = r
add_partners (p ∷ l) r = add_partners l (add_partner p r)

-- The longer suffix first.
unfoldable pub longer : Name × PartnerConfig → Name × PartnerConfig → Bool
longer a b = ltb (length b.0) (length a.0)

-- The loop over the configured peers.
unfoldable pub add_peers : List PeerConfig → Registry → Registry
unfolding normalize
add_peers [] r = r
add_peers (pc ∷ l) r =
    let id = normalize pc.identity in
    add_peers l (
      if not (is_empty pc.zone)
      then record r { peer_zone = insert Name-discrete id pc.zone r.peer_zone }
      else elim (lookup Name-discrete id r.peer_zone) [
        | some z ↦ r
        | none ↦ record r { peer_zone = insert Name-discrete id r.default_zone r.peer_zone }
      ])

unfoldable pub is_external_zone : Registry → Name → Bool
is_external_zone r name = elim (lookup Name-discrete name r.zones) [
  | none ↦ false
  | some z ↦ z.external
]
