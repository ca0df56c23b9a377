-- ===== src/Edge/Served.antt =====
-- pkg/core/edge/registry.go: the realms that the edge agent serves itself, and Reload.
use godiam.Prelude.{
  Bool, true, false, not, ◌&&◌, ◌||◌, List, [], ◌∷◌, ◌++◌, Option, none, some, ltb, if◌then◌else◌,
  length,
}
use godiam.Prelude.Assoc.{lookup}
use godiam.Prelude.Sorting.{sort}
use godiam.Routing.{Name, Name-discrete}
use godiam.Routing.Candidates.{is_empty, has}
use godiam.Peer.Connect.{string_gt}
use godiam.Edge.{
  ZoneConfig, PeerConfig, Config, Registry, normalize, wildcard, has_prefix, effective_zones,
  empty_of, add_zones, set_default_zone, add_partners, longer, add_peers, is_external_zone, blank,
}

-- The closure `add`.
unfoldable pub serve : Name → Registry → Registry
unfolding normalize has_prefix has
serve realm r =
    let n = normalize realm in
    if is_empty n then r else elim (wildcard n) [
      | some suffix ↦ if has r.served_suffix suffix then r else record r {
        served_suffix = r.served_suffix ++ suffix ∷ [];
        served_order = r.served_order ++ n ∷ [];
      }
      | none ↦ if has r.served_exact n then r else record r {
        served_exact = r.served_exact ++ n ∷ [];
        served_order = r.served_order ++ n ∷ [];
      }
    ]

unfoldable pub serve_all : List Name → Registry → Registry
unfolding serve
serve_all [] r = r
serve_all (realm ∷ l) r = serve_all l (serve realm r)

-- The realms of the internal zones.
unfoldable pub serve_zones : List ZoneConfig → Registry → Registry
unfolding serve_all
serve_zones [] r = r
serve_zones (z ∷ l) r = serve_zones l (if z.external then r else serve_all z.realms r)

-- The closure `internalPeer`; a missing zone is "".
unfoldable pub internal_peer : Registry → Name → Bool
unfolding normalize is_external_zone
internal_peer r identity = elim (lookup Name-discrete (normalize identity) r.partner_by_peer) [
  | some p ↦ false
  | none ↦ elim (lookup Name-discrete (normalize identity) r.peer_zone) [
    | none ↦ not (is_external_zone r [])
    | some zone ↦ not (is_external_zone r zone)
  ]
]

unfoldable pub serve_peers : List PeerConfig → Registry → Registry
unfolding serve internal_peer
serve_peers [] r = r
serve_peers (pc ∷ l) r = serve_peers l (if internal_peer r pc.identity then serve pc.realm r else r)

unfoldable pub all_internal : Registry → List Name → Bool
unfolding internal_peer
all_internal r [] = true
all_internal r (hop ∷ l) = internal_peer r hop && all_internal r l

-- The realm routes whose hops are all internal.
unfoldable pub serve_routes : List (Name × List Name) → Registry → Registry
unfolding serve all_internal
serve_routes [] r = r
serve_routes ((realm, []) ∷ l) r = serve_routes l r
serve_routes ((realm, hop ∷ hops) ∷ l) r =
    serve_routes l (if all_internal r (hop ∷ hops) then serve realm r else r)

abbrev longer_suffix : Name → Name → Bool
longer_suffix a b = ltb (length b) (length a)

abbrev before : Name → Name → Bool
before a b = string_gt b a

unfoldable pub rebuild_served : Config → Registry → Registry
unfolding serve serve_zones serve_peers serve_routes
rebuild_served cfg r =
    let s =
      serve_routes cfg.realm_routes
        (serve_peers cfg.peers (serve_zones cfg.zones (serve cfg.realm r))) in
    record s {
      served_order = sort before s.served_order;
      served_suffix = sort longer_suffix s.served_suffix;
    }

abbrev pub is_nonempty : {A : Type 0} → List A → Bool
is_nonempty [] = false
is_nonempty (x ∷ l) = true

-- The static index: zones, partners and peers, with the longest suffix first.
unfoldable pub rebuild : Config → Registry → Registry
unfolding add_zones set_default_zone add_partners longer add_peers effective_zones
rebuild cfg r =
    let named : Registry = record (empty_of r) {
      identity = cfg.identity;
      realm = cfg.realm;
      configured = is_nonempty cfg.zones || is_nonempty cfg.partners;
    } in
    let s : Registry =
      add_partners cfg.partners (set_default_zone (add_zones (effective_zones cfg) named)) in
    add_peers cfg.peers (record s { realm_suffix = sort longer s.realm_suffix })

-- `Reload`; a nil configuration only empties the index. Bound peers survive.
unfoldable pub reload : Option Config → Registry → Registry
unfolding rebuild rebuild_served
reload none r = empty_of r
reload (some cfg) r = rebuild_served cfg (rebuild cfg r)

unfoldable pub new_registry : Option Config → Registry
unfolding reload
new_registry cfg = reload cfg blank
