-- ===== src/Edge/Kept.antt =====
-- What the realms that are served and the configured peers leave alone.
use godiam.Prelude.{
  ◌≡◌, refl, ◌∙◌, not, ◌&&◌, ◌||◌, List, [], ◌∷◌, ◌++◌, none, some, if◌then◌else◌, if_both,
  option_both,
}
use godiam.Prelude.Assoc.{lookup, insert}
use godiam.Prelude.Sorting.{sort}
use godiam.Routing.{Name, Name-discrete}
use godiam.Routing.Candidates.{is_empty, has}
use godiam.Edge.{
  ZoneConfig, PeerConfig, Config, Registry, normalize, wildcard, add_peers, add_zones,
  set_default_zone, add_partners, effective_zones, empty_of, longer,
}
use godiam.Edge.Served.{
  serve, serve_all, serve_zones, internal_peer, serve_peers, all_internal, serve_routes,
  rebuild_served, is_nonempty, rebuild, reload,
}

-- The index of the partners is the same.
abbrev pub IsKept : Registry → Registry → Type 0
IsKept a b =
    (b.partner_by_peer ≡ a.partner_by_peer)
    × (b.realm_suffix ≡ a.realm_suffix)
    × (b.realm_exact ≡ a.realm_exact)

IsKept-trans : (a b c : Registry) → IsKept a b → IsKept b c → IsKept a c
IsKept-trans a b c h k = (k.0 ∙ h.0, k.1 ∙ h.1, k.2 ∙ h.2)

serve-IsKept : (realm : Name) (r : Registry) → IsKept r (serve realm r)
unfolding serve
serve-IsKept realm r =
    if_both (IsKept r) (is_empty (normalize realm)) _ _ (refl, refl, refl)
      (option_both (IsKept r) (wildcard (normalize realm)) _ _
        (if_both (IsKept r) (has r.served_exact (normalize realm)) _ _ (refl, refl, refl)
          (refl, refl, refl))
        (λ suffix.
          if_both (IsKept r) (has r.served_suffix suffix) _ _ (refl, refl, refl)
            (refl, refl, refl)))

serve_all-IsKept : (l : List Name) (r : Registry) → IsKept r (serve_all l r)
unfolding serve_all
serve_all-IsKept [] r = (refl, refl, refl)
serve_all-IsKept (realm ∷ l) r =
    IsKept-trans r (serve realm r) (serve_all l (serve realm r)) (serve-IsKept realm r)
      (serve_all-IsKept l (serve realm r))

serve_zones-IsKept : (l : List ZoneConfig) (r : Registry) → IsKept r (serve_zones l r)
unfolding serve_zones
serve_zones-IsKept [] r = (refl, refl, refl)
serve_zones-IsKept (z ∷ l) r =
    let s = if z.external then r else serve_all z.realms r in
    IsKept-trans r s (serve_zones l s)
      (if_both (IsKept r) z.external r (serve_all z.realms r) (refl, refl, refl)
        (serve_all-IsKept z.realms r))
      (serve_zones-IsKept l s)

serve_peers-IsKept : (l : List PeerConfig) (r : Registry) → IsKept r (serve_peers l r)
unfolding serve_peers
serve_peers-IsKept [] r = (refl, refl, refl)
serve_peers-IsKept (pc ∷ l) r =
    let s = if internal_peer r pc.identity then serve pc.realm r else r in
    IsKept-trans r s (serve_peers l s)
      (if_both (IsKept r) (internal_peer r pc.identity) (serve pc.realm r) r
        (serve-IsKept pc.realm r) (refl, refl, refl))
      (serve_peers-IsKept l s)

serve_routes-IsKept : (l : List (Name × List Name)) (r : Registry) → IsKept r (serve_routes l r)
unfolding serve_routes
serve_routes-IsKept [] r = (refl, refl, refl)
serve_routes-IsKept ((realm, []) ∷ l) r = serve_routes-IsKept l r
serve_routes-IsKept ((realm, hop ∷ hops) ∷ l) r =
    let s = if all_internal r (hop ∷ hops) then serve realm r else r in
    IsKept-trans r s (serve_routes l s)
      (if_both (IsKept r) (all_internal r (hop ∷ hops)) (serve realm r) r (serve-IsKept realm r)
        (refl, refl, refl))
      (serve_routes-IsKept l s)

rebuild_served-IsKept : (cfg : Config) (r : Registry) → IsKept r (rebuild_served cfg r)
unfolding rebuild_served
rebuild_served-IsKept cfg r =
    let a = serve cfg.realm r in
    let b = serve_zones cfg.zones a in
    let c = serve_peers cfg.peers b in
    IsKept-trans r c (serve_routes cfg.realm_routes c)
      (IsKept-trans r b c
        (IsKept-trans r a b (serve-IsKept cfg.realm r) (serve_zones-IsKept cfg.zones a))
        (serve_peers-IsKept cfg.peers b))
      (serve_routes-IsKept cfg.realm_routes c)

add_peers-IsKept : (l : List PeerConfig) (r : Registry) → IsKept r (add_peers l r)
unfolding add_peers
add_peers-IsKept [] r = (refl, refl, refl)
add_peers-IsKept (pc ∷ l) r =
    let id = normalize pc.identity in
    let zoned : Registry = record r { peer_zone = insert Name-discrete id pc.zone r.peer_zone } in
    let default : Registry = record r {
      peer_zone = insert Name-discrete id r.default_zone r.peer_zone;
    } in
    let other = elim (lookup Name-discrete id r.peer_zone) as (λ _. Registry) [
      | some z ↦ r
      | none ↦ default
    ] in
    let s = if not (is_empty pc.zone) then zoned else other in
    IsKept-trans r s (add_peers l s)
      (if_both (IsKept r) (not (is_empty pc.zone)) zoned other (refl, refl, refl)
        (option_both (IsKept r) (lookup Name-discrete id r.peer_zone) default (λ _. r)
          (refl, refl, refl) (λ _. (refl, refl, refl))))
      (add_peers-IsKept l s)

-- Nothing of a partner is known.
abbrev pub IsBare : Registry → Type 0
IsBare r = (r.partner_by_peer ≡ []) × (r.realm_suffix ≡ []) × (r.realm_exact ≡ [])

add_zones-IsBare : (l : List ZoneConfig) (r : Registry) → IsBare r → IsBare (add_zones l r)
unfolding add_zones
add_zones-IsBare [] r h = h
add_zones-IsBare (z ∷ l) r h =
    add_zones-IsBare l
      (record r {
        zones = insert Name-discrete z.name z r.zones;
        zone_order = r.zone_order ++ z.name ∷ [];
        default_zone = if is_empty r.default_zone && not z.external then z.name else r.default_zone;
      })
      h

set_default_zone-IsBare : (r : Registry) → IsBare r → IsBare (set_default_zone r)
unfolding set_default_zone
set_default_zone-IsBare r h =
    elim r.zone_order
      as (λ l. IsBare (elim l as (λ _. Registry) [
        | [] ↦ r
        | z ∷ l ↦ record r { default_zone = if is_empty r.default_zone then z else r.default_zone }
      ])) [ [] ↦ h | z ∷ l ↦ h ]

-- The registry once the zones are loaded, and once the partners are.
abbrev named : Config → Registry → Registry
named cfg r = record (empty_of r) {
  identity = cfg.identity;
  realm = cfg.realm;
  configured = is_nonempty cfg.zones || is_nonempty cfg.partners;
}

abbrev pub zoned : Config → Registry → Registry
zoned cfg r = set_default_zone (add_zones (effective_zones cfg) (named cfg r))

pub zoned-IsBare : (cfg : Config) (r : Registry) → IsBare (zoned cfg r)
zoned-IsBare cfg r =
    set_default_zone-IsBare (add_zones (effective_zones cfg) (named cfg r))
      (add_zones-IsBare (effective_zones cfg) (named cfg r) (refl, refl, refl))

abbrev pub partnered : Config → Registry → Registry
partnered cfg r =
    let s : Registry = add_partners cfg.partners (zoned cfg r) in
    record s { realm_suffix = sort longer s.realm_suffix }

pub reload-IsKept : (cfg : Config) (r : Registry) → IsKept (partnered cfg r) (reload (some cfg) r)
unfolding reload rebuild
reload-IsKept cfg r =
    IsKept-trans (partnered cfg r) (add_peers cfg.peers (partnered cfg r)) (reload (some cfg) r)
      (add_peers-IsKept cfg.peers (partnered cfg r))
      (rebuild_served-IsKept cfg (add_peers cfg.peers (partnered cfg r)))
