-- ===== src/EdgeRoute/Examples.antt =====
-- A message to the realm "b", which one partner has, with that partner's peer "h" and another
-- partner's peer "x" as candidates.

use mathlib.Core.List.{Memᴰ}
use godiam.Prelude.{
  ℕ, ◌≡◌, refl, sym, subst, true, false, List, [], ◌∷◌, some, bytes_eq, ℕ_discrete,
}
use godiam.Prelude.Assoc.{lookup}
use godiam.Prelude.Ints.{pos, eqz, ltz, addz}
use godiam.Prelude.Sorting.{sort, insert_by}
use godiam.Message.{Message, new_diameter_identity_avp}
use godiam.Message.Fields.{
  destination_realm, matches_avp, get_origin_host, get_origin_realm, get_destination_host,
  get_destination_realm,
}
use godiam.Routing.{Name, Name-discrete, Route}
use godiam.Routing.Candidates.{route}
use godiam.Peer.Connect.{to_lower}
use godiam.Edge.{ZoneConfig, PartnerConfig, Registry, blank, is_external_zone}
use godiam.Edge.Lookups.{partner_for_peer}
use godiam.EdgeRoute.{EdgeRoute, destination_partner, origin_partner_of, refuses, handle_routing}
use godiam.EdgeRoute.Owned.{Owner, handle_routing-Owner}

abbrev outer : ZoneConfig
outer = record {
  name = b'e' ∷ [];
  external = true;
  realms = [];
  require_client_cert_identity = false;
  allow_unknown = false;
  allow_identities = [];
}

abbrev partner : Name → Name → Name → PartnerConfig
partner name realm peer = record {
  name = name;
  zone = b'e' ∷ [];
  realms = realm ∷ [];
  peers = record { identity = peer; priority = pos 0; weight = pos 1 } ∷ [];
  allow_transit = false;
}

abbrev owning : PartnerConfig
owning = partner (b'p' ∷ []) (b'b' ∷ []) (b'h' ∷ [])

abbrev other : PartnerConfig
other = partner (b'q' ∷ []) (b'c' ∷ []) (b'x' ∷ [])

abbrev registry : Registry
registry = record blank {
  configured = true;
  zones = (b'e' ∷ [], outer) ∷ [];
  partners = (b'p' ∷ [], owning) ∷ (b'q' ∷ [], other) ∷ [];
  partner_by_peer = (b'h' ∷ [], owning) ∷ (b'x' ∷ [], other) ∷ [];
  realm_exact = (b'b' ∷ [], owning) ∷ (b'c' ∷ [], other) ∷ [];
}

abbrev handler : EdgeRoute
handler = record {
  reg = some registry;
  base_score = pos 300;
  enabled = true;
  evaluated = 0;
  routed = 0;
  transit = 0;
  misdeliver = 0;
  per_partner = [];
}

abbrev request : Message
request = record {
  version = 1;
  flags = 128;
  command_code = 272;
  application_id = 4;
  hop_by_hop_id = 11;
  end_to_end_id = 5;
  avps = new_diameter_identity_avp destination_realm 64 (b'b' ∷ []) ∷ [];
}

-- A source of random numbers that always draws 0.
abbrev zeros : ℕ → ℕ → ℕ × ℕ
zeros w n = (w, 0)

abbrev candidates : List Route
candidates = route (b'x' ∷ []) (pos 100) ∷ route (b'h' ∷ []) (pos 90) ∷ []

kept_own : (handle_routing zeros handler 7 request candidates).2 ≡ route (b'h' ∷ []) (pos 301) ∷ []
unfolding handle_routing get_origin_host matches_avp new_diameter_identity_avp get_origin_realm
    get_destination_host get_destination_realm lookup Name-discrete to_lower ℕ_discrete sort
    insert_by eqz bytes_eq ltz addz
kept_own = refl

handle_routing-Owner_example :
    (refuses (origin_partner_of registry request) (destination_partner registry request) ≡ false)
    × Owner registry (destination_partner registry request) (b'h' ∷ []) owning
unfolding partner_for_peer is_external_zone lookup Name-discrete to_lower ℕ_discrete
handle_routing-Owner_example =
    handle_routing-Owner zeros registry handler 7 request candidates (route (b'h' ∷ []) (pos 301))
      owning refl refl refl
      (subst (λ l. Memᴰ (route (b'h' ∷ []) (pos 301)) l) (sym kept_own) (Memᴰ.head refl)) refl refl
