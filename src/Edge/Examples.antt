-- ===== src/Edge/Examples.antt =====
-- Two partners in the zone "e": one has the realms "*.b" and the peer "h", the other "*.a.b".
use godiam.Prelude.{◌≡◌, refl, true, false, List, [], ◌∷◌, Option, some, bytes_eq, ℕ_discrete}
use godiam.Prelude.Ints.{pos}
use godiam.Prelude.Assoc.{lookup}
use godiam.Prelude.Sorting.{sort, insert_by}
use mathlib.Core.List.{Memᴰ}
use godiam.Routing.{Name, Name-discrete}
use godiam.Peer.Connect.{to_lower}
use godiam.Edge.{ZoneConfig, PartnerConfig, Config, blank, normalize, has_prefix, has_suffix}
use godiam.Edge.Served.{reload}
use godiam.Edge.Lookups.{partner_for_realm, serves_realm}
use godiam.Edge.Admission.{admit_peer, admitted}
use godiam.Edge.Claimed.{claimed_admission}
use godiam.Edge.Longest.{suffixes, partner_for_realm-Longest, Longest}

abbrev outer : ZoneConfig
outer = record {
  name = b'e' ∷ [];
  external = true;
  realms = [];
  require_client_cert_identity = true;
  allow_unknown = false;
  allow_identities = [];
}

abbrev inner : ZoneConfig
inner = record {
  name = b'i' ∷ [];
  external = false;
  realms = (b'm' ∷ []) ∷ [];
  require_client_cert_identity = false;
  allow_unknown = true;
  allow_identities = [];
}

abbrev short : PartnerConfig
short = record {
  name = b's' ∷ [];
  zone = b'e' ∷ [];
  realms = (b'*' ∷ b'.' ∷ b'b' ∷ []) ∷ [];
  peers = record { identity = b'H' ∷ b'.' ∷ []; priority = pos 0; weight = pos 1 } ∷ [];
  allow_transit = false;
}

abbrev long : PartnerConfig
long = record {
  name = b'l' ∷ [];
  zone = b'e' ∷ [];
  realms = (b'*' ∷ b'.' ∷ b'a' ∷ b'.' ∷ b'b' ∷ []) ∷ [];
  peers = [];
  allow_transit = true;
}

abbrev cfg : Config
cfg = record {
  identity = b'n' ∷ [];
  realm = b'o' ∷ [];
  zones = outer ∷ inner ∷ [];
  partners = short ∷ long ∷ [];
  peers = [];
  realm_routes = [];
  allow_unknown = false;
  allow_identities = [];
}

-- "c.a.b"
abbrev inside : Name
inside = b'c' ∷ b'.' ∷ b'a' ∷ b'.' ∷ b'b' ∷ []

abbrev cert : Option (List Name)
cert = some ((b'h' ∷ []) ∷ [])

claimed_admission_example :
    admit_peer cfg.peers (reload (some cfg) blank) outer cert (b'h' ∷ []) inside
    ≡ admitted (b's' ∷ [])
unfolding admit_peer normalize Name-discrete ℕ_discrete bytes_eq
claimed_admission_example =
    claimed_admission cfg blank outer cert (b'h' ∷ []) inside short refl refl

partner_for_realm-Longest_example :
    Longest
      (normalize inside)
      (b'.' ∷ b'b' ∷ [])
      (suffixes cfg.partners)
      (partner_for_realm (reload (some cfg) blank) inside)
unfolding normalize has_suffix has_prefix to_lower bytes_eq
partner_for_realm-Longest_example =
    partner_for_realm-Longest cfg blank inside (b'.' ∷ b'b' ∷ []) short refl (Memᴰ.head refl) refl
      refl

-- The inner zone's realm is served, and the partner's is not.
serves_inner : serves_realm (reload (some cfg) blank) (b'm' ∷ []) ≡ true
unfolding serves_realm reload to_lower bytes_eq
serves_inner = refl

serves_partner : serves_realm (reload (some cfg) blank) inside ≡ false
unfolding serves_realm reload to_lower bytes_eq sort
serves_partner = refl

finds_long : partner_for_realm (reload (some cfg) blank) inside ≡ some long
unfolding partner_for_realm reload lookup to_lower bytes_eq sort insert_by
finds_long = refl
