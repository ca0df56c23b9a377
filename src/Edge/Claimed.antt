-- ===== src/Edge/Claimed.antt =====
-- A peer that a partner lists is admitted on the partner's zone only.
use godiam.Prelude.{
  ◌≡◌, refl, ap, ◌∙◌, Bool, true, false, not, ◌&&◌, ◌||◌, List, [], ◌∷◌, ◌++◌, Option, none, some,
  arith, if◌then◌else◌, bytes_eq, ite, option_both,
}
use godiam.Prelude.Assoc.{lookup, insert, lookup-insert}
use godiam.Routing.{Name, Name-discrete}
use godiam.Routing.Candidates.{is_empty}
use godiam.Edge.{
  ZoneConfig, PartnerPeer, PartnerConfig, PeerConfig, Config, Registry, normalize, wildcard,
  add_partner_peers, add_partner_realms, add_partner, add_partners,
}
use godiam.Edge.Served.{reload}
use godiam.Edge.Lookups.{partner_for_peer, realm_matches}
use godiam.Edge.Admission.{AdmissionResult, admit_peer, cert_identity_matches, admitted, rejected}
use godiam.Edge.Kept.{zoned, zoned-IsBare, reload-IsKept}

abbrev pub same : Name → Name → Bool
same a b = ite (Name-discrete a b) true false

-- Whether a normalized name is one of the names of a list.
abbrev pub lists : Name → List PartnerPeer → Bool
lists n [] = false
lists n (pp ∷ l) = same (normalize pp.identity) n || lists n l

-- The last partner of a configuration that lists a peer.
abbrev pub claimant : Name → List PartnerConfig → Option PartnerConfig
claimant n [] = none
claimant n (p ∷ l) = elim (claimant n l) [
  | some q ↦ some q
  | none ↦ if lists n p.peers then some p else none
]

abbrev is_empty_list : List Name → Bool
is_empty_list [] = true
is_empty_list (x ∷ l) = false

-- The value, or else the other one.
abbrev pub or_else : {A : Type 0} → Option A → Option A → Option A
or_else (some a) b = some a
or_else none b = b

peers_claim :
    (n : Name) (p : PartnerConfig) (l : List PartnerPeer) (r : Registry)
    → lookup Name-discrete n (add_partner_peers p l r).partner_by_peer
      ≡ (if lists n l then some p else lookup Name-discrete n r.partner_by_peer)
unfolding add_partner_peers
peers_claim n p [] r = refl
peers_claim n p (pp ∷ l) r =
    let s : Registry = record r {
      partner_by_peer = insert Name-discrete (normalize pp.identity) p r.partner_by_peer;
      peer_zone = insert Name-discrete (normalize pp.identity) p.zone r.peer_zone;
    } in
    ground (
      arith,
      peers_claim n p l s,
      lookup-insert Name-discrete (normalize pp.identity) n p r.partner_by_peer,
    )

realms_claim :
    (p : PartnerConfig) (l : List Name) (r : Registry)
    → (add_partner_realms p l r).partner_by_peer ≡ r.partner_by_peer
unfolding add_partner_realms
realms_claim p [] r = refl
realms_claim p (realm ∷ l) r =
    realms_claim p l _
    ∙ option_both (λ (x : Registry). x.partner_by_peer ≡ r.partner_by_peer)
        (wildcard (normalize realm))
        (record r { realm_exact = insert Name-discrete (normalize realm) p r.realm_exact })
        (λ suffix. record r { realm_suffix = r.realm_suffix ++ (suffix, p) ∷ [] }) refl (λ _. refl)

partners_claim :
    (n : Name) (l : List PartnerConfig) (r : Registry)
    → lookup Name-discrete n (add_partners l r).partner_by_peer
      ≡ or_else (claimant n l) (lookup Name-discrete n r.partner_by_peer)
unfolding add_partners add_partner
partners_claim n [] r = refl
partners_claim n (p ∷ l) r =
    let named : Registry = record r {
      partners = insert Name-discrete p.name p r.partners;
      partner_order = r.partner_order ++ p.name ∷ [];
    } in
    ground (
      arith,
      partners_claim n l (add_partner p r),
      ap (lookup Name-discrete n) (realms_claim p p.realms (add_partner_peers p p.peers named)),
      peers_claim n p p.peers named,
    )

pub or_else-none : (a : Option PartnerConfig) → or_else a none ≡ a
or_else-none none = refl
or_else-none (some p) = refl

-- The index of the peers is what the partners of the configuration claim.
registry_claim :
    (n : Name) (cfg : Config) (r : Registry)
    → lookup Name-discrete n (reload (some cfg) r).partner_by_peer ≡ claimant n cfg.partners
unfolding lookup
registry_claim n cfg r =
    ap (lookup Name-discrete n) (reload-IsKept cfg r).0
    ∙ partners_claim n cfg.partners (zoned cfg r)
    ∙ ap (λ l. or_else (claimant n cfg.partners) (lookup Name-discrete n l)) (zoned-IsBare cfg r).0
    ∙ or_else-none (claimant n cfg.partners)

partner_of_claim :
    (reg : Registry) (host : Name) (p : PartnerConfig)
    → lookup Name-discrete (normalize host) reg.partner_by_peer ≡ some p
    → is_empty host ≡ false
    → partner_for_peer reg host ≡ some p
unfolding partner_for_peer
partner_of_claim reg host p found named = ground arith

-- The tests of `admit_peer` once a partner is found.
decision :
    (need id_ok zone_ok : Bool) (matches : List Name → Bool) (realms : List Name)
    (granted : AdmissionResult)
    → (if need && not id_ok
        then rejected
        else if not zone_ok
        then rejected
        else elim realms as (λ _. AdmissionResult) [
          | [] ↦ granted
          | x ∷ xs ↦ if matches (x ∷ xs) then granted else rejected
        ])
      ≡ (if (not need || id_ok) && zone_ok && (is_empty_list realms || matches realms)
          then granted
          else rejected)
decision need id_ok zone_ok matches [] granted = ground arith
decision need id_ok zone_ok matches (x ∷ xs) granted = ground arith

admission_of_claim :
    (peers : List PeerConfig) (reg : Registry) (z : ZoneConfig) (cert : Option (List Name))
    (host realm : Name) (p : PartnerConfig)
    → partner_for_peer reg host ≡ some p
    → admit_peer peers reg z cert host realm ≡ (
        if (not z.require_client_cert_identity || cert_identity_matches cert host)
          && bytes_eq p.zone z.name
          && (is_empty_list p.realms || realm_matches realm p.realms)
        then admitted p.name
        else rejected)
unfolding admit_peer
admission_of_claim peers reg z cert host realm p found = rw found (
    decision z.require_client_cert_identity (cert_identity_matches cert host)
      (bytes_eq p.zone z.name) (realm_matches realm) p.realms (admitted p.name))

-- Let a partner of a configuration list a peer, the last one where several do. Whatever the
-- registry knew before it loads the configuration, also of peers that were bound, `admit_peer`
-- admits the peer exactly if its certificate is not required or matches, the zone is the
-- partner's, and the partner has no realms or one that matches the peer's; the result then names
-- this partner, and else it is rejected as unknown. The peer's identity is not "".
pub claimed_admission :
    (cfg : Config) (r : Registry) (z : ZoneConfig) (cert : Option (List Name)) (host realm : Name)
    (p : PartnerConfig)
    → claimant (normalize host) cfg.partners ≡ some p
    → is_empty host ≡ false
    → admit_peer cfg.peers (reload (some cfg) r) z cert host realm ≡ (
        if (not z.require_client_cert_identity || cert_identity_matches cert host)
          && bytes_eq p.zone z.name
          && (is_empty_list p.realms || realm_matches realm p.realms)
        then admitted p.name
        else rejected)
claimed_admission cfg r z cert host realm p claimed named =
    admission_of_claim cfg.peers (reload (some cfg) r) z cert host realm p (
      partner_of_claim (reload (some cfg) r) host p
        (registry_claim (normalize host) cfg r ∙ claimed) named)
