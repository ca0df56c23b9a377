-- ===== src/Edge/Longest.antt =====
-- pkg/core/edge/registry.go: the partner of a realm that only patterns match.
use mathlib.Core.List.{Memᴰ}
use mathlib.Core.List.Memᴰ
use godiam.Prelude.{
  ℕ, ◌≡◌, ◌≤◌, refl, sym, ap, ◌∙◌, inl, inr, Bool, true, false, ◌||◌, List, [], ◌∷◌, ◌++◌, Option,
  none, some, arith, if◌then◌else◌, ltb, length, Bool-cases, append-nil, append_assoc,
  le_of_ltb-eq-false,
}
use godiam.Prelude.Assoc.{lookup, insert, lookup-insert}
use godiam.Prelude.Sorting.{
  sort, IsSorted, All_mem, sort-IsSorted, true_ne_false, mem-sort, mem_of_sort,
}
use godiam.Routing.{Name, Name-discrete}
use godiam.Routing.Candidates.{is_empty}
use godiam.Edge.{
  PartnerPeer, PartnerConfig, Config, Registry, longer, has_suffix, normalize, wildcard,
  add_partner_peers, add_partner_realms, add_partner, add_partners,
}
use godiam.Edge.Served.{reload}
use godiam.Edge.Lookups.{first_suffix, partner_for_realm}
use godiam.Edge.Kept.{zoned, zoned-IsBare, reload-IsKept}
use godiam.Edge.Claimed.{same, or_else, or_else-none}

-- The suffixes of a partner's patterns, and those of all partners.
abbrev suffixes_of : PartnerConfig → List Name → List (Name × PartnerConfig)
suffixes_of p [] = []
suffixes_of p (realm ∷ l) = elim (wildcard (normalize realm)) [
  | some suffix ↦ (suffix, p) ∷ suffixes_of p l
  | none ↦ suffixes_of p l
]

abbrev with_pattern : PartnerConfig → Name → Registry → Option Name → Registry
with_pattern p n r (some suffix) = record r { realm_suffix = r.realm_suffix ++ (suffix, p) ∷ [] }
with_pattern p n r none = record r { realm_exact = insert Name-discrete n p r.realm_exact }

abbrev pub suffixes : List PartnerConfig → List (Name × PartnerConfig)
suffixes [] = []
suffixes (p ∷ l) = suffixes_of p p.realms ++ suffixes l

-- Whether a normalized realm is one of a partner's realms that are no patterns.
abbrev names : Name → List Name → Bool
names n [] = false
names n (realm ∷ l) =
    elim (wildcard (normalize realm)) [ some s ↦ false | none ↦ same (normalize realm) n ]
    || names n l

-- The last partner with this realm.
abbrev pub exact_claimant : Name → List PartnerConfig → Option PartnerConfig
exact_claimant n [] = none
exact_claimant n (p ∷ l) = elim (exact_claimant n l) [
  | some q ↦ some q
  | none ↦ if names n p.realms then some p else none
]

-- A matching suffix that is at least as long as `s`, with its partner.
abbrev pub Longest : Name → Name → List (Name × PartnerConfig) → Option PartnerConfig → Type 0
Longest n s l found =
    (p : PartnerConfig) × (t : Name) × (found ≡ some p)
    × Memᴰ (t, p) l
    × (has_suffix n t ≡ true)
    × (length s ≤ length t)

first_suffix-Longest :
    (n : Name) (l : List (Name × PartnerConfig)) (s : Name) (q : PartnerConfig)
    → IsSorted longer l
    → Memᴰ (s, q) l
    → has_suffix n s ≡ true
    → Longest n s l (first_suffix n l)
unfolding first_suffix IsSorted longer
first_suffix-Longest n [] s q h m e = absurd (Memᴰ.not-nil m)
first_suffix-Longest n ((t, p) ∷ l) s q h m e = elim (Bool-cases (has_suffix n t)) [
  | inl matches ↦
      let below : length s ≤ length t = elim (Memᴰ.cases_cons m) [
        | inl same_entry ↦ rw (ap (λ x. length x.0) same_entry) (omega arith)
        | inr m' ↦
            le_of_ltb-eq-false (length t) (length s)
              (All_mem (λ y. longer y (t, p) ≡ false) l h.0 m')
      ] in
      (p, t, rw matches refl, Memᴰ.head refl, matches, below)
  | inr differs ↦ elim (Memᴰ.cases_cons m) [
    | inl same_entry ↦
        absurd (true_ne_false (sym e ∙ ap (λ x. has_suffix n x.0) same_entry ∙ differs))
    | inr m' ↦
        let (p', t', found, at, matches, below) = first_suffix-Longest n l s q h.1 m' e in
        (p', t', rw differs found, Memᴰ.tail at, matches, below)
  ]
]

-- The loops over the realms of the partners collect the patterns.
realms_suffixes :
    (p : PartnerConfig) (l : List Name) (r : Registry)
    → (add_partner_realms p l r).realm_suffix ≡ r.realm_suffix ++ suffixes_of p l
unfolding add_partner_realms
realms_suffixes p [] r = sym (append-nil r.realm_suffix)
realms_suffixes p (realm ∷ l) r =
    elim (wildcard (normalize realm))
      as (λ o.
        (add_partner_realms p l (with_pattern p (normalize realm) r o)).realm_suffix
        ≡ r.realm_suffix ++ (elim o as (λ _. List (Name × PartnerConfig)) [
          | some suffix ↦ (suffix, p) ∷ suffixes_of p l
          | none ↦ suffixes_of p l
        ])) [
          | some suffix ↦
              realms_suffixes p l (with_pattern p (normalize realm) r (some suffix))
              ∙ append_assoc r.realm_suffix ((suffix, p) ∷ []) (suffixes_of p l)
          | none ↦ realms_suffixes p l (with_pattern p (normalize realm) r none)
        ]

peers_patterns :
    (p : PartnerConfig) (l : List PartnerPeer) (r : Registry)
    → ((add_partner_peers p l r).realm_suffix ≡ r.realm_suffix)
      × ((add_partner_peers p l r).realm_exact ≡ r.realm_exact)
unfolding add_partner_peers
peers_patterns p [] r = (refl, refl)
peers_patterns p (pp ∷ l) r = peers_patterns p l (record r {
  partner_by_peer = insert Name-discrete (normalize pp.identity) p r.partner_by_peer;
  peer_zone = insert Name-discrete (normalize pp.identity) p.zone r.peer_zone;
})

realms_exact :
    (n : Name) (p : PartnerConfig) (l : List Name) (r : Registry)
    → lookup Name-discrete n (add_partner_realms p l r).realm_exact
      ≡ (if names n l then some p else lookup Name-discrete n r.realm_exact)
unfolding add_partner_realms
realms_exact n p [] r = refl
realms_exact n p (realm ∷ l) r =
    elim (wildcard (normalize realm))
      as (λ o.
        lookup Name-discrete n
          (add_partner_realms p l (with_pattern p (normalize realm) r o)).realm_exact
        ≡ (if (elim o as (λ _. Bool) [ some s ↦ false | none ↦ same (normalize realm) n ])
              || names n l
            then some p
            else lookup Name-discrete n r.realm_exact)) [
              | some suffix ↦ realms_exact n p l (with_pattern p (normalize realm) r (some suffix))
              | none ↦ ground (
                arith,
                realms_exact n p l (with_pattern p (normalize realm) r none),
                lookup-insert Name-discrete (normalize realm) n p r.realm_exact,
              )
            ]

partner_patterns :
    (n : Name) (p : PartnerConfig) (r : Registry)
    → ((add_partner p r).realm_suffix ≡ r.realm_suffix ++ suffixes_of p p.realms)
      × (lookup Name-discrete n (add_partner p r).realm_exact
          ≡ (if names n p.realms then some p else lookup Name-discrete n r.realm_exact))
unfolding add_partner
partner_patterns n p r =
    let named : Registry = record r {
      partners = insert Name-discrete p.name p r.partners;
      partner_order = r.partner_order ++ p.name ∷ [];
    } in
    let s = add_partner_peers p p.peers named in
    let kept = peers_patterns p p.peers named in
    (
      realms_suffixes p p.realms s ∙ ap (λ l. l ++ suffixes_of p p.realms) kept.0,
      realms_exact n p p.realms s
          ∙ ap (λ m. if names n p.realms then some p else lookup Name-discrete n m) kept.1,
    )

partners_suffixes :
    (l : List PartnerConfig) (r : Registry)
    → (add_partners l r).realm_suffix ≡ r.realm_suffix ++ suffixes l
unfolding add_partners
partners_suffixes [] r = sym (append-nil r.realm_suffix)
partners_suffixes (p ∷ l) r =
    partners_suffixes l (add_partner p r)
    ∙ ap (λ k. k ++ suffixes l) (partner_patterns [] p r).0
    ∙ append_assoc r.realm_suffix (suffixes_of p p.realms) (suffixes l)

partners_exact :
    (n : Name) (l : List PartnerConfig) (r : Registry)
    → lookup Name-discrete n (add_partners l r).realm_exact
      ≡ or_else (exact_claimant n l) (lookup Name-discrete n r.realm_exact)
unfolding add_partners
partners_exact n [] r = refl
partners_exact n (p ∷ l) r =
    ground (arith, partners_exact n l (add_partner p r), (partner_patterns n p r).1)

reload_patterns :
    (cfg : Config) (r : Registry)
    → (reload (some cfg) r).realm_suffix ≡ sort longer (suffixes cfg.partners)
reload_patterns cfg r =
    (reload-IsKept cfg r).1
    ∙ ap (sort longer) (
        partners_suffixes cfg.partners (zoned cfg r)
        ∙ ap (λ l. l ++ suffixes cfg.partners) (zoned-IsBare cfg r).1)

reload_exact :
    (n : Name) (cfg : Config) (r : Registry)
    → lookup Name-discrete n (reload (some cfg) r).realm_exact ≡ exact_claimant n cfg.partners
unfolding lookup
reload_exact n cfg r =
    ap (lookup Name-discrete n) (reload-IsKept cfg r).2
    ∙ partners_exact n cfg.partners (zoned cfg r)
    ∙ ap (λ m. or_else (exact_claimant n cfg.partners) (lookup Name-discrete n m))
        (zoned-IsBare cfg r).2
    ∙ or_else-none (exact_claimant n cfg.partners)

lengths_asym : (m n : ℕ) → ltb m n ≡ true → ltb n m ≡ false
lengths_asym m n e = ground arith

lengths_trans : (a b c : ℕ) → ltb a b ≡ false → ltb b c ≡ false → ltb a c ≡ false
lengths_trans a b c e d = ground arith

patterns-IsSorted : (l : List (Name × PartnerConfig)) → IsSorted longer (sort longer l)
unfolding longer
patterns-IsSorted l =
    sort-IsSorted longer (λ a b e. lengths_asym (length b.0) (length a.0) e)
      (λ a b c e d. lengths_trans (length a.0) (length b.0) (length c.0) e d) l

-- What `partner_for_realm` does once no exact realm is found.
by_pattern :
    (r : Registry) (realm : Name)
    → is_empty realm ≡ false
    → lookup Name-discrete (normalize realm) r.realm_exact ≡ none
    → partner_for_realm r realm ≡ first_suffix (normalize realm) r.realm_suffix
unfolding partner_for_realm
by_pattern r realm named missing = ground arith

-- Let no partner of a configuration have a realm itself, as written after normalization, and let
-- the pattern with suffix `s` of some partner match it. Then in a registry that has loaded the
-- configuration `partner_for_realm` finds a partner by one of its patterns that matches the realm
-- and is at least as long as `s`. So it is the partner of a longest matching pattern. The realm is
-- not "".
pub partner_for_realm-Longest :
    (cfg : Config) (r : Registry) (realm : Name) (s : Name) (q : PartnerConfig)
    → exact_claimant (normalize realm) cfg.partners ≡ none
    → Memᴰ (s, q) (suffixes cfg.partners)
    → has_suffix (normalize realm) s ≡ true
    → is_empty realm ≡ false
    → Longest
        (normalize realm)
        s
        (suffixes cfg.partners)
        (partner_for_realm (reload (some cfg) r) realm)
partner_for_realm-Longest cfg r realm s q exact m e named =
    let l = suffixes cfg.partners in
    let n = normalize realm in
    let (p, t, found, at, matches, below) =
      first_suffix-Longest n (sort longer l) s q (patterns-IsSorted l) (mem-sort longer l m) e in
    let chosen : partner_for_realm (reload (some cfg) r) realm ≡ some p =
      by_pattern (reload (some cfg) r) realm named (reload_exact n cfg r ∙ exact)
      ∙ ap (first_suffix n) (reload_patterns cfg r)
      ∙ found in
    (p, t, chosen, mem_of_sort longer l at, matches, below)
