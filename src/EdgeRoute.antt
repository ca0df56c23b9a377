-- ===== src/EdgeRoute.antt =====
-- pkg/extensions/dea_route/dea_route.go: the outgoing handler that routes by the partners of an edge
-- agent. A counter is a number of 64 bits; the reason of a route is text and left out.
pub mod Owned
mod Examples
use godiam.Prelude.{
  ℕ, ◌+◌, ◌-◌, ◌*◌, ◌%◌, ◌^◌, zero, suc, Bool, true, false, not, ◌&&◌, ◌||◌, List, [], ◌∷◌, ◌++◌,
  Option, none, some, ltb, keep, if◌then◌else◌, bytes_eq,
}
use godiam.Prelude.Assoc.{lookup, insert}
use godiam.Prelude.Ints.{ℤ, pos, negsuc, minus, ltz, eqz, addz}
use godiam.Prelude.Sorting.{sort}
use godiam.Message.{Message}
use godiam.Message.Fields.{
  get_destination_host, get_destination_realm, get_origin_host, get_origin_realm,
}
use godiam.Routing.{Name, Name-discrete, Route}
use godiam.Routing.Candidates.{is_empty, route}
use godiam.Edge.{PartnerPeer, PartnerConfig, Registry, is_external_zone}
use godiam.Edge.Lookups.{partner_for_peer, partner_for_realm}

pub record EdgeRoute : Type 0 where
  pub reg : Option Registry
  pub base_score : ℤ
  pub enabled : Bool
  pub evaluated : ℕ
  pub routed : ℕ
  pub transit : ℕ
  pub misdeliver : ℕ
  pub per_partner : List (Name × ℕ)

abbrev pub next : ℕ → ℕ
next n = suc n % 2 ^ 64

-- The partner that owns a host, or else a realm, where these are given and not "".
unfoldable pub partner_of : Registry → Option Name → Option Name → Option PartnerConfig
unfolding partner_for_peer partner_for_realm
partner_of reg host realm =
    let by_realm = elim realm as (λ _. Option PartnerConfig) [
      | none ↦ none
      | some name ↦ partner_for_realm reg name
    ] in
    elim host as (λ _. Option PartnerConfig) [
      | none ↦ by_realm
      | some name ↦ elim (partner_for_peer reg name) [ none ↦ by_realm | some p ↦ some p ]
    ]

unfoldable pub destination_partner : Registry → Message → Option PartnerConfig
unfolding partner_of
destination_partner reg m = partner_of reg (get_destination_host m) (get_destination_realm m)

unfoldable pub origin_partner_of : Registry → Message → Option PartnerConfig
unfolding partner_of
origin_partner_of reg m = partner_of reg (get_origin_host m) (get_origin_realm m)

-- The test of `dropForeignExternal`.
unfoldable pub is_foreign : Registry → Option PartnerConfig → Name → Bool
unfolding partner_for_peer is_external_zone
is_foreign reg dest peer = elim (partner_for_peer reg peer) [
  | none ↦ false
  | some p ↦
      is_external_zone reg p.zone
      && elim dest [ none ↦ true | some d ↦ not (bytes_eq p.name d.name) ]
]

-- With the number of candidates that are dropped.
unfoldable pub drop_foreign_external :
    Registry → Option PartnerConfig → List Route → ℕ → List Route × ℕ
unfolding is_foreign
drop_foreign_external reg dest [] n = ([], n)
drop_foreign_external reg dest (c ∷ l) n =
    let dropped = drop_foreign_external reg dest l (next n) in
    let kept = drop_foreign_external reg dest l n in
    if is_foreign reg dest c.peer_identity then dropped else (c ∷ kept.0, kept.1)

abbrev positive : ℤ → ℕ
positive (pos zero) = 1
positive (pos (suc n)) = suc n
positive (negsuc n) = 1

unfoldable pub weight_of : PartnerPeer → ℕ
weight_of pp = positive pp.weight

unfoldable pub total_weight : List PartnerPeer → ℕ
unfolding weight_of
total_weight [] = 0
total_weight (pp ∷ l) = weight_of pp + total_weight l

-- The second loop of `electWinner`; past the end it is the last peer.
unfoldable pub winner_at : ℕ → List PartnerPeer → Name
unfolding weight_of
winner_at draw [] = []
winner_at draw (pp ∷ []) = pp.identity
winner_at draw (pp ∷ pq ∷ l) =
    let rest = winner_at (draw - weight_of pp) (pq ∷ l) in
    if ltb draw (weight_of pp) then pp.identity else rest

-- `intn` is the source of random numbers, which Init always sets.
unfoldable pub elect_winner : {W : Type 0} → (W → ℕ → W × ℕ) → W → List PartnerPeer → W × Name
unfolding total_weight winner_at
elect_winner intn w [] = (w, [])
elect_winner intn w (pp ∷ l) =
    let drawn = intn w (total_weight (pp ∷ l)) in (drawn.0, winner_at drawn.1 (pp ∷ l))

-- The last candidate of the same peer, as `index` finds it, is replaced if its score is lower.
unfoldable pub raise : Route → List Route → Option (List Route)
raise r [] = none
raise r (c ∷ l) = elim (raise r l) [
  | some l' ↦ some (c ∷ l')
  | none ↦
      if bytes_eq c.peer_identity r.peer_identity
      then some ((if ltz c.score r.score then r else c) ∷ l)
      else none
]

unfoldable pub merge : Route → List Route → List Route
unfolding raise
merge r l = elim (raise r l) [ some l' ↦ l' | none ↦ l ++ r ∷ [] ]

-- The loop over the peers of a tier.
unfoldable pub merge_tier : ℤ → Name → List PartnerPeer → List Route → List Route
unfolding merge
merge_tier score winner [] l = l
merge_tier score winner (pp ∷ tier) l =
    let own = if bytes_eq pp.identity winner then addz score (pos 1) else score in
    merge_tier score winner tier (merge (route pp.identity own) l)

-- The priorities, each once.
unfoldable pub add_priority : ℤ → List ℤ → List ℤ
add_priority x [] = x ∷ []
add_priority x (y ∷ l) = let rest = add_priority x l in if eqz x y then y ∷ l else y ∷ rest

unfoldable pub priorities : List PartnerPeer → List ℤ
unfolding add_priority
priorities [] = []
priorities (pp ∷ l) = add_priority pp.priority (priorities l)

abbrev pub of_priority : ℤ → PartnerPeer → Bool
of_priority x pp = eqz pp.priority x

unfoldable pub tier_of : ℤ → List PartnerPeer → List PartnerPeer
tier_of x l = keep (of_priority x) l

-- `baseScore - priority*tierStep`
unfoldable pub tier_score : ℤ → ℤ → ℤ
tier_score (pos base) (pos x) = minus base (x * 10)
tier_score (negsuc base) (pos x) = negsuc (base + x * 10)
tier_score (pos base) (negsuc x) = pos (base + suc x * 10)
tier_score (negsuc base) (negsuc x) = minus (suc x * 10) (suc base)

unfoldable pub count_partner : Name → EdgeRoute → EdgeRoute
count_partner name e = record e {
  per_partner =
      insert Name-discrete name
        (elim (lookup Name-discrete name e.per_partner) [ none ↦ 1 | some n ↦ next n ])
        e.per_partner;
}

-- The test for a refused transit.
unfoldable pub refuses : Option PartnerConfig → Option PartnerConfig → Bool
refuses none dest = false
refuses (some o) none = false
refuses (some o) (some d) = not (bytes_eq o.name d.name) && not o.allow_transit

module _ {W : Type 0} (intn : W → ℕ → W × ℕ) where
  -- The loop over the priorities.
  unfoldable pub merge_tiers : ℤ → List PartnerPeer → List ℤ → W → List Route → W × List Route
  unfolding elect_winner merge_tier tier_score tier_of
  merge_tiers base peers [] w l = (w, l)
  merge_tiers base peers (x ∷ xs) w l =
      let elected = elect_winner intn w (tier_of x peers) in
      merge_tiers base peers xs elected.0
        (merge_tier (tier_score base x) elected.1 (tier_of x peers) l)

  unfoldable pub apply_partner_peers : ℤ → PartnerConfig → W → List Route → W × List Route
  unfolding merge_tiers priorities
  apply_partner_peers base p w l = merge_tiers base p.peers (sort ltz (priorities p.peers)) w l

  -- The part of `handleRouting` from the check of the candidates.
  unfoldable pub to_partner :
      Registry → Option PartnerConfig → EdgeRoute → W → List Route → EdgeRoute × W × List Route
  unfolding drop_foreign_external apply_partner_peers count_partner
  to_partner reg dest e w l =
      let dropped = drop_foreign_external reg dest l e.misdeliver in
      let e' : EdgeRoute = record e { misdeliver = dropped.1 } in
      elim dest [
        | none ↦ (e', w, dropped.0)
        | some d ↦ elim d.peers [
          | [] ↦ (e', w, dropped.0)
          | pp ∷ pps ↦
              let applied = apply_partner_peers e.base_score d w dropped.0 in
              (count_partner d.name (record e' { routed = next e.routed }), applied.0, applied.1)
        ]
      ]

  -- What the handler does with an active registry.
  unfoldable pub by_partners :
      Registry → EdgeRoute → W → Message → List Route → EdgeRoute × W × List Route
  unfolding destination_partner origin_partner_of refuses to_partner
  by_partners reg e w m l =
      let e' : EdgeRoute = record e { evaluated = next e.evaluated } in
      let dest = destination_partner reg m in
      if refuses (origin_partner_of reg m) dest
      then (record e' { transit = next e.transit }, w, [])
      else to_partner reg dest e' w l

  unfoldable pub handle_routing : EdgeRoute → W → Message → List Route → EdgeRoute × W × List Route
  unfolding by_partners
  handle_routing e w m l = if not e.enabled then (e, w, l) else elim e.reg [
    | none ↦ (e, w, l)
    | some reg ↦ if not reg.configured then (e, w, l) else by_partners reg e w m l
  ]
