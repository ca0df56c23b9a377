-- ===== src/EdgeRoute/Owned.antt =====
-- pkg/extensions/dea_route/dea_route.go: which peers the handler leaves or adds.
use mathlib.Core.List.{Memᴰ}
use godiam.Prelude.{
  ℕ, ◌≡◌, refl, sym, ap, subst, ◌∙◌, ◌⊎◌, inl, inr, Bool, true, false, not, ◌&&◌, List, [], ◌∷◌,
  ◌++◌, Option, none, some, if◌then◌else◌, bytes_eq, bytes_eq_sound, if_both, if_split, All,
}
use godiam.Prelude.Ints.{ℤ, ltz, addz, pos}
use godiam.Prelude.Sorting.{sort, All_mem, All-intro, All-keep_of, true_ne_false}
use godiam.Message.{Message}
use godiam.Routing.{Name, Route}
use godiam.Routing.Candidates.{route}
use godiam.Edge.{PartnerPeer, PartnerConfig, Registry, is_external_zone}
use godiam.Edge.Lookups.{partner_for_peer}
use godiam.EdgeRoute.{
  EdgeRoute, destination_partner, origin_partner_of, is_foreign, drop_foreign_external, raise,
  merge, merge_tier, tier_of, tier_score, of_priority, elect_winner, priorities, merge_tiers,
  apply_partner_peers, count_partner, refuses, to_partner, by_partners, handle_routing, next,
}

-- A partner lists this peer.
abbrev pub Listed : Name → PartnerConfig → Type 0
Listed x p = (pp : PartnerPeer) × Memᴰ pp p.peers × (pp.identity ≡ x)

-- A property of the peer of a route that the peers of `tier` have.
module _ (P : Name → Type 0) where
  abbrev Of : Route → Type 0
  Of c = P c.peer_identity

  abbrev IfSome : Option (List Route) → Type 0
  IfSome none = Unit
  IfSome (some l) = All Of l

  raised :
      (r c : Route) (l : List Route) (o : Option (List Route))
      → Of r
      → All Of (c ∷ l)
      → IfSome o
      → IfSome (elim o as (λ _. Option (List Route)) [
        | some l' ↦ some (c ∷ l')
        | none ↦
            if bytes_eq c.peer_identity r.peer_identity
            then some ((if ltz c.score r.score then r else c) ∷ l)
            else none
      ])
  raised r c l (some l') p h q = (h.0, q)
  raised r c l none p h q =
      if_both IfSome (bytes_eq c.peer_identity r.peer_identity)
        (some ((if ltz c.score r.score then r else c) ∷ l)) none
        (if_both Of (ltz c.score r.score) r c p h.0, h.1) tt

  raise-IfSome : (r : Route) (l : List Route) → Of r → All Of l → IfSome (raise r l)
  unfolding raise
  raise-IfSome r [] p h = tt
  raise-IfSome r (c ∷ l) p h = raised r c l (raise r l) p h (raise-IfSome r l p h.1)

  merged :
      (r : Route) (l : List Route) (o : Option (List Route))
      → Of r
      → All Of l
      → IfSome o
      → All Of (elim o [ some l' ↦ l' | none ↦ l ++ r ∷ [] ])
  merged r l (some k) p h q = q
  merged r [] none p h q = (p, tt)
  merged r (c ∷ l) none p h q = (h.0, merged r l none p h.1 tt)

  All-merge : (r : Route) (l : List Route) → Of r → All Of l → All Of (merge r l)
  unfolding merge
  All-merge r l p h = merged r l (raise r l) p h (raise-IfSome r l p h)

  All-merge_tier :
      (score : ℤ) (winner : Name) (tier : List PartnerPeer) (l : List Route)
      → All (λ pp. P pp.identity) tier
      → All Of l
      → All Of (merge_tier score winner tier l)
  unfolding merge_tier
  All-merge_tier score winner [] l t h = h
  All-merge_tier score winner (pp ∷ tier) l t h =
      let own = if bytes_eq pp.identity winner then addz score (pos 1) else score in
      All-merge_tier score winner tier (merge (route pp.identity own) l) t.1
        (All-merge (route pp.identity own) l t.0 h)

  All-merge_tiers :
      {W : Type 0} (intn : W → ℕ → W × ℕ) (base : ℤ) (peers : List PartnerPeer) (xs : List ℤ)
      (w : W) (l : List Route)
      → All (λ pp. P pp.identity) peers
      → All Of l
      → All Of (merge_tiers intn base peers xs w l).1
  unfolding merge_tiers tier_of
  All-merge_tiers intn base peers [] w l t h = h
  All-merge_tiers intn base peers (x ∷ xs) w l t h =
      let elected = elect_winner intn w (tier_of x peers) in
      let tier = All-keep_of (of_priority x) (λ pp. P pp.identity) peers t in
      All-merge_tiers intn base peers xs elected.0
        (merge_tier (tier_score base x) elected.1 (tier_of x peers) l) t
        (All-merge_tier (tier_score base x) elected.1 (tier_of x peers) l tier h)

-- What the handler's candidates satisfy.
abbrev Fine : Registry → Option PartnerConfig → Name → Type 0
Fine reg none x = is_foreign reg none x ≡ false
Fine reg (some d) x = (is_foreign reg (some d) x ≡ false) ⊎ Listed x d

is_foreign-Fine :
    (reg : Registry) (dest : Option PartnerConfig) (x : Name)
    → is_foreign reg dest x ≡ false
    → Fine reg dest x
is_foreign-Fine reg none x h = h
is_foreign-Fine reg (some d) x h = inl h

All-drop_foreign_external :
    (reg : Registry) (dest : Option PartnerConfig) (l : List Route) (n : ℕ)
    → All (λ c. Fine reg dest c.peer_identity) (drop_foreign_external reg dest l n).0
unfolding drop_foreign_external
All-drop_foreign_external reg dest [] n = tt
All-drop_foreign_external reg dest (c ∷ l) n =
    let dropped = drop_foreign_external reg dest l (next n) in
    let kept = drop_foreign_external reg dest l n in
    if_split (λ (r : List Route × ℕ). All (λ c. Fine reg dest c.peer_identity) r.0)
      (is_foreign reg dest c.peer_identity) dropped (c ∷ kept.0, kept.1)
      (λ e. All-drop_foreign_external reg dest l (next n))
      (λ e. (is_foreign-Fine reg dest c.peer_identity e, All-drop_foreign_external reg dest l n))

peers_both :
    {X : Type 0} (C : X → Type 0) (l : List PartnerPeer) (x y : X)
    → C x
    → C y
    → C (elim l [ [] ↦ x | pp ∷ pps ↦ y ])
peers_both C [] x y p q = p
peers_both C (pp ∷ l) x y p q = q

All-to_partner :
    {W : Type 0} (intn : W → ℕ → W × ℕ) (reg : Registry) (dest : Option PartnerConfig)
    (e : EdgeRoute) (w : W) (l : List Route)
    → All (λ c. Fine reg dest c.peer_identity) (to_partner intn reg dest e w l).2
unfolding to_partner apply_partner_peers
All-to_partner intn reg none e w l = All-drop_foreign_external reg none l e.misdeliver
All-to_partner {W} intn reg (some d) e w l =
    let dropped = drop_foreign_external reg (some d) l e.misdeliver in
    let e' : EdgeRoute = record e { misdeliver = dropped.1 } in
    let applied = apply_partner_peers intn e.base_score d w dropped.0 in
    let kept = All-drop_foreign_external reg (some d) l e.misdeliver in
    let listed : All (λ pp. Fine reg (some d) pp.identity) d.peers =
      All-intro (λ pp. Fine reg (some d) pp.identity) d.peers (λ pp m. inr (pp, m, refl)) in
    peers_both
      (λ (r : EdgeRoute × W × List Route). All (λ c. Fine reg (some d) c.peer_identity) r.2) d.peers
      (e', w, dropped.0)
      (count_partner d.name (record e' { routed = next e.routed }), applied.0, applied.1) kept
      (All-merge_tiers (Fine reg (some d)) intn e.base_score d.peers (sort ltz (priorities d.peers))
        w dropped.0 listed kept)

abbrev pub Owner : Registry → Option PartnerConfig → Name → PartnerConfig → Type 0
Owner reg dest x q = (d : PartnerConfig) × (dest ≡ some d) × ((q.name ≡ d.name) ⊎ Listed x d)

foreign_lem :
    (reg : Registry) (dest : Option PartnerConfig) (x : Name) (q : PartnerConfig)
    → partner_for_peer reg x ≡ some q
    → is_external_zone reg q.zone ≡ true
    → is_foreign reg dest x ≡ elim dest [ none ↦ true | some d ↦ not (bytes_eq q.name d.name) ]
unfolding is_foreign
foreign_lem reg dest x q found outer =
    let own = λ (p : PartnerConfig). elim dest as (λ _. Bool) [
      | none ↦ true
      | some d ↦ not (bytes_eq p.name d.name)
    ] in
    ap (λ o. elim o as (λ _. Bool) [ none ↦ false | some p ↦ is_external_zone reg p.zone && own p ])
      found
    ∙ ap (λ b. b && own q) outer

of_not : (b : Bool) → not b ≡ false → b ≡ true
of_not true e = refl
of_not false e = sym e

-- A peer of an external partner that is not foreign.
owner_of :
    (reg : Registry) (dest : Option PartnerConfig) (x : Name) (q : PartnerConfig)
    → Fine reg dest x
    → partner_for_peer reg x ≡ some q
    → is_external_zone reg q.zone ≡ true
    → Owner reg dest x q
owner_of reg none x q h found outer =
    absurd (true_ne_false (sym (foreign_lem reg none x q found outer) ∙ h))
owner_of reg (some d) x q (inr listed) found outer = (d, refl, inr listed)
owner_of reg (some d) x q (inl own) found outer = (
  d,
  refl,
  inl (
      bytes_eq_sound q.name d.name
        (of_not (bytes_eq q.name d.name) (sym (foreign_lem reg (some d) x q found outer) ∙ own))),
)

-- What the handler does with a registry that is configured.
active :
    {W : Type 0} (intn : W → ℕ → W × ℕ) (reg : Registry) (e : EdgeRoute) (w : W) (m : Message)
    (l : List Route)
    → e.enabled ≡ true
    → e.reg ≡ some reg
    → reg.configured ≡ true
    → handle_routing intn e w m l ≡ by_partners intn reg e w m l
unfolding handle_routing
active intn reg e w m l on held configured = simp (on, held, configured)

-- Let the handler be enabled, with a registry that is configured. If it offers a peer of a partner
-- in an external zone, then it has not refused the message as transit, by the partners that own the
-- message's origin and destination; and there is a partner that owns the destination, which is the
-- peer's own partner, or lists the peer. So no message goes to an external peer of another partner
-- that the destination's partner does not list.
pub handle_routing-Owner :
    {W : Type 0} (intn : W → ℕ → W × ℕ) (reg : Registry) (e : EdgeRoute) (w : W) (m : Message)
    (l : List Route) (c : Route) (q : PartnerConfig)
    → e.enabled ≡ true
    → e.reg ≡ some reg
    → reg.configured ≡ true
    → Memᴰ c (handle_routing intn e w m l).2
    → partner_for_peer reg c.peer_identity ≡ some q
    → is_external_zone reg q.zone ≡ true
    → (refuses (origin_partner_of reg m) (destination_partner reg m) ≡ false)
      × Owner reg (destination_partner reg m) c.peer_identity q
unfolding by_partners
handle_routing-Owner {W} intn reg e w m l c q on held configured at found outer =
    let dest = destination_partner reg m in
    let no = refuses (origin_partner_of reg m) dest in
    let e' : EdgeRoute = record e { evaluated = next e.evaluated } in
    let Ok = λ (x : Route). (no ≡ false) × Fine reg dest x.peer_identity in
    let all : All Ok (by_partners intn reg e w m l).2 =
      if_split (λ (r : EdgeRoute × W × List Route). All Ok r.2) no
        (record e' { transit = next e.transit }, w, []) (to_partner intn reg dest e' w l) (λ h. tt)
        (λ h. All-intro Ok (to_partner intn reg dest e' w l).2 (λ x k. (
          h,
          All_mem (λ y. Fine reg dest y.peer_identity) (to_partner intn reg dest e' w l).2
              (All-to_partner intn reg dest e' w l) k,
        ))) in
    let ok = All_mem Ok (by_partners intn reg e w m l).2 all (
      subst (λ (r : EdgeRoute × W × List Route). Memᴰ c r.2)
        (active intn reg e w m l on held configured) at) in
    (ok.0, owner_of reg dest c.peer_identity q ok.1 found outer)
