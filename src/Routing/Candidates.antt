-- ===== src/Routing/Candidates.antt =====
-- pkg/core/routing/router.go: the candidates for a message, the outgoing handlers, and the choice.
use godiam.Prelude.{
  ℕ, suc, Bool, true, false, not, ◌&&◌, ◌||◌, List, [], ◌∷◌, ◌++◌, map, Option, none, some,
  if◌then◌else◌, bytes_eq, ℕ_discrete,
}
use godiam.Prelude.Assoc.{lookup}
use godiam.Prelude.Ints.{ℤ, minus}
use godiam.Message.{Message}
use godiam.Message.Fields.{get_destination_host, get_destination_realm}
use godiam.Routing.{Name, Name-discrete, Route, Outside, Router, values}

abbrev pub route : Name → ℤ → Route
route peer score = record { peer_identity = peer; score = score }

-- `_, ok := m[identity]` of a set.
unfoldable pub has : List Name → Name → Bool
has [] identity = false
has (x ∷ l) identity = bytes_eq x identity || has l identity

-- The names that are given, as candidates with one score.
abbrev pub with_score : ℤ → List Name → List Route
with_score score l = map (λ peer. route peer score) l

-- The loop over the connected peers; `added` is the set of names seen so far.
unfoldable pub connected_in :
    {W P S : Type 0} → Outside W P S → W → Name → List Name → List P → List Route
unfolding has
connected_in o w realm added [] = []
connected_in o w realm added (p ∷ l) =
    let id = o.diameter_id w p in
    let fresh = route id (ℤ.pos 90) ∷ connected_in o w realm (id ∷ added) l in
    let same = connected_in o w realm added l in
    if bytes_eq (o.realm_of w p) realm && not (has added id) then fresh else same

-- The loop over the peers of an application: the score falls by one with each.
unfoldable pub falling_from : ℕ → List Name → List Route
falling_from i [] = []
falling_from i (peer ∷ l) = route peer (minus 200 i) ∷ falling_from (suc i) l

abbrev pub is_empty : Name → Bool
is_empty [] = true
is_empty (x ∷ l) = false

-- `destHost, ok := msg.GetDestinationHost(); ok && destHost != ""`
unfoldable pub wanted_host : Message → Option Name
wanted_host m = elim (get_destination_host m) [
  | none ↦ none
  | some host ↦ if is_empty host then none else some host
]

module _ {W P S : Type 0} (r : Router W P S) where
  -- The realm of the message, or the default if it has no Destination-Realm; `""` is none.
  unfoldable pub target_realm : Message → Name
  target_realm m = elim (get_destination_realm m) [ none ↦ r.default_realm | some realm ↦ realm ]

  unfoldable pub app_candidates : Message → List Route
  unfolding falling_from
  app_candidates m = falling_from 0 (values ℕ_discrete m.application_id r.app_routes)

module _ {W P S : Type 0} (o : Outside W P S) (r : Router W P S) where
  abbrev dynamic_candidates : W → Name → List Name → List Route
  dynamic_candidates w realm added = elim r.peer_enumerate [
    | none ↦ []
    | some enumerate ↦
        if r.dynamic_realm_peers then connected_in o w realm added (enumerate w) else []
  ]

  -- The candidates of a realm; `added` is the names before them.
  unfoldable pub realm_candidates : W → Name → List Name → List Route
  unfolding connected_in
  realm_candidates w realm added =
      let peers = values Name-discrete realm r.realm_routes in
      if is_empty realm
      then []
      else with_score (ℤ.pos 100) peers ++ dynamic_candidates w realm (peers ++ added)

  unfoldable pub build_candidates : W → Message → List Route
  unfolding target_realm app_candidates realm_candidates wanted_host
  build_candidates w m = elim (wanted_host m) [
    | none ↦ realm_candidates w (target_realm r m) [] ++ app_candidates r m
    | some host ↦ elim (lookup Name-discrete host r.host_routes) [
      | some peer ↦ route peer (ℤ.pos 1000) ∷ []
      | none ↦
          route host (ℤ.pos 500)
          ∷ (realm_candidates w (target_realm r m) (host ∷ []) ++ app_candidates r m)
    ]
  ]
