-- ===== src/Routing/Choice.antt =====
-- pkg/core/routing/router.go: the outgoing handlers and the choice of a next hop.
use godiam.Prelude.{
  ◌%◌, Bool, List, [], ◌∷◌, ◌++◌, Option, none, some, if◌then◌else◌, length, get_elem?,
}
use godiam.Prelude.Ints.{ℤ, ltz, eqz}
use godiam.Prelude.Sorting.{sort}
use godiam.Message.{Message}
use godiam.Routing.Candidates.{has, build_candidates}
use godiam.Routing.{
  Name, Route, Error, no_routes, eliminated, no_routes_left, OutOutcome, offered, refused,
  OutHandlerEntry, PostRouteHandlerEntry, Outside, Router,
}

-- The loop over the outgoing handlers.
unfoldable pub run_out :
    {W : Type 0} → List (OutHandlerEntry W) → W → Message → List Route → W × Message × OutOutcome
run_out [] w m candidates = (w, m, offered candidates)
run_out (h ∷ l) w m candidates =
    let out = h.handler w m candidates in
    elim out.2 [
      | refused e ↦ (out.0, out.1, refused e)
      | offered [] ↦ (out.0, out.1, refused eliminated)
      | offered (c ∷ cs) ↦ run_out l out.0 out.1 (c ∷ cs)
    ]

-- The sort's test: the higher score first.
unfoldable pub better : Route → Route → Bool
better a b = ltz b.score a.score

-- A candidate joins the choices of its tier unless it is excluded.
unfoldable pub join : List Name → List Route → Route → List Route
unfolding has
join exclude choices c = if has exclude c.peer_identity then choices else choices ++ c ∷ []

-- The choices of the first tier that has any, in a list sorted by score: `top` is the score of the
-- tier that is being read and `choices` what it has so far.
unfoldable pub tiers : List Name → ℤ → List Route → List Route → List Route
unfolding join
tiers exclude top choices [] = choices
tiers exclude top choices (c ∷ l) =
    let same = tiers exclude top (join exclude choices c) l in
    let next = tiers exclude c.score (join exclude [] c) l in
    if eqz c.score top then same else elim choices [ [] ↦ next | d ∷ ds ↦ d ∷ ds ]

unfoldable pub tier_choices : List Name → List Route → List Route
unfolding tiers join
tier_choices exclude [] = []
tier_choices exclude (c ∷ l) = tiers exclude c.score (join exclude [] c) l

unfoldable pub fire_post_route_handlers :
    {W : Type 0} → List (PostRouteHandlerEntry W) → W → Message → Name → W × Message
fire_post_route_handlers [] w m selected = (w, m)
fire_post_route_handlers (h ∷ l) w m selected =
    let out = h.handler w m selected in fire_post_route_handlers l out.0 out.1 selected

-- A name and an error.
pub data Choice : Type 0 where
  chosen : Name → Choice
  unroutable : Error → Choice

-- `rand.Intn(n)` is a random number reduced to below n, and not asked for one choice.
unfoldable pub pick : {W P S : Type 0} → Outside W P S → W → List Route → W × Option Name
pick o w [] = (w, none)
pick o w (c ∷ []) = (w, some c.peer_identity)
pick o w (c ∷ d ∷ l) =
    let drawn = o.random w in
    (
      drawn.0,
      elim (get_elem? (c ∷ d ∷ l) (drawn.1 % length (c ∷ d ∷ l))) [
        | none ↦ none
        | some e ↦ some e.peer_identity
      ],
    )

module _ {W P S : Type 0} (o : Outside W P S) (r : Router W P S) where
  unfoldable pub choose : List Name → W → Message → List Route → W × Message × Choice
  unfolding pick tier_choices better sort fire_post_route_handlers
  choose exclude w m candidates =
      let picked = pick o w (tier_choices exclude (sort better candidates)) in
      elim picked.1 [
        | none ↦ (picked.0, m, unroutable no_routes_left)
        | some peer ↦
            let fired = fire_post_route_handlers r.post_route_handlers picked.0 m peer in
            (fired.0, fired.1, chosen peer)
      ]

  -- The candidates that the outgoing handlers leave.
  unfoldable pub candidates_for : W → Message → W × Message × OutOutcome
  unfolding build_candidates run_out
  candidates_for w m = elim (build_candidates o r w m) [
    | [] ↦ (w, m, refused no_routes)
    | c ∷ cs ↦ run_out r.out_handlers w m (c ∷ cs)
  ]

  unfoldable pub route_out_with_exclusion : List Name → W → Message → W × Message × Choice
  unfolding candidates_for choose
  route_out_with_exclusion exclude w m =
      let out = candidates_for w m in
      elim out.2 [
        | refused e ↦ (out.0, out.1, unroutable e)
        | offered l ↦ choose exclude out.0 out.1 l
      ]

  unfoldable pub route_out : W → Message → W × Message × Choice
  unfolding route_out_with_exclusion
  route_out w m = route_out_with_exclusion [] w m
