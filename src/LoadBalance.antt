-- ===== src/LoadBalance.antt =====
-- pkg/extensions/rt_load_balance/rt_load_balance.go: the outgoing handler that prefers the peer with
-- the fewest pending requests. A score is an integer without a bound.
pub mod Least
pub mod Boosted
mod Examples
use godiam.Prelude.{
  ℕ, suc, ◌%◌, ◌^◌, Bool, true, false, ◌&&◌, List, [], ◌∷◌, Option, none, some, ltb, ◌==◌,
  if◌then◌else◌,
}
use godiam.Prelude.Assoc.{lookup, insert}
use godiam.Prelude.Ints.{ℤ, pos, ltz, eqz, addz}
use godiam.Routing.{Name, Name-discrete, Route}
use godiam.Routing.Candidates.{is_empty}

-- What the handler asks of a peer.
pub record LivePeer : Type 0 where
  pub diameter_id : Name
  pub config_identity : Name
  pub pending_count : ℕ

-- The table of pending requests.
unfoldable pub pending_table : List LivePeer → List (Name × ℕ) → List (Name × ℕ)
pending_table [] m = m
pending_table (p ∷ l) m = pending_table l (
    insert Name-discrete (if is_empty p.diameter_id then p.config_identity else p.diameter_id)
      p.pending_count m)

unfoldable pub pending_of : List (Name × ℕ) → Name → ℕ
pending_of m id = elim (lookup Name-discrete id m) [ none ↦ 0 | some n ↦ n ]

unfoldable pub max_score : ℤ → List Route → ℤ
max_score best [] = best
max_score best (c ∷ l) = max_score (if ltz best c.score then c.score else best) l

abbrev pub fewer : Option ℕ → ℕ → Bool
fewer none n = true
fewer (some k) n = ltb n k

-- `none` is -1.
unfoldable pub min_pending : List (Name × ℕ) → ℤ → Option ℕ → List Route → Option ℕ
unfolding pending_of
min_pending m top best [] = best
min_pending m top best (c ∷ l) =
    let n = pending_of m c.peer_identity in
    min_pending m top (if eqz c.score top && fewer best n then some n else best) l

abbrev pub is_at : Option ℕ → ℕ → Bool
is_at none n = false
is_at (some k) n = n == k

-- The loop that boosts one candidate.
unfoldable pub boost_least : List (Name × ℕ) → ℤ → Option ℕ → List Route → Option (List Route)
unfolding pending_of
boost_least m top least [] = none
boost_least m top least (c ∷ l) =
    let rest = boost_least m top least l in
    if eqz c.score top && is_at least (pending_of m c.peer_identity)
    then some (record c { score = addz c.score (pos 1) } ∷ l)
    else elim rest [ none ↦ none | some l' ↦ some (c ∷ l') ]

-- The counter of rebalanced decisions and the candidates.
unfoldable pub handle_outgoing : List LivePeer → ℕ → List Route → ℕ × List Route
unfolding pending_table max_score min_pending boost_least
handle_outgoing peers n [] = (n, [])
handle_outgoing peers n (c ∷ []) = (n, c ∷ [])
handle_outgoing peers n (c ∷ d ∷ l) =
    let m = pending_table peers [] in
    let top = max_score c.score (d ∷ l) in
    let least = min_pending m top none (c ∷ d ∷ l) in
    elim (boost_least m top least (c ∷ d ∷ l)) [
      | none ↦ (n, c ∷ d ∷ l)
      | some l' ↦ (suc n % 2 ^ 64, l')
    ]
