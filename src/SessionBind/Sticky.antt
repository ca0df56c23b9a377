-- ===== src/SessionBind/Sticky.antt =====
-- A session stays at its peer.
use godiam.Prelude.{◌≡◌, ◌⊎◌, List}
use mathlib.Core.List.{Memᴰ}
use mathlib.Core.List.Memᴰ
use godiam.Prelude.Ints.{ℤ, addz}
use godiam.Message.{Message}
use godiam.Routing.{Name, Route}
use godiam.Routing.Choice.{Choice}
use godiam.SessionBind.{SessionBind}

-- The candidates after the bonus: one of the peer's has it, and the others are as they were.
abbrev IsBoosted : Name → ℤ → List Route → List Route → Type 0
IsBoosted peer bonus before after =
    (c : Route) × (e : Route) × Memᴰ c before
    × Memᴰ e after
    × (c.peer_identity ≡ peer)
    × (e.peer_identity ≡ peer)
    × (e.score ≡ addz c.score bonus)
    × ((d : Route) → Memᴰ d after → (d.peer_identity ≡ peer) ⊎ Memᴰ d before)
