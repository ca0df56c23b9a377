-- ===== src/LoadBalance/Examples.antt =====
-- Three candidates, two of which have the highest score; the second of these has fewer requests.
use godiam.Prelude.{ℕ, suc, ◌%◌, ◌^◌, ◌≡◌, refl, List, [], ◌∷◌, ℕ_discrete}
use godiam.Prelude.Ints.{pos, addz, ltz, eqz}
use godiam.Prelude.Assoc.{lookup, insert}
use godiam.Routing.{Name, Name-discrete, Route}
use godiam.Routing.Candidates.{route}
use godiam.LoadBalance.{LivePeer, pending_table, handle_outgoing}
use godiam.LoadBalance.Boosted.{Preferred, handle_outgoing-Preferred}

abbrev live : Name → ℕ → LivePeer
live id n = record { diameter_id = id; config_identity = []; pending_count = n }

abbrev peers : List LivePeer
peers = live (1 ∷ []) 5 ∷ live (2 ∷ []) 3 ∷ live (3 ∷ []) 0 ∷ []

abbrev busy : Route
busy = route (1 ∷ []) (pos 100)

abbrev free : Route
free = route (2 ∷ []) (pos 100)

abbrev low : Route
low = route (3 ∷ []) (pos 90)

prefers_free :
    (handle_outgoing peers 0 (busy ∷ free ∷ low ∷ [])).1
    ≡ busy ∷ route (2 ∷ []) (pos 101) ∷ low ∷ []
unfolding handle_outgoing eqz ltz lookup insert Name-discrete ℕ_discrete addz
prefers_free = refl

handle_outgoing-Preferred_example :
    ((handle_outgoing peers 0 (busy ∷ free ∷ low ∷ [])).0 ≡ suc 0 % 2 ^ 64)
    × Preferred
        (pending_table peers [])
        (busy ∷ free ∷ low ∷ [])
        (handle_outgoing peers 0 (busy ∷ free ∷ low ∷ [])).1
handle_outgoing-Preferred_example = handle_outgoing-Preferred peers 0 busy free (low ∷ [])
