-- ===== src/Routing/Growth.antt =====
-- How many relay transactions there are: one call adds at most one.
use godiam.Prelude.{ℕ, suc, ◌≤◌, Option, none, some}
use godiam.Message.{Message}
use godiam.Routing.{Outside, Router}
use godiam.Routing.Proxy.{Done}
use godiam.Routing.Relay.{Round, finished, again}
use godiam.Routing.Transactions.{relay_txn_count}

module _ {W P S : Type 0} (o : Outside W P S) (p : Option P) (n : ℕ) where
  abbrev Grown : Router W P S → Type 0
  Grown r = relay_txn_count r ≤ suc n

  -- A round that returns leaves at most one transaction more; one that goes on, none.
  abbrev OnRound : Round W P S → Type 0
  OnRound (finished d) = Grown d.router
  OnRound (again st) = relay_txn_count st.router ≤ n

  abbrev OnDone : Option (Done W P S) → Type 0
  OnDone none = Unit
  OnDone (some d) = Grown d.router
