-- ===== src/Peer/Election.antt =====
-- pkg/core/peer/state_machine.go: the election that `performElection` holds.
use godiam.Prelude.{ℕ, ◌≡◌, refl, false, List, [], ◌∷◌, arith}
use godiam.Peer.Connect.{string_gt}

string_gt_irrefl : (a : List ℕ) → string_gt a a ≡ false
unfolding string_gt
string_gt_irrefl [] = refl
string_gt_irrefl (x ∷ a) = ground (arith, string_gt_irrefl a)
