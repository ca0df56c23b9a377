-- ===== src/SessionBind/Examples.antt =====
-- Two requests of one session, with three equal peers.
use godiam.Prelude.{ℕ, List, [], ◌∷◌, none}
use godiam.Prelude.Ints.{pos}
use godiam.Message.{Message, avp, nil}
use godiam.Bindings.{new_binding_store}
use godiam.Routing.{Route, Outside}
use godiam.Routing.Candidates.{route}
use godiam.SessionBind.{SessionBind, World, session_id}

abbrev sb : SessionBind
sb = record { binding_key = session_id; score_boost = pos 80 }

abbrev world : World ℕ
world = record { store = new_binding_store 1000 2; now = 50; rest = 0 }

-- Nobody sends here; a random number is what `rest` says.
abbrev outside : Outside (World ℕ) ℕ ℕ
outside = record {
  diameter_id = λ w p. p ∷ [];
  config_identity = λ w p. p ∷ [];
  realm_of = λ w p. [];
  next_hop_by_hop_id = λ w p. (w, 0);
  send = λ w p m. (w, m, none);
  send_to = λ w p m. (w, m, none);
  random = λ w. (w, w.rest);
  now = λ w. w.now;
}

abbrev request : ℕ → Message
request n = record {
  version = 1;
  flags = 128;
  command_code = 272;
  application_id = 4;
  hop_by_hop_id = n;
  end_to_end_id = n;
  avps = avp 263 64 0 (115 ∷ 49 ∷ []) nil ∷ [];
}

abbrev peers : List Route
peers = route (1 ∷ []) (pos 100) ∷ route (2 ∷ []) (pos 100) ∷ route (3 ∷ []) (pos 100) ∷ []
