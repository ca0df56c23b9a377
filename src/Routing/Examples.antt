-- ===== src/Routing/Examples.antt =====
-- A relay with four peers, of which the ninth refuses every message.
use godiam.Prelude.{
  ℕ, suc, ◌≡◌, refl, true, List, [], ◌∷◌, Option, none, some, if◌then◌else◌, ◌==◌, ℕ_discrete,
}
use godiam.Prelude.Ints.{pos}
use godiam.Prelude.Assoc.{lookup, insert}
use godiam.Message.{Message, avp, nil}
use godiam.Message.Fields.{
  get_destination_host, get_destination_realm, get_identity, find_avp, find_in, matches_avp,
}
use godiam.Routing.Candidates.{
  route, build_candidates, wanted_host, realm_candidates, target_realm, app_candidates,
  falling_from,
}
use godiam.Routing.Choice.{candidates_for, run_out, route_out_with_exclusion}
use godiam.Routing.Chosen.{IsBest, route_out-IsBest}
use godiam.Routing.Handlers.{register_out_handler}
use godiam.Routing.{
  Name, Name-discrete, Route, Error, other, offered, Target, full, Outside, Router, OutHandlerEntry,
  new_router, set_local_identity, add_realm_route, set_relay, set_peer_lookup,
}

-- The world is the last hop-by-hop ID and what was sent to whom.
abbrev pub World : Type 0
World = ℕ × List (ℕ × Message)

abbrev pub name : ℕ → Name
name n = n ∷ []

abbrev pub post : World → ℕ → Message → World × Message × Option Error
post w p m = if p == 9 then (w, m, some (other [])) else ((w.0, (p, m) ∷ w.1), m, none)

abbrev pub outside : Outside World ℕ ℕ
outside = record {
  diameter_id = λ w p. name p;
  config_identity = λ w p. name p;
  realm_of = λ w p. 7 ∷ [];
  next_hop_by_hop_id = λ w p. ((suc w.0, w.1), suc w.0);
  send = post;
  send_to = post;
  random = λ w. (w, 0);
  now = λ w. w.0;
}

abbrev find : World → Name → Option (Target ℕ ℕ)
find w [] = none
find w (x ∷ l) = some (full x)

-- Node 1 of realm 7 relays requests for realm 8 to the peers 9, 4 and 5.
abbrev pub node : Router World ℕ ℕ
node = set_peer_lookup (some find) (
    set_relay true (
      add_realm_route (8 ∷ []) (name 9 ∷ name 4 ∷ name 5 ∷ [])
        (set_local_identity (name 1) (7 ∷ []) new_router)))

abbrev pub request : Message
request = record {
  version = 1;
  flags = 192;
  command_code = 272;
  application_id = 4;
  hop_by_hop_id = 77;
  end_to_end_id = 5;
  avps = avp 283 64 0 (8 ∷ []) nil ∷ [];
}

abbrev pub start : World
start = (10, [])

abbrev pub three : List Route
three = route (name 9) (pos 100) ∷ route (name 4) (pos 100) ∷ route (name 5) (pos 100) ∷ []

three_offered : (candidates_for outside node start request).2 ≡ offered three
unfolding candidates_for build_candidates wanted_host get_destination_host get_identity find_avp
    find_in matches_avp realm_candidates target_realm get_destination_realm app_candidates
    set_peer_lookup set_relay add_realm_route set_local_identity new_router lookup insert
    Name-discrete ℕ_discrete run_out falling_from
three_offered = refl

route_out-IsBest_example :
    IsBest (name 9 ∷ []) three (route_out_with_exclusion outside node (name 9 ∷ []) start request).2
route_out-IsBest_example =
    route_out-IsBest outside node (name 9 ∷ []) start request three three_offered

-- A handler that offers the same candidates for every message.
abbrev limit : OutHandlerEntry World
limit = record {
  priority = pos 10;
  name = name 3;
  owner = name 3;
  handler = λ w m cs. (w, m, offered three);
}

abbrev limited : Router World ℕ ℕ
limited = register_out_handler (name 3) (pos 10) (λ w m cs. (w, m, offered three)) node

abbrev pool : List Name
pool = name 9 ∷ name 4 ∷ name 5 ∷ []
