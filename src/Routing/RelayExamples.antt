-- ===== src/Routing/RelayExamples.antt =====
-- -- Runs of the relay, its table and its registrations.
use godiam.Prelude.{
  ℕ, ◌≡◌, refl, true, false, List, [], ◌∷◌, none, some, if◌then◌else◌, ℕ_discrete, sym, append-nil,
}
use godiam.Prelude.Ints.{pos, minus}
use godiam.Prelude.Assoc.{lookup}
use godiam.Message.{Message, has_flag, new_grouped_avp, new_diameter_identity_avp, new_avp}
use godiam.Message.Fields.{
  get_destination_host, get_identity, find_avp, find_in, matches_avp, is_request, is_proxiable,
  add_avp,
}
use godiam.Routing.Candidates.{wanted_host, is_empty}
use godiam.Routing.Handlers.{deregister_all_by_owner}
use godiam.Routing.Proxy.{add_proxy_info, error_answer, loop_detected}
use godiam.Routing.Relay.{Relaying}
use godiam.Routing.Incoming.{route_request, is_local, marked, looped}
use godiam.Routing.Loops.{no_second_relay}
use godiam.Routing.Table.{TableCall, stores, takes, fails_over, sweeps}
use godiam.Routing.Owners.{deregister_all_by_owner_lem, IsPurged, is_owned}
use godiam.Routing.Registrations.{
  Registration, register_all, register_all-Ordered, adds_out, adds_dispatch, drops_owner,
}
use godiam.Routing.Ordered.{Ordered}
use godiam.Routing.{
  offered, Router, OutHandlerEntry, new_router, set_local_identity, add_realm_route, set_relay,
  set_peer_lookup, InHandlerEntry, PostRouteHandlerEntry,
}
use godiam.Routing.Examples.{World, name, outside, node, request, start, three}

-- The request of peer 2 goes to peer 4, and the answer that comes back when the clock says 20.
abbrev relaying : Relaying World ℕ ℕ
relaying = record { router = node; world = start; message = request; exclude = [] }

abbrev answer : Message
answer = record {
  version = 1;
  flags = 64;
  command_code = 272;
  application_id = 4;
  hop_by_hop_id = 11;
  end_to_end_id = 5;
  avps = [];
}

-- Two requests, an answer to the first, a failure of peer 5, and a sweep.
abbrev calls : List (TableCall World ℕ)
calls =
    stores 2 (name 4, 11) (name 4) request (11, [])
    ∷ stores 3 (name 5, 11) (name 5) request (12, [])
    ∷ stores 3 (name 6, 1) (name 6) request (13, [])
    ∷ takes 4 (14, []) answer
    ∷ fails_over (name 5)
    ∷ sweeps 20
    ∷ []

named : is_empty node.local_identity ≡ false
unfolding set_peer_lookup set_relay add_realm_route set_local_identity new_router
named = refl

on_relay : node.relay_enabled ≡ true
unfolding set_peer_lookup set_relay add_realm_route set_local_identity new_router
on_relay = refl

still_request : is_request (marked outside node start request) ≡ true
unfolding is_request has_flag marked is_proxiable add_avp add_proxy_info set_peer_lookup set_relay
    add_realm_route set_local_identity new_router
still_request = refl

still_far : is_local node (marked outside node start request) ≡ false
unfolding is_local wanted_host get_destination_host get_identity find_avp find_in matches_avp
    is_request has_flag marked is_proxiable add_avp add_proxy_info set_peer_lookup set_relay
    add_realm_route set_local_identity new_router new_grouped_avp new_diameter_identity_avp new_avp
still_far = refl

no_second_relay_example :
    route_request outside 9 (some 5) node (30, []) (marked outside node start request)
    ≡ some (
        error_answer outside
          (some 5)
          (looped node)
          (30, [])
          (marked outside node start request)
          loop_detected)
no_second_relay_example =
    no_second_relay outside 9 (some 5) node start (30, []) request
      (marked outside node start request) [] named on_relay still_request still_far
      (sym (append-nil _))

abbrev steps : List (Registration World ℕ)
steps =
    adds_out (name 1) (name 50) (pos 80) (λ w m cs. (w, m, offered cs))
    ∷ adds_out (name 2) (name 51) (minus 0 5) (λ w m cs. (w, m, offered three))
    ∷ adds_dispatch 4 (name 50) (λ w p m. (w, m, none))
    ∷ drops_owner (name 51)
    ∷ []

abbrev registered : Router World ℕ ℕ
registered = register_all steps new_router

register_all-Ordered_example : Ordered registered
register_all-Ordered_example = register_all-Ordered steps

registered-Ordered : Ordered registered
registered-Ordered = register_all-Ordered steps

deregister_all_by_owner_lem_example :
    IsPurged
      (λ (h : InHandlerEntry World ℕ). h.owner)
      (name 50)
      registered.in_handlers
      (deregister_all_by_owner (name 50) registered).in_handlers
    × IsPurged
        (λ (h : OutHandlerEntry World). h.owner)
        (name 50)
        registered.out_handlers
        (deregister_all_by_owner (name 50) registered).out_handlers
    × IsPurged
        (λ (h : PostRouteHandlerEntry World). h.owner)
        (name 50)
        registered.post_route_handlers
        (deregister_all_by_owner (name 50) registered).post_route_handlers
    × ((app : ℕ)
        → lookup ℕ_discrete app (deregister_all_by_owner (name 50) registered).dispatch_handlers ≡ (
            if is_owned (name 50) (lookup ℕ_discrete app registered.dispatch_owner)
            then none
            else lookup ℕ_discrete app registered.dispatch_handlers))
deregister_all_by_owner_lem_example =
    deregister_all_by_owner_lem (name 50) registered registered-Ordered.owners_once
