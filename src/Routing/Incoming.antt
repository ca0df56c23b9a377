-- ===== src/Routing/Incoming.antt =====
-- pkg/core/routing/router.go: `RouteIn` and the dispatch to applications.
use godiam.Prelude.{
  ℕ, ◌+◌, Bool, true, false, not, ◌&&◌, ◌||◌, List, [], ◌∷◌, Option, none, some, if◌then◌else◌,
  bytes_eq, ℕ_discrete,
}
use godiam.Prelude.Assoc.{lookup, delete}
use godiam.Message.{Message, flag_mandatory, new_diameter_identity_avp}
use godiam.Message.Fields.{is_request, is_proxiable, add_avp, get_destination_realm}
use godiam.Routing.{
  RelayKey-discrete, RelayTxn, Error, dispatch_error, InOutcome, passed, consumed, failed, Target,
  full, sender, useless, InHandlerEntry, Outside, Router, RouterStats, Route, lookup_peer,
}
use godiam.Routing.Candidates.{is_empty, wanted_host}
use godiam.Routing.Proxy.{
  Done, error_answer, unable_to_deliver, loop_detected, application_unsupported, with_stats, u64,
  route_record, add_proxy_info, remove_local_proxy_info, contains_route_record,
}
use godiam.Routing.Relay.{Relaying, relay_peer_identity, relay}

-- The loop over the incoming handlers; candidates that come out of it are not used.
unfoldable pub run_in :
    {W P : Type 0}
    → List (InHandlerEntry W P)
    → W
    → Option P
    → Message
    → List Route
    → W × Message × InOutcome
run_in [] w p m candidates = (w, m, passed candidates)
run_in (h ∷ l) w p m candidates =
    let out = h.handler w p m candidates in
    elim out.2 [
      | passed cs ↦ run_in l out.0 p out.1 cs
      | consumed ↦ (out.0, out.1, consumed)
      | failed e ↦ (out.0, out.1, failed e)
    ]

module _ {W P S : Type 0} where
  abbrev pub done : Router W P S → W → Message → Option Error → Done W P S
  done r w m e = record { router = r; world = w; message = m; error = e }

  unfoldable pub count_relayed_answer : Router W P S → Router W P S
  unfolding with_stats
  count_relayed_answer r =
      with_stats (λ (s : RouterStats). record s { answers_relayed = u64 (s.answers_relayed + 1) }) r

  -- The proxy's mark is taken off and the hop-by-hop ID of the request restored.
  unfoldable pub restored : Router W P S → RelayTxn → Message → Message
  unfolding remove_local_proxy_info
  restored r txn m = record (remove_local_proxy_info m r.local_identity) {
    hop_by_hop_id = txn.original_hbh_id;
  }

  -- `isLocal`
  unfoldable pub is_local : Router W P S → Message → Bool
  unfolding wanted_host
  is_local r m =
      if r.relay_enabled
      then elim (wanted_host m) [ none ↦ false | some host ↦ bytes_eq host r.local_identity ]
      else elim (wanted_host m) [
        | some host ↦ bytes_eq host r.local_identity
        | none ↦ elim (get_destination_realm m) [
          | none ↦ true
          | some realm ↦ is_empty realm || bytes_eq realm r.local_realm
        ]
      ]

  -- The handler of the application or else the one of application 0.
  unfoldable pub handler_for :
      Router W P S → ℕ → Option (W → Option P → Message → W × Message × Option Error)
  handler_for r app = elim (lookup ℕ_discrete app r.dispatch_handlers) [
    | some handler ↦ some handler
    | none ↦ lookup ℕ_discrete 0 r.dispatch_handlers
  ]

  unfoldable pub count_request : Message → Router W P S → Router W P S
  unfolding with_stats
  count_request m r =
      if is_request m
      then with_stats
          (λ (s : RouterStats). record s { requests_routed = u64 (s.requests_routed + 1) }) r
      else r

  abbrev pub looped : Router W P S → Router W P S
  looped r =
      with_stats (λ (s : RouterStats). record s { loop_detections = u64 (s.loop_detections + 1) }) r

module _ {W P S : Type 0} (o : Outside W P S) where
  -- An answer whose transaction is known goes back to the peer of the request, if it can be found.
  unfoldable pub send_back : Router W P S → W → Message → Option (Target P S) → Option (Done W P S)
  unfolding count_relayed_answer
  send_back r w m none = none
  send_back r w m (some useless) = none
  send_back r w m (some (full p)) =
      let out = o.send w p m in some (done (count_relayed_answer r) out.0 out.1 out.2)
  send_back r w m (some (sender s)) =
      let out = o.send_to w s m in some (done (count_relayed_answer r) out.0 out.1 out.2)

  -- The transaction of an answer from `p`; a nil peer has none.
  unfoldable pub txn_of : Option P → Router W P S → W → Message → Option RelayTxn
  unfolding relay_peer_identity
  txn_of none r w m = none
  txn_of (some p) r w m =
      lookup RelayKey-discrete (relay_peer_identity o w p, m.hop_by_hop_id) r.prev_hop_by_hop

  unfoldable pub drop_txn : Option P → Router W P S → W → Message → Router W P S
  unfolding relay_peer_identity
  drop_txn none r w m = r
  drop_txn (some p) r w m = record r {
    prev_hop_by_hop =
        delete RelayKey-discrete (relay_peer_identity o w p, m.hop_by_hop_id) r.prev_hop_by_hop;
  }

  unfoldable pub dispatch : Option P → Router W P S → W → Message → Done W P S
  unfolding handler_for with_stats
  dispatch p r w m =
      let r' =
        with_stats
          (λ (s : RouterStats). record s { requests_dispatched = u64 (s.requests_dispatched + 1) })
          r in
      elim (handler_for r m.application_id) [
        | none ↦ done r' w m (some (dispatch_error application_unsupported))
        | some handler ↦ let out = handler w p m in done r' out.0 out.1 out.2
      ]

  -- Route-Record is added to any message and Proxy-Info to a proxiable request.
  unfoldable pub marked : Router W P S → W → Message → Message
  unfolding add_avp add_proxy_info is_request is_proxiable
  marked r w m =
      let recorded =
        add_avp m (new_diameter_identity_avp route_record flag_mandatory r.local_identity) in
      if is_request m && is_proxiable m
      then add_proxy_info (o.now w) recorded r.local_identity
      else recorded

  -- The state in which the loop begins.
  abbrev pub relay_start : Router W P S → W → Message → Relaying W P S
  relay_start r w m = record { router = r; world = w; message = marked r w m; exclude = [] }

  -- The part of `RouteIn` after the answers.
  unfoldable pub route_request : ℕ → Option P → Router W P S → W → Message → Option (Done W P S)
  unfolding is_local dispatch contains_route_record error_answer with_stats marked relay
  route_request fuel p r w m =
      if is_local r m
      then some (dispatch p r w m)
      else if is_request m && r.relay_enabled && contains_route_record m r.local_identity
      then some (error_answer o p (looped r) w m loop_detected)
      else if not r.relay_enabled
      then some (error_answer o p r w m unable_to_deliver)
      else relay o fuel p (relay_start r w m)

  unfoldable pub route_answer : ℕ → Option P → Router W P S → W → Message → Option (Done W P S)
  unfolding txn_of drop_txn restored send_back lookup_peer route_request
  route_answer fuel p r w m = elim (txn_of p r w m) [
    | none ↦ route_request fuel p r w m
    | some txn ↦
        let r' = drop_txn p r w m in
        let m' = restored r txn m in
        elim (send_back r' w m' (lookup_peer r' w txn.original_peer)) [
          | some d ↦ some d
          | none ↦ route_request fuel p r' w m'
        ]
  ]

  -- `RouteIn`, on fuel for the loop of the relay.
  unfoldable pub route_in : ℕ → Option P → Router W P S → W → Message → Option (Done W P S)
  unfolding count_request run_in route_answer route_request
  route_in fuel p r w m =
      let counted = count_request m r in
      let out = run_in r.in_handlers w p m [] in
      elim out.2 [
        | consumed ↦ some (done counted out.0 out.1 none)
        | failed e ↦ some (done counted out.0 out.1 (some e))
        | passed cs ↦
            if not (is_request out.1) && r.relay_enabled
            then route_answer fuel p counted out.0 out.1
            else route_request fuel p counted out.0 out.1
      ]
