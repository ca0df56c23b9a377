-- ===== src/Routing.antt =====
-- pkg/core/routing/router.go: the router's tables, its setters, and the registration of handlers.
-- What the router finds outside (the peers, the random numbers, the clock, the state of the
-- handlers) is a type `W` and a record of operations on it; `P` is a `*peer.Peer` and `S` another
-- object with a method `Send`. A call runs without another one in between.
pub mod Handlers
pub mod Candidates
pub mod Choice
pub mod Best
pub mod Chosen
pub mod Proxy
pub mod Relay
pub mod Incoming
pub mod Transactions
pub mod Owners
pub mod Ordered
pub mod Registrations
pub mod RelayEnds
pub mod Returns
pub mod Table
pub mod Growth
pub mod Loops
pub mod Answered
mod Examples
mod RelayExamples
use godiam.Prelude.{
  ℕ, ◌%◌, ◌^◌, ◌+◌, Bool, true, false, not, List, [], ◌∷◌, ◌++◌, Option, none, some, ◌==◌,
  if◌then◌else◌, bytes_eq, keep, ℕ_discrete,
}
use godiam.Prelude.Assoc.{lookup, insert, delete}
use godiam.Prelude.Ints.{ℤ, ltz}
use godiam.Prelude.Sorting.{sort}
use godiam.Message.{Message}

-- An identity, a realm or a name.
abbrev pub Name : Type 0
Name = List ℕ

unfoldable pub Name-discrete : Discrete Name
Name-discrete = hlevel (ℕ_discrete)

-- `Reason` is text for the log and left out.
pub record Route : Type 0 where
  pub peer_identity : Name
  pub score : ℤ

pub record RouterStats : Type 0 where
  pub requests_routed : ℕ
  pub requests_relayed : ℕ
  pub requests_dispatched : ℕ
  pub routing_errors : ℕ
  pub loop_detections : ℕ
  pub answers_relayed : ℕ

abbrev pub RelayKey : Type 0
RelayKey = Name × ℕ

pub RelayKey-discrete : Discrete RelayKey
RelayKey-discrete = hlevel (ℕ_discrete)

pub record RelayTxn : Type 0 where
  pub original_peer : Name
  pub original_hbh_id : ℕ
  pub outbound_peer : Name
  pub created_at : ℕ

-- `error` values: those of the router, and `other` for those of handlers and peers. A router's
-- error carries the answer made for it and whether it was sent.
pub data Error : Type 0 where
  no_routes eliminated no_routes_left : Error
  routing_error : (code : ℕ) (answer : Message) (sent : Bool) → Error
  dispatch_error : (code : ℕ) → Error
  other : Name → Error

-- What an incoming handler returns: candidates, `ErrConsumed`, or another error.
pub data InOutcome : Type 0 where
  passed : List Route → InOutcome
  consumed : InOutcome
  failed : Error → InOutcome

pub data OutOutcome : Type 0 where
  offered : List Route → OutOutcome
  refused : Error → OutOutcome

-- What `peerLookup` returns: a peer, something else that can send, or something that cannot.
pub data Target (P S : Type 0) : Type 0 where
  full : P → Target P S
  sender : S → Target P S
  useless : Target P S

pub record Outside (W P S : Type 0) : Type 0 where
  pub diameter_id : W → P → Name
  pub config_identity : W → P → Name
  pub realm_of : W → P → Name
  pub next_hop_by_hop_id : W → P → W × ℕ
  pub send : W → P → Message → W × Message × Option Error
  pub send_to : W → S → Message → W × Message × Option Error
  pub random : W → W × ℕ
  pub now : W → ℕ

-- A handler may change the message.
pub record InHandlerEntry (W P : Type 0) : Type 0 where
  pub priority : ℤ
  pub name : Name
  pub owner : Name
  pub handler : W → Option P → Message → List Route → W × Message × InOutcome

pub record OutHandlerEntry (W : Type 0) : Type 0 where
  pub priority : ℤ
  pub name : Name
  pub owner : Name
  pub handler : W → Message → List Route → W × Message × OutOutcome

pub record PostRouteHandlerEntry (W : Type 0) : Type 0 where
  pub name : Name
  pub owner : Name
  pub handler : W → Message → Name → W × Message

pub record Router (W P S : Type 0) : Type 0 where
  pub realm_routes : List (Name × List Name)
  pub host_routes : List (Name × Name)
  pub app_routes : List (ℕ × List Name)
  pub local_identity : Name
  pub local_realm : Name
  pub relay_enabled : Bool
  pub default_realm : Name
  pub out_handlers : List (OutHandlerEntry W)
  pub in_handlers : List (InHandlerEntry W P)
  pub post_route_handlers : List (PostRouteHandlerEntry W)
  pub dispatch_handlers : List (ℕ × (W → Option P → Message → W × Message × Option Error))
  pub dispatch_owner : List (ℕ × Name)
  pub peer_lookup : Option (W → Name → Option (Target P S))
  pub peer_enumerate : Option (W → List P)
  pub dynamic_realm_peers : Bool
  pub prev_hop_by_hop : List (RelayKey × RelayTxn)
  pub next_hbh : ℕ
  pub stats : RouterStats
  pub sweep_ttl : ℤ

abbrev no_stats : RouterStats
no_stats = record {
  requests_routed = 0;
  requests_relayed = 0;
  requests_dispatched = 0;
  routing_errors = 0;
  loop_detections = 0;
  answers_relayed = 0;
}

-- `m[k]` of a map to slices: an empty slice on a missing key.
abbrev pub values : {K : Type 0} → Discrete K → K → List (K × List Name) → List Name
values dec k m = elim (lookup dec k m) [ none ↦ [] | some l ↦ l ]

module _ {W P S : Type 0} where
  unfoldable pub new_router : Router W P S
  new_router = record {
    realm_routes = [];
    host_routes = [];
    app_routes = [];
    local_identity = [];
    local_realm = [];
    relay_enabled = false;
    default_realm = [];
    out_handlers = [];
    in_handlers = [];
    post_route_handlers = [];
    dispatch_handlers = [];
    dispatch_owner = [];
    peer_lookup = none;
    peer_enumerate = none;
    dynamic_realm_peers = false;
    prev_hop_by_hop = [];
    next_hbh = 0;
    stats = no_stats;
    sweep_ttl = ℤ.pos 0;
  }

  unfoldable pub set_default_realm : Name → Router W P S → Router W P S
  set_default_realm realm r = record r { default_realm = realm }

  unfoldable pub set_local_identity : Name → Name → Router W P S → Router W P S
  set_local_identity identity realm r = record r { local_identity = identity; local_realm = realm }

  unfoldable pub add_realm_route : Name → List Name → Router W P S → Router W P S
  add_realm_route realm peers r = record r {
    realm_routes =
        insert Name-discrete realm (values Name-discrete realm r.realm_routes ++ peers)
          r.realm_routes;
  }

  unfoldable pub add_host_route : Name → Name → Router W P S → Router W P S
  add_host_route host peer r = record r {
    host_routes = insert Name-discrete host peer r.host_routes;
  }

  unfoldable pub add_app_route : ℕ → List Name → Router W P S → Router W P S
  add_app_route app peers r = record r {
    app_routes = insert ℕ_discrete app (values ℕ_discrete app r.app_routes ++ peers) r.app_routes;
  }

  unfoldable pub set_relay : Bool → Router W P S → Router W P S
  set_relay enabled r = record r { relay_enabled = enabled }

  unfoldable pub set_peer_lookup :
      Option (W → Name → Option (Target P S)) → Router W P S → Router W P S
  set_peer_lookup fn r = record r { peer_lookup = fn }

  -- A nil function finds nothing.
  unfoldable pub lookup_peer : Router W P S → W → Name → Option (Target P S)
  lookup_peer r w identity = elim r.peer_lookup [ none ↦ none | some fn ↦ fn w identity ]

  unfoldable pub set_peer_enumerator : Option (W → List P) → Router W P S → Router W P S
  set_peer_enumerator fn r = record r { peer_enumerate = fn }

  unfoldable pub set_dynamic_realm_peers : Bool → Router W P S → Router W P S
  set_dynamic_realm_peers enabled r = record r { dynamic_realm_peers = enabled }
