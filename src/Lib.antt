-- ===== src/Lib.antt =====
-- godiam, a Diameter node in Go (RFC 6733): the messages, the peers, the routing of messages
-- between peers, the sessions and their bindings to peers.
--
-- The parts. A node exchanges messages with its peers over TCP or SCTP. `pkg/proto/message` builds
-- messages, writes them to the wire and reads them back. `pkg/core/peer` runs one state machine per
-- peer: it connects, exchanges capabilities, watches over the connection and takes it down, and it
-- uses the messages for all of this. `pkg/core/session` keeps the sessions of the node, and the store
-- of the extension `rt_session_bind` the peer that a session is bound to; neither calls the peers.
-- `pkg/core/routing` decides what
-- becomes of a message that a peer delivers: an application here handles it, or it is relayed to
-- another peer and its answer brought back. The other extensions are handlers of the router.
-- An edge agent has zones and partners: `pkg/core/edge` indexes them from the configuration, the server
-- asks it whether to admit a peer, and the extension `dea_route` which peers may get a message. The
-- RADIUS gateway reads and writes packets with `pkg/proto/radius`.
--
-- Which file models what.
--   Message          pkg/proto/message/message.go: Avp, Message and Result (a value and an error).
--   Message/Fields   the same file: NewMessage to NewAnswerWithResult, flags, lookups, accessors.
--   Message/Encode   encode.go: getBuffer, AVP.EncodeTo, AVP.Encode, Message.Encode and the lengths.
--   Message/Decode   decode.go: decodeAVP, decodeAVPs, DecodeMessage, ReadMessage, DecodeGrouped.
--   Message/Wire     what the wire format is, as functions that know no buffers and no offsets.
--   Peer             pkg/core/peer/peer.go: states, events, configuration; the record Peer.
--   Peer/Connect     state_machine.go: setState, connections, timers, election, cleanup, dialling.
--   Peer/Send        state_machine.go and peer.go: identifiers, pending requests, sending a message on
--                    a connection, delivery of what arrives.
--   Peer/Messages    state_machine.go and cer_cea.go: every message that the peer sends itself.
--   Peer/Capabilities, Peer/Opening, Peer/Opened, Peer/Machine
--                    cer_cea.go and the handlers of state_machine.go, one function for each state and
--                    helpers for its events; Machine has handleEvent, the loop over the events, and
--                    classifyMessageI and classifyMessageR.
--   Edge             pkg/core/edge/registry.go: Registry, and the loops by which rebuildLocked fills it;
--                    of pkg/core/config/edge.go the zones and partners
--   Edge/Served      rebuildServedLocked, Reload and NewRegistry
--   Edge/Lookups     the questions that the registry answers, BindPeer and UnbindPeer
--   Edge/Admission   pkg/core/server/zones.go: admitPeer, and the accept policy of server.go
--   EdgeRoute        pkg/extensions/dea_route/dea_route.go: the routing handler of an edge agent
--   Radius           pkg/proto/radius/radius.go: Parse and Serialize; the digest is a parameter
--   LoadBalance      pkg/extensions/rt_load_balance/rt_load_balance.go: its handler
--   Extensions       pkg/core/extension/extension.go and manager.go: State, Manager, Enable and the two
--                    halves of Disable.
--   Extensions/Calls manager.go: Disable, Reconfigure, InitFromConfig, StopAll, the active
--                    configurations.
--   Routing          pkg/core/routing/router.go: the record Router, its tables and their setters.
--   Routing/Handlers the same file: Register*Handler, Deregister*Handler, DeregisterAllByOwner.
--   Routing/Candidates, Routing/Choice
--                    buildCandidates; RouteOutWithExclusion and the handlers that it calls.
--   Routing/Proxy    containsRouteRecord, addProxyInfo, removeLocalProxyInfo, errorAnswer.
--   Routing/Relay, Routing/Incoming
--                    RouteIn: its loop over next hops; everything before the loop, and dispatch.
--   Routing/Transactions
--                    RelayOrigin, FailoverPeer, RelayTxnCount, sweepExpired.
--   Sessions         pkg/core/session/session.go and manager.go: the record Manager with both indices,
--                    and a heap that has the fields of the sessions at their pointers.
--   Bindings         pkg/extensions/rt_session_bind/binding_store.go: the store and its operations.
--   SessionBind      pkg/extensions/rt_session_bind/rt_session_bind.go: the handlers that use the store,
--                    with the store in the router's world.
--   The other files prove things, and say in their first lines about which of these. Examples are
--   runs on concrete inputs.
--
-- How state corresponds. A method of Peer is a function from a peer to a peer, with the error that it
-- returns. The fields that the state machine turns on are the record Core; a connection is a number,
-- a timer is whether it is set. What a method does to the outside (bytes written, connections closed,
-- callbacks, goroutines started) is noted in `log`; an event that it posts goes to `queue`. What the
-- peer does not decide is the record World, an argument: whether a write succeeds, what a dial comes
-- back with, the random identifier, the node's own configuration, and what the buffers of the pools
-- hold. The goroutines take turns as events: a run is a sequence of handled events and of dials that
-- come back, in any order. A nil message or connection that Go would panic on is an error of its own.
--
-- The router's operations are functions of the record Router and of a type W, which is all that the
-- router does not own: the peers, the random numbers, the clock and whatever the handlers keep. The
-- record Outside has what the router asks of it, and the two functions that the server installs are
-- fields of Router, as in the code. A nil peer is `none`. The manager of
-- the extensions is a function of its record and of a type X, on which the extensions work; calls that
-- overlap are events that begin a call or let one come back.
--
-- Numbers are natural numbers; a counter of 32 or 64 bits wraps as `% 2 ^ 32` or `% 2 ^ 64`. A byte
-- slice and a string are lists of bytes, and the lower case of an identity is that of ASCII.
--
-- Bounds and fuel. The loop over the AVPs of a message runs on fuel, the number of bytes; every AVP
-- takes at least eight, and a theorem below says that the fuel is never used up. So does the loop over
-- the attributes of a RADIUS packet, each of which takes at least two. The relay's loop
-- runs on fuel too; each round that does not return excludes another candidate, so one round more
-- than there are candidates is enough. Everything else is structural recursion. Go's sort is modelled
-- as insertion, which it is for up to twelve elements; what is proved holds for any order of ties.
--
-- A session manager's heap gives every pointer a session, so a new manager is given the sessions that
-- the node will ever make, at the pointers where it makes them; `Create` is registering one of them.
--
-- Not modelled. Sharing of one AVP or message through two pointers, since an AVP is a value here; the
-- texts of errors; time, beyond the expiry of a peer's timer as an event and the clock that sessions
-- and the binding store are given; locks, so an operation is one step; the loops that read from and
-- write to sockets, and the queue of writer.go; TLS; the plain getters and setters of a session.
-- A handler that calls the router while the router calls it is
-- not modelled either. Nor are the listeners of the server, the reading and the validation of the
-- configuration, and the other extensions.
pub mod Prelude
pub mod Message
pub mod Peer
pub mod Bindings
pub mod Edge
pub mod EdgeRoute
pub mod Extensions
pub mod LoadBalance
pub mod Radius
pub mod Routing
pub mod SessionBind
pub mod Sessions
