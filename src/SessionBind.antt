-- ===== src/SessionBind.antt =====
-- pkg/extensions/rt_session_bind/rt_session_bind.go: the two handlers that keep a session at one
-- peer. They are handlers of the router; their state is the binding store.
pub mod Sticky
mod Examples
use godiam.Prelude.{
  ℕ, Bool, true, false, not, List, [], ◌∷◌, Option, none, some, if◌then◌else◌, bytes_eq,
}
use godiam.Prelude.Ints.{ℤ, pos, addz}
use godiam.Message.{Message, Avp, Result, ok, err, stuck, payload_of}
use godiam.Message.Fields.{is_request, find_avp, find_child, matches_avp}
use godiam.Message.Decode.{decode_grouped}
use godiam.Bindings.{Key, Store, get, set, touch}
use godiam.Routing.{
  Name, Route, Error, OutOutcome, offered, OutHandlerEntry, PostRouteHandlerEntry, Router,
}
use godiam.Routing.Candidates.{is_empty}
use godiam.Routing.Handlers.{register_out_handler, register_post_route_handler}

-- `binding_key`; Init refuses any other word.
pub data KeyKind : Type 0 where
  session_id subscription_id : KeyKind

pub record SessionBind : Type 0 where
  pub binding_key : KeyKind
  pub score_boost : ℤ

-- The world of the router, as far as this extension reads and changes it.
pub record World (V : Type 0) : Type 0 where
  pub store : Store
  pub now : ℕ
  pub rest : V

-- The AVP that `FindAVP` returns is a pointer: decoding its children changes the message.
unfoldable pub put_first : ℕ → Avp → List Avp → List Avp
put_first code a' [] = []
put_first code a' (a ∷ l) = if matches_avp code 0 a then a' ∷ l else a ∷ put_first code a' l

-- The value of Subscription-Id-Data, unless it is empty.
abbrev data_of : Avp → Option Key
data_of a = elim (find_child a 444 0) [
  | none ↦ none
  | some d ↦ if is_empty (payload_of d) then none else some (payload_of d)
]

abbrev key_in : Message → Result Avp → Message × Option Key
key_in m (ok a) = (record m { avps = put_first 443 a m.avps }, data_of a)
key_in m (err e) = (m, none)
key_in m stuck = (m, none)

unfoldable pub extract_key : SessionBind → Message → Message × Option Key
unfolding put_first
extract_key sb m = elim sb.binding_key [
  | session_id ↦ (m, elim (find_avp m 263 0) [ none ↦ none | some a ↦ some (payload_of a) ])
  | subscription_id ↦ elim (find_avp m 443 0) [
    | none ↦ (m, none)
    | some a ↦ key_in m (decode_grouped a)
  ]
]

-- The loop of `handleOutgoing`: the first candidate of the bound peer gets the bonus.
unfoldable pub boost_first : Name → ℤ → List Route → Option (List Route)
boost_first peer bonus [] = none
boost_first peer bonus (c ∷ l) =
    let rest = boost_first peer bonus l in
    if bytes_eq c.peer_identity peer
    then some (record c { score = addz c.score bonus } ∷ l)
    else elim rest [ none ↦ none | some l' ↦ some (c ∷ l') ]

module _ {V : Type 0} (sb : SessionBind) where
  -- What becomes of the candidates when the key is bound to `peer`.
  unfoldable pub prefer :
      World V → Message → Key → Name → List Route → World V × Message × OutOutcome
  unfolding boost_first
  prefer w m key peer candidates = elim (boost_first peer sb.score_boost candidates) [
    | none ↦ (w, m, offered candidates)
    | some l ↦ (record w { store = touch w.now key w.store }, m, offered l)
  ]

  unfoldable pub handle_outgoing : World V → Message → List Route → World V × Message × OutOutcome
  unfolding extract_key prefer
  handle_outgoing w m candidates =
      if not (is_request m)
      then (w, m, offered candidates)
      else let extracted = extract_key sb m in
        elim extracted.1 [
          | none ↦ (w, extracted.0, offered candidates)
          | some key ↦
              let got = get w.now key w.store in
              elim got.1 [
                | none ↦ (record w { store = got.0 }, extracted.0, offered candidates)
                | some peer ↦ prefer (record w { store = got.0 }) extracted.0 key peer candidates
              ]
        ]

  unfoldable pub handle_post_route : World V → Message → Name → World V × Message
  unfolding extract_key
  handle_post_route w m selected =
      if not (is_request m)
      then (w, m)
      else let extracted = extract_key sb m in
        elim extracted.1 [
          | none ↦ (w, extracted.0)
          | some key ↦ (record w { store = set w.now key selected w.store }, extracted.0)
        ]

-- "rt_session_bind"
abbrev extension_name : Name
extension_name =
    114 ∷ 116 ∷ 95 ∷ 115 ∷ 101 ∷ 115 ∷ 115 ∷ 105 ∷ 111 ∷ 110 ∷ 95 ∷ 98 ∷ 105 ∷ 110 ∷ 100 ∷ []

-- What `Init` registers with the router.
unfoldable pub init : {V P S : Type 0} → SessionBind → Router (World V) P S → Router (World V) P S
unfolding handle_outgoing handle_post_route
init sb r =
    register_post_route_handler extension_name (handle_post_route sb)
      (register_out_handler extension_name (pos 80) (handle_outgoing sb) r)
