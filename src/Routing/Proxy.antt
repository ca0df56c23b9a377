-- ===== src/Routing/Proxy.antt =====
-- pkg/core/routing/router.go: Route-Record, Proxy-Info and error answers.
use godiam.Prelude.{
  ℕ, zero, suc, ◌+◌, ◌/◌, ◌%◌, ◌^◌, Bool, true, false, ◌&&◌, ◌||◌, List, [], ◌∷◌, ◌++◌, Option,
  none, some, if◌then◌else◌, bytes_eq, ◌==◌, ltb,
}
use godiam.Message.{
  Message, Avp, code_of, payload_of, flag_mandatory, new_grouped_avp, new_diameter_identity_avp,
  new_octet_string_avp,
}
use godiam.Message.Fields.{
  find_all_avps, find_child, add_avp, new_answer, set_error, set_result_code, origin_host,
  origin_realm,
}
use godiam.Routing.{Name, Error, routing_error, Outside, Router, RouterStats}
use godiam.Routing.Candidates.{is_empty}

abbrev pub route_record : ℕ
route_record = 282

abbrev pub proxy_info : ℕ
proxy_info = 284

abbrev pub proxy_host : ℕ
proxy_host = 280

abbrev pub proxy_state : ℕ
proxy_state = 33

abbrev pub error_reporting_host : ℕ
error_reporting_host = 294

abbrev pub unable_to_deliver : ℕ
unable_to_deliver = 3002

abbrev pub loop_detected : ℕ
loop_detected = 3005

abbrev pub application_unsupported : ℕ
application_unsupported = 3007

-- The loop of `containsRouteRecord`.
unfoldable pub any_identity : Name → List Avp → Bool
any_identity identity [] = false
any_identity identity (a ∷ l) = bytes_eq (payload_of a) identity || any_identity identity l

unfoldable pub contains_route_record : Message → Name → Bool
unfolding any_identity find_all_avps
contains_route_record m identity =
    if is_empty identity then false else any_identity identity (find_all_avps m route_record 0)

-- A Proxy-Info whose first Proxy-Host is this identity.
unfoldable pub is_proxy_info_of : Name → Avp → Bool
unfolding find_child
is_proxy_info_of identity a = code_of a == proxy_info && elim (find_child a proxy_host 0) [
  | none ↦ false
  | some host ↦ bytes_eq (payload_of host) identity
]

-- The loop from the last AVP to the first: what is left if one is removed.
unfoldable pub without_last : (Avp → Bool) → List Avp → Option (List Avp)
without_last p [] = none
without_last p (a ∷ l) = elim (without_last p l) [
  | some l' ↦ some (a ∷ l')
  | none ↦ if p a then some l else none
]

unfoldable pub remove_local_proxy_info : Message → Name → Message
unfolding without_last is_proxy_info_of
remove_local_proxy_info m identity =
    if is_empty identity then m else elim (without_last (is_proxy_info_of identity) m.avps) [
      | none ↦ m
      | some l ↦ record m { avps = l }
    ]

-- `%d`, on fuel: twenty digits are enough for a number of 64 bits.
unfoldable pub decimal : ℕ → ℕ → List ℕ
decimal zero n = []
decimal (suc fuel) n =
    let rest = decimal fuel (n / 10) in
    if ltb n 10 then (48 + n) ∷ [] else rest ++ (48 + n % 10) ∷ []

unfoldable pub add_proxy_info : ℕ → Message → Name → Message
unfolding add_avp decimal
add_proxy_info now m identity =
    if is_empty identity
    then m
    else add_avp m (
        new_grouped_avp proxy_info flag_mandatory 0 (
          new_diameter_identity_avp proxy_host flag_mandatory identity
          ∷ new_octet_string_avp proxy_state flag_mandatory (identity ++ 45 ∷ decimal 20 now)
          ∷ []))

abbrev pub u64 : ℕ → ℕ
u64 n = n % 2 ^ 64

-- `if identity != "" { ans.AddAVP(...) }`
unfoldable pub add_identity : ℕ → Name → Message → Message
unfolding add_avp
add_identity code identity m =
    if is_empty identity
    then m
    else add_avp m (new_diameter_identity_avp code flag_mandatory identity)

module _ {W P S : Type 0} where
  unfoldable pub with_stats : (RouterStats → RouterStats) → Router W P S → Router W P S
  with_stats f r = record r { stats = f r.stats }

  unfoldable pub error_answer_to : Router W P S → Message → ℕ → Message
  unfolding add_identity set_error set_result_code
  error_answer_to r req code = add_identity error_reporting_host r.local_identity (
      add_identity origin_realm r.local_realm (
        add_identity origin_host r.local_identity
          (set_result_code (set_error (new_answer req) true) code)))

-- What a call of the router leaves behind, and its error.
pub record Done (W P S : Type 0) : Type 0 where
  pub router : Router W P S
  pub world : W
  pub message : Message
  pub error : Option Error

module _ {W P S : Type 0} (o : Outside W P S) where
  -- `errorAnswer`: a nil peer is sent nothing. The request is not changed.
  unfoldable pub error_answer : Option P → Router W P S → W → Message → ℕ → Done W P S
  unfolding error_answer_to with_stats
  error_answer p r w m code =
      let ans = error_answer_to r m code in
      let r' =
        with_stats (λ (s : RouterStats). record s { routing_errors = u64 (s.routing_errors + 1) })
          r in
      elim p [
        | none ↦ record {
          router = r';
          world = w;
          message = m;
          error = some (routing_error code ans false);
        }
        | some peer ↦
            let out = o.send w peer ans in
            record {
              router = r';
              world = out.0;
              message = m;
              error = some (routing_error code out.1 (elim out.2 [ none ↦ true | some e ↦ false ]));
            }
      ]
