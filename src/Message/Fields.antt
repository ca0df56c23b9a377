-- ===== src/Message/Fields.antt =====
-- pkg/proto/message/message.go: creation of messages, flags, search for AVPs, and the accessors.
use godiam.Prelude.{
  ℕ, zero, suc, ◌-◌, Bool, ◌&&◌, ◌||◌, Option, none, some, List, [], ◌∷◌, ◌++◌, ◌==◌, ltb, leb,
  bit_and, bit_or, if◌then◌else◌, keep,
}
use godiam.Message.{
  Result, ok, err, stuck, data_too_short, Avp, Avps, avp, nil, cons, code_of, vendor_of, payload_of,
  children_of, Message, diameter_version, flag_mandatory, cmd_request, cmd_proxiable, cmd_error,
  cmd_retransmit, has_flag, be32, read32, new_unsigned32_avp,
}

-- AVP codes of pkg/proto/types/avp_codes.go.
abbrev pub origin_host : ℕ
origin_host = 264

abbrev pub origin_realm : ℕ
origin_realm = 296

abbrev pub destination_host : ℕ
destination_host = 293

abbrev pub destination_realm : ℕ
destination_realm = 283

abbrev pub result_code : ℕ
result_code = 268

-- The big-endian number in the first four bytes.
unfoldable pub uint32 : List ℕ → Result ℕ
uint32 [] = err data_too_short
uint32 (a ∷ []) = err data_too_short
uint32 (a ∷ b ∷ []) = err data_too_short
uint32 (a ∷ b ∷ c ∷ []) = err data_too_short
uint32 (a ∷ b ∷ c ∷ d ∷ rest) = ok (read32 a b c d)

unfoldable pub get_unsigned32 : Avp → Result ℕ
unfolding uint32
get_unsigned32 a = uint32 (payload_of a)

unfoldable pub new_message : ℕ → ℕ → ℕ → Message
new_message flags code app = record {
  version = diameter_version;
  flags = flags;
  command_code = code;
  application_id = app;
  hop_by_hop_id = 0;
  end_to_end_id = 0;
  avps = [];
}

unfoldable pub new_request : ℕ → ℕ → Message
unfolding new_message
new_request code app = new_message cmd_request code app

-- `flags &^ mask`: the mask's bits are cleared.
abbrev pub clear_flag : ℕ → ℕ → ℕ
clear_flag flags mask = flags - bit_and flags mask

unfoldable pub new_answer : Message → Message
new_answer req = record {
  version = diameter_version;
  flags = clear_flag req.flags cmd_request;
  command_code = req.command_code;
  application_id = req.application_id;
  hop_by_hop_id = req.hop_by_hop_id;
  end_to_end_id = req.end_to_end_id;
  avps = [];
}

unfoldable pub is_request : Message → Bool
is_request m = has_flag m.flags cmd_request

unfoldable pub is_proxiable : Message → Bool
is_proxiable m = has_flag m.flags cmd_proxiable

unfoldable pub is_error : Message → Bool
is_error m = has_flag m.flags cmd_error

unfoldable pub is_retransmit : Message → Bool
is_retransmit m = has_flag m.flags cmd_retransmit

-- `SetProxiable`, `SetError` and `SetRetransmit` differ in the mask.
abbrev pub put_flag : ℕ → Bool → ℕ → ℕ
put_flag mask on flags = if on then bit_or flags mask else clear_flag flags mask

unfoldable pub set_proxiable : Message → Bool → Message
set_proxiable m on = record m { flags = put_flag cmd_proxiable on m.flags }

unfoldable pub set_error : Message → Bool → Message
set_error m on = record m { flags = put_flag cmd_error on m.flags }

unfoldable pub set_retransmit : Message → Bool → Message
set_retransmit m on = record m { flags = put_flag cmd_retransmit on m.flags }

unfoldable pub add_avp : Message → Avp → Message
add_avp m a = record m { avps = m.avps ++ (a ∷ []) }

-- The test of `FindAVP`, `FindAllAVPs` and `FindChild`: vendor 0 matches any vendor.
unfoldable pub matches_avp : ℕ → ℕ → Avp → Bool
matches_avp code vendor a = code_of a == code && (vendor == 0 || vendor_of a == vendor)

unfoldable pub find_in : ℕ → ℕ → List Avp → Option Avp
find_in code vendor [] = none
find_in code vendor (a ∷ l) = if matches_avp code vendor a then some a else find_in code vendor l

unfoldable pub find_avp : Message → ℕ → ℕ → Option Avp
unfolding find_in
find_avp m code vendor = find_in code vendor m.avps

unfoldable pub find_all_avps : Message → ℕ → ℕ → List Avp
find_all_avps m code vendor = keep (matches_avp code vendor) m.avps

unfoldable pub append_child : Avp → Avps → Avps
append_child c nil = cons c nil
append_child c (cons a l) = cons a (append_child c l)

unfoldable pub add_child : Avp → Avp → Avp
unfolding append_child
add_child (avp code flags vendor payload children) c =
    avp code flags vendor payload (append_child c children)

unfoldable pub find_in_children : ℕ → ℕ → Avps → Option Avp
find_in_children code vendor nil = none
find_in_children code vendor (cons a l) =
    if matches_avp code vendor a then some a else find_in_children code vendor l

unfoldable pub find_child : Avp → ℕ → ℕ → Option Avp
unfolding find_in_children
find_child a code vendor = find_in_children code vendor (children_of a)

-- An index past the end changes nothing.
unfoldable pub remove_at : ℕ → Avps → Avps
remove_at i nil = nil
remove_at zero (cons a l) = l
remove_at (suc i) (cons a l) = cons a (remove_at i l)

unfoldable pub remove_child : Avp → ℕ → Avp
unfolding remove_at
remove_child (avp code flags vendor payload children) i =
    avp code flags vendor payload (remove_at i children)

-- The value of the first AVP with this code, whatever its vendor.
unfoldable pub get_identity : ℕ → Message → Option (List ℕ)
unfolding find_avp
get_identity code m = elim (find_avp m code 0) [ none ↦ none | some a ↦ some (payload_of a) ]

unfoldable pub get_origin_host : Message → Option (List ℕ)
unfolding get_identity
get_origin_host m = get_identity origin_host m

unfoldable pub get_origin_realm : Message → Option (List ℕ)
unfolding get_identity
get_origin_realm m = get_identity origin_realm m

unfoldable pub get_destination_host : Message → Option (List ℕ)
unfolding get_identity
get_destination_host m = get_identity destination_host m

unfoldable pub get_destination_realm : Message → Option (List ℕ)
unfolding get_identity
get_destination_realm m = get_identity destination_realm m

abbrev value_or_none : Result ℕ → Option ℕ
value_or_none (ok v) = some v
value_or_none (err e) = none
value_or_none stuck = none

unfoldable pub get_result_code : Message → Option ℕ
unfolding find_avp get_unsigned32
get_result_code m = elim (find_avp m result_code 0) [
  | none ↦ none
  | some a ↦ value_or_none (get_unsigned32 a)
]

-- Writes through the pointer that `FindAVP` returns: the first match gets new data.
unfoldable pub update_first : ℕ → List ℕ → List Avp → Option (List Avp)
update_first code payload [] = none
update_first code payload (avp c f v p children ∷ l) =
    if matches_avp code 0 (avp c f v p children)
    then some (avp c f v payload children ∷ l)
    else elim (update_first code payload l) [
      | none ↦ none
      | some l' ↦ some (avp c f v p children ∷ l')
    ]

unfoldable pub set_result_code : Message → ℕ → Message
unfolding update_first add_avp new_unsigned32_avp
set_result_code m code = elim (update_first result_code (be32 code) m.avps) [
  | none ↦ add_avp m (new_unsigned32_avp result_code flag_mandatory code)
  | some l ↦ record m { avps = l }
]

-- The E flag is set when the result is not 2xxx.
unfoldable pub new_answer_with_result : Message → ℕ → Message
unfolding new_answer set_result_code
new_answer_with_result req code =
    let ans = set_result_code (new_answer req) code in
    if ltb code 2000 || leb 3000 code
    then record ans { flags = bit_or ans.flags cmd_error }
    else ans
