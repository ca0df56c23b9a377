-- ===== src/Message/Examples.antt =====
-- A watchdog request, on the wire and back.
use godiam.Prelude.{
  ℕ, ◌≡◌, ◌≢◌, refl, Bool, true, ltb, ◌&&◌, map, List, [], ◌∷◌, ◌++◌, arith, length, take, drop,
  replicate, length-replicate, All, ◌↔◌, ◌≤◌,
}
use godiam.Message.{
  padding_exceeds_buffer, ok, err, stuck, Avp, avp, nil, cons, of_list, Message, has_flag,
}
use godiam.Message.Encode.{
  Pool, small_buf_size, medium_buf_size, encode, encode_to, message_len, encoded_len,
  encoded_len_avps,
}
use godiam.Message.Decode.{
  decode_avp, decode_avps, decode_message, read_message, decode_grouped, uint24_at,
}
use godiam.Message.Wire.{wire, wire_flat}
use godiam.Message.EncodeWire.{IsPool, encode_to-wire}
use godiam.Message.EncodeMessage.{wire_list, wire_message, encode-wire}
use godiam.Message.DecodeWire.{wire_vendor, IsFramed, decoded, decode_avp_iff}
use godiam.Message.RoundTrip.{
  IsValid, flatten, flatten_message, decode-encode, decode_grouped-flatten,
}
use godiam.Message.Canonical.{IsByte}
use godiam.Message.AvpLoop.{decode_avps-ne-stuck}
use godiam.Message.CanonicalMessage.{encode-decode}

-- Buffers that an earlier message filled with ones.
abbrev pools : Avp → Pool
pools a = record { small = replicate small_buf_size 1; medium = replicate medium_buf_size 1 }

pools_ok : (a : Avp) → IsPool (pools a)
pools_ok a = record {
  small_size = length-replicate {A = ℕ} small_buf_size 1;
  medium_size = length-replicate {A = ℕ} medium_buf_size 1;
}

abbrev host : Avp
host = avp 264 0x40 0 (97 ∷ []) nil

abbrev proxy_info : Avp
proxy_info = avp 284 0x40 0 [] (cons (avp 33 0x40 0 (7 ∷ 7 ∷ []) nil) nil)

abbrev request : Message
request = record {
  version = 1;
  flags = 0x80;
  command_code = 280;
  application_id = 0;
  hop_by_hop_id = 5;
  end_to_end_id = 9;
  avps = host ∷ proxy_info ∷ [];
}

abbrev header : List ℕ
header = 1 ∷ 0 ∷ 0 ∷ 52 ∷ 128 ∷ 0 ∷ 1 ∷ 24 ∷ 0 ∷ 0 ∷ 0 ∷ 0 ∷ 0 ∷ 0 ∷ 0 ∷ 5 ∷ 0 ∷ 0 ∷ 0 ∷ 9 ∷ []

abbrev host_bytes : List ℕ
host_bytes = 0 ∷ 0 ∷ 1 ∷ 8 ∷ 64 ∷ 0 ∷ 0 ∷ 9 ∷ 97 ∷ 0 ∷ 0 ∷ 0 ∷ []

abbrev proxy_bytes : List ℕ
proxy_bytes =
    0 ∷ 0 ∷ 1 ∷ 28 ∷ 64 ∷ 0 ∷ 0 ∷ 20 ∷ 0 ∷ 0 ∷ 0 ∷ 33 ∷ 64 ∷ 0 ∷ 0 ∷ 10 ∷ 7 ∷ 7 ∷ 0 ∷ 0 ∷ []

-- The wire format, byte by byte.
request_wire : wire_message request ≡ header ++ host_bytes ++ proxy_bytes
unfolding wire_message wire_list wire message_len wire_flat encoded_len has_flag
request_wire = refl

request_encoded : encode pools request ≡ ok (header ++ host_bytes ++ proxy_bytes)
unfolding encode wire_message encoded_len has_flag encode_to
request_encoded = refl

request_len : message_len request ≡ 52
unfolding message_len encoded_len has_flag
request_len = refl

request-IsValid : IsValid request
request-IsValid = record {
  version_known = refl;
  command_fits = omega arith;
  application_fits = omega arith;
  hop_by_hop_fits = omega arith;
  end_to_end_fits = omega arith;
  avps_fit = ((omega arith, omega arith), ((omega arith, omega arith), tt));
  length_fits = omega (arith, request_len);
}

decode-encode_example :
    (bs : List ℕ) × (encode pools request ≡ ok bs)
    × (decode_message bs ≡ ok (flatten_message request))
    × (read_message (bs ++ 1 ∷ 2 ∷ []) ≡ ok (flatten_message request, 1 ∷ 2 ∷ []))
decode-encode_example = decode-encode pools request (1 ∷ 2 ∷ []) pools_ok request-IsValid

-- What comes back has the group as bytes.
abbrev arrived : Message
arrived = record request { avps = host ∷ avp 284 0x40 0 (drop 8 proxy_bytes) nil ∷ [] }

abbrev on_the_wire : List ℕ
on_the_wire = header ++ host_bytes ++ proxy_bytes ++ 255 ∷ []

request_arrives : decode_message on_the_wire ≡ ok arrived
unfolding decode_message decode_avps decode_avp has_flag
request_arrives = refl

abbrev all_bytes : List ℕ → Bool
all_bytes [] = true
all_bytes (b ∷ bs) = ltb b 256 && all_bytes bs

all_bytes_sound : (bs : List ℕ) → all_bytes bs ≡ true → All IsByte bs
all_bytes_sound [] h = tt
all_bytes_sound (b ∷ bs) h = (ground arith, all_bytes_sound bs (ground arith))

on_the_wire-IsByte : All IsByte on_the_wire
on_the_wire-IsByte = all_bytes_sound on_the_wire refl

encode-decode_example :
    (encode pools arrived ≡ ok (take (uint24_at on_the_wire 1) on_the_wire))
    × (uint24_at on_the_wire 1 ≤ length on_the_wire)
encode-decode_example =
    encode-decode pools on_the_wire arrived pools_ok on_the_wire-IsByte request_arrives

encode-wire_example : encode pools request ≡ ok (wire_message request)
encode-wire_example = encode-wire pools pools_ok request (omega (arith, request_len))

proxy_info_len : encoded_len proxy_info ≡ 20
unfolding encoded_len has_flag
proxy_info_len = refl

encode_to-wire_example :
    encode_to pools proxy_info (replicate 24 9)
    ≡ ok (wire proxy_info ++ drop (encoded_len proxy_info) (replicate 24 9), encoded_len proxy_info)
encode_to-wire_example =
    encode_to-wire pools pools_ok proxy_info (replicate 24 9) (omega (arith, proxy_info_len))

host_decodes : decode_avp (host_bytes ++ proxy_bytes) ≡ ok (host, 12)
unfolding decode_avp has_flag
host_decodes = refl

decode_avp_iff_example :
    (decode_avp (host_bytes ++ proxy_bytes) ≡ ok (host, 12))
    ↔ (IsFramed (host_bytes ++ proxy_bytes) × ((host, 12) ≡ decoded (host_bytes ++ proxy_bytes)))
decode_avp_iff_example = decode_avp_iff (host_bytes ++ proxy_bytes) (host, 12)

-- The declared length is 9, and the three bytes of padding are not there.
cut_short : decode_avp (take 9 host_bytes) ≡ err padding_exceeds_buffer
unfolding decode_avp has_flag
cut_short = refl

decode_avps-ne-stuck_example : decode_avps (host_bytes ++ 1 ∷ []) ≢ stuck
decode_avps-ne-stuck_example = decode_avps-ne-stuck (host_bytes ++ 1 ∷ [])

abbrev proxy_state : Avp
proxy_state = avp 33 0x40 0 (7 ∷ 7 ∷ []) nil

proxy_state_len : encoded_len_avps (proxy_state ∷ []) ≡ 12
unfolding encoded_len_avps encoded_len has_flag
proxy_state_len = refl

decode_grouped-flatten_example :
    decode_grouped (flatten (avp 284 0x40 0 [] (of_list (proxy_state ∷ []))))
    ≡ ok (
        avp 284 0x40
          (wire_vendor 0x40 0)
          (wire_list (proxy_state ∷ []))
          (of_list (map flatten (proxy_state ∷ []))))
decode_grouped-flatten_example =
    decode_grouped-flatten 284 0x40 0 [] proxy_state [] ((omega arith, omega arith), tt)
      (omega (arith, proxy_state_len))
