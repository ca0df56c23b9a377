-- ===== src/Message/Decode.antt =====
-- pkg/proto/message/decode.go. The text of an error message is left out, its kind is kept.
use godiam.Prelude.{
  ℕ, zero, suc, ◌-◌, ◌+◌, ◌%◌, Bool, true, false, not, List, [], ◌∷◌, ltb, ◌==◌, if◌then◌else◌,
  length, take, drop,
}
use godiam.Message.{
  Result, ok, err, stuck, ◌>>=◌, message_too_short, unsupported_version, length_below_header,
  length_exceeds_data, avp_too_short, vendor_avp_too_short, invalid_avp_length, avp_exceeds_buffer,
  padding_exceeds_buffer, nonzero_padding, reading_header, reading_body, Avp, avp, nil, of_list,
  Message, has_flag, flag_vendor, read24, read32, diameter_version, diameter_header_size,
  avp_header_size,
}
use godiam.Message.Encode.{header_size}

-- `data[i]`; every index below is checked against the length first.
abbrev pub byte_at : List ℕ → ℕ → ℕ
byte_at [] i = 0
byte_at (b ∷ bs) zero = b
byte_at (b ∷ bs) (suc i) = byte_at bs i

abbrev pub uint24_at : List ℕ → ℕ → ℕ
uint24_at bs i = read24 (byte_at bs i) (byte_at bs (1 + i)) (byte_at bs (2 + i))

abbrev pub uint32_at : List ℕ → ℕ → ℕ
uint32_at bs i =
    read32 (byte_at bs i) (byte_at bs (1 + i)) (byte_at bs (2 + i)) (byte_at bs (3 + i))

-- `avpLen + (4 - (avpLen % 4))` unless a multiple of 4.
abbrev pub padded_len : ℕ → ℕ
padded_len avp_len = if avp_len % 4 == 0 then avp_len else avp_len + (4 - avp_len % 4)

-- The loop over the padding bytes.
unfoldable pub all_zero : List ℕ → Bool
all_zero [] = true
all_zero (b ∷ bs) = if b == 0 then all_zero bs else false

-- `decodeAVP`: the AVP and the bytes consumed, padding included.
unfoldable pub decode_avp : List ℕ → Result (Avp × ℕ)
unfolding all_zero
decode_avp bs =
    if ltb (length bs) avp_header_size
    then err avp_too_short
    else let flags = byte_at bs 4 in
      let avp_len = uint24_at bs 5 in
      let vendor = has_flag flags flag_vendor in
      let hs = header_size vendor in
      if ltb (length bs) hs
      then err vendor_avp_too_short
      else if ltb avp_len hs
      then err invalid_avp_length
      else let payload_len = avp_len - hs in
        if ltb (length bs) (hs + payload_len)
        then err avp_exceeds_buffer
        else let padded = padded_len avp_len in
          if ltb (length bs) padded
          then err padding_exceeds_buffer
          else if all_zero (take (padded - avp_len) (drop avp_len bs))
          then ok (
            avp (uint32_at bs 0) flags (if vendor then uint32_at bs 8 else 0)
                (take payload_len (drop hs bs)) nil,
            padded,
          )
          else err nonzero_padding

-- The loop of `decodeAVPs` over `data[offset:]`. Each round takes 8 bytes at least, so fuel for
-- every byte is enough.
unfoldable pub decode_loop : ℕ → List ℕ → Result (List Avp)
decode_loop fuel [] = ok []
decode_loop zero (b ∷ bs) = stuck
decode_loop (suc fuel) (b ∷ bs) =
    decode_avp (b ∷ bs) >>= λ r. decode_loop fuel (drop (r.1) (b ∷ bs)) >>= λ rest. ok (r.0 ∷ rest)

unfoldable pub decode_avps : List ℕ → Result (List Avp)
unfolding decode_loop
decode_avps bs = decode_loop (length bs) bs

unfoldable pub decode_message : List ℕ → Result Message
unfolding decode_avps
decode_message bs =
    if ltb (length bs) diameter_header_size
    then err message_too_short
    else if not (byte_at bs 0 == diameter_version)
    then err unsupported_version
    else let msg_len = uint24_at bs 1 in
      if ltb msg_len diameter_header_size
      then err length_below_header
      else if ltb (length bs) msg_len
      then err length_exceeds_data
      else decode_avps (take (msg_len - diameter_header_size) (drop diameter_header_size bs))
        >>= λ l. ok (record {
          version = byte_at bs 0;
          flags = byte_at bs 4;
          command_code = uint24_at bs 5;
          application_id = uint32_at bs 8;
          hop_by_hop_id = uint32_at bs 12;
          end_to_end_id = uint32_at bs 16;
          avps = l;
        })

-- `ReadMessage` on a stream of bytes: the message and what is left in the stream. `io.ReadFull`
-- fails where the stream ends too early.
unfoldable pub read_message : List ℕ → Result (Message × List ℕ)
unfolding decode_message
read_message stream =
    if ltb (length stream) diameter_header_size
    then err reading_header
    else if not (byte_at stream 0 == diameter_version)
    then err unsupported_version
    else let msg_len = uint24_at stream 1 in
      if ltb msg_len diameter_header_size
      then err length_below_header
      else if ltb (length stream) msg_len
      then err reading_body
      else decode_message (take msg_len stream) >>= λ m. ok (m, drop msg_len stream)

-- `DecodeGrouped`: the children are read from the data.
unfoldable pub decode_grouped : Avp → Result Avp
unfolding decode_avps
decode_grouped (avp code flags vendor [] children) = ok (avp code flags vendor [] children)
decode_grouped (avp code flags vendor (b ∷ bs) children) =
    decode_avps (b ∷ bs) >>= λ l. ok (avp code flags vendor (b ∷ bs) (of_list l))

pub record Header : Type 0 where
  pub version : ℕ
  pub message_length : ℕ
  pub flags : ℕ
  pub command_code : ℕ
  pub application_id : ℕ
  pub hop_by_hop_id : ℕ
  pub end_to_end_id : ℕ

unfoldable pub decode_message_header : List ℕ → Result Header
decode_message_header bs =
    if ltb (length bs) diameter_header_size
    then err message_too_short
    else ok (record {
      version = byte_at bs 0;
      message_length = uint24_at bs 1;
      flags = byte_at bs 4;
      command_code = uint24_at bs 5;
      application_id = uint32_at bs 8;
      hop_by_hop_id = uint32_at bs 12;
      end_to_end_id = uint32_at bs 16;
    })
