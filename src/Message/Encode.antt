-- ===== src/Message/Encode.antt =====
-- pkg/proto/message/encode.go.
use godiam.Prelude.{
  ℕ, zero, suc, ◌-◌, ◌+◌, ◌%◌, Bool, List, [], ◌∷◌, ◌++◌, ltb, leb, if◌then◌else◌, length, take,
  drop, replicate,
}
use godiam.Message.{
  Result, ok, err, ◌>>=◌, message_too_large, buffer_too_small, Avp, Avps, avp, nil, cons, Message,
  be24, be32, diameter_header_size, avp_header_size, avp_header_size_vendor, has_children, has_flag,
  flag_vendor,
}

abbrev pub small_buf_size : ℕ
small_buf_size = 256

abbrev pub medium_buf_size : ℕ
medium_buf_size = 4096

-- What `sync.Pool` hands out while an AVP is encoded: buffers that hold whatever was written last.
pub record Pool : Type 0 where
  pub small : List ℕ
  pub medium : List ℕ

unfoldable pub get_buffer : Pool → ℕ → List ℕ
get_buffer pool size =
    if leb size small_buf_size
    then take size pool.small
    else if leb size medium_buf_size
    then take size pool.medium
    else replicate size 0

-- `copy(buf[offset:], bytes)`: what does not fit is dropped.
unfoldable pub write : ℕ → List ℕ → List ℕ → List ℕ
write offset bytes [] = []
write (suc offset) bytes (x ∷ buf) = x ∷ write offset bytes buf
write zero [] (x ∷ buf) = x ∷ buf
write zero (b ∷ bytes) (x ∷ buf) = b ∷ write zero bytes buf

abbrev pub header_size : Bool → ℕ
header_size vendor = if vendor then avp_header_size_vendor else avp_header_size

-- `(4 - (avpLen % 4)) % 4`
abbrev pub padding : ℕ → ℕ
padding avp_len = (4 - avp_len % 4) % 4

-- The part of `EncodeTo` behind the children: header, data and padding go into `buf`, and the
-- number of bytes written is returned.
unfoldable pub encode_flat : ℕ → ℕ → ℕ → List ℕ → List ℕ → Result (List ℕ × ℕ)
unfolding write
encode_flat code flags vendor payload buf =
    let is_vendor = has_flag flags flag_vendor in
    let avp_len = header_size is_vendor + length payload in
    let total_len = avp_len + padding avp_len in
    if ltb (length buf) total_len
    then err buffer_too_small
    else let buf1 = write 0 (be32 code) buf in
      let buf2 = write 4 (flags ∷ []) buf1 in
      let buf3 = write 5 (be24 avp_len) buf2 in
      let buf4 = if is_vendor then write 8 (be32 vendor) buf3 else buf3 in
      let buf5 = write (if is_vendor then 12 else 8) payload buf4 in
      ok (write avp_len (replicate (padding avp_len) 0) buf5, total_len)

unfoldable mutual
  unfolding encode_flat get_buffer

  pub encoded_len : Avp → ℕ
  encoded_len (avp code flags vendor payload children) =
      let data_len = if has_children children then encoded_len_all children else length payload in
      let avp_len = header_size (has_flag flags flag_vendor) + data_len in avp_len + padding avp_len

  -- The sum over the children.
  pub encoded_len_all : Avps → ℕ
  encoded_len_all nil = 0
  encoded_len_all (cons a l) = encoded_len a + encoded_len_all l

unfoldable mutual
  unfolding encode_flat get_buffer encoded_len

  -- `EncodeTo`: `pools` says which buffers the pool holds when an AVP's children are encoded.
  pub encode_to : (Avp → Pool) → Avp → List ℕ → Result (List ℕ × ℕ)
  encode_to pools (avp code flags vendor payload children) buf =
      let child_size = encoded_len_all children in
      let self = avp code flags vendor payload children in
      let child_buf = get_buffer (pools self) child_size in
      let written = encode_children pools children child_buf 0 in
      let grouped = written >>= λ r. encode_flat code flags vendor (take (r.1) (r.0)) buf in
      if has_children children then grouped else encode_flat code flags vendor payload buf

  -- The loop over the children, which stands at `offset` in the child buffer.
  pub encode_children : (Avp → Pool) → Avps → List ℕ → ℕ → Result (List ℕ × ℕ)
  encode_children pools nil buf offset = ok (buf, offset)
  encode_children pools (cons a l) buf offset = encode_to pools a (drop offset buf) >>= λ r.
      encode_children pools l (take offset buf ++ r.0) (offset + r.1)

-- `AVP.Encode`: a fresh buffer of the exact size.
unfoldable pub encode_avp : (Avp → Pool) → Avp → Result (List ℕ)
unfolding encode_to encoded_len
encode_avp pools a = encode_to pools a (replicate (encoded_len a) 0) >>= λ r. ok (r.0)

unfoldable pub encoded_len_avps : List Avp → ℕ
encoded_len_avps [] = 0
encoded_len_avps (a ∷ l) = encoded_len a + encoded_len_avps l

-- `Message.EncodedLen`
unfoldable pub message_len : Message → ℕ
unfolding encoded_len_avps
message_len m = diameter_header_size + encoded_len_avps m.avps

-- The loop of `Message.Encode`.
unfoldable pub encode_avps : (Avp → Pool) → List Avp → List ℕ → ℕ → Result (List ℕ)
encode_avps pools [] buf offset = ok buf
encode_avps pools (a ∷ l) buf offset = encode_to pools a (drop offset buf) >>= λ r.
    encode_avps pools l (take offset buf ++ r.0) (offset + r.1)

unfoldable pub encode : (Avp → Pool) → Message → Result (List ℕ)
unfolding encode_avps message_len write
encode pools m =
    let msg_len = message_len m in
    if ltb 0xffffff msg_len
    then err message_too_large
    else let buf = replicate msg_len 0 in
      let buf0 = write 0 (m.version ∷ []) buf in
      let buf1 = write 1 (be24 msg_len) buf0 in
      let buf2 = write 4 (m.flags ∷ []) buf1 in
      let buf3 = write 5 (be24 m.command_code) buf2 in
      let buf4 = write 8 (be32 m.application_id) buf3 in
      let buf5 = write 12 (be32 m.hop_by_hop_id) buf4 in
      let buf6 = write 16 (be32 m.end_to_end_id) buf5 in
      encode_avps pools m.avps buf6 diameter_header_size
