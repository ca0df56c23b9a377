-- ===== src/Message/RoundTrip.antt =====
-- What is encoded is decoded again, alone or in a stream.
use godiam.Prelude.{
  ℕ, zero, suc, ◌+◌, ◌-◌, ◌*◌, ◌/◌, ◌%◌, ◌^◌, ◌≤◌, ◌<◌, ◌≡◌, refl, sym, ap, ◌∙◌, true, List, [],
  ◌∷◌, ◌++◌, map, arith, if◌then◌else◌, length, drop, All, length-append, append-nil,
  take-append_length, drop-append_length, ltb-eq-false, ◌==◌,
}
use godiam.Message.{
  ok, ◌>>=◌, Avp, Avps, avp, nil, of_list, Message, has_flag, flag_vendor, has_children, code_of,
  vendor_of, diameter_version,
}
use godiam.Message.Encode.{Pool, encode, message_len, encoded_len, encoded_len_avps, header_size}
use godiam.Message.Decode.{
  byte_at, uint24_at, decode_avp, decode_loop, decode_avps, decode_message, read_message,
  decode_grouped,
}
use godiam.Message.Wire.{wire, wire_all, flat_len, length-wire_flat}
use godiam.Message.EncodeWire.{IsPool, wire-length}
use godiam.Message.EncodeMessage.{
  wire_list, wire_message, encode-wire, length-wire_list, length-wire_message,
}
use godiam.Message.DecodeWire.{header-le, wire_vendor, decode_avp-wire_flat}

-- The data of an AVP on the wire: its children's bytes, where it has children.
unfoldable pub content : Avp → List ℕ
content (avp code flags vendor payload children) =
    if has_children children then wire_all children else payload

-- An AVP as it arrives: its children are still bytes, and the vendor is there under the V flag.
unfoldable pub flatten : Avp → Avp
flatten (avp code flags vendor payload children) =
    avp code flags (wire_vendor flags vendor)
      (if has_children children then wire_all children else payload) nil

abbrev pub Fits : Avp → Type 0
Fits a = (code_of a < 2 ^ 32) × (vendor_of a < 2 ^ 32)

-- The fields of a message have the widths that the Go types or the wire format give them.
pub record IsValid (m : Message) : Type 0 where
  pub version_known : m.version ≡ diameter_version
  pub command_fits : m.command_code < 2 ^ 24
  pub application_fits : m.application_id < 2 ^ 32
  pub hop_by_hop_fits : m.hop_by_hop_id < 2 ^ 32
  pub end_to_end_fits : m.end_to_end_id < 2 ^ 32
  pub avps_fit : All Fits m.avps
  pub length_fits : message_len m ≤ 0xffffff

unfoldable pub flatten_message : Message → Message
flatten_message m = record m { avps = map flatten m.avps }

header-flat_len : (flags n : ℕ) → header_size (has_flag flags flag_vendor) + n ≤ flat_len flags n
unfolding flat_len
header-flat_len flags n = omega arith

decode_avp-wire :
    (a : Avp) (rest : List ℕ)
    → Fits a
    → encoded_len a < 2 ^ 24
    → decode_avp (wire a ++ rest) ≡ ok (flatten a, encoded_len a)
unfolding wire flatten
decode_avp-wire (avp code flags vendor payload children) rest (c, v) small =
    let p : List ℕ = if has_children children then wire_all children else payload in
    let e : flat_len flags (length p) ≡ encoded_len (avp code flags vendor payload children) =
      sym (length-wire_flat code flags vendor p)
      ∙ wire-length (avp code flags vendor payload children) in
    decode_avp-wire_flat code flags vendor p rest (record {
      code_fits = c;
      vendor_fits = v;
      length_fits = omega (arith, header-flat_len flags (length p), e);
    })
    ∙ ap (λ (n : ℕ). ok (avp code flags (wire_vendor flags vendor) p nil, n)) e

decode_loop_step :
    (fuel : ℕ) (bs : List ℕ) (a : Avp) (n : ℕ)
    → decode_avp bs ≡ ok (a, n)
    → decode_loop (suc fuel) bs ≡ (decode_loop fuel (drop n bs) >>= λ rest. ok (a ∷ rest))
unfolding decode_loop
decode_loop_step fuel [] a n e = unfold decode_avp in cc
decode_loop_step fuel (b ∷ bs) a n e = rw e

encoded_len-pos : (a : Avp) → 8 ≤ encoded_len a
unfolding encoded_len
encoded_len-pos (avp code flags vendor payload children) =
    omega (arith, header-le (has_flag flags flag_vendor))

decode_loop-wire_list :
    (l : List Avp) (fuel : ℕ)
    → All Fits l
    → encoded_len_avps l < 2 ^ 24
    → encoded_len_avps l ≤ fuel
    → decode_loop fuel (wire_list l) ≡ ok (map flatten l)
unfolding wire_list encoded_len_avps
decode_loop-wire_list [] fuel h small enough = unfold decode_loop in refl
decode_loop-wire_list (a ∷ l) zero h small enough = absurd (omega (arith, encoded_len-pos a))
decode_loop-wire_list (a ∷ l) (suc fuel) h small enough =
    decode_loop_step fuel _ (flatten a) (encoded_len a)
      (decode_avp-wire a (wire_list l) h.0 (omega arith))
    ∙ rw (
      ← wire-length a,
      drop-append_length (wire a) (wire_list l),
      decode_loop-wire_list l fuel h.1 (omega arith) (omega (arith, encoded_len-pos a)),
    )

-- A sequence of AVPs on the wire is read back, each with its children as bytes.
pub decode_avps-wire_list :
    (l : List Avp)
    → All Fits l
    → encoded_len_avps l < 2 ^ 24
    → decode_avps (wire_list l) ≡ ok (map flatten l)
unfolding decode_avps
decode_avps-wire_list l h small =
    decode_loop-wire_list l _ h small (omega (arith, length-wire_list l))

read24-be24 :
    (x : ℕ) → x < 2 ^ 24 → x / 2 ^ 16 % 256 * 2 ^ 16 + x / 2 ^ 8 % 256 * 2 ^ 8 + x % 256 ≡ x
read24-be24 x h = omega arith

read32-be32 :
    (x : ℕ)
    → x < 2 ^ 32
    → x / 2 ^ 24 % 256 * 2 ^ 24 + x / 2 ^ 16 % 256 * 2 ^ 16 + x / 2 ^ 8 % 256 * 2 ^ 8 + x % 256 ≡ x
read32-be32 x h = omega arith

-- `DecodeMessage` reads back the wire format, and does not look behind it.
pub decode_message-wire_message :
    (m : Message) (rest : List ℕ)
    → IsValid m
    → decode_message (wire_message m ++ rest) ≡ ok (flatten_message m)
unfolding decode_message wire_message flatten_message message_len
decode_message-wire_message m rest h =
    let len = message_len m in
    let bs : List ℕ = wire_message m ++ rest in
    let room : length bs ≡ len + length rest =
      omega (arith, length-append (wire_message m) rest, length-wire_message m) in
    let known : (m.version == diameter_version) ≡ true = ground arith in
    let same : 20 + encoded_len_avps m.avps - 20 ≡ length (wire_list m.avps) =
      omega (arith, length-wire_list m.avps) in
    rw (
      ltb-eq-false (length bs) 20 (omega arith),
      known,
      read24-be24 len (omega arith),
      ltb-eq-false len 20 (omega arith),
      ltb-eq-false (length bs) len (omega arith),
      same,
      take-append_length (wire_list m.avps) rest,
      decode_avps-wire_list m.avps h.avps_fit (omega arith),
      read24-be24 m.command_code h.command_fits,
      read32-be32 m.application_id h.application_fits,
      read32-be32 m.hop_by_hop_id h.hop_by_hop_fits,
      read32-be32 m.end_to_end_id h.end_to_end_fits,
    )

version-wire_message :
    (m : Message) (rest : List ℕ)
    → IsValid m
    → (byte_at (wire_message m ++ rest) 0 == diameter_version) ≡ true
unfolding wire_message
version-wire_message m rest h = ground arith

length_field-wire_message :
    (m : Message) (rest : List ℕ) → IsValid m → uint24_at (wire_message m ++ rest) 1 ≡ message_len m
unfolding wire_message
length_field-wire_message m rest h = read24-be24 (message_len m) (omega (arith, h.length_fits))

message_len-ge : (m : Message) → 20 ≤ message_len m
unfolding message_len
message_len-ge m = omega arith

read_message-wire_message :
    (m : Message) (rest : List ℕ)
    → IsValid m
    → read_message (wire_message m ++ rest) ≡ ok (flatten_message m, rest)
unfolding read_message
read_message-wire_message m rest h =
    let bs : List ℕ = wire_message m ++ rest in
    let len = message_len m in
    let room : length bs ≡ len + length rest =
      omega (arith, length-append (wire_message m) rest, length-wire_message m) in
    let ge : 20 ≤ len = message_len-ge m in
    rw (
      ltb-eq-false (length bs) 20 (omega arith),
      version-wire_message m rest h,
      length_field-wire_message m rest h,
      ltb-eq-false len 20 ge,
      ltb-eq-false (length bs) len (omega arith),
      ← length-wire_message m,
      take-append_length (wire_message m) rest,
      drop-append_length (wire_message m) rest,
      rw append-nil at (decode_message-wire_message m [] h),
    )

-- A message of version 1 whose fields have their widths and whose length fits 24 bits is encoded,
-- whatever the pooled buffers of 256 and 4096 bytes hold; decoding the bytes gives the message with the children of its
-- AVPs as bytes, and reading from a stream takes exactly the bytes of the message.
pub decode-encode :
    (pools : Avp → Pool) (m : Message) (rest : List ℕ)
    → ((a : Avp) → IsPool (pools a))
    → IsValid m
    → (bs : List ℕ) × (encode pools m ≡ ok bs)
      × (decode_message bs ≡ ok (flatten_message m))
      × (read_message (bs ++ rest) ≡ ok (flatten_message m, rest))
decode-encode pools m rest pools_ok h = (
  wire_message m,
  encode-wire pools pools_ok m h.length_fits,
  rw append-nil at (decode_message-wire_message m [] h),
  read_message-wire_message m rest h,
)

wire_all-of_list : (l : List Avp) → wire_all (of_list l) ≡ wire_list l
unfolding wire wire_list
wire_all-of_list [] = refl
wire_all-of_list (a ∷ l) = ap (◌++◌ (wire a)) (wire_all-of_list l)

decode_grouped_bytes :
    (code flags vendor : ℕ) (bs : List ℕ) (children : Avps) (l : List Avp)
    → 0 < length bs
    → decode_avps bs ≡ ok l
    → decode_grouped (avp code flags vendor bs children) ≡ ok (avp code flags vendor bs (of_list l))
unfolding decode_grouped
decode_grouped_bytes code flags vendor [] children l h e = absurd (omega arith)
decode_grouped_bytes code flags vendor (b ∷ bs) children l h e = rw e

-- `DecodeGrouped` on a grouped AVP that arrived gives back the children that were encoded, each with
-- its own children as bytes, if codes and vendors have 32 bits and the children's length 24.
pub decode_grouped-flatten :
    (code flags vendor : ℕ) (payload : List ℕ) (a : Avp) (l : List Avp)
    → All Fits (a ∷ l)
    → encoded_len_avps (a ∷ l) < 2 ^ 24
    → decode_grouped (flatten (avp code flags vendor payload (of_list (a ∷ l))))
      ≡ ok (
          avp code flags
            (wire_vendor flags vendor)
            (wire_list (a ∷ l))
            (of_list (map flatten (a ∷ l))))
unfolding flatten
decode_grouped-flatten code flags vendor payload a l fit small = rw (wire_all-of_list (a ∷ l)) (
    decode_grouped_bytes code flags (wire_vendor flags vendor) (wire_list (a ∷ l)) nil
      (map flatten (a ∷ l)) some_byte (decode_avps-wire_list (a ∷ l) fit small))
  where
    some_byte : 0 < length (wire_list (a ∷ l))
    some_byte =
        unfold encoded_len_avps in omega (arith, length-wire_list (a ∷ l), encoded_len-pos a)
