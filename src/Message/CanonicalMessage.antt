-- ===== src/Message/CanonicalMessage.antt =====
-- Messages have one encoding: what `DecodeMessage` accepts is what `Encode` writes.
use godiam.Prelude.{
  ℕ, ◌+◌, ◌-◌, ◌≤◌, ◌≡◌, refl, sym, ap, ap₂, ◌∙◌, not, List, ◌∷◌, ◌++◌, arith, length, take, drop,
  All, length-drop, length-take, All-take, All-drop, ltb, ◌==◌, le_of_ltb-eq-false,
}
use godiam.Message.{ok, Avp, Message, diameter_version}
use godiam.Message.Encode.{Pool, encode, message_len, encoded_len_avps}
use godiam.Message.Decode.{byte_at, uint24_at, uint32_at, decode_avps, decode_message}
use godiam.Message.EncodeWire.{IsPool}
use godiam.Message.EncodeMessage.{
  wire_list, wire_message, encode-wire, length-wire_list, message_header,
}
use godiam.Message.DecodeWire.{passed}
use godiam.Message.Canonical.{
  IsByte, byte_at-lt, bytes_from, bytes_from-take, take_eq, take-add, uint32-canonical,
  uint24-canonical,
}
use godiam.Message.AvpLoop.{bind_ok, decode_avps-canonical}

-- What `DecodeMessage` builds from the header and the AVPs.
abbrev built : List ℕ → List Avp → Message
built bs l = record {
  version = byte_at bs 0;
  flags = byte_at bs 4;
  command_code = uint24_at bs 5;
  application_id = uint32_at bs 8;
  hop_by_hop_id = uint32_at bs 12;
  end_to_end_id = uint32_at bs 16;
  avps = l;
}

-- The checks that an accepted message passed.
record Accepted (bs : List ℕ) (m : Message) : Type 0 where
  whole : 20 ≤ length bs
  known : byte_at bs 0 ≡ diameter_version
  header : 20 ≤ uint24_at bs 1
  inside : uint24_at bs 1 ≤ length bs
  parsed : decode_avps (take (uint24_at bs 1 - 20) (drop 20 bs)) ≡ ok m.avps
  same : m ≡ built bs m.avps

decode_message-Accepted : (bs : List ℕ) (m : Message) → decode_message bs ≡ ok m → Accepted bs m
unfolding decode_message
decode_message-Accepted bs m e =
    let (c1, k1) = passed (ltb (length bs) 20) _ e in
    let (c2, k2) = passed (not (byte_at bs 0 == diameter_version)) _ k1 in
    let (c3, k3) = passed (ltb (uint24_at bs 1) 20) _ k2 in
    let (c4, k4) = passed (ltb (length bs) (uint24_at bs 1)) _ k3 in
    let (l, e5, k5) = bind_ok (decode_avps (take (uint24_at bs 1 - 20) (drop 20 bs))) _ k4 in
    let q : built bs l ≡ m = cc in
    let p : l ≡ m.avps = ap (λ (x : Message). x.avps) q in
    record {
      whole = le_of_ltb-eq-false (length bs) 20 c1;
      known = ground arith;
      header = le_of_ltb-eq-false (uint24_at bs 1) 20 c3;
      inside = le_of_ltb-eq-false (length bs) (uint24_at bs 1) c4;
      parsed = e5 ∙ ap ok p;
      same = sym q ∙ ap (built bs) p;
    }

header-canonical :
    (bs : List ℕ) (l : List Avp) (len : ℕ)
    → All IsByte bs
    → len ≡ uint24_at bs 1
    → message_header (built bs l) len ≡ bytes_from bs 0 20
header-canonical bs l len h e =
    ap₂ (λ (x y : List ℕ). byte_at bs 0 ∷ x ++ byte_at bs 4 ∷ y) (uint24-canonical bs 1 len h e)
      (ap₂ (◌++◌ {A = ℕ}) (uint24-canonical bs 5 (uint24_at bs 5) h refl) (
        ap₂ (◌++◌ {A = ℕ}) (uint32-canonical bs 8 h)
          (ap₂ (◌++◌ {A = ℕ}) (uint32-canonical bs 12 h) (uint32-canonical bs 16 h))))

wire_message-canonical :
    (bs : List ℕ) (l : List Avp)
    → All IsByte bs
    → 20 ≤ uint24_at bs 1
    → uint24_at bs 1 ≤ length bs
    → wire_list l ≡ take (uint24_at bs 1 - 20) (drop 20 bs)
    → (wire_message (built bs l) ≡ take (uint24_at bs 1) bs)
      × (message_len (built bs l) ≡ uint24_at bs 1)
unfolding wire_message message_len
wire_message-canonical bs l bytes header inside e = (
  ap₂ (◌++◌ {A = ℕ})
        (header-canonical bs l (20 + encoded_len_avps l) bytes len
          ∙ sym (bytes_from-take 20 0 bs (omega arith)))
        e
      ∙ sym (take_eq n (20 + (n - 20)) bs (omega arith) ∙ take-add 20 (n - 20) bs),
  len,
)
  where
    n : ℕ
    n = uint24_at bs 1

    len : 20 + encoded_len_avps l ≡ n
    len = omega (
      arith,
      ap length e,
      length-wire_list l,
      length-take (n - 20) (drop 20 bs),
      length-drop 20 bs,
    )

-- Of bytes that `DecodeMessage` accepts, `Encode` on the message that came out gives back as many as
-- the length field says, unchanged, and these bytes are there, whatever the pooled buffers, of their two
-- sizes, hold.
pub encode-decode :
    (pools : Avp → Pool) (bs : List ℕ) (m : Message)
    → ((a : Avp) → IsPool (pools a))
    → All IsByte bs
    → decode_message bs ≡ ok m
    → (encode pools m ≡ ok (take (uint24_at bs 1) bs)) × (uint24_at bs 1 ≤ length bs)
encode-decode pools bs m pools_ok bytes e =
    let a = decode_message-Accepted bs m e in
    let parts = wire_message-canonical bs m.avps bytes a.header a.inside (
      decode_avps-canonical _ m.avps
        (All-take IsByte (uint24_at bs 1 - 20) (drop 20 bs) (All-drop IsByte 20 bs bytes))
        a.parsed) in
    (
      ap (encode pools) a.same
          ∙ encode-wire pools pools_ok (built bs m.avps) (
              omega (
                arith,
                parts.1,
                byte_at-lt bs 1 bytes,
                byte_at-lt bs 2 bytes,
                byte_at-lt bs 3 bytes,
              ))
          ∙ ap ok parts.0,
      a.inside,
    )
