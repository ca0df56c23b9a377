-- ===== src/Message/DecodeWire.antt =====
-- `decodeAVP`: which inputs it accepts, and that it reads back the wire format.
use godiam.Prelude.{
  ℕ, zero, suc, ◌+◌, ◌-◌, ◌^◌, ◌≤◌, ◌<◌, ◌≡◌, refl, sym, ap, ◌∙◌, ◌↔◌, Bool, true, false, List, ◌∷◌,
  ◌++◌, arith, if◌then◌else◌, length, take, drop, replicate, length-append, length-replicate,
  append_assoc, take-append_length, drop-append_length, Bool-cases, inl, inr, ltb-eq-false, ltb,
  le_of_ltb-eq-false,
}
use godiam.Message.{Error, Result, ok, err, Avp, avp, nil, has_flag, flag_vendor, be24, be32}
use godiam.Message.Encode.{header_size, padding}
use godiam.Message.Decode.{byte_at, uint24_at, uint32_at, padded_len, all_zero, decode_avp}
use godiam.Message.Wire.{wire_flat, flat_len, drop-drop}

-- What `decodeAVP` returns when every check passes.
unfoldable pub decoded : List ℕ → Avp × ℕ
decoded bs =
    let flags = byte_at bs 4 in
    let hs = header_size (has_flag flags flag_vendor) in
    let n = uint24_at bs 5 in
    (
      avp (uint32_at bs 0) flags (if has_flag flags flag_vendor then uint32_at bs 8 else 0)
          (take (n - hs) (drop hs bs)) nil,
      padded_len n,
    )

-- The checks of `decodeAVP`, together.
pub record IsFramed (bs : List ℕ) : Type 0 where
  pub header_fits : header_size (has_flag (byte_at bs 4) flag_vendor) ≤ uint24_at bs 5
  pub padded_fits : padded_len (uint24_at bs 5) ≤ length bs
  pub zero_padding :
      all_zero (take (padded_len (uint24_at bs 5) - uint24_at bs 5) (drop (uint24_at bs 5) bs))
      ≡ true

pub padded-le : (n : ℕ) → n ≤ padded_len n
padded-le n = ground arith

pub header-le : (b : Bool) → 8 ≤ header_size b
header-le true = omega arith
header-le false = omega arith

-- An input that passes the checks is accepted.
pub decode_avp-framed : (bs : List ℕ) → IsFramed bs → decode_avp bs ≡ ok (decoded bs)
unfolding decode_avp decoded
decode_avp-framed bs h =
    let hs = header_size (has_flag (byte_at bs 4) flag_vendor) in
    let n = uint24_at bs 5 in
    let some_header : 8 ≤ hs = header-le (has_flag (byte_at bs 4) flag_vendor) in
    let le_padded : n ≤ padded_len n = padded-le n in
    let covered : hs ≤ n = h.header_fits in
    let inside : padded_len n ≤ length bs = h.padded_fits in
    rw (
      ltb-eq-false (length bs) 8 (omega arith),
      ltb-eq-false (length bs) hs (omega arith),
      ltb-eq-false n hs (omega arith),
      ltb-eq-false (length bs) (hs + (n - hs)) (omega arith),
      ltb-eq-false (length bs) (padded_len n) (omega arith),
      h.zero_padding,
    )

-- A check that did not fail.
pub passed {ℓ} :
    {A : Type ℓ} (b : Bool) (x : Error) {k : Result A} {r : A}
    → (if b then err x else k) ≡ ok r
    → (b ≡ false) × (k ≡ ok r)
passed true x h = cc
passed false x h = (refl, h)

passed_last {ℓ} :
    {A : Type ℓ} (b : Bool) (x : Error) {q r : A}
    → (if b then ok q else err x) ≡ ok r
    → (b ≡ true) × (r ≡ q)
passed_last true x h = (refl, cc)
passed_last false x h = cc

-- Only an input that passes the checks is accepted.
pub decode_avp-IsFramed :
    (bs : List ℕ) (r : Avp × ℕ) → decode_avp bs ≡ ok r → IsFramed bs × (r ≡ decoded bs)
unfolding decode_avp decoded
decode_avp-IsFramed bs r e =
    let hs = header_size (has_flag (byte_at bs 4) flag_vendor) in
    let n = uint24_at bs 5 in
    let (c1, k1) = passed (ltb (length bs) 8) _ e in
    let (c2, k2) = passed (ltb (length bs) hs) _ k1 in
    let (c3, k3) = passed (ltb n hs) _ k2 in
    let (c4, k4) = passed (ltb (length bs) (hs + (n - hs))) _ k3 in
    let (c5, k5) = passed (ltb (length bs) (padded_len n)) _ k4 in
    let (c6, k6) = passed_last (all_zero (take (padded_len n - n) (drop n bs))) _ k5 in
    (
      record {
        header_fits = le_of_ltb-eq-false n hs c3;
        padded_fits = le_of_ltb-eq-false (length bs) (padded_len n) c5;
        zero_padding = c6;
      },
      k6,
    )

-- `decodeAVP` accepts an input exactly if the header, the AVP's length and its padding are inside
-- the input, the length covers the header and the padding is zero; it then reads the fields at
-- their places, and moves on by the padded length.
pub decode_avp_iff :
    (bs : List ℕ) (r : Avp × ℕ) → (decode_avp bs ≡ ok r) ↔ (IsFramed bs × (r ≡ decoded bs))
decode_avp_iff bs r = (decode_avp-IsFramed bs r, λ k. decode_avp-framed bs k.0 ∙ ap ok (sym k.1))

replicate_zero : (n : ℕ) → all_zero (replicate n 0) ≡ true
unfolding all_zero
replicate_zero zero = refl
replicate_zero (suc n) = replicate_zero n

-- The fields of an AVP that fit their widths on the wire.
pub record IsFlat (code flags vendor : ℕ) (payload : List ℕ) : Type 0 where
  pub code_fits : code < 2 ^ 32
  pub vendor_fits : vendor < 2 ^ 32
  pub length_fits : header_size (has_flag flags flag_vendor) + length payload < 2 ^ 24

-- The vendor is on the wire under the V flag only.
abbrev pub wire_vendor : ℕ → ℕ → ℕ
wire_vendor flags vendor = if has_flag flags flag_vendor then vendor else 0

pub padded-eq : (n : ℕ) → padded_len n ≡ n + padding n
padded-eq n = ground arith

-- Header, data, padding and a rest, as `decodeAVP` takes them apart.
decode_layout :
    (hdr payload rest : List ℕ) (code flags n vendor : ℕ)
    → let bs = hdr ++ (payload ++ (replicate (padding n) 0 ++ rest)) in
      byte_at bs 4 ≡ flags
      → uint32_at bs 0 ≡ code
      → uint24_at bs 5 ≡ n
      → (if has_flag flags flag_vendor then uint32_at bs 8 else 0) ≡ vendor
      → length hdr ≡ header_size (has_flag flags flag_vendor)
      → n ≡ length hdr + length payload
      → decode_avp bs ≡ ok (avp code flags vendor payload nil, n + padding n)
unfolding decoded
decode_layout hdr payload rest code flags n vendor e4 e0 e5 e8 eh en =
    decode_avp-framed bs framed ∙ ap ok same
  where
    zeros : List ℕ
    zeros = replicate (padding n) 0

    bs : List ℕ
    bs = hdr ++ (payload ++ (zeros ++ rest))

    data_part : drop (length hdr) bs ≡ payload ++ (zeros ++ rest)
    data_part = drop-append_length hdr _

    padding_part : drop n bs ≡ zeros ++ rest
    padding_part =
        ap (λ k. drop k bs) en
        ∙ (sym (drop-drop (length payload) (length hdr) bs)
            ∙ ap (drop (length payload)) data_part
            ∙ drop-append_length payload _)

    zeros_part : take (padded_len n - n) (zeros ++ rest) ≡ zeros
    zeros_part =
        let e : padded_len n - n ≡ length zeros =
          omega (arith, padded-eq n, length-replicate {A = ℕ} (padding n) 0) in
        rw e (take-append_length zeros rest)

    total : length bs ≡ length hdr + (length payload + (padding n + length rest))
    total = omega (
      arith,
      length-append hdr (payload ++ (zeros ++ rest)),
      length-append payload (zeros ++ rest),
      length-append zeros rest,
      length-replicate {A = ℕ} (padding n) 0,
    )

    data_bytes :
        take
          (n - header_size (has_flag flags flag_vendor))
          (drop (header_size (has_flag flags flag_vendor)) bs)
        ≡ payload
    data_bytes =
        let e : n - length hdr ≡ length payload = omega (arith, en) in
        rw (← eh, data_part, e) (take-append_length payload _)

    framed : IsFramed bs
    framed = record {
      header_fits = rw (e4, e5) (omega arith);
      padded_fits = rw e5 (omega (arith, padded-eq n, total));
      zero_padding = rw (e5, padding_part, zeros_part) (replicate_zero (padding n));
    }

    same : decoded bs ≡ (avp code flags vendor payload nil, n + padding n)
    same = rw (e4, e5, e0, e8, data_bytes, padded-eq n)

pub decode_avp-wire_flat :
    (code flags vendor : ℕ) (payload rest : List ℕ)
    → IsFlat code flags vendor payload
    → decode_avp (wire_flat code flags vendor payload ++ rest)
      ≡ ok (avp code flags (wire_vendor flags vendor) payload nil, flat_len flags (length payload))
unfolding decoded wire_flat flat_len
decode_avp-wire_flat code flags vendor payload rest h =
    let fits = h.length_fits in
    elim (Bool-cases (has_flag flags flag_vendor)) [
      | inl v ↦
          let n = 12 + length payload in
          let small : n < 2 ^ 24 = rw v at fits in
          rw (v, append_assoc payload (replicate (padding n) 0) rest)
            (decode_layout (be32 code ++ flags ∷ be24 n ++ be32 vendor) payload rest code flags n
              vendor refl (omega (arith, h.code_fits)) (omega arith)
              (rw v (omega (arith, h.vendor_fits))) (rw v) refl)
      | inr v ↦
          let n = 8 + length payload in
          let small : n < 2 ^ 24 = rw v at fits in
          rw (v, append_assoc payload (replicate (padding n) 0) rest)
            (decode_layout (be32 code ++ flags ∷ be24 n) payload rest code flags n 0 refl
              (omega (arith, h.code_fits)) (omega arith) (rw v) (rw v) refl)
    ]
