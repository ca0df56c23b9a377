-- ===== src/Message/Wire.antt =====
-- The wire format (RFC 6733 sections 3 and 4) as plain concatenation, and that `EncodeTo` writes
-- exactly this whatever was in its buffers.
use godiam.Prelude.{
  ℕ, zero, suc, ◌+◌, ◌≤◌, ◌<◌, ◌≡◌, refl, sym, ap, ◌∙◌, List, [], ◌∷◌, ◌++◌, arith, if◌then◌else◌,
  length, drop, replicate, ltb-eq-false, ltb-eq-true, length-append, length-replicate, length-drop,
  Bool-cases, inl, inr,
}
use godiam.Message.{
  ok, err, Avp, Avps, avp, nil, cons, has_children, has_flag, flag_vendor, be24, be32,
  buffer_too_small,
}
use godiam.Message.Encode.{write, header_size, padding, encode_flat}

abbrev pub avp_header : ℕ → ℕ → ℕ → ℕ → List ℕ
avp_header code flags vendor avp_len =
    be32 code ++ flags ∷ be24 avp_len ++ (if has_flag flags flag_vendor then be32 vendor else [])

-- The bytes of an AVP with `n` bytes of data.
unfoldable pub flat_len : ℕ → ℕ → ℕ
flat_len flags n =
    let avp_len = header_size (has_flag flags flag_vendor) + n in avp_len + padding avp_len

-- Header, data and zero padding.
unfoldable pub wire_flat : ℕ → ℕ → ℕ → List ℕ → List ℕ
wire_flat code flags vendor payload =
    let avp_len = header_size (has_flag flags flag_vendor) + length payload in
    avp_header code flags vendor avp_len ++ payload ++ replicate (padding avp_len) 0

unfoldable mutual
  pub wire : Avp → List ℕ
  wire (avp code flags vendor payload children) =
      wire_flat code flags vendor (if has_children children then wire_all children else payload)

  pub wire_all : Avps → List ℕ
  wire_all nil = []
  wire_all (cons a l) = wire a ++ wire_all l

-- A write behind `pre` leaves `pre`, and replaces as many bytes of the rest.
pub write-append :
    (pre bytes rest : List ℕ)
    → length bytes ≤ length rest
    → write (length pre) bytes (pre ++ rest) ≡ pre ++ bytes ++ drop (length bytes) rest
unfolding write
write-append [] [] [] h = refl
write-append [] [] (r ∷ rest) h = refl
write-append [] (b ∷ bytes) [] h = absurd (omega arith)
write-append [] (b ∷ bytes) (r ∷ rest) h = ap (◌∷◌ b) (write-append [] bytes rest (omega arith))
write-append (x ∷ pre) bytes rest h = ap (◌∷◌ x) (write-append pre bytes rest h)

drop-nil {ℓ} : {A : Type ℓ} (n : ℕ) → drop {A = A} n [] ≡ []
drop-nil zero = refl
drop-nil (suc n) = refl

pub drop-drop {ℓ} : {A : Type ℓ} (m n : ℕ) (xs : List A) → drop m (drop n xs) ≡ drop (n + m) xs
drop-drop m zero xs = ap (λ k. drop k xs) (omega arith)
drop-drop m (suc n) [] = drop-nil m ∙ sym (drop-nil (suc n + m))
drop-drop m (suc n) (x ∷ xs) =
    let e : suc (n + m) ≡ suc n + m = omega arith in drop-drop m n xs ∙ ap (λ k. drop k (x ∷ xs)) e

-- A buffer filled up to `n` with `pre` is filled up to `k` by a write at `n`.
pub fill :
    (pre bytes buf : List ℕ) (n k : ℕ) {b : List ℕ}
    → b ≡ pre ++ drop n buf
    → n ≡ length pre
    → k ≡ n + length bytes
    → k ≤ length buf
    → write n bytes b ≡ (pre ++ bytes) ++ drop k buf
fill pre bytes buf n k e hn hk fits =
    rw (e, hk, hn)
      (write-append pre bytes (drop (length pre) buf) (omega (arith, length-drop (length pre) buf))
        ∙ ap (λ t. (pre ++ bytes) ++ t) (drop-drop (length bytes) (length pre) buf))

length-tail :
    (payload : List ℕ) (n : ℕ)
    → length (payload ++ replicate (padding n) 0) ≡ length payload + padding n
length-tail payload n =
    length-append payload _ ∙ ap (λ k. length payload + k) (length-replicate (padding n) 0)

pub length-wire_flat :
    (code flags vendor : ℕ) (payload : List ℕ)
    → length (wire_flat code flags vendor payload) ≡ flat_len flags (length payload)
unfolding wire_flat flat_len
length-wire_flat code flags vendor payload = elim (Bool-cases (has_flag flags flag_vendor)) [
  | inl v ↦ rw v (omega (arith, length-tail payload (12 + length payload)))
  | inr v ↦ rw v (omega (arith, length-tail payload (8 + length payload)))
]

-- The writes that are common to both forms of the header.
header_writes :
    (code flags n : ℕ) (buf : List ℕ)
    → 8 ≤ length buf
    → write 5 (be24 n) (write 4 (flags ∷ []) (write 0 (be32 code) buf))
      ≡ (be32 code ++ flags ∷ be24 n) ++ drop 8 buf
header_writes code flags n buf fits =
    let e0 : write 0 (be32 code) buf ≡ be32 code ++ drop 4 buf =
      fill [] (be32 code) buf 0 4 refl (omega arith) (omega arith) (omega arith) in
    let e1 : write 4 (flags ∷ []) (write 0 (be32 code) buf)
        ≡ (be32 code ++ flags ∷ []) ++ drop 5 buf =
      fill (be32 code) (flags ∷ []) buf 4 5 e0 (omega arith) (omega arith) (omega arith) in
    fill (be32 code ++ flags ∷ []) (be24 n) buf 5 8 e1 (omega arith) (omega arith) (omega arith)

-- Data and `p` bytes of padding behind a header of `h` bytes.
body_writes :
    (pre payload buf b : List ℕ) (h p : ℕ)
    → b ≡ pre ++ drop h buf
    → h ≡ length pre
    → h + length payload + p ≤ length buf
    → write (h + length payload) (replicate p 0) (write h payload b)
      ≡ ((pre ++ payload) ++ replicate p 0) ++ drop (h + length payload + p) buf
body_writes pre payload buf b h p e hh fits =
    fill (pre ++ payload) (replicate p 0) buf (h + length payload) (h + length payload + p)
      (fill pre payload buf h (h + length payload) e hh refl (omega arith))
      (omega (arith, length-append pre payload)) (omega (arith, length-replicate {A = ℕ} p 0)) fits

-- `EncodeTo` behind the children writes the wire format over the front of the buffer, and nothing
-- behind it.
pub encode_flat-wire :
    (code flags vendor : ℕ) (payload buf : List ℕ)
    → flat_len flags (length payload) ≤ length buf
    → encode_flat code flags vendor payload buf
      ≡ ok (
        wire_flat code flags vendor payload ++ drop (flat_len flags (length payload)) buf,
        flat_len flags (length payload),
      )
unfolding encode_flat wire_flat flat_len
encode_flat-wire code flags vendor payload buf fits =
    elim (Bool-cases (has_flag flags flag_vendor)) [
      | inl v ↦
          let n = 12 + length payload in
          let room : n + padding n ≤ length buf = rw v at fits in
          rw (v, ltb-eq-false (length buf) (n + padding n) room)
            (ap (λ (l : List ℕ). ok (l, n + padding n))
              (body_writes (be32 code ++ flags ∷ be24 n ++ be32 vendor) payload buf _ 12 (padding n)
                (fill (be32 code ++ flags ∷ be24 n) (be32 vendor) buf 8 12
                  (header_writes code flags n buf (omega arith)) refl refl (omega arith))
                refl room))
      | inr v ↦
          let n = 8 + length payload in
          let room : n + padding n ≤ length buf = rw v at fits in
          rw (v, ltb-eq-false (length buf) (n + padding n) room)
            (ap (λ (l : List ℕ). ok (l, n + padding n))
              (body_writes (be32 code ++ flags ∷ be24 n) payload buf _ 8 (padding n)
                (header_writes code flags n buf (omega arith)) refl room))
    ]

-- A buffer that is too small is refused.
pub encode_flat-small :
    (code flags vendor : ℕ) (payload buf : List ℕ)
    → length buf < flat_len flags (length payload)
    → encode_flat code flags vendor payload buf ≡ err buffer_too_small
unfolding encode_flat flat_len
encode_flat-small code flags vendor payload buf h = rw (ltb-eq-true _ _ h)
