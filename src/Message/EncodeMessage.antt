-- ===== src/Message/EncodeMessage.antt =====
-- `AVP.Encode` and `Message.Encode` against the wire format.
use godiam.Prelude.{
  ℕ, zero, suc, ◌+◌, ◌-◌, ◌≤◌, ◌<◌, ◌≡◌, refl, sym, ap, ◌∙◌, List, [], ◌∷◌, ◌++◌, arith, length,
  drop, replicate, length-append, length-replicate, length-drop, append_assoc, append-nil,
  take-append_length, drop-append_length, ltb-eq-false, ltb-eq-true,
}
use godiam.Message.{ok, err, Avp, Message, be24, be32, message_too_large}
use godiam.Message.Encode.{
  Pool, write, encoded_len, encode_avp, encoded_len_avps, message_len, encode_avps, encode,
}
use godiam.Message.Wire.{wire, fill, drop-drop}
use godiam.Message.EncodeWire.{IsPool, encode_to_front, wire-length}

unfoldable pub wire_list : List Avp → List ℕ
wire_list [] = []
wire_list (a ∷ l) = wire a ++ wire_list l

abbrev pub message_header : Message → ℕ → List ℕ
message_header m len =
    m.version ∷ be24 len
    ++ m.flags ∷ be24 m.command_code
    ++ be32 m.application_id
    ++ be32 m.hop_by_hop_id
    ++ be32 m.end_to_end_id

unfoldable pub wire_message : Message → List ℕ
wire_message m = message_header m (message_len m) ++ wire_list m.avps

pub length-wire_list : (l : List Avp) → length (wire_list l) ≡ encoded_len_avps l
unfolding wire_list encoded_len_avps
length-wire_list [] = refl
length-wire_list (a ∷ l) =
    omega (arith, length-append (wire a) (wire_list l), wire-length a, length-wire_list l)

pub length-wire_message : (m : Message) → length (wire_message m) ≡ message_len m
unfolding wire_message message_len
length-wire_message m = omega (arith, length-wire_list m.avps)

zeros_eq : (i j : ℕ) → i ≡ j → replicate {A = ℕ} i 0 ≡ replicate j 0
zeros_eq i j e = ap (λ (k : ℕ). replicate k 0) e

zeros-drop : (n k : ℕ) → drop n (replicate {A = ℕ} k 0) ≡ replicate (k - n) 0
zeros-drop zero k = zeros_eq k (k - zero) (omega arith)
zeros-drop (suc n) zero = zeros_eq zero (zero - suc n) (omega arith)
zeros-drop (suc n) (suc k) = zeros-drop n k ∙ zeros_eq (k - n) (suc k - suc n) (omega arith)

-- Nothing is left of a buffer of the exact size.
zeros-drop_all : (n k : ℕ) → k ≤ n → drop n (replicate {A = ℕ} k 0) ≡ []
zeros-drop_all n k h = zeros-drop n k ∙ zeros_eq (k - n) zero (omega arith)

-- The header, written field by field.
header_filled :
    (m : Message) (len : ℕ) (buf : List ℕ)
    → 20 ≤ length buf
    → write 16 (be32 m.end_to_end_id) (
        write 12 (be32 m.hop_by_hop_id) (
          write 8 (be32 m.application_id) (
            write 5
              (be24 m.command_code)
              (write 4 (m.flags ∷ []) (write 1 (be24 len) (write 0 (m.version ∷ []) buf))))))
      ≡ message_header m len ++ drop 20 buf
header_filled m len buf h =
    fill (p4 ++ be32 m.hop_by_hop_id) (be32 m.end_to_end_id) buf 16 20
      (fill p4 (be32 m.hop_by_hop_id) buf 12 16
        (fill p3 (be32 m.application_id) buf 8 12
          (fill p2 (be24 m.command_code) buf 5 8
            (fill p1 (m.flags ∷ []) buf 4 5
              (fill (m.version ∷ []) (be24 len) buf 1 4
                (fill [] (m.version ∷ []) buf 0 1 refl refl refl (omega arith)) refl refl
                (omega arith))
              refl refl (omega arith))
            refl refl (omega arith))
          refl refl (omega arith))
        refl refl (omega arith))
      refl refl h
  where
    p1 : List ℕ
    p1 = m.version ∷ be24 len

    p2 : List ℕ
    p2 = p1 ++ m.flags ∷ []

    p3 : List ℕ
    p3 = p2 ++ be24 m.command_code

    p4 : List ℕ
    p4 = p3 ++ be32 m.application_id

module _ (pools : Avp → Pool) (pools_ok : (a : Avp) → IsPool (pools a)) where
  -- `AVP.Encode` gives the wire format, whatever the pool's buffers hold.
  pub encode_avp-wire : (a : Avp) → encode_avp pools a ≡ ok (wire a)
  unfolding encode_avp
  encode_avp-wire a =
      rw
        (encode_to_front pools pools_ok a (replicate (encoded_len a) 0)
          (omega (arith, length-replicate {A = ℕ} (encoded_len a) 0)))
        (ap ok (
          ap (◌++◌ (wire a)) (zeros-drop_all (encoded_len a) (encoded_len a) (omega arith))
          ∙ append-nil (wire a)))

  encode_avps_front :
      (l : List Avp) (pre rest : List ℕ)
      → encoded_len_avps l ≤ length rest
      → encode_avps pools l (pre ++ rest) (length pre)
        ≡ ok (pre ++ (wire_list l ++ drop (encoded_len_avps l) rest))
  unfolding encode_avps wire_list encoded_len_avps
  encode_avps_front [] pre rest fits = refl
  encode_avps_front (a ∷ l) pre rest fits =
      rw
        (
          drop-append_length pre rest,
          encode_to_front pools pools_ok a rest (omega arith),
          take-append_length pre rest,
          ← append_assoc pre (wire a) (drop (encoded_len a) rest),
          ← next,
        )
        (encode_avps_front l (pre ++ wire a) (drop (encoded_len a) rest)
            (omega (arith, length-drop (encoded_len a) rest))
          ∙ ap ok (
              append_assoc pre (wire a) _
              ∙ ap (◌++◌ pre) (
                  sym (append_assoc (wire a) (wire_list l) _)
                  ∙ ap (◌++◌ (wire a ++ wire_list l))
                      (drop-drop (encoded_len_avps l) (encoded_len a) rest))))
    where
      next : length (pre ++ wire a) ≡ length pre + encoded_len a
      next = omega (arith, length-append pre (wire a), wire-length a)

  -- `Message.Encode`, with the buffers that it takes from the pools, writes the wire format of the
  -- message and succeeds if the message's length fits 24 bits, whatever these buffers, of
  -- their two sizes, held.
  pub encode-wire : (m : Message) → message_len m ≤ 0xffffff → encode pools m ≡ ok (wire_message m)
  unfolding encode wire_message message_len
  encode-wire m fits =
      let len = message_len m in
      let buf : List ℕ = replicate len 0 in
      let size : length buf ≡ len = length-replicate len 0 in
      rw (ltb-eq-false 0xffffff len fits, header_filled m len buf (omega arith))
        (encode_avps_front m.avps (message_header m len) (drop 20 buf)
            (omega (arith, length-drop 20 buf))
          ∙ ap (λ (t : List ℕ). ok (message_header m len ++ t))
              (ap (◌++◌ (wire_list m.avps)) (
                  drop-drop (encoded_len_avps m.avps) 20 buf ∙ zeros-drop_all len len (omega arith))
                ∙ append-nil (wire_list m.avps)))

  -- A longer message is refused.
  pub encode-too_large :
      (m : Message) → 0xffffff < message_len m → encode pools m ≡ err message_too_large
  unfolding encode
  encode-too_large m h = rw (ltb-eq-true 0xffffff (message_len m) h)
