-- ===== src/Message/EncodeWire.antt =====
-- `EncodeTo`, `AVP.Encode` and `Message.Encode` against the wire format.
use godiam.Prelude.{
  ℕ, ◌+◌, ◌≤◌, ◌≡◌, refl, sym, ap, ap₂, ◌∙◌, List, [], ◌++◌, arith, length, take, drop,
  length-append, length-replicate, length-take, length-drop, append_assoc, take-append_length,
  drop-append_length, Bool-cases, inl, inr,
}
use godiam.Message.{Result, ok, ◌>>=◌, Avp, Avps, avp, nil, cons, has_children}
use godiam.Message.Encode.{
  Pool, get_buffer, encode_flat, encoded_len, encoded_len_all, encode_to, encode_children,
  small_buf_size, medium_buf_size,
}
use godiam.Message.Wire.{
  wire, wire_all, wire_flat, flat_len, length-wire_flat, encode_flat-wire, drop-drop,
}

-- The pool's buffers have the sizes with which they were made; their contents are arbitrary.
pub record IsPool (p : Pool) : Type 0 where
  pub small_size : length p.small ≡ small_buf_size
  pub medium_size : length p.medium ≡ medium_buf_size

length-get_buffer : (p : Pool) (size : ℕ) → IsPool p → length (get_buffer p size) ≡ size
unfolding get_buffer
length-get_buffer p size h =
    ground
      (arith, length-take size p.small, length-take size p.medium, length-replicate {A = ℕ} size 0)

mutual
  unfolding encoded_len wire flat_len

  length-wire : (a : Avp) → length (wire a) ≡ encoded_len a
  length-wire (avp code flags vendor payload nil) = length-wire_flat code flags vendor payload
  length-wire (avp code flags vendor payload (cons a l)) =
      length-wire_flat code flags vendor (wire_all (cons a l))
      ∙ ap (flat_len flags) (length-wire_all (cons a l))

  length-wire_all : (l : Avps) → length (wire_all l) ≡ encoded_len_all l
  length-wire_all nil = refl
  length-wire_all (cons a l) =
      length-append (wire a) (wire_all l) ∙ omega (arith, length-wire a, length-wire_all l)

-- The length that `EncodedLen` computes is the number of bytes on the wire.
pub wire-length : (a : Avp) → length (wire a) ≡ encoded_len a
wire-length a = length-wire a

pub wire_all-length : (l : Avps) → length (wire_all l) ≡ encoded_len_all l
wire_all-length l = length-wire_all l

take_of_length : (xs ys : List ℕ) (n : ℕ) → length xs ≡ n → take n (xs ++ ys) ≡ xs
take_of_length xs ys n e = rw (← e) (take-append_length xs ys)

drop_of_length : (xs ys : List ℕ) (n : ℕ) → length xs ≡ n → drop n (xs ++ ys) ≡ ys
drop_of_length xs ys n e = rw (← e) (drop-append_length xs ys)

length_front : (a : Avp) (pre : List ℕ) → length (pre ++ wire a) ≡ length pre + encoded_len a
length_front a pre = omega (arith, length-append pre (wire a), wire-length a)

-- What two consecutive parts of the child buffer come to.
joined :
    (a : Avp) (l : Avps) (pre rest : List ℕ)
    → ◌≡◌ {A = Result (List ℕ × ℕ)}
        (ok (
          (pre ++ wire a) ++ (wire_all l ++ drop (encoded_len_all l) (drop (encoded_len a) rest)),
          length (pre ++ wire a) + encoded_len_all l,
        ))
        (ok (
          pre ++ (wire_all (cons a l) ++ drop (encoded_len_all (cons a l)) rest),
          length pre + encoded_len_all (cons a l),
        ))
unfolding wire encoded_len
joined a l pre rest =
    ap₂ (λ (t : List ℕ) (n : ℕ). ok (t, n))
      (append_assoc pre (wire a) _
        ∙ ap (λ (t : List ℕ). pre ++ t)
            (sym (append_assoc (wire a) (wire_all l) _)
              ∙ ap (λ (t : List ℕ). (wire a ++ wire_all l) ++ t)
                  (drop-drop (encoded_len_all l) (encoded_len a) rest)))
      (omega (arith, length_front a pre))

-- An AVP is encoded from what its children wrote.
grouped :
    (code flags vendor : ℕ) (children : Avps) (buf tail : List ℕ)
    → flat_len flags (encoded_len_all children) ≤ length buf
    → {r : Result (List ℕ × ℕ)} → r ≡ ok (wire_all children ++ tail, 0 + encoded_len_all children)
    → (r >>= λ r. encode_flat code flags vendor (take r.1 r.0) buf)
      ≡ ok (
        wire_flat code flags vendor (wire_all children)
            ++ drop (flat_len flags (encoded_len_all children)) buf,
        flat_len flags (encoded_len_all children),
      )
grouped code flags vendor children buf tail room e =
    rw
      (
        e,
        take_of_length (wire_all children) tail (0 + encoded_len_all children)
            (omega (arith, wire_all-length children)),
        ← wire_all-length children,
      )
      (encode_flat-wire code flags vendor (wire_all children) buf
        (rw (wire_all-length children) room))

module _ (pools : Avp → Pool) (pools_ok : (a : Avp) → IsPool (pools a)) where
  mutual
    unfolding encode_to encoded_len wire flat_len

    pub encode_to_front :
        (a : Avp) (buf : List ℕ)
        → encoded_len a ≤ length buf
        → encode_to pools a buf ≡ ok (wire a ++ drop (encoded_len a) buf, encoded_len a)
    encode_to_front (avp code flags vendor payload children) buf fits =
        elim (Bool-cases (has_children children)) [
          | inl g ↦
              let room : flat_len flags (encoded_len_all children) ≤ length buf = rw g at fits in
              rw g (
                grouped code flags vendor children buf _ room (
                  encode_children_front children [] _
                    (omega (arith, length-get_buffer _ (encoded_len_all children) (pools_ok _)))))
          | inr g ↦
              let room : flat_len flags (length payload) ≤ length buf = rw g at fits in
              rw g (encode_flat-wire code flags vendor payload buf room)
        ]

    encode_children_front :
        (l : Avps) (pre rest : List ℕ)
        → encoded_len_all l ≤ length rest
        → encode_children pools l (pre ++ rest) (length pre)
          ≡ ok
              (pre ++ (wire_all l ++ drop (encoded_len_all l) rest), length pre + encoded_len_all l)
    encode_children_front nil pre rest fits = ap (λ (n : ℕ). ok (pre ++ rest, n)) (omega arith)
    encode_children_front (cons a l) pre rest fits =
        rw
          (
            drop-append_length pre rest,
            encode_to_front a rest (omega arith),
            take-append_length pre rest,
            ← append_assoc pre (wire a) (drop (encoded_len a) rest),
            ← length_front a pre,
          )
          (encode_children_front l (pre ++ wire a) (drop (encoded_len a) rest)
              (omega (arith, length-drop (encoded_len a) rest))
            ∙ joined a l pre rest)

  -- `EncodeTo` into a buffer that is large enough, whatever it and the pooled buffers, of their
  -- two sizes, hold, writes
  -- the AVP's wire format at the front, leaves the rest of the buffer alone, and returns the
  -- encoded length.
  pub encode_to-wire :
      (a : Avp) (buf : List ℕ)
      → encoded_len a ≤ length buf
      → encode_to pools a buf ≡ ok (wire a ++ drop (encoded_len a) buf, encoded_len a)
  encode_to-wire a buf fits = encode_to_front a buf fits
