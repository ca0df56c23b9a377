-- ===== src/Message/AvpLoop.antt =====
-- The loop of `decodeAVPs`: it ends, and what it accepts is what `Encode` writes.
use godiam.Prelude.{
  ℕ, zero, suc, ◌≤◌, ◌≡◌, refl, ap, ap₂, ◌∙◌, ◌≢◌, List, [], ◌∷◌, ◌++◌, arith, length, drop, All,
  length-drop, All-drop, take-append-drop,
}
use godiam.Message.{Result, ok, err, stuck, ◌>>=◌, Avp}
use godiam.Message.Decode.{decode_avp, decode_loop, decode_avps}
use godiam.Message.EncodeMessage.{wire_list}
use godiam.Message.Canonical.{IsByte, decode_avp-consumes, decode_avp-canonical}

pub bind_ok {κ} :
    {V W : Type κ} (first : Result V) (next : V → Result W) {w : W}
    → (first >>= next) ≡ ok w
    → (v : V) × (first ≡ ok v) × (next v ≡ ok w)
bind_ok stuck next e = cc
bind_ok (err reason) next e = cc
bind_ok (ok v) next e = (v, refl, e)

decode_loop-canonical :
    (fuel : ℕ) (bs : List ℕ) (l : List Avp)
    → All IsByte bs
    → decode_loop fuel bs ≡ ok l
    → wire_list l ≡ bs
unfolding decode_loop wire_list
decode_loop-canonical fuel [] l bytes e = let q : l ≡ [] = cc in ap wire_list q
decode_loop-canonical zero (b ∷ bs) l bytes e = cc
decode_loop-canonical (suc fuel) (b ∷ bs) l bytes e =
    let (r, e1, k1) = bind_ok (decode_avp (b ∷ bs)) _ e in
    let (rest, e2, k2) = bind_ok (decode_loop fuel (drop r.1 (b ∷ bs))) _ k1 in
    let q : l ≡ r.0 ∷ rest = cc in
    ap wire_list q
    ∙ ap₂ (◌++◌ {A = ℕ}) (decode_avp-canonical (b ∷ bs) r.0 r.1 bytes e1).0 (
        decode_loop-canonical fuel (drop r.1 (b ∷ bs)) rest (All-drop IsByte r.1 (b ∷ bs) bytes) e2)
    ∙ take-append-drop r.1 (b ∷ bs)

-- A sequence of AVPs that is accepted is the encoding of the AVPs that are returned.
pub decode_avps-canonical :
    (bs : List ℕ) (l : List Avp) → All IsByte bs → decode_avps bs ≡ ok l → wire_list l ≡ bs
unfolding decode_avps
decode_avps-canonical bs l bytes e = decode_loop-canonical (length bs) bs l bytes e

decode_avp-ne-stuck : (bs : List ℕ) → decode_avp bs ≢ stuck
unfolding decode_avp
decode_avp-ne-stuck bs e = ground arith

pub bind_ne_stuck {ℓ} :
    {A B : Type ℓ} (m : Result A) (f : A → Result B)
    → m ≢ stuck
    → ((a : A) → m ≡ ok a → f a ≢ stuck)
    → (m >>= f) ≢ stuck
bind_ne_stuck (ok a) f h k e = k a refl e
bind_ne_stuck (err x) f h k e = cc
bind_ne_stuck stuck f h k e = h refl

decode_loop-ne-stuck : (fuel : ℕ) (bs : List ℕ) → length bs ≤ fuel → decode_loop fuel bs ≢ stuck
unfolding decode_loop
decode_loop-ne-stuck fuel [] h = λ e. cc
decode_loop-ne-stuck zero (b ∷ bs) h = absurd (omega arith)
decode_loop-ne-stuck (suc fuel) (b ∷ bs) h =
    bind_ne_stuck (decode_avp (b ∷ bs)) _ (decode_avp-ne-stuck (b ∷ bs)) λ r e.
      bind_ne_stuck (decode_loop fuel (drop r.1 (b ∷ bs))) _
        (decode_loop-ne-stuck fuel (drop r.1 (b ∷ bs))
          (omega (arith, length-drop r.1 (b ∷ bs), decode_avp-consumes (b ∷ bs) r e)))
        (λ l _ e. cc)

-- The loop of `decodeAVPs` ends on every input, with AVPs or an error: its fuel, the length of the
-- input, is enough.
pub decode_avps-ne-stuck : (bs : List ℕ) → decode_avps bs ≢ stuck
unfolding decode_avps
decode_avps-ne-stuck bs = decode_loop-ne-stuck (length bs) bs (omega arith)
