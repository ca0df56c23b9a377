-- ===== src/Message/Canonical.antt =====
-- The decoder accepts one encoding only: what it read is what `Encode` would write.
use godiam.Prelude.{
  ℕ, zero, suc, ◌+◌, ◌-◌, ◌≤◌, ◌<◌, ◌≡◌, refl, sym, ap, ap₂, subst, ◌∙◌, Bool, true, false, List,
  [], ◌∷◌, ◌++◌, arith, if◌then◌else◌, length, take, drop, replicate, All, length-drop, length-take,
}
use godiam.Message.{ok, Avp, has_flag, flag_vendor, be24, be32, read24, read32}
use godiam.Message.Encode.{header_size, padding}
use godiam.Message.Decode.{byte_at, uint24_at, uint32_at, padded_len, all_zero, decode_avp}
use godiam.Message.Wire.{wire, wire_flat}
use godiam.Message.DecodeWire.{
  decoded, IsFramed, decode_avp-IsFramed, padded-le, padded-eq, header-le,
}

abbrev pub IsByte : ℕ → Type 0
IsByte b = b < 256

pub byte_at-lt : (bs : List ℕ) (i : ℕ) → All IsByte bs → byte_at bs i < 256
byte_at-lt [] i h = omega arith
byte_at-lt (b ∷ bs) zero h = h.0
byte_at-lt (b ∷ bs) (suc i) h = byte_at-lt bs i h.1

-- The `k` bytes from position `n` on, one by one.
abbrev pub bytes_from : List ℕ → ℕ → ℕ → List ℕ
bytes_from bs n zero = []
bytes_from bs n (suc k) = byte_at bs n ∷ bytes_from bs (suc n) k

drop_byte : (n : ℕ) (bs : List ℕ) → n < length bs → drop n bs ≡ byte_at bs n ∷ drop (suc n) bs
drop_byte n [] h = elim h [ ]
drop_byte zero (b ∷ bs) h = refl
drop_byte (suc n) (b ∷ bs) h = drop_byte n bs (omega arith)

pub bytes_from-take :
    (k n : ℕ) (bs : List ℕ) → n + k ≤ length bs → take k (drop n bs) ≡ bytes_from bs n k
bytes_from-take zero n bs h = refl
bytes_from-take (suc k) n bs h =
    rw (drop_byte n bs (omega arith))
      (ap (◌∷◌ (byte_at bs n)) (bytes_from-take k (suc n) bs (omega arith)))

pub take_eq : (m n : ℕ) (bs : List ℕ) → m ≡ n → take m bs ≡ take n bs
take_eq m n bs e = ap (λ k. take k bs) e

take-nil : (n : ℕ) → take {A = ℕ} n [] ≡ []
take-nil zero = refl
take-nil (suc n) = refl

pub take-add : (m n : ℕ) (bs : List ℕ) → take (m + n) bs ≡ take m bs ++ take n (drop m bs)
take-add zero n bs = take_eq (zero + n) n bs (omega arith)
take-add (suc m) n [] = take_eq (suc m + n) (suc (m + n)) [] (omega arith) ∙ sym (take-nil n)
take-add (suc m) n (b ∷ bs) =
    take_eq (suc m + n) (suc (m + n)) (b ∷ bs) (omega arith) ∙ ap (◌∷◌ b) (take-add m n bs)

be32-read32 :
    (a b c d : ℕ)
    → a < 256
    → b < 256
    → c < 256
    → d < 256
    → be32 (read32 a b c d) ≡ a ∷ b ∷ c ∷ d ∷ []
be32-read32 a b c d ha hb hc hd = ground arith

pub be24-read24 : (a b c : ℕ) → a < 256 → b < 256 → c < 256 → be24 (read24 a b c) ≡ a ∷ b ∷ c ∷ []
be24-read24 a b c ha hb hc = ground arith

zeros-all_zero : (bs : List ℕ) → all_zero bs ≡ true → bs ≡ replicate (length bs) 0
unfolding all_zero
zeros-all_zero [] h = refl
zeros-all_zero (b ∷ bs) h = ground (arith, zeros-all_zero bs)

header_bytes : Bool → List ℕ → List ℕ
header_bytes true bs = bytes_from bs 0 12
header_bytes false bs = bytes_from bs 0 8

header_bytes-take :
    (v : Bool) (bs : List ℕ)
    → header_size v ≤ length bs
    → take (header_size v) bs ≡ header_bytes v bs
unfolding header_bytes
header_bytes-take true bs h = bytes_from-take 12 0 bs h
header_bytes-take false bs h = bytes_from-take 8 0 bs h

pub uint32-canonical :
    (bs : List ℕ) (i : ℕ)
    → All IsByte bs
    → be32 (uint32_at bs i)
      ≡ byte_at bs i ∷ byte_at bs (1 + i) ∷ byte_at bs (2 + i) ∷ byte_at bs (3 + i) ∷ []
uint32-canonical bs i h =
    be32-read32 (byte_at bs i) (byte_at bs (1 + i)) (byte_at bs (2 + i)) (byte_at bs (3 + i))
      (byte_at-lt bs i h) (byte_at-lt bs (1 + i) h) (byte_at-lt bs (2 + i) h)
      (byte_at-lt bs (3 + i) h)

pub uint24-canonical :
    (bs : List ℕ) (i n : ℕ)
    → All IsByte bs
    → n ≡ uint24_at bs i
    → be24 n ≡ byte_at bs i ∷ byte_at bs (1 + i) ∷ byte_at bs (2 + i) ∷ []
uint24-canonical bs i n h e =
    ap (λ (x : ℕ). be24 x) e
    ∙ be24-read24 (byte_at bs i) (byte_at bs (1 + i)) (byte_at bs (2 + i)) (byte_at-lt bs i h)
        (byte_at-lt bs (1 + i) h) (byte_at-lt bs (2 + i) h)

-- Encoding the header that was read gives its bytes.
header-canonical :
    (v : Bool) (bs : List ℕ) (n : ℕ)
    → All IsByte bs
    → n ≡ uint24_at bs 5
    → (be32 (uint32_at bs 0)
        ++ byte_at bs 4 ∷ be24 n
        ++ (if v then be32 (if v then uint32_at bs 8 else 0) else []))
      ≡ header_bytes v bs
unfolding header_bytes
header-canonical true bs n h e =
    ap₂ (λ (x y : List ℕ). x ++ byte_at bs 4 ∷ y) (uint32-canonical bs 0 h)
      (ap₂ (◌++◌ {A = ℕ}) (uint24-canonical bs 5 n h e) (uint32-canonical bs 8 h))
header-canonical false bs n h e =
    ap₂ (λ (x y : List ℕ). x ++ byte_at bs 4 ∷ y) (uint32-canonical bs 0 h)
      (ap₂ (◌++◌ {A = ℕ}) (uint24-canonical bs 5 n h e) refl)

decoded-canonical :
    (bs : List ℕ) → All IsByte bs → IsFramed bs → wire (decoded bs).0 ≡ take (decoded bs).1 bs
unfolding decoded wire wire_flat
decoded-canonical bs bytes h =
    ap₂ (λ (x y : List ℕ). (x ++ payload) ++ y)
      (header-canonical v bs whole bytes whole_eq
        ∙ sym (header_bytes-take v bs (omega (arith, inside, le_padded, padded_inside))))
      zeros
    ∙ sym split
  where
    v : Bool
    v = has_flag (byte_at bs 4) flag_vendor

    hs : ℕ
    hs = header_size v

    n : ℕ
    n = uint24_at bs 5

    payload : List ℕ
    payload = take (n - hs) (drop hs bs)

    whole : ℕ
    whole = hs + length payload

    inside : hs ≤ n
    inside = h.header_fits

    le_padded : n ≤ padded_len n
    le_padded = padded-le n

    padded_inside : padded_len n ≤ length bs
    padded_inside = h.padded_fits

    whole_eq : whole ≡ n
    whole_eq = omega (
      arith,
      inside,
      le_padded,
      padded_inside,
      length-take (n - hs) (drop hs bs),
      length-drop hs bs,
    )

    zeros : replicate (padding whole) 0 ≡ take (padded_len n - n) (drop n bs)
    zeros = sym (zeros-all_zero _ h.zero_padding ∙ ap (λ (k : ℕ). replicate k 0) zeros_length)
      where
        zeros_length : length (take (padded_len n - n) (drop n bs)) ≡ padding whole
        zeros_length = omega (
          arith,
          padded_inside,
          whole_eq,
          padded-eq n,
          length-take (padded_len n - n) (drop n bs),
          length-drop n bs,
        )

    split : take (padded_len n) bs ≡ (take hs bs ++ payload) ++ take (padded_len n - n) (drop n bs)
    split =
        take_eq (padded_len n) (n + (padded_len n - n)) bs (omega (arith, le_padded))
        ∙ take-add n (padded_len n - n) bs
        ∙ ap (λ (x : List ℕ). x ++ take (padded_len n - n) (drop n bs))
            (take_eq n (hs + (n - hs)) bs (omega (arith, inside)) ∙ take-add hs (n - hs) bs)

consumed_at_least : (bs : List ℕ) → IsFramed bs → 8 ≤ (decoded bs).1
unfolding decoded
consumed_at_least bs framed = omega (
  arith,
  framed.header_fits,
  header-le (has_flag (byte_at bs 4) flag_vendor),
  padded-le (uint24_at bs 5),
)

-- Whatever the bytes, an AVP takes 8 bytes at least.
pub decode_avp-consumes : (bs : List ℕ) (r : Avp × ℕ) → decode_avp bs ≡ ok r → 8 ≤ r.1
decode_avp-consumes bs r e =
    let (framed, same) = decode_avp-IsFramed bs r e in
    subst (λ (r : Avp × ℕ). 8 ≤ r.1) (sym same) (consumed_at_least bs framed)

-- What `decodeAVP` accepts is the encoding of what it returns, and it consumes exactly that.
pub decode_avp-canonical :
    (bs : List ℕ) (a : Avp) (n : ℕ)
    → All IsByte bs
    → decode_avp bs ≡ ok (a, n)
    → (wire a ≡ take n bs) × (8 ≤ n) × (n ≤ length bs)
unfolding decoded
decode_avp-canonical bs a n bytes e =
    let (framed, same) = decode_avp-IsFramed bs (a, n) e in
    subst (λ (r : Avp × ℕ). (wire r.0 ≡ take r.1 bs) × (8 ≤ r.1) × (r.1 ≤ length bs)) (sym same)
      (decoded-canonical bs bytes framed, consumed_at_least bs framed, framed.padded_fits)
