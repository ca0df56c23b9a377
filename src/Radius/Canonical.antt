-- ===== src/Radius/Canonical.antt =====
-- pkg/proto/radius/radius.go: what Parse accepts, and that its loop ends.
use godiam.Prelude.{
  ℕ, zero, suc, ◌+◌, ◌-◌, ◌*◌, ◌/◌, ◌%◌, ◌≤◌, ◌<◌, ◌≡◌, refl, sym, ap, subst, ◌∙◌, ◌||◌, List, [],
  ◌∷◌, ◌++◌, ltb, if◌then◌else◌, length, take, drop, arith, All, All-drop, All-take, if_both,
  length-take, length-drop, take-append-drop, if_split,
}
use godiam.Radius.{
  Attribute, Packet, Parsed, ok, failed, stuck, invalid_attribute, too_short, short_length,
  length_mismatch, with_attributes, cons, parse_attributes, parse_header, parse, attribute_data,
  header,
}

abbrev pub IsByte : ℕ → Type 0
IsByte x = x < 256

-- The attributes are written as these bytes; an error says nothing, and the fuel does not run out.
abbrev Reads : List ℕ → Parsed (List Attribute) → Type 0
Reads l (ok attrs) = attribute_data attrs ≡ l
Reads l (failed e) = Unit
Reads l stuck = ⊥

cons-Reads :
    (x len : ℕ) (v l : List ℕ) (r : Parsed (List Attribute))
    → length v + 2 ≡ len
    → len < 256
    → Reads l r
    → Reads (x ∷ len ∷ (v ++ l)) (cons (record { code = x; value = v }) r)
unfolding attribute_data
cons-Reads x len v l (ok attrs) e b h =
    let byte : (length v + 2) % 256 ≡ len = omega arith in
    ap (λ k. x ∷ k ∷ (v ++ attribute_data attrs)) byte ∙ ap (λ t. x ∷ len ∷ (v ++ t)) h
cons-Reads x len v l (failed f) e b h = tt
cons-Reads x len v l stuck e b h = h

parse_attributes-Reads :
    (n : ℕ) (l : List ℕ) → length l ≤ n → All IsByte l → Reads l (parse_attributes n l)
unfolding parse_attributes attribute_data
parse_attributes-Reads n [] b h = refl
parse_attributes-Reads zero (x ∷ l) b h = absurd (omega arith)
parse_attributes-Reads (suc n) (x ∷ []) b h = tt
parse_attributes-Reads (suc n) (x ∷ len ∷ l) b h =
    let k = len - 2 in
    let rest = parse_attributes n (drop k l) in
    if_split (Reads (x ∷ len ∷ l)) (ltb len 2 || ltb (suc (suc (length l))) len)
      (failed invalid_attribute) (cons (record { code = x; value = take k l }) rest) (λ e. tt)
      (λ e.
        let lower : 2 ≤ len = ground arith in
        let upper : len ≤ suc (suc (length l)) = ground arith in
        let size : length (take k l) + 2 ≡ len = omega (arith, length-take k l) in
        let shorter : length (drop k l) ≤ n = omega (arith, length-drop k l) in
        subst (λ t. Reads (x ∷ len ∷ t) (cons (record { code = x; value = take k l }) rest))
          (take-append-drop k l)
          (cons-Reads x len (take k l) (drop k l) rest size h.1.0
            (parse_attributes-Reads n (drop k l) shorter (All-drop IsByte k l h.1.1))))

-- A packet that is read is written, but for a new authenticator of a response, as the bytes that
-- its length covers.
abbrev pub Covers : List ℕ → List ℕ → Parsed Packet → Type 0
Covers bytes secret (ok p) =
    let len = 20 + length (attribute_data p.attributes) in
    (header p len ++ p.authenticator ++ attribute_data p.attributes ≡ take len bytes)
    × (len ≤ length bytes)
    × (p.secret ≡ secret)
Covers bytes secret (failed e) = Unit
Covers bytes secret stuck = ⊥

take-nil : (k : ℕ) → take {A = ℕ} k [] ≡ []
take-nil zero = refl
take-nil (suc k) = refl

take-take-drop : (m k : ℕ) (l : List ℕ) → take m l ++ take k (drop m l) ≡ take (m + k) l
take-take-drop zero k l = ap (λ j. take j l) (omega arith)
take-take-drop (suc m) k [] = take-nil k ∙ sym (take-nil (suc m + k))
take-take-drop (suc m) k (x ∷ l) =
    let longer : suc (m + k) ≡ suc m + k = omega arith in
    ap (◌∷◌ x) (take-take-drop m k l) ∙ ap (λ j. take j (x ∷ l)) longer

-- The bytes of a header's length.
high_byte : (hi lo : ℕ) → hi < 256 → lo < 256 → ((hi * 256 + lo) / 256) % 256 ≡ hi
high_byte hi lo h k = omega arith

low_byte : (hi lo : ℕ) → lo < 256 → (hi * 256 + lo) % 256 ≡ lo
low_byte hi lo k = omega arith

with_attributes-Covers :
    (c i hi lo : ℕ) (l secret : List ℕ) (r : Parsed (List Attribute))
    → 20 ≤ hi * 256 + lo
    → hi * 256 + lo ≤ length l + 4
    → hi < 256
    → lo < 256
    → Reads (take (hi * 256 + lo - 20) (drop 16 l)) r
    → Covers (c ∷ i ∷ hi ∷ lo ∷ l) secret (
        with_attributes
          (record {
            code = c;
            identifier = i;
            authenticator = take 16 l;
            attributes = [];
            secret = secret;
          })
          r)
with_attributes-Covers c i hi lo l secret (failed e) a b h k q = tt
with_attributes-Covers c i hi lo l secret stuck a b h k q = q
with_attributes-Covers c i hi lo l secret (ok attrs) a b h k q =
    let n = hi * 256 + lo in
    let written = attribute_data attrs in
    let size : length written ≡ n - 20 =
      omega (arith, ap length q, length-take (n - 20) (drop 16 l), length-drop 16 l) in
    let len : 20 + length written ≡ n = omega arith in
    let body : take 16 l ++ written ≡ take (16 + (n - 20)) l =
      ap (λ t. take 16 l ++ t) q ∙ take-take-drop 16 (n - 20) l in
    let whole : n ≡ suc (suc (suc (suc (16 + (n - 20))))) = omega arith in
    let lines : (c ∷ i ∷ (n / 256) % 256 ∷ n % 256 ∷ (take 16 l ++ written))
        ≡ take n (c ∷ i ∷ hi ∷ lo ∷ l) =
      ap (λ x. c ∷ i ∷ x ∷ n % 256 ∷ (take 16 l ++ written)) (high_byte hi lo h k)
      ∙ ap (λ x. c ∷ i ∷ hi ∷ x ∷ (take 16 l ++ written)) (low_byte hi lo k)
      ∙ ap (λ x. c ∷ i ∷ hi ∷ lo ∷ x) body
      ∙ sym (ap (λ x. take x (c ∷ i ∷ hi ∷ lo ∷ l)) whole) in
    (
      subst
          (λ x.
            (c ∷ i ∷ (x / 256) % 256 ∷ x % 256 ∷ (take 16 l ++ written))
            ≡ take x (c ∷ i ∷ hi ∷ lo ∷ l))
          (sym len) lines,
      omega arith,
      refl,
    )

parse_header-Covers :
    (bytes secret : List ℕ) → All IsByte bytes → Covers bytes secret (parse_header secret bytes)
unfolding parse
parse_header-Covers [] secret h = tt
parse_header-Covers (c ∷ []) secret h = tt
parse_header-Covers (c ∷ i ∷ []) secret h = tt
parse_header-Covers (c ∷ i ∷ hi ∷ []) secret h = tt
parse_header-Covers (c ∷ i ∷ hi ∷ lo ∷ l) secret h =
    let n = hi * 256 + lo in
    let attr = take (n - 20) (drop 16 l) in
    let base : Packet = record {
      code = c;
      identifier = i;
      authenticator = take 16 l;
      attributes = [];
      secret = secret;
    } in
    let full = with_attributes base (parse_attributes (length attr) attr) in
    let fitting = if ltb (length l + 4) n then failed length_mismatch else full in
    let C = Covers (c ∷ i ∷ hi ∷ lo ∷ l) secret in
    if_split C (ltb n 20) (failed short_length) fitting (λ e. tt)
      (λ short.
        if_split C (ltb (length l + 4) n) (failed length_mismatch) full (λ e. tt)
          (λ long.
            with_attributes-Covers c i hi lo l secret (parse_attributes (length attr) attr)
              (ground arith) (ground arith) h.1.1.0 h.1.1.1.0
              (parse_attributes-Reads (length attr) attr (omega arith)
                (All-take IsByte (n - 20) (drop 16 l) (All-drop IsByte 16 l h.1.1.1.1)))))

-- `Parse` ends on all bytes. Where it reads a packet, these bytes have the length that the packet
-- takes when it is written, as it is with the authenticator that was received, and begin with just
-- what is written; the packet has the secret that was given.
pub parse-Covers :
    (bytes secret : List ℕ) → All IsByte bytes → Covers bytes secret (parse bytes secret)
unfolding parse
parse-Covers bytes secret h =
    if_both (Covers bytes secret) (ltb (length bytes) 20) (failed too_short)
      (parse_header secret bytes) tt (parse_header-Covers bytes secret h)
