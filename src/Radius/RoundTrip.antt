-- ===== src/Radius/RoundTrip.antt =====
-- pkg/proto/radius/radius.go: Parse and Serialize are each other's inverse.
use godiam.Prelude.{
  ℕ, zero, suc, ◌+◌, ◌-◌, ◌*◌, ◌/◌, ◌%◌, ◌≤◌, ◌<◌, ◌≡◌, refl, sym, ap, ◌∙◌, false, ◌||◌, List, [],
  ◌∷◌, ◌++◌, ltb, if◌then◌else◌, length, take, drop, arith, All, take-append_length,
  drop-append_length, length-append, if_both,
}
use godiam.Radius.{
  Attribute, Packet, Parsed, ok, failed, invalid_attribute, too_short, short_length,
  length_mismatch, with_attributes, cons, parse_attributes, parse, attribute_data, header,
  is_response, sent_authenticator, serialize,
}

-- An attribute's length fits its byte.
abbrev pub Fits : Attribute → Type 0
Fits a = length a.value < 254

-- Parsing an attribute that fits.
parse_one :
    (n x : ℕ) (v l : List ℕ)
    → length v < 254
    → parse_attributes (suc n) (x ∷ (length v + 2) % 256 ∷ (v ++ l))
      ≡ cons (record { code = x; value = v }) (parse_attributes n l)
unfolding parse_attributes
parse_one n x v l fits =
    let len = (length v + 2) % 256 in
    let exact : len ≡ length v + 2 = omega arith in
    let whole : length (v ++ l) ≡ length v + length l = length-append v l in
    let tests : (ltb len 2 || ltb (suc (suc (length (v ++ l)))) len) ≡ false = ground arith in
    let cut : len - 2 ≡ length v = omega arith in
    ap
      (λ c.
        if c
        then failed invalid_attribute
        else cons (record { code = x; value = take (len - 2) (v ++ l) })
            (parse_attributes n (drop (len - 2) (v ++ l))))
      tests
    ∙ ap
        (λ m.
          cons (record { code = x; value = take m (v ++ l) })
            (parse_attributes n (drop m (v ++ l))))
        cut
    ∙ ap
        (λ t. cons (record { code = x; value = t }) (parse_attributes n (drop (length v) (v ++ l))))
        (take-append_length v l)
    ∙ ap (λ d. cons (record { code = x; value = v }) (parse_attributes n d))
        (drop-append_length v l)

parse_attributes-data :
    (n : ℕ) (l : List Attribute)
    → All Fits l
    → length (attribute_data l) ≤ n
    → parse_attributes n (attribute_data l) ≡ ok l
unfolding parse_attributes attribute_data
parse_attributes-data n [] h b = refl
parse_attributes-data zero (a ∷ l) h b = absurd (omega arith)
parse_attributes-data (suc n) (a ∷ l) h b =
    let shorter : length (attribute_data l) ≤ n =
      omega (arith, length-append a.value (attribute_data l)) in
    parse_one n a.code a.value (attribute_data l) h.0
    ∙ ap (cons a) (parse_attributes-data n l h.1 shorter)

take-length : (l : List ℕ) → take (length l) l ≡ l
take-length [] = refl
take-length (x ∷ l) = ap (◌∷◌ x) (take-length l)

in_16_bits : (n : ℕ) → n < 65536 → ((n / 256) % 256) * 256 + n % 256 ≡ n
in_16_bits n h = omega arith

after_tests :
    (m n : ℕ) (parsed : Parsed Packet)
    → 20 ≤ suc (suc (suc (suc m)))
    → 20 ≤ n
    → n ≤ m + 4
    → (if ltb (suc (suc (suc (suc m)))) 20
        then failed too_short
        else if ltb n 20
        then failed short_length
        else if ltb (m + 4) n
        then failed length_mismatch
        else parsed)
      ≡ parsed
after_tests m n parsed a b c = ground arith

-- A sent packet from its parts.
parse_parts :
    (c i hi lo : ℕ) (auth attr secret : List ℕ) (l : List Attribute)
    → length auth ≡ 16
    → hi * 256 + lo ≡ 20 + length attr
    → parse_attributes (length attr) attr ≡ ok l
    → parse ((c ∷ i ∷ hi ∷ lo ∷ []) ++ auth ++ attr) secret
      ≡ ok (record {
        code = c;
        identifier = i;
        authenticator = auth;
        attributes = l;
        secret = secret;
      })
unfolding parse
parse_parts c i hi lo auth attr secret l size len parsed =
    let rest = auth ++ attr in
    let n = hi * 256 + lo in
    let whole : length rest ≡ 16 + length attr =
      length-append auth attr ∙ ap (λ k. k + length attr) size in
    let front : take 16 rest ≡ auth =
      ap (λ k. take k rest) (sym size) ∙ take-append_length auth attr in
    let back : drop 16 rest ≡ attr =
      ap (λ k. drop k rest) (sym size) ∙ drop-append_length auth attr in
    let cut : n - 20 ≡ length attr = omega arith in
    let all : take (n - 20) (drop 16 rest) ≡ attr =
      ap (λ k. take k (drop 16 rest)) cut ∙ ap (take (length attr)) back ∙ take-length attr in
    let sent : List ℕ → Packet = λ a. record {
      code = c;
      identifier = i;
      authenticator = a;
      attributes = [];
      secret = secret;
    } in
    after_tests (length rest) n
      (with_attributes (sent (take 16 rest))
        (parse_attributes (length (take (n - 20) (drop 16 rest))) (take (n - 20) (drop 16 rest))))
      (omega arith) (omega arith) (omega arith)
    ∙ ap (λ d. with_attributes (sent (take 16 rest)) (parse_attributes (length d) d)) all
    ∙ ap (λ d. with_attributes (sent (take 16 rest)) d) parsed
    ∙ ap (λ a. ok (record (sent a) { attributes = l })) front

-- A header that gives the packet's length is accepted.
abbrev pub WellFormed : Packet → Type 0
WellFormed p =
    (length p.authenticator ≡ 16)
    × All Fits p.attributes
    × (20 + length (attribute_data p.attributes) < 65536)

-- Let `Serialize` write a packet whose authenticator has 16 bytes, whose values have at most 253
-- bytes, and whose length is below 65536, and let the digest have 16 bytes. `Parse` reads the same
-- packet from this, with the authenticator that was sent: the digest of a response, and otherwise
-- the packet's own.
pub parse-serialize :
    (md5 : List ℕ → List ℕ) (p : Packet)
    → ((l : List ℕ) → length (md5 l) ≡ 16)
    → WellFormed p
    → parse (serialize md5 p) p.secret ≡ ok (record p { authenticator = sent_authenticator md5 p })
unfolding serialize sent_authenticator
parse-serialize md5 p digest well =
    let attr = attribute_data p.attributes in
    let n = 20 + length attr in
    let size : length (sent_authenticator md5 p) ≡ 16 =
      if_both (λ a. length a ≡ 16) (is_response p.code)
        (md5 (header p n ++ p.authenticator ++ attr ++ p.secret)) p.authenticator
        (digest (header p n ++ p.authenticator ++ attr ++ p.secret)) well.0 in
    parse_parts p.code p.identifier ((n / 256) % 256) (n % 256) (sent_authenticator md5 p) attr
      p.secret p.attributes size (in_16_bits n well.2)
      (parse_attributes-data (length attr) p.attributes well.1 (omega arith))
