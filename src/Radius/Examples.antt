-- ===== src/Radius/Examples.antt =====
-- An Access-Accept with one attribute; the digest of the example is a constant.
use godiam.Prelude.{ℕ, ◌++◌, Bool, true, ◌&&◌, ltb, All, ◌≡◌, refl, List, [], ◌∷◌, arith, replicate}
use godiam.Radius.{
  Packet, ok, failed, length_mismatch, invalid_attribute, parse, serialize, sent_authenticator,
  add_attribute, attribute_data,
}
use godiam.Radius.Canonical.{IsByte, Covers, parse-Covers}
use godiam.Radius.RoundTrip.{parse-serialize}

abbrev login : Packet
login = record {
  code = 2;
  identifier = 9;
  authenticator = replicate 16 1;
  attributes = record { code = 18; value = 72 ∷ 105 ∷ [] } ∷ [];
  secret = 115 ∷ [];
}

abbrev digest : List ℕ → List ℕ
digest l = replicate 16 7

parse-serialize_example :
    parse (serialize digest login) login.secret
    ≡ ok (record login { authenticator = sent_authenticator digest login })
unfolding attribute_data
parse-serialize_example =
    parse-serialize digest login (λ l. refl) (refl, (omega arith, tt), omega arith)

-- A header that says more bytes than there are.
cut_off : parse (4 ∷ 1 ∷ 0 ∷ 30 ∷ replicate 16 0) [] ≡ failed length_mismatch
unfolding parse
cut_off = refl

-- A value of 254 bytes is written with the length 0, which `Parse` refuses.
too_long :
    parse (serialize digest (add_attribute 25 (replicate 254 0) login)) []
    ≡ failed invalid_attribute
unfolding parse serialize add_attribute
too_long = refl

-- An Access-Request with one attribute and a byte after the packet.
abbrev received : List ℕ
received = 1 ∷ 4 ∷ 0 ∷ 23 ∷ (replicate 16 5 ++ 1 ∷ 3 ∷ 97 ∷ 0 ∷ [])

abbrev bytes? : List ℕ → Bool
bytes? [] = true
bytes? (x ∷ l) = ltb x 256 && bytes? l

all_bytes : (l : List ℕ) → bytes? l ≡ true → All IsByte l
all_bytes [] h = tt
all_bytes (x ∷ l) h = ground (arith, all_bytes l)

parse-Covers_example : Covers received [] (parse received [])
unfolding parse
parse-Covers_example = parse-Covers received [] (all_bytes received refl)

reads_request :
    parse received []
    ≡ ok (record {
      code = 1;
      identifier = 4;
      authenticator = replicate 16 5;
      attributes = record { code = 1; value = 97 ∷ [] } ∷ [];
      secret = [];
    })
unfolding parse
reads_request = refl
