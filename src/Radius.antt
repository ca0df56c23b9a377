-- ===== src/Radius.antt =====
-- pkg/proto/radius/radius.go: RADIUS packets. A byte is a number below 256, and a secret is its
-- bytes. The digest of crypto/md5 is a parameter.
pub mod RoundTrip
pub mod Canonical
mod Examples
use godiam.Prelude.{
  ℕ, zero, suc, ◌+◌, ◌-◌, ◌*◌, ◌/◌, ◌%◌, Bool, true, false, ◌||◌, List, [], ◌∷◌, ◌++◌, Option, none,
  some, ltb, ◌==◌, if◌then◌else◌, length, take, drop,
}

pub record Attribute : Type 0 where
  pub code : ℕ
  pub value : List ℕ

pub record Packet : Type 0 where
  pub code : ℕ
  pub identifier : ℕ
  pub authenticator : List ℕ
  pub attributes : List Attribute
  pub secret : List ℕ

-- The errors of `Parse`, without their texts.
pub data Failure : Type 0 where
  too_short short_length length_mismatch trailing_bytes invalid_attribute : Failure

-- `stuck` is a loop that runs out of fuel.
pub data Parsed (A : Type 0) : Type 0 where
  ok : A → Parsed A
  failed : Failure → Parsed A
  stuck : Parsed A

abbrev pub cons : Attribute → Parsed (List Attribute) → Parsed (List Attribute)
cons a (ok l) = ok (a ∷ l)
cons a (failed e) = failed e
cons a stuck = stuck

-- The loop of `Parse` over the attributes.
unfoldable pub parse_attributes : ℕ → List ℕ → Parsed (List Attribute)
parse_attributes n [] = ok []
parse_attributes zero (x ∷ l) = stuck
parse_attributes (suc n) (x ∷ []) = failed trailing_bytes
parse_attributes (suc n) (x ∷ len ∷ l) =
    let rest = parse_attributes n (drop (len - 2) l) in
    if ltb len 2 || ltb (suc (suc (length l))) len
    then failed invalid_attribute
    else cons (record { code = x; value = take (len - 2) l }) rest

abbrev with_attributes : Packet → Parsed (List Attribute) → Parsed Packet
with_attributes p (ok l) = ok (record p { attributes = l })
with_attributes p (failed e) = failed e
with_attributes p stuck = stuck

abbrev parse_header : List ℕ → List ℕ → Parsed Packet
parse_header secret (code ∷ id ∷ hi ∷ lo ∷ l) =
    let len = hi * 256 + lo in
    let attr_data = take (len - 20) (drop 16 l) in
    if ltb len 20
    then failed short_length
    else if ltb (length l + 4) len
    then failed length_mismatch
    else with_attributes
        (record {
          code = code;
          identifier = id;
          authenticator = take 16 l;
          attributes = [];
          secret = secret;
        })
        (parse_attributes (length attr_data) attr_data)
parse_header secret _ = failed too_short

unfoldable pub parse : List ℕ → List ℕ → Parsed Packet
unfolding parse_attributes
parse bytes secret = if ltb (length bytes) 20 then failed too_short else parse_header secret bytes

-- The loop of `Serialize`: a length byte wraps around.
unfoldable pub attribute_data : List Attribute → List ℕ
attribute_data [] = []
attribute_data (a ∷ l) = a.code ∷ (length a.value + 2) % 256 ∷ (a.value ++ attribute_data l)

-- Code, identifier and the length of 16 bits.
abbrev pub header : Packet → ℕ → List ℕ
header p len = p.code ∷ p.identifier ∷ (len / 256) % 256 ∷ len % 256 ∷ []

-- Access-Accept, Access-Reject and Accounting-Response.
abbrev pub is_response : ℕ → Bool
is_response code = code == 2 || code == 3 || code == 5

module _ (md5 : List ℕ → List ℕ) where
  -- The authenticator that is sent.
  unfoldable pub sent_authenticator : Packet → List ℕ
  unfolding attribute_data
  sent_authenticator p =
      let attr_data = attribute_data p.attributes in
      if is_response p.code
      then md5 (header p (20 + length attr_data) ++ p.authenticator ++ attr_data ++ p.secret)
      else p.authenticator

  unfoldable pub serialize : Packet → List ℕ
  unfolding sent_authenticator attribute_data
  serialize p =
      let attr_data = attribute_data p.attributes in
      header p (20 + length attr_data) ++ sent_authenticator p ++ attr_data

unfoldable pub get_attribute : ℕ → List Attribute → Option (List ℕ)
get_attribute code [] = none
get_attribute code (a ∷ l) =
    let rest = get_attribute code l in if a.code == code then some a.value else rest

unfoldable pub add_attribute : ℕ → List ℕ → Packet → Packet
add_attribute code value p = record p {
  attributes = p.attributes ++ record { code = code; value = value } ∷ [];
}
