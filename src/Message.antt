-- ===== src/Message.antt =====
-- pkg/proto/message/message.go: AVPs and messages. A byte slice and a Go string are lists of
-- bytes; an AVP is a value, so two messages never share one.
pub mod Fields
pub mod Encode
pub mod Decode
pub mod Wire
pub mod EncodeWire
pub mod EncodeMessage
pub mod DecodeWire
pub mod RoundTrip
pub mod Canonical
pub mod AvpLoop
pub mod CanonicalMessage
pub mod Answers
mod Examples
use godiam.Prelude.{
  ℕ, suc, ◌-◌, ◌/◌, ◌%◌, ◌^◌, ◌+◌, ◌*◌, ◌≤◌, ◌<◌, Bool, true, false, not, ◌&&◌, ◌||◌, Option, none,
  some, List, [], ◌∷◌, ◌++◌, ◌==◌, ltb, leb, bit_and, bit_or, if◌then◌else◌, length, keep,
}

pub data Error : Type 0 where
  message_too_short unsupported_version length_below_header length_exceeds_data : Error
  avp_too_short vendor_avp_too_short invalid_avp_length avp_exceeds_buffer : Error
  padding_exceeds_buffer nonzero_padding message_too_large buffer_too_small : Error
  reading_header reading_body data_too_short : Error

-- A value and an error. `stuck` is no Go value: a loop of the model ran out of fuel.
pub data Result {κ} (V : Type κ) : Type κ where
  stuck : Result V
  err : Error → Result V
  ok : V → Result V

infixl 5 ◌>>=◌
-- `if err != nil { return err }`
abbrev pub ◌>>=◌ {κ ℓ} : {V : Type κ} {W : Type ℓ} → Result V → (V → Result W) → Result W
stuck >>= next = stuck
err reason >>= next = err reason
ok value >>= next = next value

-- `children` is a list of AVPs, in a block with its elements.
mutual
  pub data Avp : Type 0 where
    avp : (code flags vendor_id : ℕ) (payload : List ℕ) (children : Avps) → Avp

  pub data Avps : Type 0 where
    nil : Avps
    cons : Avp → Avps → Avps

abbrev pub code_of : Avp → ℕ
code_of (avp code flags vendor payload children) = code

abbrev pub flags_of : Avp → ℕ
flags_of (avp code flags vendor payload children) = flags

abbrev pub vendor_of : Avp → ℕ
vendor_of (avp code flags vendor payload children) = vendor

abbrev pub payload_of : Avp → List ℕ
payload_of (avp code flags vendor payload children) = payload

abbrev pub children_of : Avp → Avps
children_of (avp code flags vendor payload children) = children

abbrev pub of_list : List Avp → Avps
of_list [] = nil
of_list (a ∷ l) = cons a (of_list l)

pub record Message : Type 0 where
  pub version : ℕ
  pub flags : ℕ
  pub command_code : ℕ
  pub application_id : ℕ
  pub hop_by_hop_id : ℕ
  pub end_to_end_id : ℕ
  pub avps : List Avp

abbrev pub diameter_version : ℕ
diameter_version = 1

abbrev pub diameter_header_size : ℕ
diameter_header_size = 20

abbrev pub avp_header_size : ℕ
avp_header_size = 8

abbrev pub avp_header_size_vendor : ℕ
avp_header_size_vendor = 12

abbrev pub flag_vendor : ℕ
flag_vendor = 0x80

abbrev pub flag_mandatory : ℕ
flag_mandatory = 0x40

abbrev pub cmd_request : ℕ
cmd_request = 0x80

abbrev pub cmd_proxiable : ℕ
cmd_proxiable = 0x40

abbrev pub cmd_error : ℕ
cmd_error = 0x20

abbrev pub cmd_retransmit : ℕ
cmd_retransmit = 0x10

-- `flags&mask != 0`
unfoldable pub has_flag : ℕ → ℕ → Bool
has_flag flags mask = not (bit_and flags mask == 0)

unfoldable pub is_vendor : Avp → Bool
unfolding has_flag
is_vendor a = has_flag (flags_of a) flag_vendor

-- `len(a.children) > 0`
abbrev pub has_children : Avps → Bool
has_children nil = false
has_children (cons a l) = true

unfoldable pub is_grouped : Avp → Bool
is_grouped a = has_children (children_of a)

-- Big-endian fields. `byte(x >> 8)` is `x / 2 ^ 8 % 256`, and an OR of shifted bytes is a sum.
abbrev pub be16 : ℕ → List ℕ
be16 x = (x / 2 ^ 8 % 256) ∷ (x % 256) ∷ []

abbrev pub be24 : ℕ → List ℕ
be24 x = (x / 2 ^ 16 % 256) ∷ (x / 2 ^ 8 % 256) ∷ (x % 256) ∷ []

abbrev pub be32 : ℕ → List ℕ
be32 x = (x / 2 ^ 24 % 256) ∷ (x / 2 ^ 16 % 256) ∷ (x / 2 ^ 8 % 256) ∷ (x % 256) ∷ []

abbrev pub read24 : ℕ → ℕ → ℕ → ℕ
read24 a b c = a * 2 ^ 16 + b * 2 ^ 8 + c

abbrev pub read32 : ℕ → ℕ → ℕ → ℕ → ℕ
read32 a b c d = a * 2 ^ 24 + b * 2 ^ 16 + c * 2 ^ 8 + d

-- `NewAVP`, `NewGroupedAVP`
unfoldable pub new_avp : ℕ → ℕ → ℕ → List ℕ → Avp
new_avp code flags vendor payload = avp code flags vendor payload nil

unfoldable pub new_grouped_avp : ℕ → ℕ → ℕ → List Avp → Avp
new_grouped_avp code flags vendor children = avp code flags vendor [] (of_list children)

unfoldable pub new_octet_string_avp : ℕ → ℕ → List ℕ → Avp
unfolding new_avp
new_octet_string_avp code flags payload = new_avp code flags 0 payload

unfoldable pub new_unsigned32_avp : ℕ → ℕ → ℕ → Avp
unfolding new_avp
new_unsigned32_avp code flags value = new_avp code flags 0 (be32 value)

unfoldable pub new_diameter_identity_avp : ℕ → ℕ → List ℕ → Avp
unfolding new_avp
new_diameter_identity_avp code flags identity = new_avp code flags 0 identity

-- `NewVendorAVP`
unfoldable pub new_vendor_avp : ℕ → ℕ → ℕ → List ℕ → Avp
unfolding new_avp
new_vendor_avp code flags vendor payload = new_avp code (bit_or flags flag_vendor) vendor payload
