-- ===== src/Packet.antt =====
-- src/codec/packet/constants.ts: the wire constants, the packet types, the flags and the header CRC.
-- The builder and the parser are child modules.
pub mod Builder
pub mod Parser
pub mod Wire
pub mod Tag
pub mod RoundTrip
pub mod Authentic
pub mod Control
pub mod Numbering
pub mod Header
mod Tests
use signalk_edge_link.Prelude.{
  ℕ, zero, suc, ◌≡◌, refl, ◌+◌, ◌*◌, ◌/◌, ◌%◌, ◌^◌, ◌<◌, bit_xor, bit_and, Bool, true, false, not,
  Option, none, some, List, [], ◌∷◌, ltb, ◌==◌, if◌then◌else◌, Result, ok, err, ◌>>=◌, arith,
}
use signalk_edge_link.Bytes.{Bytes}
use signalk_edge_link.Crypto.{CryptoError}

pub data PacketType : Type 0 where
  data_packet ack nak heartbeat hello metadata meta_request full_status_request : PacketType

abbrev pub code : PacketType → ℕ
code data_packet = 0x01
code ack = 0x02
code nak = 0x03
code heartbeat = 0x04
code hello = 0x05
code metadata = 0x06
code meta_request = 0x07
code full_status_request = 0x08

-- `VALID_PACKET_TYPES.has(type)`, with the type
pub type_of_code : ℕ → Option PacketType
type_of_code c =
    if c == 1
    then some data_packet
    else if c == 2
    then some ack
    else if c == 3
    then some nak
    else if c == 4
    then some heartbeat
    else if c == 5
    then some hello
    else if c == 6
    then some metadata
    else if c == 7
    then some meta_request
    else if c == 8
    then some full_status_request
    else none

-- `type === PacketType.DATA || type === PacketType.METADATA`
abbrev pub is_data_or_meta : PacketType → Bool
is_data_or_meta data_packet = true
is_data_or_meta metadata = true
is_data_or_meta _ = false

abbrev pub is_hello : PacketType → Bool
is_hello hello = true
is_hello _ = false

abbrev pub header_size : ℕ
header_size = 15

abbrev pub protocol_version : ℕ
protocol_version = 3

-- What the builder and the parser throw; Node's own RangeError is `out_of_range`.
pub data PacketError : Type 0 where
  bad_protocol_version : PacketError
  control_key_missing data_key_missing : PacketError
  out_of_range : PacketError
  too_small bad_magic unsupported_version unknown_type crc_mismatch length_mismatch : PacketError
  control_tag_missing data_tag_missing : PacketError
  header_not_authenticated epoch_not_bound epoch_unknown : PacketError
  bad_ack bad_nak : PacketError
  crypto : CryptoError → PacketError

-- An error of crypto.ts passes through.
abbrev pub lift {ℓ} : {A : Type ℓ} → Result CryptoError A → Result PacketError A
lift (ok a) = ok a
lift (err e) = err (crypto e)

-- `undefined` and `null` give the default.
pub normalize_protocol_version : Option ℕ → Result PacketError ℕ
normalize_protocol_version none = ok protocol_version
normalize_protocol_version (some version) =
    if version == 3 then ok version else err bad_protocol_version

-- The caller's options of a packet.
pub record PacketFlags : Type 0 where
  pub compressed : Bool
  pub encrypted : Bool
  pub messagepack : Bool
  pub path_dictionary : Bool

-- `ParsedPacket["flags"]`
pub record ParsedFlags : Type 0 where
  pub compressed : Bool
  pub encrypted : Bool
  pub messagepack : Bool
  pub path_dictionary : Bool
  pub authenticated_header : Bool
  pub epoch_bound_auth : Bool

pub record ParsedPacket : Type 0 where
  pub version : ℕ
  pub type : PacketType
  pub flags : ParsedFlags
  pub sequence : ℕ
  pub payload_length : ℕ
  pub payload : Bytes

-- An entry of `CRC16_TABLE`: `rounds` rounds of the shift register.
table_round : ℕ → ℕ → ℕ
table_round zero crc = crc % 2 ^ 16
table_round (suc rounds) crc =
    table_round rounds (if bit_and crc 0x8000 == 0 then crc * 2 else bit_xor (crc * 2) 0x1021)

pub table_entry : ℕ → ℕ
unfolding table_round
table_entry i = table_round 8 (i * 2 ^ 8)

pub crc16_from : ℕ → Bytes → ℕ
crc16_from crc [] = crc
crc16_from crc (b ∷ bs) =
    crc16_from (bit_xor (crc * 2 ^ 8) (table_entry (bit_xor (crc / 2 ^ 8) b % 256)) % 2 ^ 16) bs

pub crc16 : Bytes → ℕ
crc16 bytes = crc16_from 0xffff bytes

crc16_from-lt : (b : Bytes) (crc : ℕ) → crc < 2 ^ 16 → crc16_from crc b < 2 ^ 16
unfolding crc16_from
crc16_from-lt [] crc h = h
crc16_from-lt (b ∷ bs) crc h =
    crc16_from-lt bs (bit_xor (crc * 2 ^ 8) (table_entry (bit_xor (crc / 2 ^ 8) b % 256)) % 2 ^ 16)
      (omega arith)

pub crc16-lt : (b : Bytes) → crc16 b < 2 ^ 16
unfolding crc16
crc16-lt b = crc16_from-lt b 0xffff (omega arith)

-- The check value of CRC-16/CCITT-FALSE, of the bytes "123456789".
crc16_check : crc16 (0x31 ∷ 0x32 ∷ 0x33 ∷ 0x34 ∷ 0x35 ∷ 0x36 ∷ 0x37 ∷ 0x38 ∷ 0x39 ∷ []) ≡ 0x29b1
unfolding crc16 crc16_from table_entry table_round
crc16_check = refl
