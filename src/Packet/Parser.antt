-- ===== src/Packet/Parser.antt =====
-- src/codec/packet/parser.ts, class PacketParser, and the decoders of control payloads. What is thrown
-- is an error value; `typeName` is determined by the type and left out.
use signalk_edge_link.Prelude.{
  ℕ, ◌-◌, ◌%◌, bit_and, Bool, not, ◌&&◌, Option, none, some, List, [], ◌∷◌, ltb, leb, ◌==◌,
  if◌then◌else◌, length, take, drop, get_or, Result, ok, err, ◌>>=◌, ◌>>◌, require, present,
  otherwise,
}
use signalk_edge_link.Bytes.{Bytes, read_u32_be, read_u16_be, join32}
use signalk_edge_link.Crypto.{NodeCrypto, verify_control_packet_auth_tag, tag_length}
use signalk_edge_link.Packet.{
  PacketType, type_of_code, is_data_or_meta, is_hello, PacketError, too_small, bad_magic,
  unsupported_version, unknown_type, crc_mismatch, length_mismatch, control_tag_missing,
  data_tag_missing, control_key_missing, data_key_missing, header_not_authenticated,
  epoch_not_bound, epoch_unknown, bad_ack, bad_nak, lift, ParsedFlags, ParsedPacket, header_size,
  crc16,
}
use signalk_edge_link.Packet.Builder.{first_key}

pub record PacketParser : Type 0 where
  pub secret_key : Option Bytes
  pub stretch_ascii_key : Bool
  pub authenticated_headers : Bool
  pub epoch_bound_auth : Bool

pub record ParseOptions : Type 0 where
  pub secret_key : Option Bytes
  pub stretch_ascii_key : Option Bool
  pub authenticated_headers : Option Bool
  pub epoch_bound_auth : Option Bool
  pub epoch : Option ℕ

pub record HeaderFields : Type 0 where
  pub version : ℕ
  pub type : PacketType
  pub flags : ParsedFlags
  pub sequence : ℕ
  pub payload_length : ℕ

abbrev pub byte_of : Bytes → ℕ → ℕ
byte_of packet i = get_or packet i 0

-- `!!(flagByte & bit)`
abbrev flag_set : ℕ → ℕ → Bool
flag_set flag_byte bit = not (bit_and flag_byte bit == 0)

unfoldable pub flags_of_byte : ℕ → ParsedFlags
flags_of_byte flag_byte = record {
  compressed = flag_set flag_byte 0x01;
  encrypted = flag_set flag_byte 0x02;
  messagepack = flag_set flag_byte 0x04;
  path_dictionary = flag_set flag_byte 0x08;
  authenticated_header = flag_set flag_byte 0x10;
  epoch_bound_auth = flag_set flag_byte 0x20;
}

-- `MAGIC` and `SUPPORTED_PROTOCOL_VERSIONS.has(data[2])`, which `parseHeader` also tests
abbrev pub has_magic : Bytes → Bool
has_magic packet = byte_of packet 0 == 0x53 && byte_of packet 1 == 0x4b

unfoldable pub parse_header_fields : Bytes → Result PacketError HeaderFields
parse_header_fields packet = do
  require (has_magic packet) bad_magic
  require (byte_of packet 2 == 3) unsupported_version
  type ← present (type_of_code (byte_of packet 3)) unknown_type
  ok (record {
    version = byte_of packet 2;
    type = type;
    flags = flags_of_byte (byte_of packet 4);
    sequence = read_u32_be packet 5;
    payload_length = read_u32_be packet 9;
  })

unfoldable pub validate_header_integrity : Bytes → ℕ → Result PacketError (Unit {0})
validate_header_integrity packet payload_length = do
  require (crc16 (take 13 packet) == read_u16_be packet 13) crc_mismatch
  require (payload_length == length packet - header_size) length_mismatch

-- `typeof epoch === "number" && epoch > 0`, or the throw.
abbrev established_epoch : Option ℕ → Result PacketError (Option ℕ)
established_epoch none = err epoch_unknown
established_epoch (some epoch) = if ltb 0 epoch then ok (some epoch) else err epoch_unknown

unfoldable pub resolve_auth_epoch : ParsedFlags → Bool → Option ℕ → Result PacketError (Option ℕ)
resolve_auth_epoch flags required epoch =
    if flags.epoch_bound_auth
    then established_epoch epoch
    else if required
    then err epoch_not_bound
    else ok none

module _ (node : NodeCrypto) where
  -- What both strips do once the epoch is known: `body` is the payload without its last 16 bytes.
  unfoldable pub verify_tag :
      PacketParser
      → ParseOptions
      → Bytes
      → Bytes
      → Option ℕ
      → PacketError
      → Result PacketError Bytes
  verify_tag p options packet payload epoch no_key = do
    let body = take (length payload - tag_length) payload
    let tag = drop (length payload - tag_length) payload
    secret_key ← present (first_key options.secret_key p.secret_key) no_key
    lift (
        verify_control_packet_auth_tag node (take 13 packet) body tag secret_key
          (otherwise options.stretch_ascii_key p.stretch_ascii_key) epoch)
    ok body

  -- `required` is whether epoch binding is, which it never is for a HELLO.
  unfoldable pub strip_data_meta_auth_tag :
      PacketParser → ParseOptions → Bytes → Bytes → ParsedFlags → Bool → Result PacketError Bytes
  strip_data_meta_auth_tag p options packet payload flags required = do
    require flags.authenticated_header header_not_authenticated
    epoch ← resolve_auth_epoch flags required options.epoch
    require (leb tag_length (length payload)) data_tag_missing
    verify_tag p options packet payload epoch data_key_missing

  unfoldable pub strip_control_auth_tag :
      PacketParser → ParseOptions → Bytes → Bytes → ParsedFlags → Bool → Result PacketError Bytes
  strip_control_auth_tag p options packet payload flags required = do
    require (leb tag_length (length payload)) control_tag_missing
    epoch ← resolve_auth_epoch flags required options.epoch
    verify_tag p options packet payload epoch control_key_missing

  -- The payload without its tag, where the packet must carry one.
  unfoldable pub strip_auth_tag :
      PacketParser → ParseOptions → Bytes → HeaderFields → Result PacketError Bytes
  strip_auth_tag p options packet f =
      let payload = drop header_size packet in
      let required =
        not (is_hello f.type) && otherwise options.epoch_bound_auth p.epoch_bound_auth in
      if is_data_or_meta f.type
      then (if otherwise options.authenticated_headers p.authenticated_headers
          then strip_data_meta_auth_tag p options packet payload f.flags required
          else ok payload)
      else strip_control_auth_tag p options packet payload f.flags required

  unfoldable pub parse_header :
      PacketParser → Bytes → ParseOptions → Result PacketError ParsedPacket
  parse_header p packet options = do
    require (leb header_size (length packet)) too_small
    f ← parse_header_fields packet
    validate_header_integrity packet f.payload_length
    payload ← strip_auth_tag p options packet f
    ok (record {
      version = f.version;
      type = f.type;
      flags = f.flags;
      sequence = f.sequence;
      payload_length = f.payload_length;
      payload = payload;
    })

unfoldable pub is_v2_packet : Bytes → Bool
is_v2_packet packet = leb header_size (length packet) && has_magic packet && (byte_of packet 2 == 3)

unfoldable pub parse_ack_payload : Bytes → Result PacketError ℕ
parse_ack_payload payload =
    if ltb (length payload) 4 then err bad_ack else ok (read_u32_be payload 0)

pub record AckPayload : Type 0 where
  pub sequence : ℕ
  pub receive_window : Option ℕ

unfoldable pub parse_ack_payload_full : Bytes → Result PacketError AckPayload
parse_ack_payload_full payload =
    if ltb (length payload) 4
    then err bad_ack
    else ok (record {
      sequence = read_u32_be payload 0;
      receive_window = if leb 8 (length payload) then some (read_u32_be payload 4) else none;
    })

-- The loop in steps of four bytes.
unfoldable pub words32 : Bytes → List ℕ
words32 (a ∷ b ∷ c ∷ d ∷ bs) = join32 a b c d ∷ words32 bs
words32 _ = []

unfoldable pub parse_nak_payload : Bytes → Result PacketError (List ℕ)
parse_nak_payload payload = if length payload % 4 == 0 then ok (words32 payload) else err bad_nak
