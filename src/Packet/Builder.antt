-- ===== src/Packet/Builder.antt =====
-- src/codec/packet/builder.ts, class PacketBuilder. A method that changes the builder returns the new
-- one beside the packet; a throw leaves it as it was. The JSON text of a HELLO is its caller's.
use signalk_edge_link.Prelude.{
  ℕ, ◌+◌, ◌^◌, bit_or, Bool, false, not, ◌&&◌, ◌||◌, Option, none, some, List, [], ◌∷◌, ◌++◌, ltb,
  if◌then◌else◌, length, take, set, replicate, Result, ok, ◌>>=◌, ◌>>◌, require, present, otherwise,
}
use signalk_edge_link.Serial.{u32, next32}
use signalk_edge_link.Bytes.{Bytes, write_u32_be, write_u16_be}
use signalk_edge_link.Crypto.{NodeCrypto, create_control_packet_auth_tag, tag_length}
use signalk_edge_link.Packet.{
  PacketType, data_packet, ack, nak, heartbeat, hello, metadata, meta_request, full_status_request,
  code, is_data_or_meta, is_hello, PacketError, control_key_missing, data_key_missing, out_of_range,
  lift, PacketFlags, normalize_protocol_version, crc16,
}

unfoldable pub build_flag_byte : PacketFlags → Bool → Bool → ℕ
build_flag_byte flags authenticate_header epoch_bound_auth =
    let b0 = if flags.compressed then bit_or 0 0x01 else 0 in
    let b1 = if flags.encrypted then bit_or b0 0x02 else b0 in
    let b2 = if flags.messagepack then bit_or b1 0x04 else b1 in
    let b3 = if flags.path_dictionary then bit_or b2 0x08 else b2 in
    let b4 = if authenticate_header then bit_or b3 0x10 else b3 in
    if epoch_bound_auth then bit_or b4 0x20 else b4

pub record PacketBuilder : Type 0 where
  pub sequence : ℕ
  pub meta_sequence : ℕ
  pub protocol_version : ℕ
  pub secret_key : Option Bytes
  pub stretch_ascii_key : Bool
  pub authenticated_headers : Bool
  pub epoch_bound_auth : Bool
  pub connection_epoch : ℕ

pub record BuilderConfig : Type 0 where
  pub initial_sequence : Option ℕ
  pub protocol_version : Option ℕ
  pub secret_key : Option Bytes
  pub stretch_ascii_key : Bool
  pub authenticated_headers : Bool
  pub epoch_bound_auth : Bool
  pub connection_epoch : Option ℕ

pub record BuildOptions : Type 0 where
  pub secret_key : Option Bytes
  pub protocol_version : Option ℕ
  pub sequence : Option ℕ

abbrev pub no_options : BuildOptions
no_options = record { secret_key = none; protocol_version = none; sequence = none }

abbrev pub no_flags : PacketFlags
no_flags = record {
  compressed = false;
  encrypted = false;
  messagepack = false;
  path_dictionary = false;
}

-- `a || b` on optional keys: an empty one counts as none.
abbrev pub first_key : Option Bytes → Option Bytes → Option Bytes
first_key none b = b
first_key (some []) b = b
first_key (some (c ∷ cs)) b = some (c ∷ cs)

unfoldable pub create : BuilderConfig → Result PacketError PacketBuilder
create config = do
  version ← normalize_protocol_version config.protocol_version
  ok (record {
    sequence = otherwise config.initial_sequence 0;
    meta_sequence = 0;
    protocol_version = version;
    secret_key = first_key config.secret_key none;
    stretch_ascii_key = config.stretch_ascii_key;
    authenticated_headers = config.authenticated_headers;
    epoch_bound_auth = config.epoch_bound_auth;
    connection_epoch = otherwise config.connection_epoch 0;
  })

unfoldable pub bindable_epoch : PacketBuilder → ℕ
bindable_epoch b = if b.epoch_bound_auth then b.connection_epoch else 0

unfoldable pub set_connection_epoch : PacketBuilder → ℕ → PacketBuilder
set_connection_epoch b epoch = record b { connection_epoch = epoch }

unfoldable pub set_sequence : PacketBuilder → ℕ → PacketBuilder
set_sequence b seq = record b { sequence = u32 seq }

unfoldable pub advance_sequence : PacketBuilder → PacketBuilder
advance_sequence b = record b { sequence = next32 b.sequence }

-- The header as it is before the length and the CRC are written.
abbrev pub header_start : ℕ → PacketType → ℕ → ℕ → Bytes
header_start version type flag_byte sequence =
    write_u32_be
      (set (set (set (set (set (replicate 15 0) 0 0x53) 1 0x4b) 2 version) 3 (code type)) 4
        flag_byte)
      sequence 5

-- `undefined` for an epoch that is not positive
abbrev pub bound_or_undefined : ℕ → Option ℕ
bound_or_undefined epoch = if ltb 0 epoch then some epoch else none

-- The end of `_buildPacket`: the length and the CRC, and the payload after the header.
abbrev pub seal : Bytes → Bytes → Result PacketError Bytes
seal header payload = do
  require (ltb (length payload) (2 ^ 32)) out_of_range
  let sized = write_u32_be header (length payload) 9
  ok (write_u16_be sized (crc16 (take 13 sized)) 13 ++ payload)

unfoldable pub ack_payload : ℕ → Option ℕ → Bytes
ack_payload acked none = write_u32_be (replicate 4 0) (u32 acked) 0
ack_payload acked (some window) =
    write_u32_be (write_u32_be (replicate 8 0) (u32 acked) 0) (u32 window) 4

-- The sequences in turn, each as four bytes.
unfoldable pub nak_payload : List ℕ → Bytes
nak_payload [] = []
nak_payload (s ∷ ss) = write_u32_be (replicate 4 0) (u32 s) 0 ++ nak_payload ss

module _ (node : NodeCrypto) where
  unfoldable pub append_auth_tag :
      PacketBuilder → Bytes → Bytes → Bool → BuildOptions → ℕ → Result PacketError Bytes
  append_auth_tag b header payload is_control options bound_epoch = do
    secret_key ←
        present (first_key options.secret_key b.secret_key)
          (if is_control then control_key_missing else data_key_missing)
    require (ltb (length payload + tag_length) (2 ^ 32)) out_of_range
    tag ← lift (
        create_control_packet_auth_tag node
          (take 13 (write_u32_be header (length payload + tag_length) 9)) payload secret_key
          b.stretch_ascii_key (bound_or_undefined bound_epoch))
    ok (payload ++ tag)

  unfoldable pub build_packet :
      PacketBuilder → PacketType → Bytes → PacketFlags → BuildOptions → Result PacketError Bytes
  build_packet b type payload flags options = do
    version ←
        normalize_protocol_version (some (otherwise options.protocol_version b.protocol_version))
    let sequence = u32 (otherwise options.sequence b.sequence)
    let authenticate_header = b.authenticated_headers && is_data_or_meta type
    let bound_epoch = if is_hello type then 0 else bindable_epoch b
    let header =
        header_start version type (build_flag_byte flags authenticate_header (ltb 0 bound_epoch))
          sequence
    let is_control = not (is_data_or_meta type)
    final ←
        (if is_control || authenticate_header
          then append_auth_tag b header payload is_control options bound_epoch
          else ok payload)
    seal header final

  unfoldable pub build_data_packet :
      PacketBuilder → Bytes → PacketFlags → Result PacketError (Bytes × PacketBuilder)
  build_data_packet b payload flags = do
    packet ← build_packet b data_packet payload flags no_options
    ok (packet, advance_sequence b)

  unfoldable pub build_metadata_packet :
      PacketBuilder → Bytes → PacketFlags → Result PacketError (Bytes × PacketBuilder)
  build_metadata_packet b payload flags = do
    packet ←
        build_packet b metadata payload flags
          (record no_options { sequence = some b.meta_sequence })
    ok (packet, record b { meta_sequence = next32 b.meta_sequence })

  unfoldable pub build_meta_request_packet : PacketBuilder → BuildOptions → Result PacketError Bytes
  build_meta_request_packet b options = build_packet b meta_request [] no_flags options

  unfoldable pub build_full_status_request_packet :
      PacketBuilder → BuildOptions → Result PacketError Bytes
  build_full_status_request_packet b options =
      build_packet b full_status_request [] no_flags options

  unfoldable pub build_ack_packet :
      PacketBuilder → ℕ → Option ℕ → BuildOptions → Result PacketError Bytes
  build_ack_packet b acked window options =
      build_packet b ack (ack_payload acked window) no_flags options

  unfoldable pub build_nak_packet : PacketBuilder → List ℕ → BuildOptions → Result PacketError Bytes
  build_nak_packet b missing options = build_packet b nak (nak_payload missing) no_flags options

  unfoldable pub build_heartbeat_packet : PacketBuilder → BuildOptions → Result PacketError Bytes
  build_heartbeat_packet b options = build_packet b heartbeat [] no_flags options

  -- `json` is the text of the HELLO's information.
  unfoldable pub build_hello_packet :
      PacketBuilder → Bytes → BuildOptions → Result PacketError Bytes
  build_hello_packet b json options = build_packet b hello json no_flags options
