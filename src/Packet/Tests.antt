-- ===== src/Packet/Tests.antt =====
-- Packets between two peers with a toy HMAC, which pads or cuts its input to 32 bytes.
use signalk_edge_link.Packet.Builder.{
  create, BuilderConfig, set_connection_epoch, set_sequence, build_meta_request_packet,
  build_full_status_request_packet, build_heartbeat_packet, build_hello_packet,
}
use signalk_edge_link.Packet.{meta_request, full_status_request, heartbeat, hello}
use signalk_edge_link.Prelude.{
  ◌≡◌, refl, true, false, none, some, List, [], ◌∷◌, ◌++◌, map, length, length-take, length-append,
  take, drop, replicate, ok, arith,
}
use signalk_edge_link.Bytes.{Bytes, read_u32_be}
use signalk_edge_link.Crypto.{NodeCrypto, normalize_key}
use signalk_edge_link.Crypto.Keys.{Normalized, normalize_key-ascii, normalize_key_lem}
use signalk_edge_link.Packet.{
  data_packet, ack, nak, PacketFlags, ParsedPacket, crc16, crc16_from, table_entry, table_round,
  normalize_protocol_version,
}
use signalk_edge_link.Packet.Builder.{
  PacketBuilder, no_options, no_flags, build_packet, build_nak_packet, build_ack_packet,
  bindable_epoch, build_flag_byte, build_data_packet, build_metadata_packet, advance_sequence,
}
use signalk_edge_link.Packet.Parser.{
  PacketParser, ParseOptions, parse_header, parse_nak_payload, parse_ack_payload_full, is_v2_packet,
}
use signalk_edge_link.Packet.Tag.{Agree, expected_flags}
use signalk_edge_link.Packet.RoundTrip.{parse_header-build_packet}
use signalk_edge_link.Packet.Authentic.{IsAuthentic, parse_header-IsAuthentic}
use signalk_edge_link.Packet.Header.{HasHeader, parse_header-HasHeader}
use signalk_edge_link.Packet.Control.{parse-build_nak_packet, parse-build_ack_packet}
use signalk_edge_link.Packet.Numbering.{
  Send, data_of, metadata_of, send, send_all, expected_numbers, send_all-numbers,
}

abbrev padded : Bytes → Bytes
padded input = take 32 (input ++ replicate 32 0)

length-padded : (input : Bytes) → length (padded input) ≡ 32
length-padded input =
    omega (arith, length-take 32 (input ++ replicate 32 0), length-append input (replicate 32 0))

abbrev toy : NodeCrypto
toy = record {
  hmac_sha256 = λ key input. padded (drop 13 input);
  pbkdf2_sha256 = λ passphrase. padded passphrase;
  length-hmac_sha256 = λ key input. length-padded (drop 13 input);
  length-pbkdf2_sha256 = λ passphrase. length-padded passphrase;
}

abbrev shared_key : Bytes
shared_key = replicate 32 0x61

abbrev builder : PacketBuilder
builder = record {
  sequence = 0xffffffff;
  meta_sequence = 7;
  protocol_version = 3;
  secret_key = some shared_key;
  stretch_ascii_key = false;
  authenticated_headers = true;
  epoch_bound_auth = true;
  connection_epoch = 1700000000000;
}

abbrev parser : PacketParser
parser = record {
  secret_key = some shared_key;
  stretch_ascii_key = false;
  authenticated_headers = false;
  epoch_bound_auth = false;
}

abbrev options : ParseOptions
options = record {
  secret_key = none;
  stretch_ascii_key = none;
  authenticated_headers = some true;
  epoch_bound_auth = some true;
  epoch = some 1700000000000;
}

agree : Agree builder no_options parser options
agree = record {
  key = refl;
  stretch = refl;
  headers = refl;
  binding = refl;
  epoch = λ b. (omega arith, refl);
}

abbrev encrypted : PacketFlags
encrypted = record no_flags { compressed = true; encrypted = true }

normal : normalize_key toy shared_key false ≡ ok shared_key
normal = normalize_key-ascii toy shared_key refl

abbrev data_parsed : ParsedPacket
data_parsed = record {
  version = 3;
  type = data_packet;
  flags = expected_flags encrypted true true;
  sequence = 0xffffffff;
  payload_length = 19;
  payload = 1 ∷ 2 ∷ 3 ∷ [];
}

parse_header-build_packet_example :
    (packet : Bytes) × (build_packet toy builder data_packet (1 ∷ 2 ∷ 3 ∷ []) encrypted no_options
      ≡ ok packet)
    × (parse_header toy parser packet options ≡ ok data_parsed)
unfolding bindable_epoch
parse_header-build_packet_example =
    parse_header-build_packet toy builder data_packet (1 ∷ 2 ∷ 3 ∷ []) encrypted no_options parser
      options shared_key shared_key agree refl normal refl (omega arith)

built :
    (packet : Bytes) × (build_packet toy builder data_packet (1 ∷ 2 ∷ 3 ∷ []) encrypted no_options
      ≡ ok packet)
    × (parse_header toy parser packet options ≡ ok data_parsed)
unfolding bindable_epoch
built =
    parse_header-build_packet toy builder data_packet (1 ∷ 2 ∷ 3 ∷ []) encrypted no_options parser
      options shared_key shared_key agree refl normal refl (omega arith)

parse_header-IsAuthentic_example : IsAuthentic toy parser options built.0 data_parsed
parse_header-IsAuthentic_example =
    parse_header-IsAuthentic toy parser options built.0 data_parsed built.2 refl

parse_header-HasHeader_example : HasHeader built.0 data_parsed × (is_v2_packet built.0 ≡ true)
parse_header-HasHeader_example =
    parse_header-HasHeader toy parser options built.0 data_parsed built.2

parse-build_nak_packet_example :
    (packet : Bytes) × (r : ParsedPacket) × (build_nak_packet toy builder
        (0xffffffff ∷ 0x100000000 ∷ [])
        no_options
      ≡ ok packet)
    × (parse_header toy parser packet options ≡ ok r)
    × (r.type ≡ nak)
    × (parse_nak_payload r.payload ≡ ok (0xffffffff ∷ 0 ∷ []))
parse-build_nak_packet_example =
    parse-build_nak_packet toy builder no_options parser options shared_key shared_key agree refl
      normal refl (0xffffffff ∷ 0x100000000 ∷ []) (omega arith)

parse-build_ack_packet_example :
    (packet : Bytes) × (r : ParsedPacket) × (build_ack_packet toy builder 5 (some 64) no_options
      ≡ ok packet)
    × (parse_header toy parser packet options ≡ ok r)
    × (r.type ≡ ack)
    × (parse_ack_payload_full r.payload ≡ ok (record { sequence = 5; receive_window = some 64 }))
parse-build_ack_packet_example =
    parse-build_ack_packet toy builder no_options parser options shared_key shared_key agree refl
      normal refl 5 (some 64)

normalize_key_lem_example : Normalized toy shared_key true (normalize_key toy shared_key true)
normalize_key_lem_example = normalize_key_lem toy shared_key true

-- A builder without header authentication, around the wrap of the number space.
abbrev plain : PacketBuilder
plain = record builder { authenticated_headers = false; epoch_bound_auth = false }

abbrev sends : List Send
sends = data_of (1 ∷ []) no_flags ∷ metadata_of (2 ∷ []) no_flags ∷ data_of [] no_flags ∷ []

sent : (packets : List Bytes) × (b : PacketBuilder) × (send_all toy plain sends ≡ ok (packets, b))
unfolding send_all send build_data_packet build_metadata_packet build_packet
    normalize_protocol_version bindable_epoch build_flag_byte advance_sequence crc16 crc16_from
    table_entry table_round
sent = (_, _, refl)

send_all-numbers_example : map (λ p. read_u32_be p 5) sent.0 ≡ expected_numbers 0xffffffff 7 sends
send_all-numbers_example =
    send_all-numbers toy plain sends sent.0 sent.1 (omega arith) (omega arith) sent.2

-- The control packets without a list.
request-heartbeat-hello :
    (build_meta_request_packet toy builder no_options
      ≡ build_packet toy builder meta_request [] no_flags no_options)
    × (build_full_status_request_packet toy builder no_options
        ≡ build_packet toy builder full_status_request [] no_flags no_options)
    × (build_heartbeat_packet toy builder no_options
        ≡ build_packet toy builder heartbeat [] no_flags no_options)
    × (build_hello_packet toy builder (123 ∷ 125 ∷ []) no_options
        ≡ build_packet toy builder hello (123 ∷ 125 ∷ []) no_flags no_options)
unfolding build_meta_request_packet build_full_status_request_packet build_heartbeat_packet
    build_hello_packet
request-heartbeat-hello = (refl, refl, refl, refl)

abbrev defaults : BuilderConfig
defaults = record {
  protocol_version = none;
  initial_sequence = some 4;
  secret_key = none;
  stretch_ascii_key = false;
  authenticated_headers = false;
  epoch_bound_auth = true;
  connection_epoch = none;
}

-- A new builder, whose epoch and number are set before it sends.
created :
    (b : PacketBuilder) × (create defaults ≡ ok b)
    × (bindable_epoch (set_connection_epoch b 12) ≡ 12)
    × ((set_sequence b 0x100000003).sequence ≡ 3)
unfolding create set_connection_epoch set_sequence bindable_epoch normalize_protocol_version
created = (_, refl, refl, refl)
