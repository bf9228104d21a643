-- ===== src/Packet/Wire.antt =====
-- The bytes that the builder seals, and what the parser's header steps read from them.
use signalk_edge_link.Prelude.{
  ℕ, ◌/◌, ◌^◌, ◌%◌, ◌<◌, ◌≡◌, refl, true, Option, some, [], ◌∷◌, ◌++◌, leb, length, take, ok, ◌>>=◌,
  arith,
}
use signalk_edge_link.Bytes.{Bytes, join32-split, join16-split}
use signalk_edge_link.Crypto.{NodeCrypto, epoch_bytes}
use signalk_edge_link.Packet.{
  PacketType, data_packet, ack, nak, heartbeat, hello, metadata, meta_request, full_status_request,
  code, type_of_code, ParsedPacket, header_size, crc16, crc16-lt,
}
use signalk_edge_link.Packet.Builder.{header_start, seal}
use signalk_edge_link.Packet.Parser.{
  PacketParser, ParseOptions, HeaderFields, flags_of_byte, parse_header_fields,
  validate_header_integrity, strip_auth_tag, parse_header,
}

-- The 13 bytes that the CRC and the HMAC cover.
abbrev pub covered : PacketType → ℕ → ℕ → ℕ → Bytes
covered t fb s len =
    0x53
    ∷ 0x4b
    ∷ 3
    ∷ code t
    ∷ fb
    ∷ s / 2 ^ 24 % 256
    ∷ s / 2 ^ 16 % 256
    ∷ s / 2 ^ 8 % 256
    ∷ s % 256
    ∷ len / 2 ^ 24 % 256
    ∷ len / 2 ^ 16 % 256
    ∷ len / 2 ^ 8 % 256
    ∷ len % 256
    ∷ []

abbrev crc_bytes : ℕ → Bytes
crc_bytes crc = crc / 2 ^ 8 % 256 ∷ crc % 256 ∷ []

abbrev pub wire : PacketType → ℕ → ℕ → Bytes → Bytes
wire t fb s body =
    covered t fb s (length body) ++ crc_bytes (crc16 (covered t fb s (length body))) ++ body

pub seal_lem :
    (t : PacketType) (fb s : ℕ) (body : Bytes)
    → length body < 2 ^ 32
    → seal (header_start 3 t fb s) body ≡ ok (wire t fb s body)
seal_lem t fb s body h = ground arith

type-code : (t : PacketType) → type_of_code (code t) ≡ some t
unfolding type_of_code
type-code data_packet = refl
type-code ack = refl
type-code nak = refl
type-code heartbeat = refl
type-code hello = refl
type-code metadata = refl
type-code meta_request = refl
type-code full_status_request = refl

-- The fields that the parser reads.
abbrev pub fields : PacketType → ℕ → ℕ → ℕ → HeaderFields
fields t fb s len = record {
  version = 3;
  type = t;
  flags = flags_of_byte fb;
  sequence = s;
  payload_length = len;
}

module _ (t : PacketType) (fb s : ℕ) (body : Bytes) (l : s < 2 ^ 32)
    (h : length body < 2 ^ 32) where
  fields-wire : parse_header_fields (wire t fb s body) ≡ ok (fields t fb s (length body))
  unfolding parse_header_fields
  fields-wire = rw (type-code t, join32-split s l, join32-split (length body) h)

  integrity-wire : validate_header_integrity (wire t fb s body) (length body) ≡ ok tt
  unfolding validate_header_integrity
  integrity-wire =
      let c = crc16 (covered t fb s (length body)) in
      rw (join16-split c (crc16-lt (covered t fb s (length body)))) (ground arith)

  abbrev parsed_as : Bytes → ParsedPacket
  parsed_as payload = record {
    version = 3;
    type = t;
    flags = flags_of_byte fb;
    sequence = s;
    payload_length = length body;
    payload = payload;
  }

  -- A sealed packet passes all header tests; what is left is its tag.
  pub parse-wire :
      (node : NodeCrypto) (p : PacketParser) (options : ParseOptions)
      → parse_header node p (wire t fb s body) options ≡ (
          strip_auth_tag node p options (wire t fb s body) (fields t fb s (length body))
          >>= λ payload. ok (parsed_as payload))
  unfolding parse_header
  parse-wire node p options =
      let room : leb header_size (length (wire t fb s body)) ≡ true = ground arith in
      rw (room, fields-wire, integrity-wire)

-- The tag that a sender with the normalised key `k` computes.
abbrev pub tag_of : NodeCrypto → Bytes → Bytes → Bytes → Option ℕ → Bytes
tag_of node k header payload epoch =
    take 16 (node.hmac_sha256 k (header ++ payload ++ epoch_bytes epoch))
