-- ===== src/Packet/Header.antt =====
-- What the header of an accepted packet looks like.
use signalk_edge_link.Prelude.{
  ℕ, ◌+◌, ◌-◌, ◌≡◌, refl, sym, ap, ◌∙◌, true, ◌&&◌, some, leb, leb→le, ◌==◌, ==_iff, length, take,
  ok, >>=-ok, require-ok, present-ok, require_last-ok, ok-injective, present, arith,
}
use signalk_edge_link.Bytes.{Bytes, read_u32_be, read_u16_be}
use signalk_edge_link.Crypto.{NodeCrypto}
use signalk_edge_link.Packet.{
  type_of_code, ParsedPacket, header_size, crc16, too_small, bad_magic, unsupported_version,
  unknown_type, crc_mismatch, length_mismatch,
}
use signalk_edge_link.Packet.Parser.{
  PacketParser, ParseOptions, byte_of, has_magic, flags_of_byte, parse_header_fields,
  validate_header_integrity, strip_auth_tag, parse_header, is_v2_packet,
}

pub record HasHeader (packet : Bytes) (r : ParsedPacket) : Type 0 where
  pub magic : (byte_of packet 0 ≡ 0x53) × (byte_of packet 1 ≡ 0x4b)
  pub version : (byte_of packet 2 ≡ 3) × (r.version ≡ 3)
  pub type : type_of_code (byte_of packet 3) ≡ some r.type
  pub flags : r.flags ≡ flags_of_byte (byte_of packet 4)
  pub sequence : r.sequence ≡ read_u32_be packet 5
  pub size : length packet ≡ header_size + r.payload_length
  pub declared : r.payload_length ≡ read_u32_be packet 9
  pub crc : read_u16_be packet 13 ≡ crc16 (take 13 packet)

magic_lem : (a b : ℕ) → (a == 0x53 && b == 0x4b) ≡ true → (a ≡ 0x53) × (b ≡ 0x4b)
magic_lem a b h = ground arith

-- Whatever the keys and options, an accepted packet has the magic bytes, version 3 and a known type; its
-- declared length is the number of bytes after the 15-byte header, its CRC is the one of its first 13
-- bytes, and what is reported are the header's own fields. `isV2Packet` holds of it.
pub parse_header-HasHeader :
    (node : NodeCrypto) (p : PacketParser) (q : ParseOptions) (packet : Bytes) (r : ParsedPacket)
    → parse_header node p packet q ≡ ok r
    → HasHeader packet r × (is_v2_packet packet ≡ true)
unfolding parse_header parse_header_fields validate_header_integrity is_v2_packet
parse_header-HasHeader node p q packet r h =
    let (long, h1) = require-ok (leb 15 (length packet)) too_small _ r h in
    let (f, hf, h2) = >>=-ok (parse_header_fields packet) _ r h1 in
    let (u, hv, h3) = >>=-ok (validate_header_integrity packet f.payload_length) _ r h2 in
    let (body, s, h4) = >>=-ok (strip_auth_tag node p q packet f) _ r h3 in
    let (magic, f1) = require-ok (has_magic packet) bad_magic _ f hf in
    let (version, f2) = require-ok (byte_of packet 2 == 3) unsupported_version _ f f1 in
    let (t, ht, f3) = >>=-ok (present (type_of_code (byte_of packet 3)) unknown_type) _ f f2 in
    let known = present-ok (type_of_code (byte_of packet 3)) unknown_type t ht in
    let fe = ok-injective f3 in
    let (crc, v1) =
      require-ok (crc16 (take 13 packet) == read_u16_be packet 13) crc_mismatch _ u hv in
    let len = require_last-ok (f.payload_length == length packet - 15) length_mismatch u v1 in
    let e = ok-injective h4 in
    let v : byte_of packet 2 ≡ 3 = (==_iff (byte_of packet 2) 3).0 version in
    let le = leb→le 15 (length packet) long in
    let l : f.payload_length ≡ length packet - 15 =
      (==_iff f.payload_length (length packet - 15)).0 len in
    rw (← e) (
      record {
        magic = magic_lem (byte_of packet 0) (byte_of packet 1) magic;
        version = (v, ap (λ z. z.version) (sym fe) ∙ v);
        type = known ∙ ap (λ z. some z.type) fe;
        flags = ap (λ z. z.flags) (sym fe);
        sequence = ap (λ z. z.sequence) (sym fe);
        size = omega arith;
        declared = ap (λ z. z.payload_length) (sym fe);
        crc = sym ((==_iff (crc16 (take 13 packet)) (read_u16_be packet 13)).0 crc);
      },
      rw (long, magic, version) refl,
    )
