-- ===== src/Packet/Control.antt =====
-- The payloads of ACK and NAK packets, there and back.
use signalk_edge_link.Prelude.{
  ℕ, ◌-◌, ◌*◌, ◌^◌, ◌%◌, ◌<◌, ◌≤◌, ◌≡◌, refl, ap₂, Option, none, some, List, [], ◌∷◌, map, length,
  ok, otherwise, arith,
}
use signalk_edge_link.Serial.{u32}
use signalk_edge_link.Bytes.{Bytes, join32-split}
use signalk_edge_link.Crypto.{NodeCrypto, normalize_key}
use signalk_edge_link.Packet.{ack, nak, ParsedPacket}
use signalk_edge_link.Packet.Builder.{
  PacketBuilder, BuildOptions, first_key, no_flags, ack_payload, nak_payload, build_ack_packet,
  build_nak_packet,
}
use signalk_edge_link.Packet.Parser.{
  PacketParser, ParseOptions, parse_header, words32, parse_nak_payload, parse_ack_payload_full,
}
use signalk_edge_link.Packet.Tag.{Agree}
use signalk_edge_link.Packet.RoundTrip.{parse_header-build_packet}

length-nak_payload : (ss : List ℕ) → length (nak_payload ss) ≡ 4 * length ss
unfolding nak_payload
length-nak_payload [] = refl
length-nak_payload (s ∷ ss) = ground (arith, length-nak_payload ss)

words32-nak_payload : (ss : List ℕ) → words32 (nak_payload ss) ≡ map u32 ss
unfolding words32 nak_payload
words32-nak_payload [] = refl
words32-nak_payload (s ∷ ss) = ap₂ ◌∷◌ (join32-split (u32 s) (omega arith)) (words32-nak_payload ss)

parse_nak_payload_lem : (ss : List ℕ) → parse_nak_payload (nak_payload ss) ≡ ok (map u32 ss)
unfolding parse_nak_payload
parse_nak_payload_lem ss =
    let whole : length (nak_payload ss) % 4 ≡ 0 = omega (arith, length-nak_payload ss) in
    rw (whole, words32-nak_payload ss)

-- What an ACK carries.
abbrev pub window_of : Option ℕ → Option ℕ
window_of none = none
window_of (some w) = some (u32 w)

parse_ack_payload_lem :
    (acked : ℕ) (window : Option ℕ)
    → parse_ack_payload_full (ack_payload acked window)
      ≡ ok (record { sequence = u32 acked; receive_window = window_of window })
unfolding parse_ack_payload_full ack_payload
parse_ack_payload_lem acked none = rw (join32-split (u32 acked) (omega arith))
parse_ack_payload_lem acked (some w) =
    rw (join32-split (u32 acked) (omega arith), join32-split (u32 w) (omega arith))

length-ack_payload : (acked : ℕ) (window : Option ℕ) → length (ack_payload acked window) ≤ 8
unfolding ack_payload
length-ack_payload acked none = omega arith
length-ack_payload acked (some w) = omega arith

module _ (node : NodeCrypto) (b : PacketBuilder) (o : BuildOptions) (p : PacketParser)
    (q : ParseOptions) (key k : Bytes) (agree : Agree b o p q)
    (has_key : first_key o.secret_key b.secret_key ≡ some key)
    (normal : normalize_key node key b.stretch_ascii_key ≡ ok k)
    (version : otherwise o.protocol_version b.protocol_version ≡ 3) where
  -- Between peers that agree, a NAK packet is built and read back as the list of missing sequence
  -- numbers that it was built from, modulo 2 ^ 32, in their order, repetitions included: for at most
  -- 2 ^ 30 - 5 numbers.
  pub parse-build_nak_packet :
      (missing : List ℕ)
      → length missing < 2 ^ 30 - 4
      → (packet : Bytes) × (r : ParsedPacket) × (build_nak_packet node b missing o ≡ ok packet)
        × (parse_header node p packet q ≡ ok r)
        × (r.type ≡ nak)
        × (parse_nak_payload r.payload ≡ ok (map u32 missing))
  unfolding build_nak_packet
  parse-build_nak_packet missing l =
      let (packet, x, y) =
        parse_header-build_packet node b nak (nak_payload missing) no_flags o p q key k agree
          has_key normal version (omega (arith, length-nak_payload missing)) in
      (packet, _, x, y, refl, parse_nak_payload_lem missing)

  -- Between peers that agree, an ACK packet is built and read back as the acknowledged number and the
  -- receive window, if one was given, both modulo 2 ^ 32.
  pub parse-build_ack_packet :
      (acked : ℕ) (window : Option ℕ)
      → (packet : Bytes) × (r : ParsedPacket) × (build_ack_packet node b acked window o ≡ ok packet)
        × (parse_header node p packet q ≡ ok r)
        × (r.type ≡ ack)
        × (parse_ack_payload_full r.payload
            ≡ ok (record { sequence = u32 acked; receive_window = window_of window }))
  unfolding build_ack_packet
  parse-build_ack_packet acked window =
      let (packet, x, y) =
        parse_header-build_packet node b ack (ack_payload acked window) no_flags o p q key k agree
          has_key normal version (omega (arith, length-ack_payload acked window)) in
      (packet, _, x, y, refl, parse_ack_payload_lem acked window)
