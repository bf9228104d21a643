-- ===== src/Packet/Tag.antt =====
-- The flags and the tag of a packet, from one peer to the other.
use signalk_edge_link.Prelude.{
  ℕ, ◌<◌, ◌≡◌, refl, Bool, true, Option, some, [], ◌∷◌, ◌++◌, ==-self, length, length-take, ok,
  otherwise, arith,
}
use signalk_edge_link.Bytes.{Bytes}
use signalk_edge_link.Crypto.{
  NodeCrypto, same_bytes, normalize_key, epoch_bytes, create_control_packet_auth_tag,
  verify_control_packet_auth_tag,
}
use signalk_edge_link.Packet.{ParsedFlags, PacketFlags}
use signalk_edge_link.Packet.Builder.{PacketBuilder, BuildOptions, build_flag_byte, first_key}
use signalk_edge_link.Packet.Parser.{PacketParser, ParseOptions, flags_of_byte}
use signalk_edge_link.Packet.Wire.{tag_of}

same_bytes_self : (b : Bytes) → same_bytes b b ≡ true
unfolding same_bytes
same_bytes_self [] = refl
same_bytes_self (b ∷ bs) = rw (==-self b) (same_bytes_self bs)

-- The flags of a parsed packet: the sender's four, and the two that the builder adds.
abbrev pub expected_flags : PacketFlags → Bool → Bool → ParsedFlags
expected_flags f auth bound = record {
  compressed = f.compressed;
  encrypted = f.encrypted;
  messagepack = f.messagepack;
  path_dictionary = f.path_dictionary;
  authenticated_header = auth;
  epoch_bound_auth = bound;
}

pub flags_of_bools :
    (a b c d e g : Bool)
    → flags_of_byte (
        build_flag_byte
          (record { compressed = a; encrypted = b; messagepack = c; path_dictionary = d })
          e
          g)
      ≡ record {
        compressed = a;
        encrypted = b;
        messagepack = c;
        path_dictionary = d;
        authenticated_header = e;
        epoch_bound_auth = g;
      }
unfolding build_flag_byte flags_of_byte
flags_of_bools a b c d e g = ground arith

-- The peers agree: on the key and how it is stretched, on whether DATA and METADATA headers are
-- authenticated, and on epoch binding, where the parser must know the builder's epoch.
pub record Agree (b : PacketBuilder) (o : BuildOptions) (p : PacketParser) (q : ParseOptions)
    : Type 0 where
  pub key : first_key q.secret_key p.secret_key ≡ first_key o.secret_key b.secret_key
  pub stretch : otherwise q.stretch_ascii_key p.stretch_ascii_key ≡ b.stretch_ascii_key
  pub headers : otherwise q.authenticated_headers p.authenticated_headers ≡ b.authenticated_headers
  pub binding : otherwise q.epoch_bound_auth p.epoch_bound_auth ≡ b.epoch_bound_auth
  pub epoch :
      b.epoch_bound_auth ≡ true → (0 < b.connection_epoch) × (q.epoch ≡ some b.connection_epoch)

pub length-tag_of :
    (node : NodeCrypto) (k header payload : Bytes) (epoch : Option ℕ)
    → length (tag_of node k header payload epoch) ≡ 16
length-tag_of node k header payload epoch =
    let input = header ++ payload ++ epoch_bytes epoch in
    omega (arith, length-take 16 (node.hmac_sha256 k input), node.length-hmac_sha256 k input)

module _ (node : NodeCrypto) (key k : Bytes) (stretch : Bool)
    (n : normalize_key node key stretch ≡ ok k) (header payload : Bytes) (epoch : Option ℕ) where
  pub create_tag_lem :
      create_control_packet_auth_tag node header payload key stretch epoch
      ≡ ok (tag_of node k header payload epoch)
  unfolding create_control_packet_auth_tag
  create_tag_lem = rw n

  pub verify_lem :
      verify_control_packet_auth_tag node header payload
        (tag_of node k header payload epoch)
        key
        stretch
        epoch
      ≡ ok tt
  unfolding verify_control_packet_auth_tag
  verify_lem = rw (
    length-tag_of node k header payload epoch,
    create_tag_lem,
    same_bytes_self (tag_of node k header payload epoch),
  )
