-- ===== src/Packet/Authentic.antt =====
-- What it takes for a packet to be accepted.
use signalk_edge_link.Prelude.{
  ℕ, ◌-◌, ◌<◌, ◌≡◌, refl, sym, ap, ap₂, ◌∙◌, Bool, true, false, not, ◌&&◌, ◌||◌, Option, none, some,
  [], ◌∷◌, ◌++◌, leb, ◌==◌, if-true, if-false, length, take, drop, take-drop, Result, ok, err,
  >>=-ok, require-ok, present-ok, require_last-ok, ok-injective, present, otherwise, arith, ◌⊎◌,
  inl, inr, Bool-cases,
}
use signalk_edge_link.Bytes.{Bytes}
use signalk_edge_link.Crypto.{
  NodeCrypto, CryptoError, same_bytes, normalize_key, create_control_packet_auth_tag,
  verify_control_packet_auth_tag, tag_missing, authentication_failed,
}
use signalk_edge_link.Packet.{
  PacketType, is_data_or_meta, is_hello, PacketError, lift, ParsedFlags, ParsedPacket, header_size,
}
use signalk_edge_link.Packet.Builder.{first_key}
use signalk_edge_link.Packet.Parser.{
  PacketParser, ParseOptions, HeaderFields, parse_header_fields, validate_header_integrity,
  parse_header, strip_auth_tag, strip_control_auth_tag, strip_data_meta_auth_tag,
  resolve_auth_epoch, verify_tag,
}
use signalk_edge_link.Packet.Wire.{tag_of}

same_bytes-eq : (a b : Bytes) → same_bytes a b ≡ true → a ≡ b
unfolding same_bytes
same_bytes-eq [] [] h = refl
same_bytes-eq [] (b ∷ bs) h = absurd (ground arith)
same_bytes-eq (a ∷ as_) [] h = absurd (ground arith)
same_bytes-eq (a ∷ as_) (b ∷ bs) h = ap₂ ◌∷◌ (ground arith) (same_bytes-eq as_ bs (ground arith))

lift-ok : {A : Type 0} (r : Result CryptoError A) (a : A) → lift r ≡ ok a → r ≡ ok a
lift-ok (ok x) a h = cc
lift-ok (err e) a h = absurd cc

verify-ok :
    (node : NodeCrypto) (header payload tag key : Bytes) (stretch : Bool) (epoch : Option ℕ)
    (u : Unit {0})
    → verify_control_packet_auth_tag node header payload tag key stretch epoch ≡ ok u
    → (k : Bytes) × (normalize_key node key stretch ≡ ok k)
      × (tag ≡ tag_of node k header payload epoch)
unfolding verify_control_packet_auth_tag create_control_packet_auth_tag
verify-ok node header payload tag key stretch epoch u h =
    let (_, h') = require-ok (length tag == 16) tag_missing _ u h in
    let (expected, c, v) =
      >>=-ok (create_control_packet_auth_tag node header payload key stretch epoch) _ u h' in
    let (k, n, x) = >>=-ok (normalize_key node key stretch) _ expected c in
    (
      k,
      n,
      sym (
            same_bytes-eq expected tag
              (require_last-ok (same_bytes expected tag) authentication_failed u v))
          ∙ sym (ok-injective x),
    )

-- The key that both sides resolved, and the tag that ends the payload.
abbrev Signed : NodeCrypto → PacketParser → ParseOptions → Bytes → Bytes → Bytes → Option ℕ → Type 0
Signed node p q packet payload body epoch =
    (key : Bytes) × (k : Bytes) × (first_key q.secret_key p.secret_key ≡ some key)
    × (normalize_key node key (otherwise q.stretch_ascii_key p.stretch_ascii_key) ≡ ok k)
    × (payload ≡ body ++ tag_of node k (take 13 packet) body epoch)

verify_tag-ok :
    (node : NodeCrypto) (p : PacketParser) (q : ParseOptions) (packet payload body : Bytes)
    (epoch : Option ℕ) (e : PacketError)
    → verify_tag node p q packet payload epoch e ≡ ok body
    → Signed node p q packet payload body epoch
unfolding verify_tag
verify_tag-ok node p q packet payload body epoch e h =
    let n = length payload - 16 in
    let (key, a, h1) = >>=-ok (present (first_key q.secret_key p.secret_key) e) _ body h in
    let (u, c, h2) =
      >>=-ok
        (lift (
          verify_control_packet_auth_tag node (take 13 packet) (take n payload) (drop n payload) key
            (otherwise q.stretch_ascii_key p.stretch_ascii_key) epoch))
        _ body h1 in
    let (k, m, t) =
      verify-ok node (take 13 packet) (take n payload) (drop n payload) key _ epoch u
        (lift-ok _ u c) in
    let same : take n payload ≡ body = ok-injective h2 in
    (
      key,
      k,
      present-ok (first_key q.secret_key p.secret_key) e key a,
      m,
      sym (take-drop n payload)
          ∙ ap (λ x. take n payload ++ x) t
          ∙ ap (λ x. x ++ tag_of node k (take 13 packet) x epoch) same,
    )

-- The epoch that a tag was checked against.
abbrev BoundTo : ParsedFlags → Bool → Option ℕ → Option ℕ → Type 0
BoundTo flags required known epoch =
    ((flags.epoch_bound_auth ≡ true) × ((n : ℕ) × (0 < n) × (known ≡ some n) × (epoch ≡ some n)))
    ⊎ ((flags.epoch_bound_auth ≡ false) × (required ≡ false) × (epoch ≡ none))

resolve-ok :
    (flags : ParsedFlags) (required : Bool) (known epoch : Option ℕ)
    → resolve_auth_epoch flags required known ≡ ok epoch
    → BoundTo flags required known epoch
unfolding resolve_auth_epoch
resolve-ok flags required known epoch h = ground arith

-- A packet of this type must carry a tag.
abbrev needs_tag : PacketParser → ParseOptions → PacketType → Bool
needs_tag p q t =
    not (is_data_or_meta t) || otherwise q.authenticated_headers p.authenticated_headers

-- Epoch binding is required of this type.
abbrev needs_epoch : PacketParser → ParseOptions → PacketType → Bool
needs_epoch p q t = not (is_hello t) && otherwise q.epoch_bound_auth p.epoch_bound_auth

abbrev pub IsAuthentic : NodeCrypto → PacketParser → ParseOptions → Bytes → ParsedPacket → Type 0
IsAuthentic node p q packet r =
    (epoch : Option ℕ) × Signed node p q packet (drop header_size packet) r.payload epoch
    × BoundTo r.flags (needs_epoch p q r.type) q.epoch epoch
    × ((is_data_or_meta r.type ≡ false) ⊎ (r.flags.authenticated_header ≡ true))

module _ (node : NodeCrypto) (p : PacketParser) (q : ParseOptions) (packet : Bytes)
    (f : HeaderFields) (body : Bytes) where
  abbrev Stripped : Type 0
  Stripped =
      (epoch : Option ℕ) × Signed node p q packet (drop header_size packet) body epoch
      × BoundTo f.flags (needs_epoch p q f.type) q.epoch epoch
      × ((is_data_or_meta f.type ≡ false) ⊎ (f.flags.authenticated_header ≡ true))

  control-ok :
      is_data_or_meta f.type ≡ false
      → strip_control_auth_tag node p q packet
          (drop header_size packet)
          f.flags
          (needs_epoch p q f.type)
        ≡ ok body
      → Stripped
  unfolding strip_control_auth_tag
  control-ok c h =
      let (_, h1) = require-ok (leb 16 (length (drop 15 packet))) _ _ body h in
      let (epoch, e, h2) =
        >>=-ok (resolve_auth_epoch f.flags (needs_epoch p q f.type) q.epoch) _ body h1 in
      (
        epoch,
        verify_tag-ok node p q packet (drop 15 packet) body epoch _ h2,
        resolve-ok f.flags (needs_epoch p q f.type) q.epoch epoch e,
        inl c,
      )

  data-ok :
      strip_data_meta_auth_tag node p q packet
          (drop header_size packet)
          f.flags
          (needs_epoch p q f.type)
        ≡ ok body
      → Stripped
  unfolding strip_data_meta_auth_tag
  data-ok h =
      let (a, h1) = require-ok f.flags.authenticated_header _ _ body h in
      let (epoch, e, h2) =
        >>=-ok (resolve_auth_epoch f.flags (needs_epoch p q f.type) q.epoch) _ body h1 in
      let (_, h3) = require-ok (leb 16 (length (drop 15 packet))) _ _ body h2 in
      (
        epoch,
        verify_tag-ok node p q packet (drop 15 packet) body epoch _ h3,
        resolve-ok f.flags (needs_epoch p q f.type) q.epoch epoch e,
        inr a,
      )

  strip-ok : needs_tag p q f.type ≡ true → strip_auth_tag node p q packet f ≡ ok body → Stripped
  unfolding strip_auth_tag
  strip-ok t h = elim (Bool-cases (is_data_or_meta f.type)) [
    | inr c ↦ control-ok c (sym (if-false (is_data_or_meta f.type) _ _ c) ∙ h)
    | inl d ↦
        let a : otherwise q.authenticated_headers p.authenticated_headers ≡ true = ground arith in
        data-ok (
          sym (if-true (otherwise q.authenticated_headers p.authenticated_headers) _ _ a)
          ∙ sym (if-true (is_data_or_meta f.type) _ _ d)
          ∙ h)
  ]

-- Nothing is accepted unsigned: a control packet, or a DATA or METADATA packet where authenticated
-- headers are required, parses only if its payload ends in the HMAC, under the shared key, of its first
-- 13 bytes and the payload that is handed on, bound to the known epoch if its flag says so. A DATA or
-- METADATA packet then has its AUTHENTICATED_HEADER flag set, and where epoch binding is required, all
-- types but HELLO have theirs.
pub parse_header-IsAuthentic :
    (node : NodeCrypto) (p : PacketParser) (q : ParseOptions) (packet : Bytes) (r : ParsedPacket)
    → parse_header node p packet q ≡ ok r
    → needs_tag p q r.type ≡ true
    → IsAuthentic node p q packet r
unfolding parse_header
parse_header-IsAuthentic node p q packet r h t =
    let (_, h1) = require-ok (leb 15 (length packet)) _ _ r h in
    let (f, _, h2) = >>=-ok (parse_header_fields packet) _ r h1 in
    let (_, _, h3) = >>=-ok (validate_header_integrity packet f.payload_length) _ r h2 in
    let (body, s, h4) = >>=-ok (strip_auth_tag node p q packet f) _ r h3 in
    let e = ok-injective h4 in rw (← e) (strip-ok node p q packet f body (rw (← e) at t) s)
