-- ===== src/Packet/RoundTrip.antt =====
-- A packet that the builder makes, read by a parser with the same settings.
use signalk_edge_link.Prelude.{
  ℕ, ◌+◌, ◌-◌, ◌^◌, ◌<◌, ◌≡◌, refl, ap, ◌∙◌, Bool, true, false, not, ◌&&◌, ◌||◌, some, ◌++◌, ltb,
  leb, if◌then◌else◌, if-true, if-false, length, take, drop, length-append, take-append_length,
  drop-append_length, ok, otherwise, arith, inl, inr, Bool-cases,
}
use signalk_edge_link.Serial.{u32}
use signalk_edge_link.Bytes.{Bytes}
use signalk_edge_link.Crypto.{NodeCrypto, normalize_key}
use signalk_edge_link.Packet.{
  PacketType, is_data_or_meta, is_hello, PacketError, control_key_missing, data_key_missing,
  ParsedFlags, ParsedPacket, PacketFlags, normalize_protocol_version,
}
use signalk_edge_link.Packet.Builder.{
  PacketBuilder, BuildOptions, build_flag_byte, first_key, bindable_epoch, header_start,
  bound_or_undefined, append_auth_tag, build_packet,
}
use signalk_edge_link.Packet.Parser.{
  PacketParser, ParseOptions, flags_of_byte, parse_header, strip_auth_tag, strip_control_auth_tag,
  strip_data_meta_auth_tag, resolve_auth_epoch, verify_tag,
}
use signalk_edge_link.Packet.Wire.{tag_of, covered, wire, seal_lem, fields, parse-wire}
use signalk_edge_link.Packet.Tag.{
  Agree, expected_flags, flags_of_bools, length-tag_of, create_tag_lem, verify_lem,
}

module _ (node : NodeCrypto) (b : PacketBuilder) (t : PacketType) (payload : Bytes)
    (flags : PacketFlags) (o : BuildOptions) (p : PacketParser) (q : ParseOptions) (key k : Bytes)
    (agree : Agree b o p q) (has_key : first_key o.secret_key b.secret_key ≡ some key)
    (normal : normalize_key node key b.stretch_ascii_key ≡ ok k)
    (version : otherwise o.protocol_version b.protocol_version ≡ 3)
    (fits : length payload + 16 < 2 ^ 32) where
  abbrev seq_of : ℕ
  seq_of = u32 (otherwise o.sequence b.sequence)

  abbrev bound : ℕ
  bound = if is_hello t then 0 else bindable_epoch b

  abbrev authenticated : Bool
  authenticated = b.authenticated_headers && is_data_or_meta t

  abbrev flag_byte : ℕ
  flag_byte = build_flag_byte flags authenticated (ltb 0 bound)

  abbrev parsed_flags : ParsedFlags
  parsed_flags = expected_flags flags authenticated (ltb 0 bound)

  flags_lem : flags_of_byte flag_byte ≡ parsed_flags
  flags_lem =
      flags_of_bools flags.compressed flags.encrypted flags.messagepack flags.path_dictionary
        authenticated (ltb 0 bound)

  -- Both sides bind the same epoch, or none.
  resolve_lem :
      resolve_auth_epoch parsed_flags
        (not (is_hello t) && otherwise q.epoch_bound_auth p.epoch_bound_auth)
        q.epoch
      ≡ ok (bound_or_undefined bound)
  unfolding resolve_auth_epoch bindable_epoch
  resolve_lem = ground (arith, agree.binding, agree.epoch)

  abbrev tag : Bytes
  tag =
      tag_of node k (covered t flag_byte seq_of (length payload + 16)) payload
        (bound_or_undefined bound)

  length-body : length (payload ++ tag) ≡ length payload + 16
  length-body =
      length-append payload tag
      ∙ ap (λ n. length payload + n)
          (length-tag_of node k (covered t flag_byte seq_of (length payload + 16)) payload
            (bound_or_undefined bound))

  append_lem :
      append_auth_tag node b
        (header_start 3 t flag_byte seq_of)
        payload
        (not (is_data_or_meta t))
        o
        bound
      ≡ ok (payload ++ tag)
  unfolding append_auth_tag
  append_lem =
      let small : ltb (length payload + 16) (2 ^ 32) ≡ true = ground arith in
      rw (
        has_key,
        small,
        create_tag_lem node key k b.stretch_ascii_key normal
            (covered t flag_byte seq_of (length payload + 16)) payload (bound_or_undefined bound),
      )

  verify_tag_lem :
      (e : PacketError)
      → verify_tag node p q
          (wire t flag_byte seq_of (payload ++ tag))
          (payload ++ tag)
          (bound_or_undefined bound)
          e
        ≡ ok payload
  unfolding verify_tag
  verify_tag_lem e =
      let cut : length (payload ++ tag) - 16 ≡ length payload = omega (arith, length-body) in
      let body : take (length payload) (payload ++ tag) ≡ payload =
        take-append_length (length payload) payload tag refl in
      let rest : drop (length payload) (payload ++ tag) ≡ tag =
        drop-append_length (length payload) payload tag refl in
      rw (
        cut,
        body,
        rest,
        agree.key,
        has_key,
        agree.stretch,
        length-body,
        verify_lem node key k b.stretch_ascii_key normal
            (covered t flag_byte seq_of (length payload + 16)) payload (bound_or_undefined bound),
      )

  abbrev parsed : ℕ → Bytes → ParsedPacket
  parsed len body = record {
    version = 3;
    type = t;
    flags = parsed_flags;
    sequence = seq_of;
    payload_length = len;
    payload = body;
  }

  abbrev RoundTrips : ℕ → Type 0
  RoundTrips len =
      (packet : Bytes) × (build_packet node b t payload flags o ≡ ok packet)
      × (parse_header node p packet q ≡ ok (parsed len payload))

  abbrev is_tagged : Bool
  is_tagged = not (is_data_or_meta t) || authenticated

  abbrev required : Bool
  required = not (is_hello t) && otherwise q.epoch_bound_auth p.epoch_bound_auth

  abbrev sent : Bytes
  sent = wire t flag_byte seq_of (payload ++ tag)

  room : leb 16 (length (payload ++ tag)) ≡ true
  room = ground (arith, length-body)

  control_lem :
      strip_control_auth_tag node p q sent (payload ++ tag) parsed_flags required ≡ ok payload
  unfolding strip_control_auth_tag
  control_lem = rw (room, resolve_lem, verify_tag_lem control_key_missing)

  data_lem :
      authenticated ≡ true
      → strip_data_meta_auth_tag node p q sent (payload ++ tag) parsed_flags required ≡ ok payload
  unfolding strip_data_meta_auth_tag
  data_lem a = rw (resolve_lem, room, verify_tag_lem data_key_missing, a)

  strip_lem :
      is_tagged ≡ true
      → strip_auth_tag node p q sent (fields t flag_byte seq_of (length (payload ++ tag)))
        ≡ ok payload
  unfolding strip_auth_tag
  strip_lem h = rw flags_lem (elim (Bool-cases (is_data_or_meta t)) [
    | inl d ↦
        let a : b.authenticated_headers ≡ true = ground arith in
        if-true (is_data_or_meta t) _ _ d
        ∙ if-true (otherwise q.authenticated_headers p.authenticated_headers) _ _
            (agree.headers ∙ a)
        ∙ data_lem (ground arith)
    | inr c ↦ if-false (is_data_or_meta t) _ _ c ∙ control_lem
  ])

  tagged : is_tagged ≡ true → RoundTrips (length payload + 16)
  unfolding build_packet normalize_protocol_version
  tagged h =
      let l = length-body in
      let w = wire t flag_byte seq_of (payload ++ tag) in
      let small : length (payload ++ tag) < 2 ^ 32 = omega arith in
      (
        w,
        rw (version, h, append_lem) (seal_lem t flag_byte seq_of (payload ++ tag) small),
        parse-wire t flag_byte seq_of (payload ++ tag) (omega arith) small node p q
            ∙ rw (strip_lem h, flags_lem, l),
      )

  -- An untagged packet goes through as it is.
  open_lem :
      is_tagged ≡ false
      → strip_auth_tag node p q
          (wire t flag_byte seq_of payload)
          (fields t flag_byte seq_of (length payload))
        ≡ ok payload
  unfolding strip_auth_tag
  open_lem h =
      let d : is_data_or_meta t ≡ true = ground arith in
      let a : b.authenticated_headers ≡ false = ground arith in
      if-true (is_data_or_meta t) _ _ d
      ∙ if-false (otherwise q.authenticated_headers p.authenticated_headers) _ _ (agree.headers ∙ a)

  untagged : is_tagged ≡ false → RoundTrips (length payload)
  unfolding build_packet normalize_protocol_version strip_auth_tag
  untagged h =
      let w = wire t flag_byte seq_of payload in
      let small : length payload < 2 ^ 32 = omega arith in
      (
        w,
        rw (version, h) (seal_lem t flag_byte seq_of payload small),
        parse-wire t flag_byte seq_of payload (omega arith) small node p q
            ∙ rw (open_lem h, flags_lem),
      )

  -- Where the peers agree and share a key that is well formed, every packet of at most 2 ^ 32 - 17 bytes
  -- of payload can be built, whatever its type and flags, and the parser reads back its type, flags,
  -- sequence number and payload, after it has verified the tag that a control packet or an
  -- authenticated header carries.
  pub parse_header-build_packet :
      RoundTrips (if is_tagged then length payload + 16 else length payload)
  parse_header-build_packet = elim (Bool-cases is_tagged) [
    | inl h ↦ let e = if-true is_tagged (length payload + 16) (length payload) h in rw e (tagged h)
    | inr h ↦
        let e = if-false is_tagged (length payload + 16) (length payload) h in rw e (untagged h)
  ]
