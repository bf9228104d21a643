-- ===== src/Packet/Numbering.antt =====
-- The sequence numbers that a builder writes into its packets.
use signalk_edge_link.Prelude.{
  ℕ, ◌^◌, ◌<◌, ◌≡◌, refl, sym, ap, ap₂, ◌∙◌, not, ◌&&◌, ◌||◌, some, List, [], ◌∷◌, map, ltb,
  if◌then◌else◌, length, Result, ok, err, ◌>>=◌, >>=-ok, require-ok, ok-injective, otherwise, arith,
}
use signalk_edge_link.Serial.{u32, next32}
use signalk_edge_link.Bytes.{Bytes, join32-split, read_u32_be}
use signalk_edge_link.Crypto.{NodeCrypto}
use signalk_edge_link.Packet.{
  PacketType, data_packet, metadata, is_data_or_meta, is_hello, PacketError, PacketFlags,
  out_of_range, normalize_protocol_version,
}
use signalk_edge_link.Packet.Builder.{
  PacketBuilder, BuildOptions, no_options, no_flags, build_flag_byte, bindable_epoch, header_start,
  seal, append_auth_tag, build_packet, build_data_packet, build_metadata_packet, advance_sequence,
}

seal-number :
    (version : ℕ) (t : PacketType) (fb s : ℕ) (body packet : Bytes)
    → s < 2 ^ 32
    → seal (header_start version t fb s) body ≡ ok packet
    → read_u32_be packet 5 ≡ s
seal-number version t fb s body packet l h =
    let (_, h1) = require-ok (ltb (length body) (2 ^ 32)) out_of_range _ packet h in
    rw (← ok-injective h1) (join32-split s l)

sealed-number :
    (version : ℕ) (t : PacketType) (fb s : ℕ) (made : Result PacketError Bytes) (packet : Bytes)
    → s < 2 ^ 32
    → (made >>= λ final. seal (header_start version t fb s) final) ≡ ok packet
    → read_u32_be packet 5 ≡ s
sealed-number version t fb s (ok body) packet l h = seal-number version t fb s body packet l h
sealed-number version t fb s (err e) packet l h = absurd cc

-- A built packet carries the number that its options give, or the builder's own.
number-build_packet :
    (node : NodeCrypto) (b : PacketBuilder) (t : PacketType) (payload : Bytes) (flags : PacketFlags)
    (o : BuildOptions) (packet : Bytes)
    → build_packet node b t payload flags o ≡ ok packet
    → read_u32_be packet 5 ≡ u32 (otherwise o.sequence b.sequence)
unfolding build_packet
number-build_packet node b t payload flags o packet h =
    let (version, _, h1) =
      >>=-ok (normalize_protocol_version (some (otherwise o.protocol_version b.protocol_version))) _
        packet h in
    let authenticated = b.authenticated_headers && is_data_or_meta t in
    let bound = if is_hello t then 0 else bindable_epoch b in
    let fb = build_flag_byte flags authenticated (ltb 0 bound) in
    let s = u32 (otherwise o.sequence b.sequence) in
    let is_control = not (is_data_or_meta t) in
    sealed-number version t fb s
      (if is_control || authenticated
        then append_auth_tag node b (header_start version t fb s) payload is_control o bound
        else ok payload)
      packet (omega arith) h1

-- What a connection sends with one builder: DATA and METADATA through their own methods, and control
-- packets, which leave the builder as it was.
pub data Send : Type 0 where
  data_of metadata_of : Bytes → PacketFlags → Send
  control_of : PacketType → Bytes → Send

unfoldable pub send : NodeCrypto → PacketBuilder → Send → Result PacketError (Bytes × PacketBuilder)
send node b (data_of payload flags) = build_data_packet node b payload flags
send node b (metadata_of payload flags) = build_metadata_packet node b payload flags
send node b (control_of t payload) =
    build_packet node b t payload no_flags no_options >>= λ packet. ok (packet, b)

unfoldable pub send_all :
    NodeCrypto → PacketBuilder → List Send → Result PacketError (List Bytes × PacketBuilder)
send_all node b [] = ok ([], b)
send_all node b (s ∷ ss) = send node b s >>= λ (sent : Bytes × PacketBuilder).
    (send_all node sent.1 ss >>= λ (rest : List Bytes × PacketBuilder).
    ok (sent.0 ∷ rest.0, rest.1))

-- The numbers that a receiver is to see: DATA counts on from `s` and METADATA from `m`, whatever stands
-- between them, and a control packet repeats the next DATA number.
pub expected_numbers : ℕ → ℕ → List Send → List ℕ
expected_numbers s m [] = []
expected_numbers s m (data_of p f ∷ ss) = s ∷ expected_numbers (next32 s) m ss
expected_numbers s m (metadata_of p f ∷ ss) = m ∷ expected_numbers s (next32 m) ss
expected_numbers s m (control_of t p ∷ ss) = s ∷ expected_numbers s m ss

abbrev next_data : ℕ → Send → ℕ
next_data s (data_of p f) = next32 s
next_data s _ = s

abbrev next_metadata : ℕ → Send → ℕ
next_metadata m (metadata_of p f) = next32 m
next_metadata m _ = m

abbrev number_of : ℕ → ℕ → Send → ℕ
number_of s m (metadata_of p f) = m
number_of s m _ = s

-- One packet, and the counters after it.
send_lem :
    (node : NodeCrypto) (b : PacketBuilder) (s : Send) (packet : Bytes) (b' : PacketBuilder)
    → b.sequence < 2 ^ 32
    → b.meta_sequence < 2 ^ 32
    → send node b s ≡ ok (packet, b')
    → (read_u32_be packet 5 ≡ number_of b.sequence b.meta_sequence s)
      × (b'.sequence ≡ next_data b.sequence s)
      × (b'.meta_sequence ≡ next_metadata b.meta_sequence s)
unfolding send build_data_packet build_metadata_packet advance_sequence
send_lem node b (data_of p f) packet b' l m h =
    let (x, y, z) = >>=-ok (build_packet node b data_packet p f no_options) _ (packet, b') h in
    let n = number-build_packet node b data_packet p f no_options x y in
    let e = ok-injective z in
    let same : read_u32_be packet 5 ≡ read_u32_be x 5 = ap (λ v. read_u32_be v.0 5) (sym e) in
    (same ∙ n ∙ omega arith, ap (λ v. v.1.sequence) (sym e), ap (λ v. v.1.meta_sequence) (sym e))
send_lem node b (metadata_of p f) packet b' l m h =
    let o : BuildOptions = record no_options { sequence = some b.meta_sequence } in
    let (x, y, z) = >>=-ok (build_packet node b metadata p f o) _ (packet, b') h in
    let n = number-build_packet node b metadata p f o x y in
    let e = ok-injective z in
    let same : read_u32_be packet 5 ≡ read_u32_be x 5 = ap (λ v. read_u32_be v.0 5) (sym e) in
    (same ∙ n ∙ omega arith, ap (λ v. v.1.sequence) (sym e), ap (λ v. v.1.meta_sequence) (sym e))
send_lem node b (control_of t p) packet b' l m h =
    let (x, y, z) = >>=-ok (build_packet node b t p no_flags no_options) _ (packet, b') h in
    let n = number-build_packet node b t p no_flags no_options x y in
    let e = ok-injective z in
    let same : read_u32_be packet 5 ≡ read_u32_be x 5 = ap (λ v. read_u32_be v.0 5) (sym e) in
    (same ∙ n ∙ omega arith, ap (λ v. v.1.sequence) (sym e), ap (λ v. v.1.meta_sequence) (sym e))

next_lem :
    (s m : ℕ) (x : Send) (ss : List Send)
    → expected_numbers s m (x ∷ ss)
      ≡ number_of s m x ∷ expected_numbers (next_data s x) (next_metadata m x) ss
unfolding expected_numbers
next_lem s m (data_of p f) ss = refl
next_lem s m (metadata_of p f) ss = refl
next_lem s m (control_of t p) ss = refl

next-lt :
    (s m : ℕ) (x : Send)
    → s < 2 ^ 32
    → m < 2 ^ 32
    → (next_data s x < 2 ^ 32) × (next_metadata m x < 2 ^ 32)
next-lt s m (data_of p f) a b = (omega arith, b)
next-lt s m (metadata_of p f) a b = (a, omega arith)
next-lt s m (control_of t p) a b = (a, b)

-- DATA and METADATA are numbered apart: whatever a connection sends with one builder, the numbers in
-- the headers of the packets that it gets are those of two counters modulo 2 ^ 32, of which METADATA
-- never moves the one for DATA, and control packets move neither.
pub send_all-numbers :
    (node : NodeCrypto) (b : PacketBuilder) (ss : List Send) (packets : List Bytes)
    (b' : PacketBuilder)
    → b.sequence < 2 ^ 32
    → b.meta_sequence < 2 ^ 32
    → send_all node b ss ≡ ok (packets, b')
    → map (λ p. read_u32_be p 5) packets ≡ expected_numbers b.sequence b.meta_sequence ss
unfolding send_all expected_numbers
send_all-numbers node b [] packets b' l m h =
    ap (λ v. map (λ p. read_u32_be p 5) v.0) (sym (ok-injective h))
send_all-numbers node b (s ∷ ss) packets b' l m h =
    let (first, x, h1) = >>=-ok (send node b s) _ (packets, b') h in
    let (rest, y, h2) = >>=-ok (send_all node first.1 ss) _ (packets, b') h1 in
    let (n, d, c) = send_lem node b s first.0 first.1 l m x in
    let (ld, lm) = next-lt b.sequence b.meta_sequence s l m in
    let tail = send_all-numbers node first.1 ss rest.0 rest.1 (rw d ld) (rw c lm) y in
    ap (λ v. map (λ p. read_u32_be p 5) v.0) (sym (ok-injective h2))
    ∙ ap₂ ◌∷◌ n (tail ∙ ap₂ (λ i j. expected_numbers i j ss) d c)
    ∙ sym (next_lem b.sequence b.meta_sequence s ss)
