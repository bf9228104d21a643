-- ===== src/Bonding/Probe.antt =====
-- The heartbeat probes of a bonded link: `buildHeartbeatProbe` and `classifyHeartbeatResponse` of
-- src/transport/bonding-health.ts, and `verifyHbProbe` of
-- src/transport/pipeline/reliable-server/context.ts, which reflects them.
use signalk_edge_link.Prelude.{
  ℕ, ◌+◌, ◌-◌, ◌%◌, ◌^◌, ◌<◌, ◌≡◌, refl, ◌∙◌, Bool, true, false, not, ◌&&◌, [], ◌∷◌, ◌++◌, map, ltb,
  leb, ==-self, if◌then◌else◌, length, take, drop, replicate, Result, ok, err, ◌>>=◌, arith,
  length-take, take_all,
}
use signalk_edge_link.Bytes.{Bytes, write_u32_be, read_u32_be, join32-split}
use signalk_edge_link.Crypto.{NodeCrypto, normalize_key, same_bytes}
use signalk_edge_link.Packet.{PacketError, out_of_range, lift}

-- `BONDING_HMAC_TAG_LENGTH`
abbrev hb_tag_length : ℕ
hb_tag_length = 8

-- "HBPROBE"
abbrev hb_magic : Bytes
hb_magic = 72 ∷ 66 ∷ 80 ∷ 82 ∷ 79 ∷ 66 ∷ 69 ∷ []

-- The header: the magic, the number at 7 and a padding byte.
unfoldable pub hb_header : ℕ → Bytes
hb_header seq = write_u32_be (hb_magic ++ replicate 5 0) seq 7

-- `toString("ascii", 0, 7) === "HBPROBE"`, which drops the top bit of a byte.
unfoldable pub is_hb_probe : Bytes → Bool
is_hb_probe msg = leb 12 (length msg) && same_bytes (map (λ b. b % 128) (take 7 msg)) hb_magic

pub data HeartbeatClass : Type 0 where
  valid_heartbeat : HeartbeatClass
  not_heartbeat : HeartbeatClass
  drop_heartbeat : HeartbeatClass

-- A missing key, and an empty one, is none.
abbrev is_keyed : Bytes → Bool
is_keyed [] = false
is_keyed (c ∷ cs) = true

module _ (node : NodeCrypto) where
  unfoldable pub compute_hb_hmac : Bytes → Bytes → Bool → Result PacketError Bytes
  compute_hb_hmac header secret_key stretch = do
    key ← lift (normalize_key node secret_key stretch)
    ok (take hb_tag_length (node.hmac_sha256 key header))

  -- `writeUInt32BE` throws for a number that is too large.
  unfoldable pub build_heartbeat_probe : ℕ → Bytes → Bool → Result PacketError Bytes
  build_heartbeat_probe seq secret_key stretch =
      if not (ltb seq (2 ^ 32))
      then err out_of_range
      else if not (is_keyed secret_key)
      then ok (hb_header seq)
      else (do tag ← compute_hb_hmac (hb_header seq) secret_key stretch; ok (hb_header seq ++ tag))

  unfoldable pub classify_heartbeat_response :
      Bytes → Bytes → Bool → Result PacketError HeartbeatClass
  classify_heartbeat_response msg secret_key stretch =
      if not (is_hb_probe msg)
      then ok not_heartbeat
      else if not (is_keyed secret_key)
      then ok valid_heartbeat
      else if ltb (length msg) (12 + hb_tag_length)
      then ok drop_heartbeat
      else (do
        tag ← compute_hb_hmac (take 12 msg) secret_key stretch
        ok (
            if same_bytes tag (drop (length msg - hb_tag_length) msg)
            then valid_heartbeat
            else drop_heartbeat))

  -- A key that cannot be used makes the verification fail.
  abbrev matches : Result PacketError Bytes → Bytes → Bool
  matches (err e) received = false
  matches (ok tag) received = same_bytes tag received

  unfoldable pub verify_hb_probe : Bytes → Bytes → Bool → Bool
  verify_hb_probe packet secret_key stretch =
      if not (is_keyed secret_key)
      then leb 12 (length packet)
      else if ltb (length packet) (12 + hb_tag_length)
      then false
      else matches (compute_hb_hmac (take 12 packet) secret_key stretch)
          (take hb_tag_length (drop 12 packet))

pub same_bytes_self : (b : Bytes) → same_bytes b b ≡ true
unfolding same_bytes
same_bytes_self [] = refl
same_bytes_self (c ∷ cs) = ground (arith, ==-self c, same_bytes_self cs)

hb_header-number : (seq : ℕ) → seq < 2 ^ 32 → read_u32_be (hb_header seq) 7 ≡ seq
unfolding hb_header
hb_header-number seq h = join32-split seq h

hb_header-probe : (seq : ℕ) (tag : Bytes) → is_hb_probe (hb_header seq ++ tag) ≡ true
unfolding is_hb_probe hb_header same_bytes
hb_header-probe seq tag = ground arith

read-tag :
    (seq : ℕ) (tag : Bytes) → read_u32_be (hb_header seq ++ tag) 7 ≡ read_u32_be (hb_header seq) 7
unfolding hb_header
read-tag seq tag = refl

tagged :
    (seq : ℕ) (tag : Bytes)
    → length tag ≡ 8
    → (length (hb_header seq ++ tag) ≡ 20)
      × (take 12 (hb_header seq ++ tag) ≡ hb_header seq)
      × (drop 12 (hb_header seq ++ tag) ≡ tag)
unfolding hb_header
tagged seq tag h = (omega (arith, h), refl, refl)

-- With a shared key that is usable, every probe of a number below 2 ^ 32 can be built; the server takes
-- it for a probe and reflects it, and its reflection is a valid heartbeat that carries the number.
pub classify-build_heartbeat_probe :
    (node : NodeCrypto) (seq : ℕ) (secret key : Bytes) (stretch : Bool)
    → seq < 2 ^ 32
    → is_keyed secret ≡ true
    → normalize_key node secret stretch ≡ ok key
    → (probe : Bytes) × (build_heartbeat_probe node seq secret stretch ≡ ok probe)
      × (is_hb_probe probe ≡ true)
      × (verify_hb_probe node probe secret stretch ≡ true)
      × (classify_heartbeat_response node probe secret stretch ≡ ok valid_heartbeat)
      × (read_u32_be probe 7 ≡ seq)
unfolding build_heartbeat_probe verify_hb_probe classify_heartbeat_response compute_hb_hmac
classify-build_heartbeat_probe node seq secret key stretch h k n =
    let tag : Bytes = take 8 (node.hmac_sha256 key (hb_header seq)) in
    let short : length tag ≡ 8 = omega (
      arith,
      length-take 8 (node.hmac_sha256 key (hb_header seq)),
      node.length-hmac_sha256 key (hb_header seq),
    ) in
    let (size, header, rest) = tagged seq tag short in
    let small : ltb seq (2 ^ 32) ≡ true = ground arith in
    let all : take 8 tag ≡ tag = take_all 8 tag (omega (arith, short)) in
    (
      hb_header seq ++ tag,
      rw (small, k, n),
      hb_header-probe seq tag,
      rw (k, size, header, n, rest, all) (same_bytes_self tag),
      rw (hb_header-probe seq tag, k, size, header, n, rest, same_bytes_self tag),
      read-tag seq tag ∙ hb_header-number seq h,
    )
