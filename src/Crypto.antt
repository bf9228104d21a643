-- ===== src/Crypto.antt =====
-- src/codec/crypto.ts: the keys, and the authentication tag of a packet. A key is its UTF-8 bytes, of
-- which only ASCII ones match a format. Node's `crypto` is a parameter: HMAC-SHA256 with its 32-byte
-- digest, and PBKDF2 of 32 bytes.
pub mod Keys
mod Tests
use signalk_edge_link.Prelude.{
  ℕ, ◌+◌, ◌-◌, ◌*◌, ◌/◌, ◌%◌, ◌^◌, ◌≡◌, Bool, true, false, not, ◌&&◌, ◌||◌, Option, none, some,
  List, [], ◌∷◌, ◌++◌, ltb, leb, ◌==◌, if◌then◌else◌, length, take, drop, Result, ok, err, ◌>>=◌,
  ◌>>◌, require,
}
use signalk_edge_link.Bytes.{Bytes, u64_be}

pub record NodeCrypto : Type 0 where
  pub hmac_sha256 : Bytes → Bytes → Bytes
  pub pbkdf2_sha256 : Bytes → Bytes
  pub length-hmac_sha256 : (key input : Bytes) → length (hmac_sha256 key input) ≡ 32
  pub length-pbkdf2_sha256 : (passphrase : Bytes) → length (pbkdf2_sha256 passphrase) ≡ 32

pub data CryptoError : Type 0 where
  empty_key bad_base64_key bad_key_length tag_missing authentication_failed : CryptoError

abbrev between : ℕ → ℕ → ℕ → Bool
between low high c = leb low c && leb c high

abbrev is_hex : ℕ → Bool
is_hex c = between 48 57 c || between 65 70 c || between 97 102 c

-- The alphabet `A-Za-z0-9+/-_`
abbrev is_base64 : ℕ → Bool
is_base64 c =
    between 65 90 c
    || between 97 122 c
    || between 48 57 c
    || c == 43
    || c == 47
    || c == 45
    || c == 95

pub all_of : (ℕ → Bool) → Bytes → Bool
all_of test [] = true
all_of test (c ∷ cs) = test c && all_of test cs

pub hex_digit : ℕ → ℕ
hex_digit c = if leb c 57 then c - 48 else if leb c 70 then c - 55 else c - 87

-- `Buffer.from(s, "hex")`, of hex digits
pub decode_hex : Bytes → Bytes
decode_hex [] = []
decode_hex (a ∷ []) = []
decode_hex (a ∷ b ∷ cs) = (hex_digit a * 16 + hex_digit b) ∷ decode_hex cs

-- Both alphabets, as `replace(/-/g, "+").replace(/_/g, "/")` makes them one.
pub base64_digit : ℕ → ℕ
base64_digit c =
    if between 65 90 c
    then c - 65
    else if between 97 122 c
    then c - 71
    else if between 48 57 c
    then c + 4
    else if c == 43 || c == 45
    then 62
    else 63

-- `Buffer.from(s, "base64")`, of digits without padding
pub decode_base64 : Bytes → Bytes
decode_base64 [] = []
decode_base64 (a ∷ []) = []
decode_base64 (a ∷ b ∷ []) = (base64_digit a * 4 + base64_digit b / 16) % 256 ∷ []
decode_base64 (a ∷ b ∷ c ∷ []) =
    (base64_digit a * 4 + base64_digit b / 16) % 256
    ∷ (base64_digit b * 16 + base64_digit c / 4) % 256
    ∷ []
decode_base64 (a ∷ b ∷ c ∷ d ∷ cs) =
    (base64_digit a * 4 + base64_digit b / 16) % 256
    ∷ (base64_digit b * 16 + base64_digit c / 4) % 256
    ∷ (base64_digit c * 64 + base64_digit d) % 256
    ∷ decode_base64 cs

is_padding : Bytes → Bool
is_padding [] = false
is_padding (c ∷ cs) = c == 61

-- The digits of `/^[A-Za-z0-9+/\-_]{43}=?$/`: the key but for a `=` after 43 digits.
pub without_padding : Bytes → Bytes
without_padding key = if length key == 44 && is_padding (drop 43 key) then take 43 key else key

base64_key : Bytes → Result CryptoError Bytes
base64_key digits =
    let key = decode_base64 digits in if length key == 32 then ok key else err bad_base64_key

-- What `epoch` adds to the input of the HMAC: `BigInt.asUintN(64, ...)` of a positive epoch.
unfoldable pub epoch_bytes : Option ℕ → Bytes
epoch_bytes none = []
epoch_bytes (some epoch) = if ltb 0 epoch then u64_be (epoch % 2 ^ 64) else []

-- `CONTROL_AUTH_TAG_LENGTH`
abbrev pub tag_length : ℕ
tag_length = 16

-- `crypto.timingSafeEqual`
unfoldable pub same_bytes : Bytes → Bytes → Bool
same_bytes [] [] = true
same_bytes [] (b ∷ bs) = false
same_bytes (a ∷ as_) [] = false
same_bytes (a ∷ as_) (b ∷ bs) = a == b && same_bytes as_ bs

module _ (node : NodeCrypto) where
  pub normalize_key : Bytes → Bool → Result CryptoError Bytes
  unfolding all_of
  normalize_key secret_key stretch_ascii_key =
      if length secret_key == 0
      then err empty_key
      else if length secret_key == 64 && all_of is_hex secret_key
      then ok (decode_hex secret_key)
      else if length (without_padding secret_key) == 43
          && all_of is_base64 (without_padding secret_key)
      then base64_key (without_padding secret_key)
      else if length secret_key == 32
      then ok (if stretch_ascii_key then node.pbkdf2_sha256 secret_key else secret_key)
      else err bad_key_length

  unfoldable pub create_control_packet_auth_tag :
      Bytes → Bytes → Bytes → Bool → Option ℕ → Result CryptoError Bytes
  create_control_packet_auth_tag header payload secret_key stretch epoch = do
    key ← normalize_key secret_key stretch
    ok (take 16 (node.hmac_sha256 key (header ++ payload ++ epoch_bytes epoch)))

  unfoldable pub verify_control_packet_auth_tag :
      Bytes → Bytes → Bytes → Bytes → Bool → Option ℕ → Result CryptoError (Unit {0})
  verify_control_packet_auth_tag header payload tag secret_key stretch epoch = do
    require (length tag == 16) tag_missing
    expected ← create_control_packet_auth_tag header payload secret_key stretch epoch
    require (same_bytes expected tag) authentication_failed
