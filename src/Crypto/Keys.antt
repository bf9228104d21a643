-- ===== src/Crypto/Keys.antt =====
-- The keys that `normalizeKey` gives.
use signalk_edge_link.Prelude.{
  ℕ, ◌+◌, ◌%◌, ◌<◌, map, List, Result, if◌then◌else◌, sym, if-true, if-false, ◌*◌, ◌/◌, ◌≡◌, refl,
  Bool, true, false, ◌&&◌, Bool-cases, ◌⊎◌, inl, inr, [], ◌∷◌, arith, ◌==◌, length, ◌≢◌, ok, err,
}
use signalk_edge_link.Bytes.{Bytes}
use signalk_edge_link.Crypto.{
  NodeCrypto, CryptoError, hex_digit, empty_key, bad_key_length, decode_hex, decode_base64,
  without_padding, base64_key, all_of, is_hex, is_base64, normalize_key,
}

-- Two digits to a byte.
length-decode_hex : (s : Bytes) → length (decode_hex s) ≡ length s / 2
unfolding decode_hex
length-decode_hex [] = refl
length-decode_hex (a ∷ []) = refl
length-decode_hex (a ∷ b ∷ cs) = omega (arith, length-decode_hex cs)

-- Four digits to three bytes.
length-decode_base64 : (s : Bytes) → length (decode_base64 s) ≡ length s * 3 / 4
unfolding decode_base64
length-decode_base64 [] = refl
length-decode_base64 (a ∷ []) = refl
length-decode_base64 (a ∷ b ∷ []) = refl
length-decode_base64 (a ∷ b ∷ c ∷ []) = refl
length-decode_base64 (a ∷ b ∷ c ∷ d ∷ cs) = omega (arith, length-decode_base64 cs)

base64_key_lem :
    (digits : Bytes) → length digits ≡ 43 → base64_key digits ≡ ok (decode_base64 digits)
unfolding base64_key
base64_key_lem digits h =
    let l : length (decode_base64 digits) ≡ 32 = omega (arith, length-decode_base64 digits) in rw l

-- The formats of a key: 64 hexadecimal digits, 43 base64 digits and perhaps their padding, 32 characters.
abbrev pub IsHexKey : Bytes → Type 0
IsHexKey key = (length key ≡ 64) × (all_of is_hex key ≡ true)

abbrev pub IsBase64Key : Bytes → Type 0
IsBase64Key key =
    (length (without_padding key) ≡ 43) × (all_of is_base64 (without_padding key) ≡ true)

-- The half bytes of a text of bytes, which are its hexadecimal digits.
abbrev pub nibbles : Bytes → List ℕ
nibbles [] = []
nibbles (b ∷ bs) = b / 16 ∷ b % 16 ∷ nibbles bs

-- What a key of a format gives, and what is refused.
abbrev pub Normalized : NodeCrypto → Bytes → Bool → Result CryptoError Bytes → Type 0
Normalized node key stretch (ok k) =
    (length k ≡ 32)
    × ((IsHexKey key × (nibbles k ≡ map hex_digit key))
        ⊎ ((IsBase64Key key × (k ≡ decode_base64 (without_padding key)))
            ⊎ ((length key ≡ 32) × (k ≡ (if stretch then node.pbkdf2_sha256 key else key)))))
Normalized node key stretch (err e) =
    (¬ IsHexKey key)
    × (¬ IsBase64Key key)
    × (length key ≢ 32)
    × (e ≡ (if length key == 0 then empty_key else bad_key_length))

hex_digit-lt : (c : ℕ) → is_hex c ≡ true → hex_digit c < 16
unfolding hex_digit
hex_digit-lt c h = ground arith

nibbles-decode_hex :
    (s : Bytes)
    → all_of is_hex s ≡ true
    → length s % 2 ≡ 0
    → nibbles (decode_hex s) ≡ map hex_digit s
unfolding decode_hex all_of
nibbles-decode_hex [] h even = refl
nibbles-decode_hex (a ∷ []) h even = absurd (omega arith)
nibbles-decode_hex (a ∷ b ∷ cs) h even =
    let x : hex_digit a < 16 = hex_digit-lt a (ground arith) in
    let y : hex_digit b < 16 = hex_digit-lt b (ground arith) in
    let high : (hex_digit a * 16 + hex_digit b) / 16 ≡ hex_digit a = omega arith in
    let low : (hex_digit a * 16 + hex_digit b) % 16 ≡ hex_digit b = omega arith in
    let rest = nibbles-decode_hex cs (ground arith) (omega arith) in λ i. high i ∷ low i ∷ rest i

length-normal :
    (node : NodeCrypto) (key : Bytes) (stretch : Bool)
    → length key ≡ 32
    → length (if stretch then node.pbkdf2_sha256 key else key) ≡ 32
length-normal node key true h = node.length-pbkdf2_sha256 key
length-normal node key false h = h

no_digits : (key : Bytes) → (length key == 0) ≡ true → length (without_padding key) ≢ 43
unfolding without_padding
no_digits [] z h = absurd (omega arith)
no_digits (c ∷ cs) z h = absurd (ground arith)

-- A key is refused if and only if it has none of the formats. A key of a format gives 32 bytes: the ones
-- with its hexadecimal digits, the decoded base64 digits (which never fail to be 32 bytes), or the
-- characters themselves, stretched if that is asked for.
pub normalize_key_lem :
    (node : NodeCrypto) (key : Bytes) (stretch : Bool)
    → Normalized node key stretch (normalize_key node key stretch)
unfolding normalize_key
normalize_key_lem node key stretch = elim (Bool-cases (length key == 0)) [
  | inl z ↦
      rw (normalize_key, z)
        (
          λ (h : IsHexKey key). absurd (ground (arith, h.0)),
          λ (h : IsBase64Key key). absurd (no_digits key z h.0),
          ground arith,
          sym (if-true (length key == 0) empty_key bad_key_length z),
        )
  | inr p ↦ elim (Bool-cases (length key == 64 && all_of is_hex key)) [
    | inl hex ↦
        rw (normalize_key, p, hex)
          (
            ground (arith, length-decode_hex key),
            inl (
              (ground arith, ground arith),
              nibbles-decode_hex key (ground arith) (ground arith),
            ),
          )
    | inr q ↦
        elim (Bool-cases
          (length (without_padding key) == 43 && all_of is_base64 (without_padding key))) [
            | inl digits ↦
                let n : length (without_padding key) ≡ 43 = ground arith in
                rw (normalize_key, p, q, digits, base64_key_lem (without_padding key) n)
                  (
                    omega (arith, length-decode_base64 (without_padding key)),
                    inr (inl ((n, ground arith), refl)),
                  )
            | inr r ↦
                let no_hex : ¬ IsHexKey key = λ h. absurd (ground (arith, h.0, h.1)) in
                let no_base64 : ¬ IsBase64Key key = λ h. absurd (ground (arith, h.0, h.1)) in
                elim (Bool-cases (length key == 32)) [
                  | inl raw ↦
                      let l : length key ≡ 32 = ground arith in
                      rw (normalize_key, p, q, r, raw)
                        (length-normal node key stretch l, inr (inr (l, refl)))
                  | inr other ↦
                      rw (normalize_key, p, q, r, other)
                        (
                          no_hex,
                          no_base64,
                          ground arith,
                          sym (if-false (length key == 0) empty_key bad_key_length p),
                        )
                ]
          ]
  ]
]

-- A 32-byte text that is not stretched is the key itself.
pub normalize_key-ascii :
    (node : NodeCrypto) (key : Bytes) → length key ≡ 32 → normalize_key node key false ≡ ok key
unfolding normalize_key without_padding
normalize_key-ascii node key h =
    let hex : (length key == 64) ≡ false = ground arith in
    let base64 : (length (without_padding key) == 43) ≡ false = ground arith in
    let some_key : (length key == 0) ≡ false = ground arith in
    let raw : (length key == 32) ≡ true = ground arith in rw (some_key, hex, base64, raw)
