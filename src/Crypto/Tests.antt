-- ===== src/Crypto/Tests.antt =====
-- The text forms of a key.
use signalk_edge_link.Prelude.{◌≡◌, refl, [], ◌∷◌, map}
use signalk_edge_link.Crypto.{base64_digit, decode_base64, hex_digit, decode_hex}

-- "Az9-_+"
base64_digits :
    map base64_digit (65 ∷ 122 ∷ 57 ∷ 45 ∷ 95 ∷ 43 ∷ []) ≡ 0 ∷ 51 ∷ 61 ∷ 62 ∷ 63 ∷ 62 ∷ []
unfolding base64_digit
base64_digits = refl

-- "aGk" and "6869" are both "hi".
decode_base64-text : decode_base64 (97 ∷ 71 ∷ 107 ∷ []) ≡ 104 ∷ 105 ∷ []
unfolding decode_base64 base64_digit
decode_base64-text = refl

decode_hex-text : decode_hex (54 ∷ 56 ∷ 54 ∷ 57 ∷ []) ≡ 104 ∷ 105 ∷ []
unfolding decode_hex hex_digit
decode_hex-text = refl
