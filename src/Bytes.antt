-- ===== src/Bytes.antt =====
-- Node's Buffer, as a list of bytes: the big-endian reads and writes that the codec uses. A read or a
-- write beyond the end throws in Node; each caller has checked the length.
use signalk_edge_link.Prelude.{
  ℕ, ◌+◌, ◌*◌, ◌/◌, ◌%◌, ◌^◌, ◌<◌, ◌≡◌, List, [], ◌∷◌, arith, set, get_or,
}

abbrev pub Bytes : Type 0
Bytes = List ℕ

-- `buffer.writeUInt32BE(value, offset)`, for a value below 2 ^ 32
abbrev pub write_u32_be : Bytes → ℕ → ℕ → Bytes
write_u32_be b value offset =
    set
      (set (set (set b offset (value / 2 ^ 24 % 256)) (offset + 1) (value / 2 ^ 16 % 256))
        (offset + 2) (value / 2 ^ 8 % 256))
      (offset + 3) (value % 256)

-- `buffer.writeUInt16BE(value, offset)`, for a value below 2 ^ 16
abbrev pub write_u16_be : Bytes → ℕ → ℕ → Bytes
write_u16_be b value offset = set (set b offset (value / 2 ^ 8 % 256)) (offset + 1) (value % 256)

-- `writeBigUInt64BE(value, 0)` on 8 bytes, for a value below 2 ^ 64
abbrev pub u64_be : ℕ → Bytes
u64_be value =
    value / 2 ^ 56 % 256
    ∷ value / 2 ^ 48 % 256
    ∷ value / 2 ^ 40 % 256
    ∷ value / 2 ^ 32 % 256
    ∷ value / 2 ^ 24 % 256
    ∷ value / 2 ^ 16 % 256
    ∷ value / 2 ^ 8 % 256
    ∷ value % 256
    ∷ []

abbrev pub join32 : ℕ → ℕ → ℕ → ℕ → ℕ
join32 a b c d = a * 2 ^ 24 + b * 2 ^ 16 + c * 2 ^ 8 + d

-- `buffer.readUInt32BE(offset)`
abbrev pub read_u32_be : Bytes → ℕ → ℕ
read_u32_be b offset =
    join32 (get_or b offset 0) (get_or b (offset + 1) 0) (get_or b (offset + 2) 0)
      (get_or b (offset + 3) 0)

-- `buffer.readUInt16BE(offset)`
abbrev pub read_u16_be : Bytes → ℕ → ℕ
read_u16_be b offset = get_or b offset 0 * 2 ^ 8 + get_or b (offset + 1) 0

pub join32-split :
    (v : ℕ)
    → v < 2 ^ 32
    → join32 (v / 2 ^ 24 % 256) (v / 2 ^ 16 % 256) (v / 2 ^ 8 % 256) (v % 256) ≡ v
join32-split v h = omega arith

pub join16-split : (v : ℕ) → v < 2 ^ 16 → v / 2 ^ 8 % 256 * 2 ^ 8 + v % 256 ≡ v
join16-split v h = omega arith
