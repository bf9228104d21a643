-- ===== src/Serial.antt =====
-- uint32 serial numbers: `x >>> 0`, and the half-range comparison of src/transport/reliability
-- (sequence.ts, replay-window.ts, retransmit-queue.ts). `(a - b) >>> 0` is the forward distance
-- from `b` to `a` modulo 2 ^ 32; `-` on ℕ stops at 0, so the modulus is added first.
pub mod Laws
use signalk_edge_link.Prelude.{ℕ, ◌+◌, ◌-◌, ◌%◌, ◌^◌, Bool, not, ◌&&◌, ltb, ◌==◌}

abbrev pub half : ℕ
half = 0x80000000

-- `x >>> 0`
abbrev pub u32 : ℕ → ℕ
u32 x = x % 2 ^ 32

-- `(a - b) >>> 0`
abbrev pub sub32 : ℕ → ℕ → ℕ
sub32 a b = (a + (2 ^ 32 - b % 2 ^ 32)) % 2 ^ 32

-- `(a + 1) >>> 0`
abbrev pub next32 : ℕ → ℕ
next32 a = (a + 1) % 2 ^ 32

-- `distance !== 0 && distance < 0x80000000`
abbrev pub is_near : ℕ → Bool
is_near d = not (d == 0) && ltb d half

-- `_isAhead`, also `isSeqAhead` and `isAhead` of the pipelines
abbrev pub is_ahead : ℕ → ℕ → Bool
is_ahead seq reference = is_near (sub32 seq reference)

-- `_isBehind`
abbrev pub is_behind : ℕ → ℕ → Bool
is_behind seq reference = is_near (sub32 reference seq)

-- `_distanceForward`
abbrev pub distance_forward : ℕ → ℕ → ℕ
distance_forward from to = sub32 to from
