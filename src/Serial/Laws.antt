-- ===== src/Serial/Laws.antt =====
-- Serial numbers against the unbounded numbers that they stand for.
use signalk_edge_link.Prelude.{ℕ, ◌+◌, ◌-◌, ◌^◌, ◌<◌, ◌≤◌, ◌≡◌, ◌≢◌, arith, ltb}
use signalk_edge_link.Serial.{half, u32, sub32, is_ahead, is_behind}

-- The distance back to a number that is less than 2 ^ 32 behind is the true one.
pub sub32-u32 : (top n : ℕ) → n ≤ top → top < n + 2 ^ 32 → sub32 (u32 top) (u32 n) ≡ top - n
sub32-u32 top n h k = omega arith

-- Within half the number space of one another, serial comparison is the true comparison.
pub is_ahead-u32 :
    (n top : ℕ) → n < top + half → top < n + half → is_ahead (u32 n) (u32 top) ≡ ltb top n
is_ahead-u32 n top h k = ground arith

-- Two numbers less than 2 ^ 32 apart have different serial numbers.
pub u32-ne : (a b : ℕ) → a < b → b < a + 2 ^ 32 → u32 a ≢ u32 b
u32-ne a b h k = omega arith

-- Distances from a reference that moves on by `j`.
pub sub32_shift_ge : (s e j : ℕ) → j ≤ sub32 s e → sub32 s (u32 (e + j)) ≡ sub32 s e - j
sub32_shift_ge s e j h = omega arith

pub sub32_shift_lt :
    (s e j : ℕ) → sub32 s e < j → j ≤ 2 ^ 32 → sub32 s (u32 (e + j)) ≡ sub32 s e + 2 ^ 32 - j
sub32_shift_lt s e j h k = omega arith

-- A number at distance `b` behind `e` is behind `e - m` just if it is more than `m` behind.
pub is_behind-sub32 :
    (s e m : ℕ) → m ≤ half → sub32 e s < half → is_behind s (sub32 e m) ≡ ltb m (sub32 e s)
is_behind-sub32 s e m h k = ground arith

pub sub32_inj : (s r e : ℕ) → s < 2 ^ 32 → r < 2 ^ 32 → sub32 s e ≡ sub32 r e → s ≡ r
sub32_inj s r e h k l = omega arith
