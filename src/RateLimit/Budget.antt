-- ===== src/RateLimit/Budget.antt =====
-- How many packets the limiters let through.
use signalk_edge_link.Prelude.{ℕ, ◌+◌, ◌-◌, ◌≤◌, ◌<◌, List, [], ◌∷◌, leb, if◌then◌else◌, arith, All}
use signalk_edge_link.RateLimit.{Counter, rate_limit_window, max_packets, session_rate_limited}

-- The packets of a session that are let through.
pub passed : Counter → List ℕ → ℕ
passed c [] = 0
passed c (now ∷ ns) =
    let rest = passed (session_rate_limited c now).1 ns in
    if (session_rate_limited c now).0 then rest else rest + 1

-- A time in the interval of one window length from `from` on.
abbrev pub InWindow : ℕ → ℕ → Type 0
InWindow from now = (from ≤ now) × (now < from + rate_limit_window)

-- What a counter still allows within such an interval.
abbrev pub allowance : ℕ → Counter → ℕ
allowance from c =
    if leb from c.window_start then max_packets - c.count else max_packets - c.count + max_packets

passed-le :
    (from : ℕ) (c : Counter) (ns : List ℕ) → All (InWindow from) ns → passed c ns ≤ allowance from c
unfolding passed session_rate_limited
passed-le from c [] i = omega arith
passed-le from c (now ∷ ns) i = ground (arith, passed-le from (session_rate_limited c now).1 ns i.1)
