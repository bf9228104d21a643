-- ===== src/RateLimit.antt =====
-- The two limiters of incoming DATA: `dataRateLimited` of
-- src/transport/pipeline/reliable-server/data-handler.ts for a session, and `preAuthRateLimited` of
-- context.ts beside it, per address. An address is a number that stands for its text.
pub mod Budget
pub mod PreAuth
mod Tests
use signalk_edge_link.Prelude.{
  ℕ, ◌+◌, ◌*◌, Bool, true, false, Option, none, some, List, [], ◌∷◌, ltb, leb, if◌then◌else◌,
  length,
}
use signalk_edge_link.JsMap
use signalk_edge_link.JsMap.{reject}

-- `UDP_RATE_LIMIT_WINDOW`, `UDP_RATE_LIMIT_MAX_PACKETS` and `MAX_CLIENT_SESSIONS`
abbrev pub rate_limit_window : ℕ
rate_limit_window = 1000

abbrev pub max_packets : ℕ
max_packets = 200

abbrev pub max_client_sessions : ℕ
max_client_sessions = 100

-- `rateLimitCount` and `rateLimitWindowStart` of a session, or an entry of `preAuthByIp`.
pub record Counter : Type 0 where
  pub count : ℕ
  pub window_start : ℕ

-- `now - windowStart >= UDP_RATE_LIMIT_WINDOW`; the difference is negative for a clock that went back.
abbrev pub is_over : Counter → ℕ → Bool
is_over c now = leb (c.window_start + rate_limit_window) now

abbrev pub started : ℕ → Counter
started now = record { count = 0; window_start = now }

abbrev pub counted : Counter → Counter
counted c = record c { count = c.count + 1 }

-- Whether the packet is dropped, and the counter that it leaves.
unfoldable pub session_rate_limited : Counter → ℕ → Bool × Counter
session_rate_limited c now =
    let c' = counted (if is_over c now then started now else c) in (ltb max_packets c'.count, c')

abbrev pub Counters : Type 0
Counters = List (ℕ × Counter)

-- The stale entries go where there are too many.
unfoldable pub prune_counters : Counters → ℕ → Counters
prune_counters m now =
    if ltb (max_client_sessions * 4) (length m) then reject (λ ip c. is_over c now) m else m

abbrev pub count_at : Counters → ℕ → Counter → Bool × Counters
count_at m address c = (ltb max_packets (c.count + 1), JsMap.set m address (counted c))

-- A new window for the address.
unfoldable pub open_window : Counters → ℕ → ℕ → Bool × Counters
unfolding prune_counters
open_window m address now =
    count_at (prune_counters (JsMap.set m address (started now)) now) address (started now)

unfoldable pub pre_auth_rate_limited : Counters → ℕ → ℕ → Bool × Counters
pre_auth_rate_limited m address now = elim (JsMap.get m address) [
  | none ↦ open_window m address now
  | some c ↦ if is_over c now then open_window m address now else count_at m address c
]
