-- ===== src/Bonding.antt =====
-- Two bonded links with failover and failback: class BondingManager of src/transport/bonding.ts, with the
-- decisions and the loss accounting of bonding-health.ts beside it. `now` is `Date.now()`, read once for
-- a tick. Round trip times and loss ratios, which are floats there, are exact fractions; the quality
-- score, which nothing decides on, the sockets themselves and the published metrics are left out.
pub mod Calm
pub mod Probe
mod Tests
use signalk_edge_link.Prelude.{
  ℕ, ◌+◌, ◌-◌, ◌*◌, Bool, true, false, not, ◌&&◌, ◌||◌, Option, none, some, List, [], ◌∷◌, ◌++◌,
  ltb, leb, ◌==◌, if◌then◌else◌, length, replicate,
}
use signalk_edge_link.JsMap
use signalk_edge_link.CircularBuffer as Buffer
use signalk_edge_link.CircularBuffer.{CircularBuffer}

pub record Ratio : Type 0 where
  pub num : ℕ
  pub den : ℕ

-- `a < b`, for positive denominators.
abbrev ratio_lt : Ratio → Ratio → Bool
ratio_lt a b = ltb (a.num * b.den) (b.num * a.den)

abbrev times_ratio : Ratio → ℕ → ℕ → Ratio
times_ratio a n d = record { num = a.num * n; den = a.den * d }

pub data LinkName : Type 0 where
  primary_link : LinkName
  backup_link : LinkName

-- `LinkStatus`
pub data LinkStatus : Type 0 where
  unknown_status : LinkStatus
  active_status : LinkStatus
  standby_status : LinkStatus
  down_status : LinkStatus

abbrev pub is_down : LinkStatus → Bool
is_down down_status = true
is_down other = false

-- `LinkState`; the heartbeats that are not answered yet have the time they were sent.
pub record LinkState : Type 0 where
  pub socket : Bool
  rtt : Ratio
  pub loss : Ratio
  pub status : LinkStatus
  pub heartbeat_seq : ℕ
  pub pending_heartbeats : List (ℕ × ℕ)
  heartbeat_responses : ℕ
  pub heartbeats_sent : ℕ
  pub loss_samples : CircularBuffer Bool
  pub last_heartbeat_response : ℕ

pub record FailoverThresholds : Type 0 where
  pub rtt_threshold : Ratio
  pub loss_threshold : Ratio
  pub failback_delay : ℕ
  pub heartbeat_timeout : ℕ

-- The changes of the active link, which are notified and called back, the last one first.
abbrev pub Switches : Type 0
Switches = List (ℕ × LinkName)

pub record BondingManager : Type 0 where
  pub primary : LinkState
  pub backup : LinkState
  pub active_link : LinkName
  pub failover_thresholds : FailoverThresholds
  pub last_failover_time : ℕ
  last_failback_time : ℕ
  pub switches : Switches

-- `BONDING_FAILOVER_MIN_DWELL`
abbrev failover_min_dwell : ℕ
failover_min_dwell = 5000

abbrev new_samples : CircularBuffer Bool
new_samples = record { buffer = replicate 10 none; size = 10; index = 0; filled = false }

-- `createLinkState`, before the socket is there.
unfoldable pub create_link_state : LinkState
create_link_state = record {
  socket = false;
  rtt = record { num = 0; den = 1 };
  loss = record { num = 0; den = 1 };
  status = unknown_status;
  heartbeat_seq = 0;
  pending_heartbeats = [];
  heartbeat_responses = 0;
  heartbeats_sent = 0;
  loss_samples = new_samples;
  last_heartbeat_response = 0;
}

-- The constructor, and `initialize` at a time.
unfoldable pub initialize : FailoverThresholds → ℕ → BondingManager
initialize thresholds now = record {
  primary = record create_link_state { socket = true; status = active_status };
  backup = record create_link_state { socket = true; status = standby_status };
  active_link = primary_link;
  failover_thresholds = thresholds;
  last_failover_time = 0;
  last_failback_time = now;
  switches = [];
}

-- `expirePendingHeartbeats`: each that is too old is a lost sample.
unfoldable pub expire_pending_heartbeats :
    List (ℕ × ℕ) → CircularBuffer Bool → ℕ → ℕ → List (ℕ × ℕ) × CircularBuffer Bool
expire_pending_heartbeats [] samples now timeout = ([], samples)
expire_pending_heartbeats ((seq, at) ∷ m) samples now timeout =
    let gone = expire_pending_heartbeats m (Buffer.push samples false) now timeout in
    let kept = expire_pending_heartbeats m samples now timeout in
    if ltb (at + timeout) now then gone else ((seq, at) ∷ kept.0, kept.1)

unfoldable pub received_of : List (Option Bool) → ℕ
received_of [] = 0
received_of (some true ∷ ss) = 1 + received_of ss
received_of (some false ∷ ss) = received_of ss
received_of (none ∷ ss) = received_of ss

-- `computeLossRatio`; `1 - received / length` is between 0 and 1.
unfoldable pub compute_loss_ratio : LinkState → Option Ratio
compute_loss_ratio l =
    let n = Buffer.length_of l.loss_samples in
    let received = received_of (Buffer.to_array l.loss_samples) in
    if ltb 0 n
    then some (record { num = n - received; den = n })
    else if ltb 0 l.heartbeats_sent
    then some (record { num = l.heartbeats_sent - l.heartbeat_responses; den = l.heartbeats_sent })
    else none

abbrev pub with_loss : LinkState → Option Ratio → LinkState
with_loss l none = l
with_loss l (some r) = record l { loss = r }

-- `_maybeMarkLinkDown`
unfoldable pub maybe_mark_link_down : LinkState → ℕ → ℕ → LinkState
maybe_mark_link_down l now timeout =
    if ltb 3 l.heartbeats_sent && ltb (l.last_heartbeat_response + timeout) now
    then record l { status = down_status }
    else l

-- `_measureLinkHealth`: the probe that is sent has the number `heartbeat_seq`.
unfoldable pub measure_link_health : LinkState → ℕ → ℕ → LinkState
measure_link_health l now timeout =
    let pending = JsMap.set l.pending_heartbeats l.heartbeat_seq now in
    let (kept, samples) = expire_pending_heartbeats pending l.loss_samples now timeout in
    let probed = record l {
      heartbeat_seq = l.heartbeat_seq + 1;
      heartbeats_sent = l.heartbeats_sent + 1;
      pending_heartbeats = kept;
      loss_samples = samples;
    } in
    if l.socket
    then maybe_mark_link_down (with_loss probed (compute_loss_ratio probed)) now timeout
    else l

-- `updateRttEma` with the weight 0.2.
unfoldable pub update_rtt_ema : Ratio → ℕ → Ratio
update_rtt_ema rtt sample =
    if rtt.num == 0
    then record { num = sample; den = 1 }
    else record { num = sample * rtt.den + 4 * rtt.num; den = 5 * rtt.den }

abbrev pub is_primary : LinkName → Bool
is_primary primary_link = true
is_primary backup_link = false

-- `_recordHeartbeatRtt` of a link that is active or not.
unfoldable pub record_heartbeat_rtt : LinkState → Bool → ℕ → ℕ → ℕ → LinkState
record_heartbeat_rtt l active seq sent_at now = record l {
  pending_heartbeats = JsMap.delete l.pending_heartbeats seq;
  heartbeat_responses = l.heartbeat_responses + 1;
  last_heartbeat_response = now;
  loss_samples = Buffer.push l.loss_samples true;
  rtt = update_rtt_ema l.rtt (now - sent_at);
  status =
      if is_down l.status then (if active then active_status else standby_status) else l.status;
}

-- `_handleHeartbeatResponse` once the response is valid.
unfoldable pub handle_heartbeat_response : LinkState → Bool → ℕ → ℕ → LinkState
handle_heartbeat_response l active seq now = elim (JsMap.get l.pending_heartbeats seq) [
  | none ↦ l
  | some sent_at ↦ record_heartbeat_rtt l active seq sent_at now
]

-- `shouldFailover`
unfoldable pub should_failover : BondingManager → ℕ → Bool
should_failover b now =
    is_primary b.active_link
    && (not (is_down b.backup.status)
        && (is_down b.primary.status
            || (leb (b.last_failback_time + failover_min_dwell) now
                && (ratio_lt b.failover_thresholds.rtt_threshold b.primary.rtt
                    || ratio_lt b.failover_thresholds.loss_threshold b.primary.loss))))

-- `shouldFailback`, with the hysteresis factors 0.8 and 0.5.
unfoldable pub should_failback : BondingManager → ℕ → Bool
should_failback b now =
    not (is_primary b.active_link)
    && (leb (b.last_failover_time + b.failover_thresholds.failback_delay) now
        && (not (is_down b.primary.status)
            && (ratio_lt b.primary.rtt (times_ratio b.failover_thresholds.rtt_threshold 4 5)
                && ratio_lt b.primary.loss (times_ratio b.failover_thresholds.loss_threshold 1 2))))

unfoldable pub failover : BondingManager → ℕ → BondingManager
failover b now =
    if is_primary b.active_link
    then record b {
      active_link = backup_link;
      primary = record b.primary {
        status = if is_down b.primary.status then down_status else standby_status;
      };
      backup = record b.backup { status = active_status };
      last_failover_time = now;
      switches = (now, backup_link) ∷ b.switches;
    }
    else b

unfoldable pub failback : BondingManager → ℕ → BondingManager
failback b now = if is_primary b.active_link then b else record b {
  active_link = primary_link;
  primary = record b.primary { status = active_status };
  backup = record b.backup { status = standby_status };
  last_failback_time = now;
  switches = (now, primary_link) ∷ b.switches;
}

-- `forceFailover`
unfoldable pub force_failover : BondingManager → ℕ → BondingManager
force_failover b now = if is_primary b.active_link then failover b now else failback b now

-- `_checkHealth`
unfoldable pub check_health : BondingManager → ℕ → BondingManager
check_health b now =
    let timeout = b.failover_thresholds.heartbeat_timeout in
    let measured = record b {
      primary = measure_link_health b.primary now timeout;
      backup = measure_link_health b.backup now timeout;
    } in
    if should_failover measured now
    then failover measured now
    else if should_failback measured now
    then failback measured now
    else measured

abbrev on_link : BondingManager → LinkName → (LinkState → LinkState) → BondingManager
on_link b primary_link f = record b { primary = f b.primary }
on_link b backup_link f = record b { backup = f b.backup }

abbrev is_active : BondingManager → LinkName → Bool
is_active b primary_link = is_primary b.active_link
is_active b backup_link = not (is_primary b.active_link)

-- The `error` event of a link's socket, and what `recreateLinkSocket` leaves five seconds later.
unfoldable pub socket_error : LinkState → LinkState
socket_error l = record l { status = down_status }

unfoldable pub recreate_link_socket : LinkState → Bool → LinkState
recreate_link_socket l bound = record l {
  socket = true;
  status = if bound then standby_status else down_status;
}

-- What happens to the links, in any order.
pub data Input : Type 0 where
  health_tick : ℕ → Input
  heartbeat : LinkName → ℕ → ℕ → Input
  link_error : LinkName → Input
  link_recreated : LinkName → Bool → Input
  forced : ℕ → Input

unfoldable pub step : BondingManager → Input → BondingManager
step b (health_tick now) = check_health b now
step b (heartbeat name seq now) =
    on_link b name (λ l. handle_heartbeat_response l (is_active b name) seq now)
step b (link_error name) = on_link b name socket_error
step b (link_recreated name bound) = on_link b name (λ l. recreate_link_socket l bound)
step b (forced now) = force_failover b now

unfoldable pub run : BondingManager → List Input → BondingManager
run b [] = b
run b (i ∷ is_) = run (step b i) is_
