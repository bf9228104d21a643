-- ===== src/Client/Burst.antt =====
-- The reliability settings of a client and the rate of its recovery bursts: `buildReliabilitySettings`
-- and `clampRecoveryBurst` of src/transport/pipeline/reliable-client/context.ts, for whole numbers of
-- milliseconds.
use signalk_edge_link.Prelude.{
  ℕ, ◌+◌, ◌-◌, ◌*◌, ◌/◌, ◌≡◌, ap, inl, inr, List, [], ◌∷◌, ◌++◌, not, ◌||◌, length, take,
  length-map, length-take, Option-cases, if_either, if◌then◌else◌, ◌≤◌, min, max, arith, Bool, true,
  false, Option, otherwise,
}
use signalk_edge_link.RateLimit.{rate_limit_window, max_packets}
use signalk_edge_link.RetransmitQueue.{
  RetransmitQueue, RetransmitPacket, retransmit, retransmit_one, oldest_sequences, eligible,
  sort_by_age,
}
use signalk_edge_link.Client.{
  Reliability, Client, Resend, recovery_loop, loop_done, resend, burst, has_packets,
  stop_recovery_burst, run_recovery_burst, is_none, nothing_pending,
}

-- The size and the interval of a burst. `Math.floor` of a half of the packets that the server lets
-- through in the interval.
unfoldable pub clamp_recovery_burst : ℕ → ℕ → ℕ × ℕ
clamp_recovery_burst size interval_ms =
    let interval = max 1 interval_ms in
    let cap = max 1 (max_packets * interval / (rate_limit_window * 2)) in
    (max 1 (min size cap), interval)

-- The optional settings of a connection.
pub record ReliabilityConfig : Type 0 where
  pub retransmit_max_age : Option ℕ
  pub retransmit_min_age : Option ℕ
  pub ack_idle_drain_age : Option ℕ
  pub force_drain_after_ack_idle : Option Bool
  pub force_drain_after : Option ℕ
  pub recovery_burst_enabled : Option Bool
  pub recovery_burst_size : Option ℕ
  pub recovery_burst_interval : Option ℕ
  pub recovery_ack_gap : Option ℕ

unfoldable pub build_reliability_settings : ReliabilityConfig → Reliability
build_reliability_settings cfg =
    let (size, interval) =
      clamp_recovery_burst (otherwise cfg.recovery_burst_size 100)
        (otherwise cfg.recovery_burst_interval 200) in
    record {
      retransmit_max_age = otherwise cfg.retransmit_max_age 120000;
      retransmit_min_age = otherwise cfg.retransmit_min_age 10000;
      ack_idle_drain_age = otherwise cfg.ack_idle_drain_age 20000;
      force_drain_after_ack_idle = otherwise cfg.force_drain_after_ack_idle false;
      force_drain_after = otherwise cfg.force_drain_after 45000;
      recovery_burst_enabled = otherwise cfg.recovery_burst_enabled true;
      recovery_burst_size = size;
      recovery_burst_interval = interval;
      recovery_ack_gap = otherwise cfg.recovery_ack_gap 4000;
    }

clamp_recovery_burst_lem :
    (size interval : ℕ)
    → 10 ≤ interval
    → ((clamp_recovery_burst size interval).0 * rate_limit_window * 2
        ≤ max_packets * (clamp_recovery_burst size interval).1)
      × (1 ≤ (clamp_recovery_burst size interval).0)
unfolding clamp_recovery_burst
clamp_recovery_burst_lem size interval h = ground arith

-- The packets of the loops: the ones being sent and the ones still to come.
abbrev pub pending_packets : List Resend → ℕ
pending_packets [] = 0
pending_packets (r ∷ rs) = 1 + length r.packets + pending_packets rs

pending-snoc :
    (rs : List Resend) (r : Resend)
    → pending_packets (rs ++ (r ∷ [])) ≡ pending_packets rs + 1 + length r.packets
pending-snoc [] r = omega arith
pending-snoc (t ∷ rs) r = omega (arith, pending-snoc rs r)

length-retransmit :
    (q : RetransmitQueue) (seqs : List ℕ) (now : ℕ) → length (retransmit q seqs now).0 ≤ length seqs
unfolding retransmit
length-retransmit q [] now = omega arith
length-retransmit q (seq ∷ seqs) now =
    let rest = length-retransmit (retransmit_one q seq now).1 seqs now in
    elim (Option-cases (retransmit_one q seq now).0) [
      | inl p ↦ rw p (omega (arith, rest))
      | inr (packet, p) ↦ rw p (omega (arith, rest))
    ]

length-oldest_sequences :
    (q : RetransmitQueue) (limit min_age now : ℕ)
    → length (oldest_sequences q limit min_age now) ≤ limit
unfolding oldest_sequences
length-oldest_sequences q limit min_age now =
    let all = sort_by_age (eligible min_age now q.queue) in
    omega (arith, length-map (take limit all) (λ (e : ℕ × ℕ). e.0), length-take limit all)

-- The packets that a client starts to send are `n` at most.
abbrev Starts : ℕ → Client → Client → Type 0
Starts n c c' = pending_packets c'.resends ≤ pending_packets c.resends + n

resend-Starts :
    (ps : List RetransmitPacket) (any : Bool) (acked : Option ℕ) (c : Client)
    → Starts (length ps) c (resend recovery_loop ps any acked c)
unfolding resend stop_recovery_burst
resend-Starts [] any acked c = omega arith
resend-Starts (p ∷ ps) any acked c =
    let r : Resend = record { loop = recovery_loop; packets = ps; acked = acked } in
    if_either (Starts (length (p ∷ ps)) c) c.socket
      (record c {
        resends = c.resends ++ (r ∷ []);
        resent = c.resent ++ ((p.sequence, acked) ∷ []);
      })
      (loop_done recovery_loop true (stop_recovery_burst c))
      (λ h. omega (arith, pending-snoc c.resends r)) (λ h. omega arith)

run_burst-Starts :
    (c : Client) (now : ℕ) → Starts c.reliability.recovery_burst_size c (run_recovery_burst c now)
unfolding run_recovery_burst burst stop_recovery_burst
run_burst-Starts c now =
    let size = c.reliability.recovery_burst_size in
    let seqs : List ℕ =
      oldest_sequences c.retransmit_queue size c.reliability.recovery_burst_interval now in
    let drawn : List RetransmitPacket = (retransmit c.retransmit_queue seqs now).0 in
    let c' : Client = record c {
      retransmit_queue = (retransmit c.retransmit_queue seqs now).1;
      recovery_drain_in_flight = true;
    } in
    if_either (Starts size c) (c.recovery_drain_in_flight || is_none c.last_ack_rinfo) c
      (if nothing_pending seqs || not c.socket then stop_recovery_burst c else burst c seqs now)
      (λ h. omega arith)
      (λ h.
        if_either (Starts size c) (nothing_pending seqs || not c.socket) (stop_recovery_burst c)
          (burst c seqs now) (λ g. omega arith)
          (λ g. omega (
            arith,
            resend-Starts drawn (has_packets drawn) c.last_acked_seq c',
            length-retransmit c.retransmit_queue seqs now,
            length-oldest_sequences c.retransmit_queue size c.reliability.recovery_burst_interval
                now,
          )))

-- If the configured interval is 10 ms or more (or the default), then whatever burst size is configured and
-- whatever the client's state is, one recovery burst draws at most half as many packets to send again as
-- the server's limiter lets through for a session in the interval of the recovery timer; and the size
-- that is left of the setting is one at least.
pub recovery_burst-rate :
    (cfg : ReliabilityConfig) (c : Client) (now : ℕ)
    → 10 ≤ otherwise cfg.recovery_burst_interval 200
    → c.reliability ≡ build_reliability_settings cfg
    → ((pending_packets (run_recovery_burst c now).resends - pending_packets c.resends)
          * rate_limit_window
          * 2
        ≤ max_packets * c.reliability.recovery_burst_interval)
      × (1 ≤ c.reliability.recovery_burst_size)
unfolding build_reliability_settings
recovery_burst-rate cfg c now h same =
    let (cap, one) =
      clamp_recovery_burst_lem (otherwise cfg.recovery_burst_size 100)
        (otherwise cfg.recovery_burst_interval 200) h in
    let size = ap (λ (r : Reliability). r.recovery_burst_size) same in
    let interval = ap (λ (r : Reliability). r.recovery_burst_interval) same in
    (omega (arith, run_burst-Starts c now, size, interval, cap), omega (arith, size, one))
