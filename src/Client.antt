-- ===== src/Client.antt =====
-- The sending side of the reliable pipeline: src/transport/pipeline/reliable-client/reliability.ts, over the
-- retransmit queue, and the sending of a DATA packet in delta-sender.ts beside it. `now` is
-- `Date.now()` and `hr` is `performance.now()`. A handler runs up to an `await` of a packet's send; the rest
-- of its loop stands in `resends`, and the end of the send is an input of its own, so that the handlers
-- interleave as they do in the program. There is one socket, without bonding.
-- The congestion controller's numbers are floats: `rtt_age` is what `effectiveRetransmitAge` makes of its
-- average round trip time, and what it is told is left out, as are the jitter and the monitoring hooks.
pub mod Kept
pub mod First
pub mod Fresh
pub mod Ahead
pub mod Burst
mod Tests
use signalk_edge_link.Prelude.{
  ℕ, ◌+◌, ◌-◌, min, max, Bool, true, false, not, ◌&&◌, ◌||◌, Option, none, some, List, [], ◌∷◌,
  ◌++◌, ltb, leb, ◌==◌, if◌then◌else◌, length, take_out, Result, ok, err,
}
use signalk_edge_link.Serial.{u32, is_ahead}
use signalk_edge_link.Bytes.{Bytes}
use signalk_edge_link.Packet.{PacketError}
use signalk_edge_link.Packet.Parser.{parse_ack_payload, parse_nak_payload}
use signalk_edge_link.CircularBuffer as Buffer
use signalk_edge_link.CircularBuffer.{CircularBuffer}
use signalk_edge_link.RetransmitQueue as Queue
use signalk_edge_link.RetransmitQueue.{
  RetransmitQueue, RetransmitPacket, QueueEntry, acknowledge_range, retransmit, expire_old,
  oldest_sequences, get_size, clear,
}

-- `ClientReliabilityConfig`
pub record Reliability : Type 0 where
  pub retransmit_max_age : ℕ
  pub retransmit_min_age : ℕ
  pub ack_idle_drain_age : ℕ
  pub force_drain_after_ack_idle : Bool
  pub force_drain_after : ℕ
  pub recovery_burst_enabled : Bool
  pub recovery_burst_size : ℕ
  pub recovery_burst_interval : ℕ
  pub recovery_ack_gap : ℕ

pub record Metrics : Type 0 where
  pub queue_depth : ℕ
  pub retransmissions : ℕ
  pub packets_abandoned : ℕ
  pub rtt_samples : ℕ
  pub deltas_sent : ℕ

-- The two loops that send packets again: of `receiveNAK` and of `runRecoveryBurst`.
pub data Loop : Type 0 where
  nak_loop recovery_loop : Loop

-- A loop whose send is awaited, with the packets that are still to come. `acked` is `lastAckedSeq` of when
-- the loop drew its packets from the queue; the code does not keep it.
pub record Resend : Type 0 where
  pub loop : Loop
  pub packets : List RetransmitPacket
  pub acked : Option ℕ

-- `ClientContext`; an address and its port are a number. `resent` logs the packets that were handed to the
-- socket again, each with the `lastAckedSeq` of when its loop drew it.
pub record Client : Type 0 where
  pub reliability : Reliability
  pub retransmit_queue : RetransmitQueue
  pub last_acked_seq : Option ℕ
  pub last_ack_at : ℕ
  pub last_ack_rinfo : Option ℕ
  pub recovery_drain_timer : Bool
  pub recovery_drain_in_flight : Bool
  pub socket : Bool
  pub loss_window : CircularBuffer Bool
  pub rtt_samples : CircularBuffer ℕ
  pub metrics : Metrics
  pub resends : List Resend
  pub resent : List (ℕ × Option ℕ)

-- `createMutableState`, over a new queue and new buffers.
unfoldable pub create_client :
    Reliability → Option ℕ → Option ℕ → CircularBuffer Bool → CircularBuffer ℕ → ℕ → Client
create_client reliability max_size max_retransmits loss_window rtt_samples now = record {
  reliability = reliability;
  retransmit_queue = Queue.create max_size max_retransmits;
  last_acked_seq = none;
  last_ack_at = now;
  last_ack_rinfo = none;
  recovery_drain_timer = false;
  recovery_drain_in_flight = false;
  socket = true;
  loss_window = loss_window;
  rtt_samples = rtt_samples;
  metrics = record {
    queue_depth = 0;
    retransmissions = 0;
    packets_abandoned = 0;
    rtt_samples = 0;
    deltas_sent = 0;
  };
  resends = [];
  resent = [];
}

-- `Date.now() - mut.lastAckAt >= ms`; the difference is negative for a clock that went back.
abbrev pub idle_since : Client → ℕ → ℕ → Bool
idle_since c now ms = leb (c.last_ack_at + ms) now

abbrev rtt_bound : Reliability → Option ℕ → ℕ
rtt_bound r none = r.retransmit_max_age
rtt_bound r (some age) = min r.retransmit_max_age (max r.retransmit_min_age age)

-- `rtt_age` is `Math.round(smoothedRtt * retransmitRttMultiplier)` where there is an average.
unfoldable pub effective_retransmit_age : Client → Option ℕ → ℕ → ℕ
effective_retransmit_age c rtt_age now =
    let r = c.reliability in
    let age = rtt_bound r rtt_age in
    max r.retransmit_min_age
      (if idle_since c now r.ack_idle_drain_age then min age r.ack_idle_drain_age else age)

abbrev pub depth_read : Client → Client
depth_read c = record c { metrics = record c.metrics { queue_depth = get_size c.retransmit_queue } }

unfoldable pub prune_retransmit_queue : Client → Option ℕ → ℕ → Client
prune_retransmit_queue c rtt_age now =
    let r = c.reliability in
    let (expired, q) = expire_old c.retransmit_queue (effective_retransmit_age c rtt_age now) now in
    if r.force_drain_after_ack_idle
      && (idle_since c now r.force_drain_after && ltb 0 (get_size c.retransmit_queue))
    then record c {
      retransmit_queue = clear c.retransmit_queue;
      metrics = record c.metrics { queue_depth = 0 };
    }
    else if ltb 0 expired
    then depth_read (record c { retransmit_queue = q })
    else record c { retransmit_queue = q }

unfoldable pub stop_recovery_burst : Client → Client
stop_recovery_burst c = record c { recovery_drain_timer = false }

-- What `finally` does.
abbrev pub loop_left : Loop → Client → Client
loop_left nak_loop c = c
loop_left recovery_loop c = record c { recovery_drain_in_flight = false }

-- After the loop: one loss sample for a batch of packets.
abbrev pub loop_done : Loop → Bool → Client → Client
loop_done l any c =
    let c' = record c {
      loss_window = if any then Buffer.push c.loss_window true else c.loss_window;
    } in
    loop_left l (depth_read c')

-- What `catch` does.
abbrev pub loop_failed : Loop → Client → Client
loop_failed nak_loop c = c
loop_failed recovery_loop c = loop_left recovery_loop (stop_recovery_burst c)

-- The loop up to its next `await`. Without a socket a burst breaks off, and the send of a NAK's packet
-- throws.
unfoldable pub resend : Loop → List RetransmitPacket → Bool → Option ℕ → Client → Client
resend l [] any acked c = loop_done l any c
resend nak_loop (p ∷ ps) any acked c =
    if c.socket
    then record c {
      resends = c.resends ++ (record { loop = nak_loop; packets = ps; acked = acked } ∷ []);
      resent = c.resent ++ ((p.sequence, acked) ∷ []);
    }
    else c
resend recovery_loop (p ∷ ps) any acked c =
    if c.socket
    then record c {
      resends = c.resends ++ (record { loop = recovery_loop; packets = ps; acked = acked } ∷ []);
      resent = c.resent ++ ((p.sequence, acked) ∷ []);
    }
    else loop_done recovery_loop true (stop_recovery_burst c)

abbrev pub resend_counted : Client → Client
resend_counted c = record c {
  metrics = record c.metrics { retransmissions = c.metrics.retransmissions + 1 };
}

-- An awaited send has succeeded, or failed.
unfoldable pub resend_ends : ℕ → Bool → Client → Client
resend_ends i success c = elim (take_out i c.resends) [
  | none ↦ c
  | some (r, others) ↦
      if success
      then resend r.loop r.packets true r.acked (resend_counted (record c { resends = others }))
      else loop_failed r.loop (record c { resends = others })
]

abbrev pub has_packets : List RetransmitPacket → Bool
has_packets [] = false
has_packets (p ∷ ps) = true

-- The part of `runRecoveryBurst` once there is something to send.
unfoldable pub burst : Client → List ℕ → ℕ → Client
burst c pending now =
    let (packets, q) = retransmit c.retransmit_queue pending now in
    resend recovery_loop packets (has_packets packets) c.last_acked_seq
      (record c { retransmit_queue = q; recovery_drain_in_flight = true })

abbrev pub is_none : Option ℕ → Bool
is_none none = true
is_none (some a) = false

abbrev pub nothing_pending : List ℕ → Bool
nothing_pending [] = true
nothing_pending (a ∷ as_) = false

unfoldable pub run_recovery_burst : Client → ℕ → Client
run_recovery_burst c now =
    let pending =
      oldest_sequences c.retransmit_queue c.reliability.recovery_burst_size
        c.reliability.recovery_burst_interval now in
    if c.recovery_drain_in_flight || is_none c.last_ack_rinfo
    then c
    else if nothing_pending pending || not c.socket
    then stop_recovery_burst c
    else burst c pending now

-- `late` is whether the gap between the ACKs has reached `recoveryAckGapMs`.
unfoldable pub start_recovery_burst_if_needed : Client → Bool → ℕ → ℕ → Client
start_recovery_burst_if_needed c late rinfo now =
    if not c.reliability.recovery_burst_enabled || (not late || get_size c.retransmit_queue == 0)
    then c
    else run_recovery_burst (record c { last_ack_rinfo = some rinfo; recovery_drain_timer = true })
        now

unfoldable pub record_rtt_sample : Client → ℕ → Client
record_rtt_sample c sample = record c {
  metrics = record c.metrics { rtt_samples = c.metrics.rtt_samples + 1 };
  rtt_samples = Buffer.push c.rtt_samples sample;
}

-- Karn's algorithm: only a packet that was sent once gives a sample.
unfoldable pub sample_rtt : Client → ℕ → ℕ → Client
sample_rtt c acked hr = elim (Queue.get c.retransmit_queue acked) [
  | none ↦ c
  | some e ↦ if e.attempts == 0 then record_rtt_sample c (hr - e.sent_at_hr) else c
]

unfoldable pub advance_acked : Option ℕ → ℕ → Option ℕ
advance_acked none acked = some (u32 acked)
advance_acked (some last) acked = if is_ahead acked last then some (u32 acked) else some last

-- `receiveACK` of a payload that is read.
unfoldable pub apply_ack : Client → ℕ → Option ℕ → ℕ → ℕ → ℕ → Client
apply_ack c acked rtt_age rinfo now hr =
    let late = idle_since c now c.reliability.recovery_ack_gap in
    let c1 = sample_rtt c acked hr in
    let (removed, q) = acknowledge_range c1.retransmit_queue c1.last_acked_seq acked in
    let c2 = record c1 {
      retransmit_queue = q;
      last_acked_seq = advance_acked c1.last_acked_seq acked;
      last_ack_at = now;
      last_ack_rinfo = some rinfo;
    } in
    start_recovery_burst_if_needed (prune_retransmit_queue (depth_read c2) rtt_age now) late rinfo
      now

-- A payload that cannot be read changes nothing.
unfoldable pub receive_ack : Client → Bytes → Option ℕ → ℕ → ℕ → ℕ → Client
receive_ack c payload rtt_age rinfo now hr = elim (parse_ack_payload payload) [
  | err e ↦ c
  | ok acked ↦ apply_ack c acked rtt_age rinfo now hr
]

-- `receiveNAK` of a payload that is read.
unfoldable pub apply_nak : Client → List ℕ → ℕ → Client
apply_nak c missing now =
    let (packets, q) = retransmit c.retransmit_queue missing now in
    let abandoned = q.abandoned_count - c.retransmit_queue.abandoned_count in
    resend nak_loop packets (has_packets packets) c.last_acked_seq (record c {
      retransmit_queue = q;
      metrics = record c.metrics { packets_abandoned = c.metrics.packets_abandoned + abandoned };
    })

unfoldable pub receive_nak : Client → Bytes → ℕ → Client
receive_nak c payload now = elim (parse_nak_payload payload) [
  | err e ↦ c
  | ok missing ↦ apply_nak c missing now
]

-- The end of `sendDelta`, up to the `await` of the send: the packet is queued before it is sent.
unfoldable pub queue_data : Client → ℕ → Bytes → ℕ → ℕ → Client
queue_data c sequence packet now hr =
    depth_read (record c { retransmit_queue = Queue.add c.retransmit_queue sequence packet now hr })

-- Once it is sent, with `recordDataSend`; a send that fails changes nothing more.
unfoldable pub data_sent : Client → Option ℕ → ℕ → Client
data_sent c rtt_age now =
    let c1 = record c { metrics = record c.metrics { deltas_sent = c.metrics.deltas_sent + 1 } } in
    let c2 = prune_retransmit_queue (depth_read c1) rtt_age now in
    record c2 { loss_window = Buffer.push c2.loss_window false }
