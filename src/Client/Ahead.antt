-- ===== src/Client/Ahead.antt =====
-- The handlers of a client, in any order
-- (src/transport/pipeline/reliable-client/reliability.ts).
use signalk_edge_link.Prelude.{
  ℕ, ◌+◌, ◌-◌, ◌≡◌, refl, Bool, true, Option, none, some, List, [], ◌∷◌, ◌==◌, if◌then◌else◌,
  if_either, arith, inl, inr, Bool-cases, Option-cases, Result, ok, err, Result-cases,
}
use signalk_edge_link.Serial.{u32, is_ahead}
use signalk_edge_link.Bytes.{Bytes}
use signalk_edge_link.JsSet.{has}
use signalk_edge_link.JsMap.{keys}
use signalk_edge_link.CircularBuffer.{CircularBuffer}
use signalk_edge_link.RetransmitQueue as Queue
use signalk_edge_link.RetransmitQueue.{RetransmitQueue, acknowledge_range, retransmit}
use signalk_edge_link.Packet.{PacketError}
use signalk_edge_link.Packet.Parser.{parse_ack_payload, parse_nak_payload}
use signalk_edge_link.Client.{
  Reliability, Client, nak_loop, create_client, prune_retransmit_queue, run_recovery_burst,
  resend_ends, record_rtt_sample, sample_rtt, advance_acked, apply_ack, receive_ack, apply_nak,
  receive_nak, queue_data, data_sent, idle_since, depth_read, has_packets,
}
use signalk_edge_link.Client.Kept.{acknowledge_range-AllAhead, add-Shrinks}
use signalk_edge_link.Client.First.{Near, acknowledge_first-AllAhead}
use signalk_edge_link.Client.Fresh.{
  Queued, IsAhead, shrink, prune-IsAhead, ends-IsAhead, draws-IsAhead, run_burst-IsAhead,
  start_burst-IsAhead,
}

sample-IsAhead :
    (base : ℕ) (c : Client) (acked hr : ℕ) → IsAhead base c → IsAhead base (sample_rtt c acked hr)
unfolding sample_rtt record_rtt_sample
sample-IsAhead base c acked hr s = elim (Option-cases (Queue.get c.retransmit_queue acked)) [
  | inl p ↦ rw (sample_rtt, p) s
  | inr (e, p) ↦ elim (Bool-cases (e.attempts == 0)) [
    | inl q ↦ rw (sample_rtt, p, q) (shrink base c _ refl refl refl (λ k h. h) s)
    | inr q ↦ rw (sample_rtt, p, q) s
  ]
]

-- The first ACK acknowledges a number of the half in which the client starts.
abbrev pub Ackable : ℕ → Option ℕ → ℕ → Type 0
Ackable base none acked = Near base (u32 acked)
Ackable base (some last) acked = Unit

acknowledge_range-Queued :
    (base : ℕ) (previous : Option ℕ) (q : RetransmitQueue) (acked : ℕ)
    → Ackable base previous acked
    → Queued base previous q
    → Queued base (advance_acked previous acked) (acknowledge_range q previous acked).1
unfolding advance_acked
acknowledge_range-Queued base none q acked n s = (n.0, acknowledge_first-AllAhead base acked q s n)
acknowledge_range-Queued base (some last) q acked n (w, s) =
    let (advanced, p, b, h) = acknowledge_range-AllAhead q last acked w s in rw p (b, h)

apply_ack-IsAhead :
    (base : ℕ) (c : Client) (acked : ℕ) (rtt_age : Option ℕ) (rinfo now hr : ℕ)
    → Ackable base (sample_rtt c acked hr).last_acked_seq acked
    → IsAhead base c
    → IsAhead base (apply_ack c acked rtt_age rinfo now hr)
unfolding apply_ack
apply_ack-IsAhead base c acked rtt_age rinfo now hr n s =
    let c1 : Client = sample_rtt c acked hr in
    let s1 = sample-IsAhead base c acked hr s in
    let late : Bool = idle_since c now c.reliability.recovery_ack_gap in
    let c2 : Client = depth_read (record c1 {
      retransmit_queue = (acknowledge_range c1.retransmit_queue c1.last_acked_seq acked).1;
      last_acked_seq = advance_acked c1.last_acked_seq acked;
      last_ack_at = now;
      last_ack_rinfo = some rinfo;
    }) in
    let s2 : IsAhead base c2 = record {
      queued =
          acknowledge_range-Queued base c1.last_acked_seq c1.retransmit_queue acked n s1.queued;
      drawn = s1.drawn;
      resent = s1.resent;
    } in
    start_burst-IsAhead base (prune_retransmit_queue c2 rtt_age now) late rinfo now
      (prune-IsAhead base c2 rtt_age now s2)

sample_rtt-last_acked :
    (c : Client) (acked hr : ℕ) → (sample_rtt c acked hr).last_acked_seq ≡ c.last_acked_seq
unfolding sample_rtt record_rtt_sample
sample_rtt-last_acked c acked hr = elim (Option-cases (Queue.get c.retransmit_queue acked)) [
  | inl p ↦ rw (sample_rtt, p) refl
  | inr (e, p) ↦ elim (Bool-cases (e.attempts == 0)) [
    | inl q ↦ rw (sample_rtt, p, q) refl
    | inr q ↦ rw (sample_rtt, p, q) refl
  ]
]

abbrev AckableIfRead : ℕ → Option ℕ → Result PacketError ℕ → Type 0
AckableIfRead base previous (err e) = Unit
AckableIfRead base previous (ok acked) = Ackable base previous acked

receive_ack-IsAhead :
    (base : ℕ) (c : Client) (payload : Bytes) (rtt_age : Option ℕ) (rinfo now hr : ℕ)
    → AckableIfRead base c.last_acked_seq (parse_ack_payload payload)
    → IsAhead base c
    → IsAhead base (receive_ack c payload rtt_age rinfo now hr)
unfolding receive_ack
receive_ack-IsAhead base c payload rtt_age rinfo now hr n s =
    elim (Result-cases (parse_ack_payload payload)) [
      | inl (acked, p) ↦
          let n' : Ackable base c.last_acked_seq acked = rw p at n in
          rw (receive_ack, p)
            (apply_ack-IsAhead base c acked rtt_age rinfo now hr
              (rw (sample_rtt-last_acked c acked hr) n') s)
      | inr (e, p) ↦ rw (receive_ack, p) s
    ]

apply_nak-IsAhead :
    (base : ℕ) (c : Client) (missing : List ℕ) (now : ℕ)
    → IsAhead base c
    → IsAhead base (apply_nak c missing now)
unfolding apply_nak
apply_nak-IsAhead base c missing now s =
    let q : RetransmitQueue = (retransmit c.retransmit_queue missing now).1 in
    let c1 : Client = record c {
      retransmit_queue = q;
      metrics = record c.metrics {
        packets_abandoned =
            c.metrics.packets_abandoned + (q.abandoned_count - c.retransmit_queue.abandoned_count);
      };
    } in
    draws-IsAhead base nak_loop c c1 missing now
      (has_packets (retransmit c.retransmit_queue missing now).0) refl refl refl refl s

receive_nak-IsAhead :
    (base : ℕ) (c : Client) (payload : Bytes) (now : ℕ)
    → IsAhead base c
    → IsAhead base (receive_nak c payload now)
unfolding receive_nak
receive_nak-IsAhead base c payload now s = elim (Result-cases (parse_nak_payload payload)) [
  | inl (missing, p) ↦ rw (receive_nak, p) (apply_nak-IsAhead base c missing now s)
  | inr (e, p) ↦ rw (receive_nak, p) s
]

-- A new packet has a number ahead of the last acknowledged one; before the first ACK, of the half in
-- which the client starts.
abbrev pub Sendable : ℕ → Option ℕ → ℕ → Type 0
Sendable base none seq = Near base seq
Sendable base (some last) seq = is_ahead seq last ≡ true

add-Queued :
    (base : ℕ) (acked : Option ℕ) (q : RetransmitQueue) (seq : ℕ) (packet : Bytes) (now hr : ℕ)
    → Sendable base acked seq
    → Queued base acked q
    → Queued base acked (Queue.add q seq packet now hr)
add-Queued base none q seq packet now hr f s =
    λ k h. elim (add-Shrinks q seq packet now hr k h) [ inl p ↦ rw p at f | inr there ↦ s k there ]
add-Queued base (some last) q seq packet now hr f (w, s) = (
  w,
  λ k h. elim (add-Shrinks q seq packet now hr k h) [ inl p ↦ rw p at f | inr there ↦ s k there ],
)

queue_data-IsAhead :
    (base : ℕ) (c : Client) (seq : ℕ) (packet : Bytes) (now hr : ℕ)
    → Sendable base c.last_acked_seq seq
    → IsAhead base c
    → IsAhead base (queue_data c seq packet now hr)
unfolding queue_data
queue_data-IsAhead base c seq packet now hr f s = record {
  queued = add-Queued base c.last_acked_seq c.retransmit_queue seq packet now hr f s.queued;
  drawn = s.drawn;
  resent = s.resent;
}

data_sent-IsAhead :
    (base : ℕ) (c : Client) (rtt_age : Option ℕ) (now : ℕ)
    → IsAhead base c
    → IsAhead base (data_sent c rtt_age now)
unfolding data_sent
data_sent-IsAhead base c rtt_age now s =
    let c1 : Client =
      depth_read
        (record c { metrics = record c.metrics { deltas_sent = c.metrics.deltas_sent + 1 } }) in
    shrink base (prune_retransmit_queue c1 rtt_age now) _ refl refl refl (λ k h. h)
      (prune-IsAhead base c1 rtt_age now (shrink base c c1 refl refl refl (λ k h. h) s))

-- What happens at a client, in any order; the recovery timer runs while it is set, and the socket may
-- come and go.
pub data Input : Type 0 where
  ack_arrives : Bytes → Option ℕ → ℕ → ℕ → ℕ → Input
  nak_arrives : Bytes → ℕ → Input
  data_queued : ℕ → Bytes → ℕ → ℕ → Input
  data_taken : Option ℕ → ℕ → Input
  resend_end : ℕ → Bool → Input
  recovery_tick : ℕ → Input
  socket_change : Bool → Input

unfoldable pub step : Client → Input → Client
step c (ack_arrives payload rtt_age rinfo now hr) = receive_ack c payload rtt_age rinfo now hr
step c (nak_arrives payload now) = receive_nak c payload now
step c (data_queued seq packet now hr) = queue_data c seq packet now hr
step c (data_taken rtt_age now) = data_sent c rtt_age now
step c (resend_end i success) = resend_ends i success c
step c (recovery_tick now) = if c.recovery_drain_timer then run_recovery_burst c now else c
step c (socket_change there) = record c { socket = there }

unfoldable pub run : Client → List Input → Client
run c [] = c
run c (i ∷ is_) = run (step c i) is_

abbrev IsPlausible : ℕ → Client → Input → Type 0
IsPlausible base c (ack_arrives payload rtt_age rinfo now hr) =
    AckableIfRead base c.last_acked_seq (parse_ack_payload payload)
IsPlausible base c (data_queued seq packet now hr) = Sendable base c.last_acked_seq seq
IsPlausible base c other = Unit

abbrev pub AllPlausible : ℕ → Client → List Input → Type 0
AllPlausible base c [] = Unit
AllPlausible base c (i ∷ is_) = IsPlausible base c i × AllPlausible base (step c i) is_

step-IsAhead :
    (base : ℕ) (c : Client) (i : Input)
    → IsPlausible base c i
    → IsAhead base c
    → IsAhead base (step c i)
unfolding step
step-IsAhead base c (ack_arrives payload rtt_age rinfo now hr) f s =
    receive_ack-IsAhead base c payload rtt_age rinfo now hr f s
step-IsAhead base c (nak_arrives payload now) f s = receive_nak-IsAhead base c payload now s
step-IsAhead base c (data_queued seq packet now hr) f s =
    queue_data-IsAhead base c seq packet now hr f s
step-IsAhead base c (data_taken rtt_age now) f s = data_sent-IsAhead base c rtt_age now s
step-IsAhead base c (resend_end i success) f s = ends-IsAhead base i success c s
step-IsAhead base c (recovery_tick now) f s =
    if_either (IsAhead base) c.recovery_drain_timer (run_recovery_burst c now) c
      (λ h. run_burst-IsAhead base c now s) (λ h. s)
step-IsAhead base c (socket_change there) f s = shrink base c _ refl refl refl (λ k h. h) s

run_lem :
    (base : ℕ) (c : Client) (is_ : List Input)
    → AllPlausible base c is_
    → IsAhead base c
    → IsAhead base (run c is_)
unfolding run
run_lem base c [] f s = s
run_lem base c (i ∷ is_) f s = run_lem base (step c i) is_ f.1 (step-IsAhead base c i f.0 s)

-- Whatever ACKs (late, repeated or of any number), NAKs, new packets, ends of sends and recovery ticks a
-- new client handles, in any interleaving with its loops: from the first ACK on it keeps only numbers ahead
-- of the last acknowledged one, and no packet that a loop sends again was acknowledged when the loop drew
-- it from the queue. An ACK between two sends of a loop does not stop the loop. Until the first ACK, the
-- numbers of new packets and of that ACK lie in one half of the number space; then the numbers of new
-- packets are ahead of the last acknowledged one.
pub run-IsAhead :
    (base : ℕ) (r : Reliability) (max_size max_retransmits : Option ℕ)
    (loss_window : CircularBuffer Bool) (rtt_samples : CircularBuffer ℕ) (now : ℕ)
    (is_ : List Input)
    → AllPlausible base (create_client r max_size max_retransmits loss_window rtt_samples now) is_
    → IsAhead base (run (create_client r max_size max_retransmits loss_window rtt_samples now) is_)
unfolding create_client Queue.create keys has
run-IsAhead base r max_size max_retransmits loss_window rtt_samples now is_ f =
    run_lem base (create_client r max_size max_retransmits loss_window rtt_samples now) is_ f
      (record { queued = λ k h. absurd (ground arith); drawn = tt; resent = tt })
