-- ===== src/Client/Tests.antt =====
-- A client that sends two packets around the wrap of the number space.
use signalk_edge_link.Prelude.{
  ℕ, ◌≡◌, refl, true, false, none, some, List, [], ◌∷◌, replicate, arith,
}
use signalk_edge_link.JsMap
use signalk_edge_link.Prelude.{◌*◌, ◌-◌, ◌≤◌}
use signalk_edge_link.Client.Burst.{
  ReliabilityConfig, build_reliability_settings, clamp_recovery_burst, recovery_burst-rate,
  pending_packets,
}
use signalk_edge_link.JsMap.{keys}
use signalk_edge_link.CircularBuffer.{CircularBuffer}
use signalk_edge_link.CircularBuffer as Buffer
use signalk_edge_link.RetransmitQueue.{
  RetransmitQueue, acknowledge, oldest_outstanding, acknowledge_range, acknowledge_from,
  remove_where, retransmit, retransmit_one, expire_old, oldest_sequences, eligible, sort_by_age,
  insert_by_age, get_size, clear,
}
use signalk_edge_link.RetransmitQueue as Queue
use signalk_edge_link.Packet.Parser.{parse_ack_payload, parse_nak_payload, words32}
use signalk_edge_link.Client.{
  Reliability, Client, create_client, prune_retransmit_queue, effective_retransmit_age,
  stop_recovery_burst, resend, resend_ends, burst, run_recovery_burst,
  start_recovery_burst_if_needed, record_rtt_sample, sample_rtt, advance_acked, apply_ack,
  receive_ack, apply_nak, receive_nak, queue_data, data_sent,
}
use signalk_edge_link.Client.Fresh.{IsAhead}
use signalk_edge_link.Client.Ahead.{
  Input, ack_arrives, nak_arrives, data_queued, data_taken, resend_end, recovery_tick, step, run,
  AllPlausible, run-IsAhead,
}

abbrev buffer_of {ℓ} : {A : Type ℓ} → ℕ → CircularBuffer A
buffer_of n = record { buffer = replicate n none; size = n; index = 0; filled = false }

abbrev settings : Reliability
settings = record {
  retransmit_max_age = 120000;
  retransmit_min_age = 10000;
  ack_idle_drain_age = 20000;
  force_drain_after_ack_idle = false;
  force_drain_after = 45000;
  recovery_burst_enabled = true;
  recovery_burst_size = 100;
  recovery_burst_interval = 200;
  recovery_ack_gap = 4000;
}

abbrev client : Client
client = create_client settings none none (buffer_of 4) (buffer_of 4) 1000

-- Two packets around the wrap of the number space are asked for; the first is acknowledged late, while
-- it is being sent again, so that a burst sends the second one too; and that is acknowledged in time.
abbrev inputs : List Input
inputs =
    data_queued 0xffffffff (1 ∷ []) 1100 10
    ∷ data_taken none 1101
    ∷ data_queued 0 (2 ∷ []) 1200 11
    ∷ data_taken none 1201
    ∷ nak_arrives (255 ∷ 255 ∷ 255 ∷ 255 ∷ 0 ∷ 0 ∷ 0 ∷ 0 ∷ []) 1300
    ∷ ack_arrives (255 ∷ 255 ∷ 255 ∷ 255 ∷ []) none 7 6000 15
    ∷ ack_arrives (0 ∷ 0 ∷ 0 ∷ 0 ∷ []) none 7 6001 16
    ∷ resend_end 0 true
    ∷ resend_end 0 true
    ∷ resend_end 0 true
    ∷ recovery_tick 6300
    ∷ []

-- The loop of the NAK sends 0 although it is acknowledged by then.
run-inputs :
    ((run client inputs).resent ≡ (0xffffffff, none) ∷ (0, some 0xffffffff) ∷ (0, none) ∷ [])
    × ((run client inputs).last_acked_seq ≡ some 0)
    × (keys (run client inputs).retransmit_queue.queue ≡ [])
    × ((run client inputs).recovery_drain_in_flight ≡ false)
    × ((run client inputs).recovery_drain_timer ≡ false)
unfolding run step create_client queue_data data_sent Queue.add Queue.create Queue.new_entry
    Queue.get get_size prune_retransmit_queue effective_retransmit_age expire_old remove_where
    receive_nak apply_nak parse_nak_payload words32 retransmit retransmit_one resend resend_ends
    Buffer.push receive_ack apply_ack parse_ack_payload sample_rtt record_rtt_sample
    acknowledge_range acknowledge acknowledge_from oldest_outstanding advance_acked
    start_recovery_burst_if_needed run_recovery_burst burst stop_recovery_burst oldest_sequences
    eligible sort_by_age insert_by_age JsMap.get JsMap.set JsMap.delete JsMap.delete_all
    JsMap.keys_where keys
run-inputs = (refl, refl, refl, refl, refl)

plausible : AllPlausible 0xffffffff client inputs
unfolding run step create_client queue_data data_sent Queue.add Queue.create Queue.new_entry
    Queue.get get_size prune_retransmit_queue effective_retransmit_age expire_old remove_where
    receive_nak apply_nak parse_nak_payload words32 retransmit retransmit_one resend resend_ends
    Buffer.push receive_ack apply_ack parse_ack_payload sample_rtt record_rtt_sample
    acknowledge_range acknowledge acknowledge_from oldest_outstanding advance_acked
    start_recovery_burst_if_needed run_recovery_burst burst stop_recovery_burst oldest_sequences
    eligible sort_by_age insert_by_age JsMap.get JsMap.set JsMap.delete JsMap.delete_all
    JsMap.keys_where keys
plausible = (
  (omega arith, omega arith),
  (
    tt,
    (
      (omega arith, omega arith),
      (tt, (tt, ((omega arith, omega arith), (tt, (tt, (tt, (tt, (tt, tt)))))))),
    ),
  ),
)

run-IsAhead_example : IsAhead 0xffffffff (run client inputs)
run-IsAhead_example =
    run-IsAhead 0xffffffff settings none none (buffer_of 4) (buffer_of 4) 1000 inputs plausible

abbrev eager : ReliabilityConfig
eager = record {
  retransmit_max_age = none;
  retransmit_min_age = none;
  ack_idle_drain_age = none;
  force_drain_after_ack_idle = none;
  force_drain_after = none;
  recovery_burst_enabled = none;
  recovery_burst_size = some 100;
  recovery_burst_interval = none;
  recovery_ack_gap = none;
}

burst_size-eager : (build_reliability_settings eager).recovery_burst_size ≡ 20
unfolding build_reliability_settings clamp_recovery_burst
burst_size-eager = refl

abbrev eager_client : Client
eager_client =
    create_client (build_reliability_settings eager) none none (buffer_of 4) (buffer_of 4) 1000

eager_client-settings : eager_client.reliability ≡ build_reliability_settings eager
unfolding create_client
eager_client-settings = refl

recovery_burst-rate_example :
    ((pending_packets (run_recovery_burst eager_client 5).resends
          - pending_packets eager_client.resends)
        * 1000
        * 2
      ≤ 200 * eager_client.reliability.recovery_burst_interval)
    × (1 ≤ eager_client.reliability.recovery_burst_size)
recovery_burst-rate_example =
    recovery_burst-rate eager eager_client 5 (omega arith) eager_client-settings
