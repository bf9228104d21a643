-- ===== src/RetransmitQueue/Tests.antt =====
-- The retransmit queue on concrete packets.
use signalk_edge_link.RetransmitQueue.{get_size, get_stats, sort_by_age, insert_by_age}
use mathlib.Core.List.{Perm}
use signalk_edge_link.Prelude.{
  ltb, min, ◌++◌, ◌+◌, ℕ, ◌≡◌, refl, none, some, List, [], ◌∷◌, map, arith, length, All, suc,
}
use signalk_edge_link.Serial.{u32}
use signalk_edge_link.JsSet.{has}
use signalk_edge_link.JsMap
use signalk_edge_link.JsMap.{keys}
use signalk_edge_link.RetransmitQueue.{
  oldest_sequences, eligible, expire_old, QueueEntry, RetransmitQueue, create, evict_oldest,
  retransmit, acknowledge_range,
}
use signalk_edge_link.RetransmitQueue.Candidates.{due, Candidate, Sorted, oldest_sequences-Sorted}
use signalk_edge_link.RetransmitQueue.Expiry.{expire_old-exact}
use signalk_edge_link.JsMap.Laws.{survivor}
use signalk_edge_link.RetransmitQueue.Oldest.{AtMost, evict_oldest_lem}
use signalk_edge_link.RetransmitQueue.Size.{
  IsValid, Call, adds, acknowledges, retransmits, expires, run, run-create-IsValid,
}
use signalk_edge_link.RetransmitQueue.Attempts.{
  times, budget, times-retransmit, IsResend, retransmit-IsResend,
}
use signalk_edge_link.RetransmitQueue.Ack.{acknowledge_range-exact, acknowledge-exact}

-- Two packets, around the wrap of the number space; the second was sent three times.
abbrev two_packets : RetransmitQueue
two_packets = record {
  max_size = 2;
  max_retransmits = 3;
  queue =
      (
        0xffffffff,
        record {
          packet = 7 ∷ [];
          timestamp = 12;
          original_timestamp = 5;
          sent_at_hr = 5;
          attempts = 0;
        },
      )
      ∷ (
        0,
        record {
          packet = 8 ∷ [];
          timestamp = 20;
          original_timestamp = 4;
          sent_at_hr = 4;
          attempts = 3;
        },
      )
      ∷ [];
  abandoned_count = 0;
  last_abandoned_seq = none;
}

two_packets-IsValid : IsValid two_packets
unfolding keys has JsMap.get
two_packets-IsValid = record {
  distinct = ground arith;
  bounded = omega arith;
  tried = λ k e h. ground arith;
}

evict_oldest_lem_example :
    (k : ℕ) × (e : QueueEntry) × (JsMap.get two_packets.queue k ≡ some e)
    × AtMost e.original_timestamp two_packets.queue
    × (evict_oldest two_packets ≡ record two_packets { queue = JsMap.delete two_packets.queue k })
    × (suc (length (evict_oldest two_packets).queue) ≡ 2)
evict_oldest_lem_example = evict_oldest_lem two_packets two_packets-IsValid.distinct (omega arith)

abbrev calls : List Call
calls =
    adds 0xffffffff (7 ∷ []) 1 1
    ∷ adds 0 (8 ∷ []) 2 2
    ∷ adds 1 (9 ∷ []) 3 3
    ∷ retransmits (0 ∷ 5 ∷ 0 ∷ []) 4
    ∷ acknowledges none 0
    ∷ acknowledges (some 0) 1
    ∷ expires 1000 2000
    ∷ []

run-create-IsValid_example : IsValid (run (create (some 2) none) calls)
run-create-IsValid_example = run-create-IsValid 2 none calls (omega arith)

times-retransmit_example :
    times 0xffffffff (retransmit two_packets (0xffffffff ∷ 0 ∷ 0xffffffff ∷ []) 30).0
      + budget (retransmit two_packets (0xffffffff ∷ 0 ∷ 0xffffffff ∷ []) 30).1 0xffffffff
    ≡ budget two_packets 0xffffffff
times-retransmit_example =
    times-retransmit two_packets (0xffffffff ∷ 0 ∷ 0xffffffff ∷ []) 30 0xffffffff

retransmit-IsResend_example :
    All (IsResend two_packets) (retransmit two_packets (0xffffffff ∷ 0 ∷ []) 30).0
retransmit-IsResend_example = retransmit-IsResend two_packets (0xffffffff ∷ 0 ∷ []) 30

acknowledge_range-exact_example :
    JsMap.get
      (acknowledge_range two_packets (some (u32 0xfffffffe)) (u32 0xffffffff)).1.queue
      (u32 0x100000000)
    ≡ JsMap.get two_packets.queue 0
acknowledge_range-exact_example =
    acknowledge_range-exact two_packets 0xfffffffe 0xffffffff 0x100000000 two_packets-IsValid
      (omega arith) (omega arith) (omega arith) (omega arith)

keys-two_packets : keys two_packets.queue ≡ map u32 (0xffffffff ∷ 0x100000000 ∷ [])
unfolding keys
keys-two_packets = refl

acknowledge-exact_example :
    JsMap.get (acknowledge_range two_packets none (u32 0xffffffff)).1.queue (u32 0x100000000)
    ≡ JsMap.get two_packets.queue 0
acknowledge-exact_example =
    acknowledge-exact two_packets 0xfffffff0 0xffffffff 0xffffffff 0x100000000 (0x100000000 ∷ [])
      two_packets-IsValid keys-two_packets (ground arith) (ground arith) (ground arith)
      (ground arith)

oldest_sequences-Sorted_example :
    (chosen : List Candidate) × (others : List Candidate) × (JsMap.get
        (eligible 50 30 two_packets.queue)
        0
      ≡ due 50 30 (JsMap.get two_packets.queue 0))
    × (oldest_sequences two_packets 1 50 30 ≡ map (λ (c : Candidate). c.0) chosen)
    × (length chosen ≡ min 1 (length (eligible 50 30 two_packets.queue)))
    × Perm (chosen ++ others) (eligible 50 30 two_packets.queue)
    × Sorted (chosen ++ others)
oldest_sequences-Sorted_example = oldest_sequences-Sorted two_packets 1 50 30 0 two_packets-IsValid

expire_old-exact_example :
    (JsMap.get (expire_old two_packets 10 15).1.queue 0
      ≡ survivor (λ e. ltb (e.original_timestamp + 10) 15) (JsMap.get two_packets.queue 0))
    × ((expire_old two_packets 10 15).0 + length (expire_old two_packets 10 15).1.queue ≡ 2)
expire_old-exact_example = expire_old-exact two_packets 10 15 0 two_packets-IsValid

oldest_sequences-two_packets : oldest_sequences two_packets 2 5 24 ≡ 0xffffffff ∷ []
unfolding oldest_sequences eligible sort_by_age insert_by_age
oldest_sequences-two_packets = refl

get_size-two_packets : get_size two_packets ≡ 2
unfolding get_size
get_size-two_packets = refl

get_stats-two_packets :
    get_stats two_packets ≡ record { size = 2; total_attempts = 3; max_attempts = 3 }
unfolding get_stats
get_stats-two_packets = refl
