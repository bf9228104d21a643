-- ===== src/SequenceTracker.antt =====
-- src/transport/reliability/sequence.ts, class SequenceTracker. A timer handle is the membership of
-- its sequence number in `nak_timers`, or `flush_armed`; the callbacks of `setTimeout` are `fire` and
-- `flush_fires`, and the calls of `onLossDetected` and `onGapAbandoned` are logged in `events`.
pub mod Walk
pub mod Window
pub mod Arrival
pub mod Timers
pub mod Arrivals
pub mod Firing
pub mod Steps
pub mod Patience
use signalk_edge_link.Prelude.{
  ℕ, zero, suc, ◌+◌, ◌*◌, ◌<◌, min, max, Bool, true, false, not, ◌&&◌, Option, none, some, List, [],
  ◌∷◌, ◌++◌, ltb, leb, ◌==◌, if◌then◌else◌, length,
}
use signalk_edge_link.Serial.{
  half, u32, sub32, next32, is_ahead, is_behind, is_near, distance_forward,
}
use signalk_edge_link.JsSet.{has, add, delete, keep, delete_all}
use signalk_edge_link.JsMap

pub data Event : Type 0 where
  loss_detected : List ℕ → Event
  gap_abandoned : ℕ → Event

pub record SequenceTracker : Type 0 where
  pub expected_seq : Option ℕ
  pub first_seq : Option ℕ
  pub received_seqs : List ℕ
  pub max_out_of_order : ℕ
  pub nak_timeout : ℕ
  pub max_gap_tracking : ℕ
  pub behind_resync_threshold : ℕ
  pub max_nak_rounds : ℕ
  pub nak_timers : List ℕ
  pub abandoned_count : ℕ
  pub nak_attempts : List (ℕ × ℕ)
  pub pending_naks : List ℕ
  pub flush_armed : Bool
  pub events : List Event

pub record SequenceTrackerConfig : Type 0 where
  pub max_out_of_order : Option ℕ
  pub nak_timeout : Option ℕ
  pub max_gap_tracking : Option ℕ
  pub behind_resync_threshold : Option ℕ
  pub max_nak_rounds : Option ℕ

pub record ProcessSequenceResult : Type 0 where
  pub in_order : Bool
  pub missing : List ℕ
  pub duplicate : Bool
  pub resynced : Bool
  pub late_arrival : Bool

-- `a ?? d`
abbrev pub or_default : Option ℕ → ℕ → ℕ
or_default none d = d
or_default (some a) d = a

unfoldable pub create : SequenceTrackerConfig → SequenceTracker
create config =
    let max_out_of_order = or_default config.max_out_of_order 100 in
    let max_gap_tracking = or_default config.max_gap_tracking (max (max_out_of_order * 4) 1024) in
    record {
      expected_seq = none;
      first_seq = none;
      received_seqs = [];
      max_out_of_order = max_out_of_order;
      nak_timeout = or_default config.nak_timeout 100;
      max_gap_tracking = max_gap_tracking;
      behind_resync_threshold = or_default config.behind_resync_threshold (max_gap_tracking * 2);
      max_nak_rounds = or_default config.max_nak_rounds 5;
      nak_timers = [];
      abandoned_count = 0;
      nak_attempts = [];
      pending_naks = [];
      flush_armed = false;
      events = [];
    }

unfoldable pub cancel_nak : SequenceTracker → ℕ → SequenceTracker
cancel_nak t sequence = record t {
  nak_timers = delete t.nak_timers sequence;
  nak_attempts = JsMap.delete t.nak_attempts sequence;
  pending_naks = delete t.pending_naks sequence;
}

-- `while (receivedSeqs.has(expectedSeq))`, from `expected`; the fuel is the number of received
-- sequences, which is enough (`Walk.walk-stops`).
unfoldable pub advance : ℕ → SequenceTracker → ℕ → SequenceTracker
advance zero t expected = record t { expected_seq = some expected }
advance (suc fuel) t expected = elim (has t.received_seqs expected) [
  | true ↦ advance fuel (cancel_nak t expected) (next32 expected)
  | false ↦ record t { expected_seq = some expected }
]

abbrev pub is_stale : SequenceTracker → ℕ → ℕ → Bool
is_stale t expected seq = is_behind seq (sub32 expected t.max_out_of_order)

unfoldable pub cleanup_at : SequenceTracker → ℕ → SequenceTracker
cleanup_at t expected = record t {
  received_seqs = delete_all t.received_seqs (keep (is_stale t expected) t.received_seqs);
}

-- `_cleanupOldSequences`, which runs only where `expectedSeq` is set.
unfoldable pub cleanup_old_sequences : SequenceTracker → SequenceTracker
cleanup_old_sequences t = elim t.expected_seq [ none ↦ t | some expected ↦ cleanup_at t expected ]

-- Advances past `expected`, which is received or given up, and what follows it without a gap.
unfoldable pub advance_past : SequenceTracker → ℕ → SequenceTracker
advance_past t expected =
    cleanup_old_sequences (advance (length t.received_seqs) t (next32 expected))

unfoldable pub clear_nak_timers : SequenceTracker → SequenceTracker
clear_nak_timers t = record t {
  nak_timers = [];
  flush_armed = false;
  pending_naks = [];
  nak_attempts = [];
}

unfoldable pub resync : SequenceTracker → ℕ → SequenceTracker
unfolding clear_nak_timers
resync t sequence = record (clear_nak_timers t) {
  received_seqs = sequence ∷ [];
  expected_seq = some (next32 sequence);
  first_seq = some sequence;
}

unfoldable pub reset : SequenceTracker → SequenceTracker
unfolding clear_nak_timers
reset t = clear_nak_timers (record t { expected_seq = none; first_seq = none; received_seqs = [] })

abbrev pub is_expected : SequenceTracker → ℕ → Bool
is_expected t sequence = elim t.expected_seq [ none ↦ false | some expected ↦ sequence == expected ]

unfoldable pub abandon_sequence : SequenceTracker → ℕ → SequenceTracker
abandon_sequence t sequence =
    let t1 = cancel_nak t sequence in
    let t2 = record t1 {
      received_seqs = add t1.received_seqs sequence;
      abandoned_count = t1.abandoned_count + 1;
    } in
    let t3 = if is_expected t2 sequence then advance_past t2 sequence else t2 in
    record t3 { events = t3.events ++ (gap_abandoned sequence ∷ []) }

-- The scan for the sequence to evict: one that is behind all before it.
unfoldable pub oldest_timer : Option ℕ → List ℕ → Option ℕ
oldest_timer best [] = best
oldest_timer none (s ∷ ss) = oldest_timer (some s) ss
oldest_timer (some oldest) (s ∷ ss) =
    oldest_timer (some (if is_behind s oldest then s else oldest)) ss

unfoldable pub evict_timer : SequenceTracker → SequenceTracker
evict_timer t = elim (oldest_timer none t.nak_timers) [
  | none ↦ t
  | some oldest ↦ cancel_nak t oldest
]

unfoldable pub schedule_nak : SequenceTracker → ℕ → SequenceTracker
schedule_nak t sequence =
    if has t.nak_timers sequence
    then t
    else (let t' = if leb t.max_gap_tracking (length t.nak_timers) then evict_timer t else t in
        record t' { nak_timers = add t'.nak_timers sequence })

-- The loop over the gap: `n` candidates from `candidate` on.
unfoldable pub gap_walk : ℕ → ℕ → List ℕ → SequenceTracker → List ℕ × SequenceTracker
gap_walk zero candidate missing t = (missing, t)
gap_walk (suc n) candidate missing t = elim (has t.received_seqs candidate) [
  | true ↦ gap_walk n (next32 candidate) missing t
  | false ↦ gap_walk n (next32 candidate) (missing ++ (candidate ∷ [])) (schedule_nak t candidate)
]

abbrev pub no_result : ProcessSequenceResult
no_result = record {
  in_order = false;
  missing = [];
  duplicate = false;
  resynced = false;
  late_arrival = false;
}

abbrev pub resynced_result : ProcessSequenceResult
resynced_result = record no_result { in_order = true; resynced = true }

unfoldable pub process_behind : SequenceTracker → ℕ → ℕ → ProcessSequenceResult × SequenceTracker
process_behind t sequence expected =
    if ltb t.behind_resync_threshold (distance_forward sequence expected)
    then (resynced_result, resync t sequence)
    else (
      record no_result { late_arrival = true },
      cancel_nak (record t { received_seqs = add t.received_seqs sequence }) sequence,
    )

unfoldable pub process_ahead : SequenceTracker → ℕ → ℕ → ProcessSequenceResult × SequenceTracker
process_ahead t sequence expected =
    let gap_size = distance_forward expected sequence in
    if ltb t.max_gap_tracking gap_size
    then (resynced_result, resync t sequence)
    else (let (missing, t') = gap_walk gap_size expected [] t in
        (record no_result { missing = missing }, cleanup_old_sequences t'))

-- Proactive clean-up of a received set that has grown large.
unfoldable pub clean_if_large : SequenceTracker → SequenceTracker
clean_if_large t =
    if ltb (t.max_gap_tracking * 2) (length t.received_seqs) then cleanup_old_sequences t else t

-- The part of `processSequence` for a sequence that is new and not behind.
unfoldable pub process_new : SequenceTracker → ℕ → ℕ → ProcessSequenceResult × SequenceTracker
process_new t sequence expected =
    let t1 = cancel_nak (record t { received_seqs = add t.received_seqs sequence }) sequence in
    let t2 = clean_if_large t1 in
    if sequence == expected
    then (record no_result { in_order = true }, advance_past t2 sequence)
    else if is_ahead sequence expected
    then process_ahead t2 sequence expected
    else (no_result, t2)

unfoldable pub process_known : SequenceTracker → ℕ → ℕ → ProcessSequenceResult × SequenceTracker
process_known t sequence expected =
    if has t.received_seqs sequence
    then (record no_result { duplicate = true }, t)
    else if is_behind sequence expected
    then process_behind t sequence expected
    else process_new t sequence expected

-- The first packet sets the baseline.
unfoldable pub process_first : SequenceTracker → ℕ → ProcessSequenceResult × SequenceTracker
process_first t sequence = (
  record no_result { in_order = true },
  record t {
    received_seqs = add t.received_seqs sequence;
    expected_seq = some (next32 sequence);
    first_seq = some sequence;
  },
)

unfoldable pub process_sequence : SequenceTracker → ℕ → ProcessSequenceResult × SequenceTracker
process_sequence t sequence = elim t.expected_seq [
  | none ↦ process_first t (u32 sequence)
  | some expected ↦ process_known t (u32 sequence) expected
]

-- The callback of the timer of `sequence`.
unfoldable pub fire : SequenceTracker → ℕ → SequenceTracker
fire t sequence =
    let t1 = record t { nak_timers = delete t.nak_timers sequence } in
    let attempts = or_default (JsMap.get t1.nak_attempts sequence) 0 + 1 in
    if has t1.received_seqs sequence
    then t1
    else if ltb t1.max_nak_rounds attempts
    then abandon_sequence t1 sequence
    else schedule_nak
        (record t1 {
          nak_attempts = JsMap.set t1.nak_attempts sequence attempts;
          pending_naks = add t1.pending_naks sequence;
          flush_armed = true;
        })
        sequence

unfoldable pub flush_batch : SequenceTracker → List ℕ → SequenceTracker
flush_batch t [] = t
flush_batch t (s ∷ ss) = record t { events = t.events ++ (loss_detected (s ∷ ss) ∷ []) }

unfoldable pub flush_naks : SequenceTracker → SequenceTracker
flush_naks t =
    flush_batch (record t { pending_naks = [] })
      (keep (λ s. not (has t.received_seqs s)) t.pending_naks)

-- The callback of the flush timer.
unfoldable pub flush_fires : SequenceTracker → SequenceTracker
flush_fires t = flush_naks (record t { flush_armed = false })

-- The largest forward distance of a received sequence, and the gaps up to it.
pub furthest_ahead : ℕ → ℕ → List ℕ → ℕ
furthest_ahead best expected [] = best
furthest_ahead best expected (s ∷ ss) =
    let d = distance_forward expected s in
    furthest_ahead (if ltb 0 d && ltb d half then max best d else best) expected ss

pub missing_from : ℕ → ℕ → List ℕ → List ℕ
missing_from zero seq received = []
missing_from (suc n) seq received =
    let rest = missing_from n (next32 seq) received in if has received seq then rest else seq ∷ rest

pub get_missing_sequences : SequenceTracker → List ℕ
get_missing_sequences t = elim t.expected_seq [
  | none ↦ []
  | some expected ↦
      missing_from (min t.max_out_of_order (furthest_ahead 0 expected t.received_seqs)) expected
        t.received_seqs
]
