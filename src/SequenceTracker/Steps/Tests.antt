-- ===== src/SequenceTracker/Steps/Tests.antt =====
-- The sequence tracker on concrete packets.
use signalk_edge_link.SequenceTracker.{
  oldest_timer, evict_timer, get_missing_sequences, furthest_ahead, missing_from,
}
use signalk_edge_link.Prelude.{
  ◌+◌, ◌<◌, ◌≤◌, ℕ, ◌≡◌, refl, true, false, none, some, List, [], ◌∷◌, arith, ◌≢◌, length,
}
use signalk_edge_link.Serial.{u32, sub32, half}
use signalk_edge_link.JsSet.{has, add, delete, delete_all, keep}
use signalk_edge_link.JsMap
use signalk_edge_link.SequenceTracker.{
  SequenceTracker, SequenceTrackerConfig, create, advance, process_sequence, process_first,
  process_known, process_new, process_ahead, cancel_nak, clean_if_large, gap_walk, schedule_nak,
  cleanup_old_sequences, cleanup_at, fire, flush_fires, flush_naks, flush_batch,
}
use signalk_edge_link.SequenceTracker.Walk.{Quiet, advance-stops}
use signalk_edge_link.SequenceTracker.Patience.{Stuck, firings, patience}
use signalk_edge_link.SequenceTracker.Window.{Fits, back}
use signalk_edge_link.SequenceTracker.Steps.{
  IsValid, Input, packet, timer, flush, handle, handle_all, AllComparable,
  handle_all-create-IsValid, gap-armed, tracker_bounds,
}

abbrev defaults : SequenceTrackerConfig
defaults = record {
  max_out_of_order = none;
  nak_timeout = none;
  max_gap_tracking = none;
  behind_resync_threshold = none;
  max_nak_rounds = none;
}

-- 0xfffffffe and 1 arrive, so that 0xffffffff and 0 are missing; then the timer of 0 fires, the flush
-- does, and 0xffffffff arrives late.
abbrev inputs : List Input
inputs = packet 0xfffffffe ∷ packet 1 ∷ timer 0 ∷ flush ∷ packet 0xffffffff ∷ []

fits : Fits (create defaults)
unfolding create
fits = ground arith

-- Not half the number space away from an expected sequence that is known.
comparable :
    (t : SequenceTracker) (s k : ℕ)
    → t.expected_seq ≡ some k
    → sub32 (u32 s) k ≢ half
    → (e : ℕ) → t.expected_seq ≡ some e
    → sub32 (u32 s) e ≢ half
comparable t s k p n e q = let r : k ≡ e = ground arith in rw r at n

abbrev two_packets : SequenceTracker
two_packets = handle (handle (create defaults) (packet 0xfffffffe)) (packet 1)

abbrev flushed : SequenceTracker
flushed = handle (handle two_packets (timer 0)) flush

expected_two_packets : two_packets.expected_seq ≡ some 0xffffffff
unfolding handle create process_sequence process_first process_known process_new process_ahead add
    has cancel_nak clean_if_large gap_walk schedule_nak cleanup_old_sequences cleanup_at delete
    delete_all keep
expected_two_packets = refl

expected_flushed : flushed.expected_seq ≡ some 0xffffffff
unfolding handle create process_sequence process_first process_known process_new process_ahead add
    has cancel_nak clean_if_large gap_walk schedule_nak cleanup_old_sequences cleanup_at delete
    delete_all keep fire flush_fires flush_naks flush_batch JsMap.get JsMap.delete
expected_flushed = refl

all_comparable : AllComparable (create defaults) inputs
unfolding create handle process_sequence process_first
all_comparable = (
  λ e q. absurd (ground arith),
  (
    comparable (handle (create defaults) (packet 0xfffffffe)) 1 0xffffffff refl (omega arith),
    (tt, (tt, (comparable flushed 0xffffffff 0xffffffff expected_flushed (omega arith), tt))),
  ),
)

handle_all-create-IsValid_example : IsValid (handle_all (create defaults) inputs)
handle_all-create-IsValid_example = handle_all-create-IsValid defaults inputs fits all_comparable

two_packets-IsValid : IsValid two_packets
unfolding handle_all
two_packets-IsValid =
    handle_all-create-IsValid defaults (packet 0xfffffffe ∷ packet 1 ∷ []) fits
      (all_comparable.0, (all_comparable.1.0, tt))

abbrev first_inputs : List Input
first_inputs = packet 0xfffffffe ∷ packet 1 ∷ []

first_comparable : AllComparable (create defaults) first_inputs
first_comparable = (all_comparable.0, (all_comparable.1.0, tt))

tracker_bounds_example :
    (length (handle_all (create defaults) inputs).nak_timers
      ≤ (handle_all (create defaults) inputs).max_gap_tracking)
    × (length (handle_all (create defaults) inputs).received_seqs
        ≤ back (handle_all (create defaults) inputs)
          + (handle_all (create defaults) inputs).max_gap_tracking
          + 1)
    × ((s : ℕ)
        → has (handle_all (create defaults) inputs).pending_naks s ≡ true
        → has (handle_all (create defaults) inputs).nak_timers s ≡ true)
    × ((s n : ℕ)
        → JsMap.get (handle_all (create defaults) inputs).nak_attempts s ≡ some n
        → n ≤ (handle_all (create defaults) inputs).max_nak_rounds)
tracker_bounds_example = tracker_bounds defaults inputs fits all_comparable

received_two_packets : two_packets.received_seqs ≡ 0xfffffffe ∷ 1 ∷ []
unfolding handle create process_sequence process_first process_known process_new process_ahead add
    has cancel_nak clean_if_large gap_walk schedule_nak cleanup_old_sequences cleanup_at delete
    delete_all keep
received_two_packets = refl

bounds_two_packets : sub32 1 0xffffffff ≤ two_packets.max_gap_tracking
unfolding handle create process_sequence process_first process_known process_new process_ahead add
    has cancel_nak clean_if_large gap_walk schedule_nak cleanup_old_sequences cleanup_at delete
    delete_all keep
bounds_two_packets = omega arith

received_one : has two_packets.received_seqs 1 ≡ true
unfolding has
received_one = rw received_two_packets refl

missing_zero : has two_packets.received_seqs 0 ≡ false
unfolding has
missing_zero = rw received_two_packets refl

same_two_packets : handle_all (create defaults) first_inputs ≡ two_packets
unfolding handle_all
same_two_packets = refl

expected_first : (handle_all (create defaults) first_inputs).expected_seq ≡ some 0xffffffff
expected_first = rw same_two_packets expected_two_packets

received_first : has (handle_all (create defaults) first_inputs).received_seqs 1 ≡ true
received_first = rw same_two_packets received_one

room_first : sub32 1 0xffffffff ≤ (handle_all (create defaults) first_inputs).max_gap_tracking
room_first = rw same_two_packets bounds_two_packets

missing_first : has (handle_all (create defaults) first_inputs).received_seqs 0 ≡ false
missing_first = rw same_two_packets missing_zero

gap-armed_example : has (handle_all (create defaults) first_inputs).nak_timers 0 ≡ true
gap-armed_example =
    gap-armed defaults first_inputs fits first_comparable 0xffffffff 0 1 expected_first
      received_first room_first (omega arith) (omega arith) missing_first

-- 5 arrives where 6 and 7 have waited for it.
abbrev caught_up : SequenceTracker
caught_up = record (create defaults) { received_seqs = 6 ∷ 7 ∷ 5 ∷ []; expected_seq = some 5 }

caught_up-Quiet : Quiet caught_up
unfolding create has JsMap.keys
caught_up-Quiet = λ s h. (refl, refl, refl)

advance-stops_example :
    (k : ℕ) × (advance 3 caught_up 5 ≡ record caught_up { expected_seq = some (u32 (5 + k)) })
    × ((i : ℕ) → i < k → has caught_up.received_seqs (u32 (5 + i)) ≡ true)
    × (has caught_up.received_seqs (u32 (5 + k)) ≡ false)
advance-stops_example = advance-stops caught_up 5 caught_up-Quiet (omega arith) (omega arith)

abbrev waiting : SequenceTracker
waiting = record (create defaults) {
  expected_seq = some 0xfffffffe;
  received_seqs = 0xffffffff ∷ 1 ∷ [];
  nak_timers = 0 ∷ 0xfffffffe ∷ [];
}

-- The eviction takes the number that is behind, across the wrap.
evict_timer-waiting : (evict_timer waiting).nak_timers ≡ 0 ∷ []
unfolding evict_timer oldest_timer cancel_nak create delete
evict_timer-waiting = refl

get_missing_sequences-waiting : get_missing_sequences waiting ≡ 0xfffffffe ∷ 0 ∷ []
unfolding get_missing_sequences furthest_ahead missing_from create has
get_missing_sequences-waiting = refl

-- The timer of the head runs once, and its NAK is sent; the window stands still.
abbrev waits : List Input
waits = timer 0 ∷ timer 0xffffffff ∷ flush ∷ []

waits-Stuck : Stuck 0xffffffff two_packets waits
unfolding handle create process_sequence process_first process_known process_new process_ahead add
    has cancel_nak clean_if_large gap_walk schedule_nak cleanup_old_sequences cleanup_at delete
    delete_all keep fire flush_fires flush_naks flush_batch JsMap.get JsMap.set JsMap.delete
waits-Stuck = (refl, (refl, (refl, refl)))

armed_two_packets : has two_packets.nak_timers 0xffffffff ≡ true
unfolding handle create process_sequence process_first process_known process_new process_ahead add
    has cancel_nak clean_if_large gap_walk schedule_nak cleanup_old_sequences cleanup_at delete
    delete_all keep
armed_two_packets = refl

patience_example : firings 0xffffffff waits ≤ two_packets.max_nak_rounds
patience_example =
    patience two_packets 0xffffffff waits two_packets-IsValid armed_two_packets
      (refl, (refl, (refl, tt))) waits-Stuck
