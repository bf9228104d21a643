-- ===== src/SequenceTracker/Steps.antt =====
-- The invariant of the tracker over any order of packets, timers, flushes and resets.
mod Tests
use signalk_edge_link.Prelude.{
  ℕ, zero, suc, ◌+◌, ◌-◌, ◌*◌, ◌%◌, ◌^◌, ◌≤◌, ◌<◌, ◌≡◌, ◌≢◌, refl, sym, ap, ◌∙◌, max, Bool, true,
  false, not, ◌&&◌, ◌||◌, Option, none, some, List, [], ◌∷◌, ◌++◌, ltb, leb, ◌==◌, ==_iff,
  if◌then◌else◌, arith, ◌⊎◌, inl, inr, Bool-cases, Option-cases, length, All,
}
use signalk_edge_link.Serial.{u32, sub32, next32, half, is_behind, is_ahead}
use signalk_edge_link.JsSet.{has, add, delete, delete_all, keep, Distinct}
use signalk_edge_link.JsSet.Laws.{
  has-add, has-delete, has-keep, Distinct-add, Distinct-delete, delete_none, length-delete-lt,
}
use signalk_edge_link.JsMap
use signalk_edge_link.JsMap.Laws as MapLaws
use signalk_edge_link.SequenceTracker.{
  SequenceTracker, SequenceTrackerConfig, Event, gap_abandoned, loss_detected, create, is_expected,
  or_default, cancel_nak, abandon_sequence, advance_past, schedule_nak, fire, flush_batch,
  flush_naks, flush_fires, reset, clear_nak_timers, process_sequence, process_known, process_first,
  ProcessSequenceResult,
}
use signalk_edge_link.SequenceTracker.Window.{
  back, Fits, Tracks, Window, Running, length-timers, length-received,
}
use signalk_edge_link.SequenceTracker.Arrival.{advance_past-Running}
use signalk_edge_link.SequenceTracker.Timers.{arrive, arrive-Tracks, schedule_nak_lem}
use signalk_edge_link.SequenceTracker.Firing.{fire-Running, flush_fires-Running}
use signalk_edge_link.SequenceTracker.Arrivals.{start-Window, process_known-Running}

-- A tracker that has seen no packet since its creation or its last reset.
pub record Idle (t : SequenceTracker) : Type 0 where
  pub expected : t.expected_seq ≡ none
  pub received : t.received_seqs ≡ []
  pub timers : t.nak_timers ≡ []
  pub pending : t.pending_naks ≡ []
  pub attempts : t.nak_attempts ≡ []

abbrev pub IsValid : SequenceTracker → Type 0
IsValid t = (Fits t × Idle t) ⊎ Running t

-- What can happen to a tracker, in any order. A timer runs only while it is armed.
pub data Input : Type 0 where
  packet : ℕ → Input
  timer : ℕ → Input
  flush : Input
  restart : Input

unfoldable pub handle : SequenceTracker → Input → SequenceTracker
handle t (packet s) = (process_sequence t s).1
handle t (timer s) = if has t.nak_timers s then fire t s else t
handle t flush = flush_fires t
handle t restart = reset t

-- No packet is exactly half the number space away from the expected sequence, where it is neither
-- ahead nor behind.
abbrev pub IsComparable : SequenceTracker → Input → Type 0
IsComparable t (packet s) = (e : ℕ) → t.expected_seq ≡ some e → sub32 (u32 s) e ≢ half
IsComparable t (timer s) = Unit
IsComparable t flush = Unit
IsComparable t restart = Unit

-- `processSequence` branches on whether a packet has set the baseline.
process_sequence_lem :
    (t : SequenceTracker) (s : ℕ) (o : Option ℕ)
    → t.expected_seq ≡ o
    → process_sequence t s
      ≡ (elim o as (λ (p : Option ℕ). ProcessSequenceResult × SequenceTracker) [
        | none ↦ process_first t (u32 s)
        | some e ↦ process_known t (u32 s) e
      ])
unfolding process_sequence
process_sequence_lem t s o q =
    ap
      (λ p. elim p as (λ (x : Option ℕ). ProcessSequenceResult × SequenceTracker) [
        | none ↦ process_first t (u32 s)
        | some e ↦ process_known t (u32 s) e
      ])
      q

first-Running : (t : SequenceTracker) (s : ℕ) → Fits t → Idle t → Running (process_sequence t s).1
unfolding process_first add has
first-Running t s f i =
    let r : add t.received_seqs (u32 s) ≡ u32 s ∷ [] = rw i.received in
    rw (process_sequence_lem t s none i.expected) (
      f,
      (
        next32 (u32 s),
        0,
        start-Window (process_first t (u32 s)).1 (u32 s) f (omega arith) refl r i.timers i.pending
            i.attempts,
      ),
    )

packet-Running :
    (t : SequenceTracker) (s : ℕ)
    → ((e : ℕ) → t.expected_seq ≡ some e → sub32 (u32 s) e ≢ half)
    → Running t
    → Running (process_sequence t s).1
packet-Running t s c (f, (e, h, w)) =
    rw (process_sequence_lem t s (some e) w.expected)
      (process_known-Running t e h f w (u32 s) (omega arith) (c e w.expected))

reset-Idle : (t : SequenceTracker) → Fits t → Fits (reset t) × Idle (reset t)
unfolding reset
reset-Idle t f =
    (f, record { expected = refl; received = refl; timers = refl; pending = refl; attempts = refl })

Idle-flush : (t : SequenceTracker) → Fits t → Idle t → Fits (flush_fires t) × Idle (flush_fires t)
unfolding flush_fires flush_naks flush_batch keep
Idle-flush t f i =
    let u : SequenceTracker = record t { flush_armed = false; pending_naks = [] } in
    let q : flush_fires t ≡ flush_batch u [] = rw i.pending in
    rw q (
      f,
      record {
        expected = i.expected;
        received = i.received;
        timers = i.timers;
        pending = refl;
        attempts = i.attempts;
      },
    )

-- Every packet, timer, flush and reset keeps the invariant, for a packet that is not exactly 2 ^ 31
-- away from the expected sequence.
pub handle-IsValid :
    (t : SequenceTracker) (i : Input) → IsComparable t i → IsValid t → IsValid (handle t i)
unfolding handle has
handle-IsValid t (packet s) c (inl (f, i)) = inr (first-Running t s f i)
handle-IsValid t (packet s) c (inr r) = inr (packet-Running t s c r)
handle-IsValid t (timer s) c (inl (f, i)) =
    let n : has t.nak_timers s ≡ false = rw i.timers in rw n (inl (f, i))
handle-IsValid t (timer s) c (inr (f, (e, h, w))) = inr (elim (Bool-cases (has t.nak_timers s)) [
  | inl m ↦ rw m (fire-Running t e h f w s m)
  | inr m ↦ rw m (f, (e, h, w))
])
handle-IsValid t flush c (inl (f, i)) = inl (Idle-flush t f i)
handle-IsValid t flush c (inr r) = inr (flush_fires-Running t r)
handle-IsValid t restart c (inl (f, i)) = inl (reset-Idle t f)
handle-IsValid t restart c (inr r) = inl (reset-Idle t r.0)

pub handle_all : SequenceTracker → List Input → SequenceTracker
handle_all t [] = t
handle_all t (i ∷ is_) = handle_all (handle t i) is_

abbrev pub AllComparable : SequenceTracker → List Input → Type 0
AllComparable t [] = Unit
AllComparable t (i ∷ is_) = IsComparable t i × AllComparable (handle t i) is_

handle_all-IsValid :
    (t : SequenceTracker) (is_ : List Input)
    → AllComparable t is_
    → IsValid t
    → IsValid (handle_all t is_)
unfolding handle_all
handle_all-IsValid t [] c v = v
handle_all-IsValid t (i ∷ is_) c v =
    handle_all-IsValid (handle t i) is_ c.1 (handle-IsValid t i c.0 v)

-- From its creation on, whatever packets, timer callbacks, flushes and resets a tracker sees in
-- whatever order, it keeps the invariant: once a packet was seen, NAK timers are armed for exactly the
-- missing sequences from the expected one up to a horizon within `maxGapTracking`. The configured
-- distances must leave room in the number space, and no packet be exactly 2 ^ 31 away.
pub handle_all-create-IsValid :
    (config : SequenceTrackerConfig) (is_ : List Input)
    → Fits (create config)
    → AllComparable (create config) is_
    → IsValid (handle_all (create config) is_)
unfolding create
handle_all-create-IsValid config is_ f c = handle_all-IsValid (create config) is_ c (
    inl (
      f,
      record { expected = refl; received = refl; timers = refl; pending = refl; attempts = refl },
    ))

-- In a tracker that keeps the invariant no gap is forgotten.
gap_lem :
    (t : SequenceTracker) (e s r : ℕ)
    → IsValid t
    → t.expected_seq ≡ some e
    → has t.received_seqs r ≡ true
    → sub32 r e ≤ t.max_gap_tracking
    → s < 2 ^ 32
    → sub32 s e < sub32 r e
    → has t.received_seqs s ≡ false
    → has t.nak_timers s ≡ true
gap_lem t e s r (inl (f, i)) x m b l c n = absurd (cc (i.expected))
gap_lem t e s r (inr (f, (e', h, w))) x m b l c n =
    let q : e' ≡ e = ground (arith, w.expected) in
    let v : Tracks t e h h = rw q at w.tracks in
    let (_, d) = v.near r m in ground (arith, v.armed s l, v.word, f, v.room)

bounds_lem :
    (t : SequenceTracker)
    → IsValid t
    → (length t.nak_timers ≤ t.max_gap_tracking)
      × (length t.received_seqs ≤ back t + t.max_gap_tracking + 1)
      × ((s : ℕ) → has t.pending_naks s ≡ true → has t.nak_timers s ≡ true)
      × ((s n : ℕ) → JsMap.get t.nak_attempts s ≡ some n → n ≤ t.max_nak_rounds)
unfolding has JsMap.get
bounds_lem t (inl (f, i)) = (
  rw i.timers (omega arith),
  rw i.received (omega arith),
  rw i.pending (λ s m. absurd (ground arith)),
  rw i.attempts (λ s n m. absurd (ground arith)),
)
bounds_lem t (inr (f, (e, h, w))) =
    let a = length-timers t e h h f w.tracks in
    let b = length-received t e h h f w.tracks in
    (omega (arith, w.tracks.room), omega (arith, w.tracks.room), w.tracks.pending, w.tracks.rounds)

module _ (config : SequenceTrackerConfig) (is_ : List Input) (f : Fits (create config))
    (c : AllComparable (create config) is_) where
  -- No gap is forgotten: whatever packets, timers, flushes and resets a tracker has seen, a sequence that
  -- is missing between the expected one and a received one within `maxGapTracking` has an armed NAK
  -- timer. The configured distances leave room in the number space, and no packet was exactly 2 ^ 31
  -- away.
  pub gap-armed :
      (e s r : ℕ)
      → (handle_all (create config) is_).expected_seq ≡ some e
      → has (handle_all (create config) is_).received_seqs r ≡ true
      → sub32 r e ≤ (handle_all (create config) is_).max_gap_tracking
      → s < 2 ^ 32
      → sub32 s e < sub32 r e
      → has (handle_all (create config) is_).received_seqs s ≡ false
      → has (handle_all (create config) is_).nak_timers s ≡ true
  gap-armed e s r =
      gap_lem (handle_all (create config) is_) e s r (handle_all-create-IsValid config is_ f c)

  -- A tracker stays bounded, whatever packets, timers, flushes and resets it sees: at most
  -- `maxGapTracking` timers, pending NAKs only for armed sequences, no retry counter above
  -- `maxNakRounds`, and at most as many received sequences as `maxGapTracking` and the larger of the two
  -- distances behind, and one. The configured distances leave room in the number space, and no packet
  -- was exactly 2 ^ 31 away.
  pub tracker_bounds :
      (length (handle_all (create config) is_).nak_timers
        ≤ (handle_all (create config) is_).max_gap_tracking)
      × (length (handle_all (create config) is_).received_seqs
          ≤ back (handle_all (create config) is_)
            + (handle_all (create config) is_).max_gap_tracking
            + 1)
      × ((s : ℕ)
          → has (handle_all (create config) is_).pending_naks s ≡ true
          → has (handle_all (create config) is_).nak_timers s ≡ true)
      × ((s n : ℕ)
          → JsMap.get (handle_all (create config) is_).nak_attempts s ≡ some n
          → n ≤ (handle_all (create config) is_).max_nak_rounds)
  tracker_bounds =
      bounds_lem (handle_all (create config) is_) (handle_all-create-IsValid config is_ f c)
