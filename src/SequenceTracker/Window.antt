-- ===== src/SequenceTracker/Window.antt =====
-- The invariant of the sequence tracker, around the expected sequence `e`: what is received lies close
-- to it, and NAK timers are armed for exactly the missing sequences up to a horizon `h`.
use signalk_edge_link.Prelude.{
  ℕ, ◌+◌, ◌-◌, ◌^◌, ◌≤◌, ◌<◌, ◌≡◌, max, true, false, not, ◌&&◌, some, ltb, arith, ◌⊎◌, Bool-cases,
  length,
}
use signalk_edge_link.Serial.{sub32, half}
use signalk_edge_link.JsSet.{has, Distinct}
use signalk_edge_link.JsSet.Laws.{
  has-delete_kept, Distinct-delete_all, run_of, has-run_of, length-run_of, length-le_of_has,
  All-of_has,
}
use signalk_edge_link.JsMap
use signalk_edge_link.SequenceTracker.{SequenceTracker, cleanup_at, is_stale}
use signalk_edge_link.SequenceTracker.Walk.{Quiet}

-- How far behind `e` a received sequence can be.
abbrev pub back : SequenceTracker → ℕ
back t = max t.max_out_of_order t.behind_resync_threshold

-- The configured distances leave room in the number space.
abbrev pub Fits : SequenceTracker → Type 0
Fits t = (1 ≤ back t) × (back t + t.max_gap_tracking + 2 ≤ half)

-- All of the invariant but that `e` is the expected sequence and missing. Timers cover the missing
-- sequences up to `h`; received sequences reach up to `g`.
pub record Tracks (t : SequenceTracker) (e h g : ℕ) : Type 0 where
  pub word : e < 2 ^ 32
  pub order : h ≤ g
  pub room : g ≤ t.max_gap_tracking
  pub near :
      (s : ℕ)
      → has t.received_seqs s ≡ true
      → (s < 2 ^ 32) × ((sub32 s e ≤ g) ⊎ (sub32 e s ≤ back t))
  pub armed :
      (s : ℕ) → s < 2 ^ 32 → has t.nak_timers s ≡ (ltb (sub32 s e) h && not (has t.received_seqs s))
  pub words : (s : ℕ) → has t.nak_timers s ≡ true → s < 2 ^ 32
  pub received_distinct : Distinct t.received_seqs
  pub timers_distinct : Distinct t.nak_timers
  pub pending : (s : ℕ) → has t.pending_naks s ≡ true → has t.nak_timers s ≡ true
  pub tried : (s : ℕ) → has (JsMap.keys t.nak_attempts) s ≡ true → has t.nak_timers s ≡ true
  pub rounds : (s n : ℕ) → JsMap.get t.nak_attempts s ≡ some n → n ≤ t.max_nak_rounds

pub record Window (t : SequenceTracker) (e h : ℕ) : Type 0 where
  pub expected : t.expected_seq ≡ some e
  pub settled : has t.received_seqs e ≡ false
  pub tracks : Tracks t e h h

-- The invariant of a tracker that has seen a packet.
abbrev pub Running : SequenceTracker → Type 0
Running t = Fits t × ((e : ℕ) × (h : ℕ) × Window t e h)

module _ (t : SequenceTracker) (e h g : ℕ) (f : Fits t) (w : Tracks t e h g) where
  -- A received sequence has no timer, no pending NAK and no retry counter.
  pub Tracks-Quiet : Quiet t
  Tracks-Quiet s r =
      let (l, _) = w.near s r in
      let a : has t.nak_timers s ≡ false =
        ground (arith, w.armed s l, Bool-cases (ltb (sub32 s e) h)) in
      (
        a,
        ground (arith, w.pending s, Bool-cases (has t.pending_naks s)),
        ground (arith, w.tried s, Bool-cases (has (JsMap.keys t.nak_attempts) s)),
      )

  -- The received set is bounded.
  pub length-received : length t.received_seqs ≤ back t + g + 1
  length-received =
      let n = back t + g + 1 in
      let a = e + (2 ^ 32 - back t) in
      let inside =
        All-of_has (λ s. has (run_of a n) s ≡ true) t.received_seqs
          (λ s r. let (l, d) = w.near s r in ground (arith, has-run_of a n s, w.room, f, w.word)) in
      omega (
        arith,
        length-le_of_has t.received_seqs (run_of a n) w.received_distinct inside,
        length-run_of a n,
      )

  pub length-timers : length t.nak_timers ≤ h
  length-timers =
      let inside =
        All-of_has (λ s. has (run_of e h) s ≡ true) t.nak_timers
          (λ s r.
            ground (arith, has-run_of e h s, w.words s r, w.armed s, w.room, w.order, f, w.word)) in
      omega (
        arith,
        length-le_of_has t.nak_timers (run_of e h) w.timers_distinct inside,
        length-run_of e h,
      )

  -- Cleaning up takes away nothing that is ahead.
  pub cleanup_keeps_ahead :
      (s : ℕ) → sub32 s e ≤ g → has (cleanup_at t e).received_seqs s ≡ has t.received_seqs s
  unfolding cleanup_at
  cleanup_keeps_ahead s a =
      ground (arith, has-delete_kept (is_stale t e) t.received_seqs s, w.room, w.word, f)

  pub cleanup_at-Tracks : Tracks (cleanup_at t e) e h g
  unfolding cleanup_at
  cleanup_at-Tracks = record {
    word = w.word;
    order = w.order;
    room = w.room;
    near = λ s r. w.near s (ground (arith, has-delete_kept (is_stale t e) t.received_seqs s));
    armed = λ s l. ground (arith, w.armed s l, cleanup_keeps_ahead s, w.order);
    words = w.words;
    received_distinct = Distinct-delete_all t.received_seqs _ w.received_distinct;
    timers_distinct = w.timers_distinct;
    pending = w.pending;
    tried = w.tried;
    rounds = w.rounds;
  }
