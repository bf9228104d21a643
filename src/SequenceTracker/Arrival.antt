-- ===== src/SequenceTracker/Arrival.antt =====
-- The window moves over the expected sequence once it is received or given up.
use signalk_edge_link.Prelude.{
  ℕ, suc, ◌+◌, ◌-◌, ◌^◌, ◌≤◌, ◌<◌, ◌≡◌, refl, true, false, not, ◌&&◌, some, ltb, leb, ◌==◌, arith,
  ◌⊎◌, inl, inr, Bool-cases, length,
}
use signalk_edge_link.Serial.{u32, sub32, next32, half}
use signalk_edge_link.Serial.Laws.{sub32_shift_ge, sub32_shift_lt, is_behind-sub32}
use signalk_edge_link.JsSet.{has}
use signalk_edge_link.JsSet.Laws.{has-delete_kept, Distinct-delete_all}
use signalk_edge_link.SequenceTracker.{
  SequenceTracker, advance_past, cleanup_at, cleanup_old_sequences, is_stale,
}
use signalk_edge_link.SequenceTracker.Walk.{Quiet, advance-walk, walk, walk_lem, walk-stops}
use signalk_edge_link.SequenceTracker.Window.{
  back, Fits, Tracks, Window, Running, Tracks-Quiet, length-received,
}

-- Cleaning up takes away nothing that is ahead.
not_stale :
    (t : SequenceTracker) (e s : ℕ)
    → Fits t
    → e < 2 ^ 32
    → sub32 s e ≤ t.max_gap_tracking
    → is_stale t e s ≡ false
not_stale t e s f l h = ground arith

module _ (t : SequenceTracker) (e h : ℕ) (f : Fits t) (w : Tracks t e h h)
    (r : has t.received_seqs e ≡ true) where
  -- The loop passes `e` to `e + k`, all received, so that `k` is within the horizon.
  passed_le : (k : ℕ) → ((i : ℕ) → i < k → has t.received_seqs (u32 (next32 e + i)) ≡ true) → k ≤ h
  passed_le k all = elim (Bool-cases (leb k h)) [
    | inl l ↦ ground arith
    | inr m ↦
        let (_, d) = w.near (u32 (next32 e + h)) (all h (ground arith)) in
        absurd (ground (arith, w.room, w.word, f))
  ]

  module _ (k e' : ℕ) (p : e' ≡ u32 (next32 e + k))
      (all : (i : ℕ) → i < k → has t.received_seqs (u32 (next32 e + i)) ≡ true)
      (stop : has t.received_seqs e' ≡ false) where
    moved : SequenceTracker
    moved = cleanup_at (record t { expected_seq = some e' }) e'

    -- What the loop has passed is received.
    has-passed : (s : ℕ) → s < 2 ^ 32 → sub32 s e ≤ k → has t.received_seqs s ≡ true
    has-passed s l b = elim (Bool-cases (s == e)) [
      | inl same ↦ let q : s ≡ e = ground arith in rw q r
      | inr other ↦
          let i = sub32 s e - 1 in
          let q : u32 (next32 e + i) ≡ s = ground (arith, w.word) in
          rw q at (all i (ground (arith, w.word)))
    ]

    e'_lem : e' ≡ u32 (e + suc k)
    e'_lem = omega arith

    -- A received sequence that is now behind is close behind, or was cleaned up.
    behind_near : (s : ℕ) → is_stale t e' s ≡ false → sub32 e' s < half → sub32 e' s ≤ back t
    behind_near s n b = ground (arith, is_behind-sub32 s e' t.max_out_of_order, f)

    moved_near :
        (s : ℕ)
        → has moved.received_seqs s ≡ true
        → (s < 2 ^ 32) × ((sub32 s e' ≤ h - suc k) ⊎ (sub32 e' s ≤ back t))
    unfolding moved cleanup_at
    moved_near s m =
        let old : (has t.received_seqs s ≡ true) × (is_stale t e' s ≡ false) =
          ground (arith, has-delete_kept (is_stale t e') t.received_seqs s) in
        let (l, d) = w.near s old.0 in
        let gl = passed_le k all in
        let room = w.room in
        elim (Bool-cases (leb (suc k) (sub32 s e))) [
          | inl ahead ↦
              let x : sub32 s e' ≡ sub32 s e - suc k =
                rw e'_lem (sub32_shift_ge s e (suc k) (ground arith)) in
              elim d [
                | inl a ↦ (l, inl (omega arith))
                | inr b ↦ (l, inr (behind_near s old.1 (omega (arith, f, w.word))))
              ]
          | inr passed ↦ (l, inr (behind_near s old.1 (ground (arith, f, w.word, e'_lem))))
        ]

    moved_armed :
        (s : ℕ)
        → s < 2 ^ 32
        → has t.nak_timers s ≡ (ltb (sub32 s e') (h - suc k) && not (has moved.received_seqs s))
    unfolding moved cleanup_at
    moved_armed s l =
        let gl = passed_le k all in
        let room = w.room in
        let a = w.armed s l in
        let del = has-delete_kept (is_stale t e') t.received_seqs s in
        elim (Bool-cases (leb (suc k) (sub32 s e))) [
          | inl ahead ↦
              let x : sub32 s e' ≡ sub32 s e - suc k =
                rw e'_lem (sub32_shift_ge s e (suc k) (ground arith)) in
              let fresh : sub32 s e < h → is_stale t e' s ≡ false =
                λ b. not_stale t e' s f (omega arith) (omega arith) in
              ground arith
          | inr passed ↦
              let x : sub32 s e' ≡ sub32 s e + 2 ^ 32 - suc k =
                rw e'_lem (sub32_shift_lt s e (suc k) (ground arith) (omega (arith, f))) in
              let g = has-passed s l (ground arith) in ground (arith, f)
        ]

    moved-Window : Window moved e' (h - suc k)
    unfolding moved cleanup_at
    moved-Window =
        let kl = passed_le k all in
        record {
          expected = refl;
          settled = ground (arith, has-delete_kept (is_stale t e') t.received_seqs e', stop);
          tracks = record {
            word = omega arith;
            order = omega arith;
            room = omega (arith, w.room);
            near = moved_near;
            armed = moved_armed;
            words = w.words;
            received_distinct = Distinct-delete_all t.received_seqs _ w.received_distinct;
            timers_distinct = w.timers_distinct;
            pending = w.pending;
            tried = w.tried;
            rounds = w.rounds;
          };
        }

  -- Moving past `e` restores the whole invariant, at the next missing sequence.
  advance_past-Window : (e' : ℕ) × (h' : ℕ) × Window (advance_past t e) e' h'
  unfolding advance_past cleanup_old_sequences moved
  advance_past-Window =
      let n = length t.received_seqs in
      let rs = t.received_seqs in
      let quiet = Tracks-Quiet t e h h f w in
      let (k, p, b, all, _) = walk_lem n rs (next32 e) (omega arith) in
      let bound = length-received t e h h f w in
      let stop = walk-stops rs (next32 e) (omega arith) (omega (arith, f, w.room)) in
      let e' = walk n rs (next32 e) in
      (e', h - suc k, rw (advance-walk n t (next32 e) quiet) (moved-Window k e' p all stop))

advance_past-Fits : (t : SequenceTracker) (e : ℕ) → Quiet t → Fits t → Fits (advance_past t e)
unfolding advance_past cleanup_old_sequences cleanup_at
advance_past-Fits t e q f = rw (advance-walk (length t.received_seqs) t (next32 e) q) f

pub advance_past-Running :
    (t : SequenceTracker) (e h : ℕ)
    → Fits t
    → Tracks t e h h
    → has t.received_seqs e ≡ true
    → Running (advance_past t e)
advance_past-Running t e h f w r =
    (advance_past-Fits t e (Tracks-Quiet t e h h f w) f, advance_past-Window t e h f w r)
