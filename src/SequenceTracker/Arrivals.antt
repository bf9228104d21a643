-- ===== src/SequenceTracker/Arrivals.antt =====
-- `processSequence` keeps the window, on every branch.
use signalk_edge_link.Prelude.{
  ℕ, ◌+◌, ◌*◌, ◌^◌, ◌≤◌, ◌<◌, ◌≡◌, ◌≢◌, refl, ap, ◌∙◌, max, true, false, ◌||◌, Option, none, some,
  [], ◌∷◌, ltb, leb, ◌==◌, ==_iff, arith, inl, inr, Bool-cases, length,
}
use signalk_edge_link.Serial.{u32, sub32, next32, half, is_behind, is_ahead}
use signalk_edge_link.JsSet.{has}
use signalk_edge_link.JsSet.Laws.{has-add}
use signalk_edge_link.JsMap
use signalk_edge_link.SequenceTracker.{
  SequenceTracker, cancel_nak, resync, cleanup_at, cleanup_old_sequences, clean_if_large,
  advance_past, gap_walk, process_behind, process_ahead, process_new, process_known,
}
use signalk_edge_link.SequenceTracker.Window.{
  back, Fits, Tracks, Window, Running, cleanup_at-Tracks, cleanup_keeps_ahead,
}
use signalk_edge_link.SequenceTracker.Arrival.{advance_past-Running}
use signalk_edge_link.SequenceTracker.Timers.{arrive, arrive-Tracks, gap_walk_lem}

-- A window that holds one sequence and waits for the next.
pub start-Window :
    (t : SequenceTracker) (s : ℕ)
    → Fits t
    → s < 2 ^ 32
    → t.expected_seq ≡ some (next32 s)
    → t.received_seqs ≡ s ∷ []
    → t.nak_timers ≡ []
    → t.pending_naks ≡ []
    → t.nak_attempts ≡ []
    → Window t (next32 s) 0
unfolding has JsMap.keys JsMap.get
start-Window t s f l x r n p a = record {
  expected = x;
  settled = rw r (ground arith);
  tracks = record {
    word = omega arith;
    order = omega arith;
    room = omega arith;
    near = λ y m. let m' : has (s ∷ []) y ≡ true = rw r at m in ground (arith, f);
    armed = λ y b. rw n (ground arith);
    words = λ y m. let m' : has [] y ≡ true = rw n at m in absurd (ground arith);
    received_distinct = rw r (refl, tt);
    timers_distinct = rw n tt;
    pending = λ y m. let m' : has [] y ≡ true = rw p at m in absurd (ground arith);
    tried =
        λ y m. let m' : has (JsMap.keys {V = ℕ} []) y ≡ true = rw a at m in absurd (ground arith);
    rounds = λ y k m. let m' : JsMap.get {V = ℕ} [] y ≡ some k = rw a at m in absurd (ground arith);
  };
}

resync-Running : (t : SequenceTracker) (s : ℕ) → Fits t → s < 2 ^ 32 → Running (resync t s)
unfolding resync
resync-Running t s f l =
    (f, (next32 s, 0, start-Window (resync t s) s f l refl refl refl refl refl))

-- What clean-up leaves: the same window, and all that is ahead.
pub record Tidy (t t' : SequenceTracker) (e h g : ℕ) : Type 0 where
  pub tracks : Tracks t' e h g
  pub fits : Fits t'
  pub expected : t'.expected_seq ≡ some e
  pub ahead : (s : ℕ) → sub32 s e ≤ g → has t'.received_seqs s ≡ has t.received_seqs s
  pub gap : t'.max_gap_tracking ≡ t.max_gap_tracking

cleanup-Tidy :
    (t : SequenceTracker) (e h g : ℕ)
    → Fits t
    → t.expected_seq ≡ some e
    → Tracks t e h g
    → Tidy t (cleanup_old_sequences t) e h g
unfolding cleanup_old_sequences cleanup_at
cleanup-Tidy t e h g f x w =
    let q : cleanup_old_sequences t ≡ cleanup_at t e =
      ap (λ o. elim o as (λ (p : Option ℕ). SequenceTracker) [ none ↦ t | some c ↦ cleanup_at t c ])
        x in
    rw q (record {
      tracks = cleanup_at-Tracks t e h g f w;
      fits = f;
      expected = x;
      ahead = cleanup_keeps_ahead t e h g f w;
      gap = refl;
    })

clean_if_large-Tidy :
    (t : SequenceTracker) (e h g : ℕ)
    → Fits t
    → t.expected_seq ≡ some e
    → Tracks t e h g
    → Tidy t (clean_if_large t) e h g
unfolding clean_if_large
clean_if_large-Tidy t e h g f x w =
    elim (Bool-cases (ltb (t.max_gap_tracking * 2) (length t.received_seqs))) [
      | inl large ↦ rw large (cleanup-Tidy t e h g f x w)
      | inr small ↦
          rw small (record { tracks = w; fits = f; expected = x; ahead = λ s a. refl; gap = refl })
    ]

-- Clean-up leaves the configuration alone.
clean_if_large_config :
    (t : SequenceTracker)
    → ((clean_if_large t).max_gap_tracking ≡ t.max_gap_tracking)
      × (back (clean_if_large t) ≡ back t)
unfolding clean_if_large cleanup_old_sequences cleanup_at
clean_if_large_config t = ground arith

arrive-Fits : (t : SequenceTracker) (s : ℕ) → Fits t → Fits (arrive t s)
unfolding cancel_nak
arrive-Fits t s f = f

gap_walk-Running :
    (t : SequenceTracker) (e h d : ℕ)
    → Fits t
    → t.expected_seq ≡ some e
    → Tracks t e h (max h d)
    → has t.received_seqs e ≡ false
    → Running (cleanup_old_sequences (gap_walk d e [] t).1)
gap_walk-Running t e h d f x w n =
    let c : e ≡ u32 (e + 0) = omega (arith, w.word) in
    let (ts, q, v) = gap_walk_lem d t e h (max h d) 0 e [] f w c (omega arith) (omega arith) in
    let k : max h (0 + d) ≡ max h d = omega arith in
    let y = cleanup-Tidy (record t { nak_timers = ts }) e (max h d) (max h d) f x (rw k at v) in
    rw q (
      y.fits,
      (
        e,
        max h d,
        record {
          expected = y.expected;
          settled = y.ahead e (omega (arith, w.word)) ∙ n;
          tracks = y.tracks;
        },
      ),
    )

module _ (t : SequenceTracker) (e h : ℕ) (f : Fits t) (w : Window t e h) (s : ℕ)
    (l : s < 2 ^ 32) where
  arrive-expected : (arrive t s).expected_seq ≡ some e
  unfolding cancel_nak
  arrive-expected = w.expected

  arrive-has : (x : ℕ) → has (arrive t s).received_seqs x ≡ ((s == x) || has t.received_seqs x)
  unfolding cancel_nak
  arrive-has x = has-add t.received_seqs s x

  process_behind-Running : is_behind s e ≡ true → Running (process_behind t s e).1
  unfolding process_behind
  process_behind-Running b = elim (Bool-cases (ltb t.behind_resync_threshold (sub32 e s))) [
    | inl old ↦ rw old (resync-Running t s f l)
    | inr late ↦ rw late (
      arrive-Fits t s f,
      (
        e,
        h,
        record {
          expected = arrive-expected;
          settled = ground (arith, arrive-has e, w.settled, w.tracks.word);
          tracks =
              arrive-Tracks t e h h s w.tracks (omega arith) w.tracks.room l (inr (ground arith));
        },
      ),
    )
  ]

  -- The expected sequence itself.
  in_order-Running : s ≡ e → Running (advance_past (clean_if_large (arrive t s)) s)
  in_order-Running q =
      let p : sub32 s e ≡ 0 = omega (arith, w.tracks.word) in
      let a = arrive-Tracks t e h h s w.tracks (omega arith) w.tracks.room l (inl (omega arith)) in
      let d = clean_if_large-Tidy (arrive t s) e h h (arrive-Fits t s f) arrive-expected a in
      let r : has (clean_if_large (arrive t s)).received_seqs s ≡ true =
        d.ahead s (omega arith) ∙ arrive-has s ∙ ground arith in
      rw q (
        advance_past-Running (clean_if_large (arrive t e)) e h (rw q at d.fits) (rw q at d.tracks)
          (rw q at r))

  ahead_far :
      t.max_gap_tracking < sub32 s e → Running (process_ahead (clean_if_large (arrive t s)) s e).1
  unfolding process_ahead cancel_nak
  ahead_far b =
      let (c, k) = clean_if_large_config (arrive t s) in
      let far : ltb (clean_if_large (arrive t s)).max_gap_tracking (sub32 s e) ≡ true =
        rw c (ground arith) in
      rw far (resync-Running (clean_if_large (arrive t s)) s (rw (c, k) f) l)

  -- `cancel_nak` and `add` leave the configuration alone.
  cap_gap : (d : ℕ) → d ≤ t.max_gap_tracking → ltb (arrive t s).max_gap_tracking d ≡ false
  unfolding cancel_nak
  cap_gap d b = ground arith

  ahead_near :
      0 < sub32 s e
      → sub32 s e ≤ t.max_gap_tracking
      → Running (process_ahead (clean_if_large (arrive t s)) s e).1
  unfolding process_ahead
  ahead_near p b =
      let d = sub32 s e in
      let g = max h d in
      let a =
        arrive-Tracks t e h g s w.tracks (omega arith) (omega (arith, w.tracks.room)) l
          (inl (omega arith)) in
      let t2 = clean_if_large (arrive t s) in
      let y = clean_if_large-Tidy (arrive t s) e h g (arrive-Fits t s f) arrive-expected a in
      let near : ltb t2.max_gap_tracking d ≡ false =
        rw (clean_if_large_config (arrive t s)).0 (cap_gap d b) in
      let n : has t2.received_seqs e ≡ false =
        y.ahead e (omega (arith, w.tracks.word))
        ∙ arrive-has e
        ∙ ground (arith, w.settled, w.tracks.word) in
      rw near (gap_walk-Running t2 e h d y.fits y.expected y.tracks n)

  process_new-Running : is_behind s e ≡ false → sub32 s e ≢ half → Running (process_new t s e).1
  unfolding process_new
  process_new-Running b n = elim (Bool-cases (s == e)) [
    | inl same ↦ rw same (in_order-Running ((==_iff s e).0 same))
    | inr other ↦
        let ahead : is_ahead s e ≡ true = ground (arith, w.tracks.word) in
        rw (other, ahead)
          (elim (Bool-cases (leb (sub32 s e) t.max_gap_tracking)) [
            | inl near ↦ ahead_near (ground (arith, w.tracks.word)) (ground arith)
            | inr far ↦ ahead_far (ground arith)
          ])
  ]

  pub process_known-Running : sub32 s e ≢ half → Running (process_known t s e).1
  unfolding process_known
  process_known-Running n = elim (Bool-cases (has t.received_seqs s)) [
    | inl old ↦ rw old (f, (e, h, w))
    | inr new ↦ elim (Bool-cases (is_behind s e)) [
      | inl behind ↦ rw (new, behind) (process_behind-Running behind)
      | inr other ↦ rw (new, other) (process_new-Running other n)
    ]
  ]
