-- ===== src/SequenceTracker/Firing.antt =====
-- The callbacks of the NAK timers and of the flush timer keep the invariant.
use signalk_edge_link.Prelude.{
  ℕ, ◌+◌, ◌^◌, ◌≤◌, ◌<◌, ◌≡◌, refl, sym, ap, ◌∙◌, Bool, true, false, ◌||◌, Option, none, some, List,
  [], ◌∷◌, ◌++◌, ltb, ◌==◌, ==_iff, if◌then◌else◌, arith, inl, inr, Bool-cases,
}
use signalk_edge_link.Serial.{sub32}
use signalk_edge_link.JsSet.{has, add, delete}
use signalk_edge_link.JsSet.Laws.{
  has-add, has-delete, Distinct-add, Distinct-delete, delete_none, length-delete-lt,
}
use signalk_edge_link.JsMap
use signalk_edge_link.JsMap.Laws as MapLaws
use signalk_edge_link.SequenceTracker.{
  SequenceTracker, Event, gap_abandoned, loss_detected, is_expected, or_default, cancel_nak,
  abandon_sequence, advance_past, schedule_nak, fire, flush_batch, flush_naks, flush_fires,
}
use signalk_edge_link.SequenceTracker.Window.{back, Fits, Tracks, Window, Running, length-timers}
use signalk_edge_link.SequenceTracker.Arrival.{advance_past-Running}
use signalk_edge_link.SequenceTracker.Timers.{arrive, arrive-Tracks, schedule_nak_lem}

-- The tracks of a window depend on some fields alone.
copy-Tracks :
    (t t' : SequenceTracker) (e h g : ℕ)
    → t'.received_seqs ≡ t.received_seqs
    → t'.nak_timers ≡ t.nak_timers
    → t'.nak_attempts ≡ t.nak_attempts
    → ((s : ℕ) → has t'.pending_naks s ≡ true → has t.pending_naks s ≡ true)
    → back t' ≡ back t
    → t'.max_gap_tracking ≡ t.max_gap_tracking
    → t'.max_nak_rounds ≡ t.max_nak_rounds
    → Tracks t e h g
    → Tracks t' e h g
copy-Tracks t t' e h g r n a p b m k w = record {
  word = w.word;
  order = w.order;
  room = rw m w.room;
  near = rw (r, b) w.near;
  armed = rw (r, n) w.armed;
  words = rw n w.words;
  received_distinct = rw r w.received_distinct;
  timers_distinct = rw n w.timers_distinct;
  pending = rw n (λ s h. w.pending s (p s h));
  tried = rw (a, n) w.tried;
  rounds = rw (a, k) w.rounds;
}

-- The tracker just before `abandon_sequence` looks at the head of the window.
abbrev pub given_up : SequenceTracker → ℕ → SequenceTracker
given_up t s = record (arrive t s) { abandoned_count = t.abandoned_count + 1 }

abbrev logged : SequenceTracker → Event → SequenceTracker
logged t ev = record t { events = t.events ++ (ev ∷ []) }

logged-Running : (t : SequenceTracker) (ev : Event) → Running t → Running (logged t ev)
logged-Running t ev (f, (e, h, w)) = (
  f,
  (
    e,
    h,
    record {
      expected = w.expected;
      settled = w.settled;
      tracks = copy-Tracks t (logged t ev) e h h refl refl refl (λ s m. m) refl refl refl w.tracks;
    },
  ),
)

pub delete_twice : (xs : List ℕ) (a : ℕ) → delete (delete xs a) a ≡ delete xs a
delete_twice xs a = delete_none (delete xs a) a (ground (arith, has-delete xs a a))

module _ (t : SequenceTracker) (e h : ℕ) (f : Fits t) (w : Window t e h) (s : ℕ)
    (m : has t.nak_timers s ≡ true) where
  unfoldable pub disarmed : SequenceTracker
  disarmed = record t { nak_timers = delete t.nak_timers s }

  pub in_window : (s < 2 ^ 32) × (sub32 s e < h) × (has t.received_seqs s ≡ false)
  in_window =
      let l = w.tracks.words s m in let a = w.tracks.armed s l in (l, ground arith, ground arith)

  pub given_up-Tracks : Tracks (given_up t s) e h h
  unfolding cancel_nak
  given_up-Tracks =
      let (l, b, n) = in_window in
      let a = arrive-Tracks t e h h s w.tracks (omega arith) w.tracks.room l (inl (omega arith)) in
      copy-Tracks (arrive t s) (given_up t s) e h h refl refl refl (λ x y. y) refl refl refl a

  pub given_up-has :
      (x : ℕ) → has (given_up t s).received_seqs x ≡ ((s == x) || has t.received_seqs x)
  unfolding cancel_nak
  given_up-has x = has-add t.received_seqs s x

  given_up-same : Fits (given_up t s) × ((given_up t s).expected_seq ≡ some e)
  unfolding cancel_nak
  given_up-same = (f, w.expected)

  -- Giving up on the head of the window moves it; on another sequence, it does not.
  past-Running :
      Running (if is_expected (given_up t s) s then advance_past (given_up t s) s else given_up t s)
  past-Running =
      let g = given_up t s in
      let (f', x) = given_up-same in
      let v = given_up-Tracks in
      let q : is_expected g s ≡ (s == e) =
        ap (λ o. elim o as (λ (p : Option ℕ). Bool) [ none ↦ false | some c ↦ s == c ]) x in
      elim (Bool-cases (s == e)) [
        | inl same ↦
            let p : e ≡ s = sym ((==_iff s e).0 same) in
            let r : has g.received_seqs s ≡ true = given_up-has s ∙ ground arith in
            rw (q, same) (advance_past-Running g s h f' (rw p at v) r)
        | inr other ↦
            rw (q, other)
              (
                f',
                (
                  e,
                  h,
                  record {
                    expected = x;
                    settled = given_up-has e ∙ ground (arith, w.settled);
                    tracks = v;
                  },
                ),
              )
      ]

  abandon-Running : Running (abandon_sequence disarmed s)
  unfolding abandon_sequence cancel_nak disarmed
  abandon-Running =
      rw (delete_twice t.nak_timers s) (logged-Running _ (gap_abandoned s) past-Running)

  here : (z : ℕ) → (s == z) ≡ true → has t.nak_timers z ≡ true
  here z p = let q : z ≡ s = ground arith in rw q m

  retried-Running :
      (n : ℕ)
      → n ≤ t.max_nak_rounds
      → Running (
          schedule_nak
            (record disarmed {
              nak_attempts = JsMap.set t.nak_attempts s n;
              pending_naks = add t.pending_naks s;
              flush_armed = true;
            })
            s)
  unfolding disarmed
  retried-Running n b =
      let (l, x, y) = in_window in
      let lt = length-delete-lt t.nak_timers s m in
      let bound = length-timers t e h h f w.tracks in
      let ts = add (delete t.nak_timers s) s in
      let t1 : SequenceTracker = record disarmed {
        nak_attempts = JsMap.set t.nak_attempts s n;
        pending_naks = add t.pending_naks s;
        flush_armed = true;
      } in
      let q = schedule_nak_lem t1 s (inr (omega (arith, w.tracks.room))) in
      let same : (z : ℕ) → has ts z ≡ has t.nak_timers z = λ z.
        ground (arith, has-add (delete t.nak_timers s) s z, has-delete t.nak_timers s z, here z) in
      rw q (
        f,
        (
          e,
          h,
          record {
            expected = w.expected;
            settled = w.settled;
            tracks = record {
              word = w.tracks.word;
              order = w.tracks.order;
              room = w.tracks.room;
              near = w.tracks.near;
              armed = λ z b. same z ∙ w.tracks.armed z b;
              words = λ z o. w.tracks.words z (sym (same z) ∙ o);
              received_distinct = w.tracks.received_distinct;
              timers_distinct =
                  Distinct-add (delete t.nak_timers s) s
                    (Distinct-delete t.nak_timers s w.tracks.timers_distinct);
              pending = λ z o.
                  same z ∙ ground (arith, has-add t.pending_naks s z, w.tracks.pending z, here z);
              tried = λ z o.
                  same z
                  ∙ ground
                      (arith, MapLaws.has-keys-set t.nak_attempts s n z, w.tracks.tried z, here z);
              rounds = λ z k o.
                  ground (arith, MapLaws.get-set t.nak_attempts s n z, w.tracks.rounds z k);
            };
          },
        ),
      )

  pub fire-Running : Running (fire t s)
  unfolding fire disarmed
  fire-Running =
      let (l, x, y) = in_window in
      let n = or_default (JsMap.get t.nak_attempts s) 0 + 1 in
      rw y (elim (Bool-cases (ltb t.max_nak_rounds n)) [
        | inl spent ↦ rw spent abandon-Running
        | inr again ↦ rw again (retried-Running n (ground arith))
      ])

flush_batch-Running :
    (t : SequenceTracker) (batch : List ℕ) → Running t → Running (flush_batch t batch)
unfolding flush_batch
flush_batch-Running t [] r = r
flush_batch-Running t (s ∷ ss) r = logged-Running t (loss_detected (s ∷ ss)) r

pub flush_fires-Running : (t : SequenceTracker) → Running t → Running (flush_fires t)
unfolding flush_fires flush_naks has
flush_fires-Running t (f, (e, h, w)) =
    let u : SequenceTracker = record t { flush_armed = false; pending_naks = [] } in
    flush_batch-Running u _ (
      f,
      (
        e,
        h,
        record {
          expected = w.expected;
          settled = w.settled;
          tracks =
              copy-Tracks t u e h h refl refl refl (λ s m. absurd (ground arith)) refl refl refl
                w.tracks;
        },
      ),
    )
