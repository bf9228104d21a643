-- ===== src/SequenceTracker/Timers.antt =====
-- NAK timers: cancelling on arrival, arming over a gap. Eviction from a full table never happens.
use signalk_edge_link.Prelude.{
  ℕ, zero, suc, ◌+◌, ◌^◌, ◌≤◌, ◌<◌, ◌≡◌, ◌∙◌, max, true, false, List, [], ◌∷◌, ◌++◌, append-nil,
  append_assoc, leb, arith, ◌⊎◌, inl, inr, Bool-cases, length,
}
use signalk_edge_link.Serial.{u32, sub32, next32}
use signalk_edge_link.Serial.Laws.{sub32_inj}
use signalk_edge_link.JsSet.{has, add}
use signalk_edge_link.JsSet.Laws.{has-add, has-delete, Distinct-add, Distinct-delete}
use signalk_edge_link.JsMap.Laws as MapLaws
use signalk_edge_link.SequenceTracker.{
  SequenceTracker, cancel_nak, schedule_nak, gap_walk, missing_from,
}
use signalk_edge_link.SequenceTracker.Window.{back, Fits, Tracks, length-timers}

-- A sequence that arrives loses its NAK state.
abbrev pub arrive : SequenceTracker → ℕ → SequenceTracker
arrive t s = cancel_nak (record t { received_seqs = add t.received_seqs s }) s

pub arrive-Tracks :
    (t : SequenceTracker) (e h g s : ℕ)
    → Tracks t e h h
    → h ≤ g
    → g ≤ t.max_gap_tracking
    → s < 2 ^ 32
    → (sub32 s e ≤ g) ⊎ (sub32 e s ≤ back t)
    → Tracks (arrive t s) e h g
unfolding cancel_nak
arrive-Tracks t e h g s w o r l d = record {
  word = w.word;
  order = o;
  room = r;
  near = λ x m. ground (arith, has-add t.received_seqs s x, w.near x);
  armed =
      λ x b. ground (arith, has-add t.received_seqs s x, has-delete t.nak_timers s x, w.armed x b);
  words = λ x m. w.words x (ground (arith, has-delete t.nak_timers s x));
  received_distinct = Distinct-add t.received_seqs s w.received_distinct;
  timers_distinct = Distinct-delete t.nak_timers s w.timers_distinct;
  pending = λ x m.
      ground (arith, has-delete t.pending_naks s x, has-delete t.nak_timers s x, w.pending x);
  tried = λ x m.
      ground
        (arith, MapLaws.has-keys-delete t.nak_attempts s x, has-delete t.nak_timers s x, w.tried x);
  rounds = λ x n m. ground (arith, MapLaws.get-delete t.nak_attempts s x, w.rounds x n);
}

-- Arming a timer for a sequence that has one changes nothing, and with room in the table it adds one.
pub schedule_nak_lem :
    (t : SequenceTracker) (s : ℕ)
    → (has t.nak_timers s ≡ true) ⊎ (length t.nak_timers < t.max_gap_tracking)
    → schedule_nak t s ≡ record t { nak_timers = add t.nak_timers s }
unfolding schedule_nak add
schedule_nak_lem t s d = elim (Bool-cases (has t.nak_timers s)) [
  | inl old ↦ rw old
  | inr new ↦
      let room : leb t.max_gap_tracking (length t.nak_timers) ≡ false = ground arith in
      rw (new, room, new)
]

-- One candidate of the gap loop.
gap_step :
    (t : SequenceTracker) (e h g i : ℕ)
    → Fits t
    → Tracks t e h g
    → i < g
    → has t.received_seqs (u32 (e + i)) ≡ false
    → (schedule_nak t (u32 (e + i)) ≡ record t { nak_timers = add t.nak_timers (u32 (e + i)) })
      × (i ≤ h
          → Tracks (record t { nak_timers = add t.nak_timers (u32 (e + i)) }) e (max h (suc i)) g)
gap_step t e h g i f w l n =
    let c = u32 (e + i) in
    let bound = length-timers t e h g f w in
    let x : sub32 c e ≡ i = omega (arith, f, w.room, w.word) in
    let a = w.armed c (omega arith) in
    (
      schedule_nak_lem t c (ground (arith, w.room)),
      λ k. record {
        word = w.word;
        order = omega (arith, w.order);
        room = w.room;
        near = w.near;
        armed = λ y b. ground (arith, has-add t.nak_timers c y, w.armed y b, sub32_inj y c e b);
        words = λ y m. ground (arith, has-add t.nak_timers c y, w.words y);
        received_distinct = w.received_distinct;
        timers_distinct = Distinct-add t.nak_timers c w.timers_distinct;
        pending = λ y m. ground (arith, has-add t.nak_timers c y, w.pending y m);
        tried = λ y m. ground (arith, has-add t.nak_timers c y, w.tried y m);
        rounds = w.rounds;
      },
    )

-- A candidate that is received needs no timer.
widen :
    (t : SequenceTracker) (e h g i : ℕ)
    → Fits t
    → Tracks t e h g
    → i ≤ h
    → i < g
    → has t.received_seqs (u32 (e + i)) ≡ true
    → Tracks t e (max h (suc i)) g
widen t e h g i f w k l r =
    let c = u32 (e + i) in
    let x : sub32 c e ≡ i = omega (arith, f, w.room, w.word) in
    record {
      word = w.word;
      order = omega (arith, w.order);
      room = w.room;
      near = w.near;
      armed = λ y b. ground (arith, w.armed y b, sub32_inj y c e b, same y);
      words = w.words;
      received_distinct = w.received_distinct;
      timers_distinct = w.timers_distinct;
      pending = w.pending;
      tried = w.tried;
      rounds = w.rounds;
    }
  where
    same : (y : ℕ) → y ≡ u32 (e + i) → has t.received_seqs y ≡ true
    same y p = rw p r

-- The gap loop from the `i`-th candidate on: it lists the missing sequences, arms a timer for each, and
-- changes nothing else.
pub gap_walk_lem :
    (n : ℕ) (t : SequenceTracker) (e h g i c : ℕ) (m : List ℕ)
    → Fits t
    → Tracks t e h g
    → c ≡ u32 (e + i)
    → i ≤ h
    → i + n ≤ g
    → (ts : List ℕ) × (gap_walk n c m t
        ≡ (m ++ missing_from n c t.received_seqs, record t { nak_timers = ts }))
      × Tracks (record t { nak_timers = ts }) e (max h (i + n)) g
unfolding gap_walk missing_from
gap_walk_lem zero t e h g i c m f w p k l =
    let q : max h (i + 0) ≡ h = omega arith in (t.nak_timers, rw append-nil, rw q w)
gap_walk_lem (suc n) t e h g i c m f w p k l = elim (Bool-cases (has t.received_seqs c)) [
  | inl seen ↦
      let v0 = widen t e h g i f w k (omega arith) (rw p at seen) in
      let (ts, r, v) =
        gap_walk_lem n t e (max h (suc i)) g (suc i) (next32 c) m f v0 (omega arith) (omega arith)
          (omega arith) in
      let q : max (max h (suc i)) (suc i + n) ≡ max h (i + suc n) = omega arith in
      (ts, rw (seen, gap_walk, missing_from) r, rw q at v)
  | inr gone ↦
      let (s, w') = gap_step t e h g i f w (omega arith) (rw p at gone) in
      let t' : SequenceTracker = record t { nak_timers = add t.nak_timers (u32 (e + i)) } in
      let (ts, r, v) =
        gap_walk_lem n t' e (max h (suc i)) g (suc i) (next32 c) (m ++ (c ∷ [])) f (w' k)
          (omega arith) (omega arith) (omega arith) in
      let q : max (max h (suc i)) (suc i + n) ≡ max h (i + suc n) = omega arith in
      let s' : schedule_nak t c ≡ t' = rw p s in
      (ts, rw (gone, gap_walk, missing_from, s') (r ∙ rw append_assoc), rw q at v)
]
