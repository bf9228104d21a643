-- ===== src/SequenceTracker/Patience.antt =====
-- How long the window of src/transport/reliability/sequence.ts waits for a sequence that is lost.
use signalk_edge_link.Prelude.{
  ℕ, ◌+◌, ◌≤◌, ◌≡◌, ◌≢◌, refl, ap, ◌∙◌, Bool, true, false, Option, none, some, List, [], ◌∷◌, ltb,
  ◌==◌, ==-self, if◌then◌else◌, arith, inl, inr, Bool-cases, Option-cases, length, All,
}
use signalk_edge_link.Serial.{next32}
use signalk_edge_link.JsSet.{has, add, delete}
use signalk_edge_link.JsSet.Laws.{has-add, has-delete, length-delete-lt}
use signalk_edge_link.JsMap
use signalk_edge_link.JsMap.Laws as MapLaws
use signalk_edge_link.SequenceTracker.{
  SequenceTracker, is_expected, or_default, cancel_nak, abandon_sequence, advance_past, fire,
  flush_batch, flush_naks, flush_fires, cleanup_old_sequences, cleanup_at,
}
use signalk_edge_link.SequenceTracker.Walk.{walk, walk-stops, advance-walk}
use signalk_edge_link.SequenceTracker.Window.{
  Fits, Tracks, Window, length-timers, length-received, Tracks-Quiet,
}
use signalk_edge_link.SequenceTracker.Timers.{schedule_nak_lem}
use signalk_edge_link.SequenceTracker.Firing.{
  in_window, given_up, given_up-Tracks, given_up-has, delete_twice,
}
use signalk_edge_link.SequenceTracker.Steps.{
  Input, packet, timer, flush, restart, handle, IsValid, IsComparable, handle-IsValid,
}

abbrev attempts_of : SequenceTracker → ℕ → ℕ
attempts_of t e = or_default (JsMap.get t.nak_attempts e) 0

-- Timers and flushes, but no packet and no reset.
abbrev is_silent : Input → Bool
is_silent (packet s) = false
is_silent (timer s) = true
is_silent flush = true
is_silent restart = false

abbrev tick : ℕ → Input → ℕ
tick e (timer s) = if s == e then 1 else 0
tick e (packet s) = 0
tick e flush = 0
tick e restart = 0

-- How often the timer of a sequence runs.
abbrev pub firings : ℕ → List Input → ℕ
firings e [] = 0
firings e (i ∷ is_) = tick e i + firings e is_

-- The window stands at `e` all along.
abbrev pub Stuck : ℕ → SequenceTracker → List Input → Type 0
Stuck e t [] = t.expected_seq ≡ some e
Stuck e t (i ∷ is_) = (t.expected_seq ≡ some e) × Stuck e (handle t i) is_

Stuck-head :
    (e : ℕ) (t : SequenceTracker) (is_ : List Input) → Stuck e t is_ → t.expected_seq ≡ some e
Stuck-head e t [] h = h
Stuck-head e t (i ∷ is_) h = h.0

-- What a silent input keeps while the window stands.
record Waits (t t' : SequenceTracker) (e n : ℕ) : Type 0 where
  armed : has t'.nak_timers e ≡ true
  attempts : attempts_of t' e ≡ attempts_of t e + n
  rounds : t'.max_nak_rounds ≡ t.max_nak_rounds

window_of :
    (t : SequenceTracker) (e : ℕ)
    → IsValid t
    → t.expected_seq ≡ some e
    → Fits t × ((h : ℕ) × Window t e h)
window_of t e (inl (f, i)) x = absurd (ground (arith, i.expected))
window_of t e (inr (f, (c, h, w))) x =
    let q : c ≡ e = ground (arith, w.expected) in (f, (h, rw (← q) w))

advance_past-expected :
    (t : SequenceTracker) (e h : ℕ)
    → Fits t
    → Tracks t e h h
    → (advance_past t e).expected_seq
      ≡ some (walk (length t.received_seqs) t.received_seqs (next32 e))
unfolding advance_past cleanup_old_sequences cleanup_at
advance_past-expected t e h f w =
    rw (advance-walk (length t.received_seqs) t (next32 e) (Tracks-Quiet t e h h f w)) refl

module _ (t : SequenceTracker) (e h : ℕ) (f : Fits t) (w : Window t e h) where
  -- The head is given up: the window moves.
  head-moves :
      has t.nak_timers e ≡ true
      → ltb t.max_nak_rounds (attempts_of t e + 1) ≡ true
      → (fire t e).expected_seq ≢ some e
  unfolding fire abandon_sequence cancel_nak
  head-moves m spent =
      let (l, _, y) = in_window t e h f w e m in
      let g : SequenceTracker = given_up t e in
      let v = given_up-Tracks t e h f w e m in
      let r : has g.received_seqs e ≡ true =
        given_up-has t e h f w e m e ∙ ground (arith, ==-self e) in
      let n : ℕ = length g.received_seqs in
      let stop =
        walk-stops g.received_seqs (next32 e) (omega arith)
          (omega (arith, length-received g e h h f v, f, v.room)) in
      let q : is_expected g e ≡ true =
        ap (λ o. elim o as (λ (p : Option ℕ). Bool) [ none ↦ false | some c ↦ e == c ]) w.expected
        ∙ ==-self e in
      let x = advance_past-expected g e h f v in
      rw (fire, y, spent, delete_twice t.nak_timers e, q, x)
        (λ z.
          let same : walk n g.received_seqs (next32 e) ≡ e = ground arith in
          let no : has g.received_seqs e ≡ false = rw same at stop in absurd (ground arith))

  -- The head is asked for once more.
  head-Waits :
      has t.nak_timers e ≡ true
      → ltb t.max_nak_rounds (attempts_of t e + 1) ≡ false
      → Waits t (fire t e) e 1
  unfolding fire
  head-Waits m again =
      let (l, _, y) = in_window t e h f w e m in
      let lt = length-delete-lt t.nak_timers e m in
      let bound = length-timers t e h h f w.tracks in
      let t1 : SequenceTracker = record t {
        nak_timers = delete t.nak_timers e;
        nak_attempts = JsMap.set t.nak_attempts e (attempts_of t e + 1);
        pending_naks = add t.pending_naks e;
        flush_armed = true;
      } in
      let q = schedule_nak_lem t1 e (inr (omega (arith, w.tracks.room))) in
      rw (fire, y, again, q)
        (record {
          armed = ground (arith, has-add (delete t.nak_timers e) e e, ==-self e);
          attempts =
              ap (λ o. or_default o 0) (MapLaws.get-set t.nak_attempts e (attempts_of t e + 1) e)
              ∙ ground (arith, ==-self e);
          rounds = refl;
        })

  -- The timer of another sequence leaves the head alone.
  other-Waits :
      (s : ℕ)
      → has t.nak_timers s ≡ true
      → has t.nak_timers e ≡ true
      → (s == e) ≡ false
      → Waits t (fire t s) e 0
  unfolding fire abandon_sequence cancel_nak
  other-Waits s m a n =
      let (l, _, y) = in_window t e h f w s m in
      let kept : has (delete t.nak_timers s) e ≡ true =
        has-delete t.nak_timers s e ∙ ground arith in
      elim (Bool-cases (ltb t.max_nak_rounds (attempts_of t s + 1))) [
        | inl spent ↦
            let g : SequenceTracker = given_up t s in
            let q : is_expected g s ≡ false =
              ap (λ o. elim o as (λ (p : Option ℕ). Bool) [ none ↦ false | some c ↦ s == c ])
                w.expected
              ∙ n in
            rw (fire, y, spent, delete_twice t.nak_timers s, q)
              (record {
                armed = kept;
                attempts =
                    ap (λ o. or_default o 0) (MapLaws.get-delete t.nak_attempts s e)
                    ∙ rw n (omega arith);
                rounds = refl;
              })
        | inr again ↦
            let lt = length-delete-lt t.nak_timers s m in
            let bound = length-timers t e h h f w.tracks in
            let t1 : SequenceTracker = record t {
              nak_timers = delete t.nak_timers s;
              nak_attempts = JsMap.set t.nak_attempts s (attempts_of t s + 1);
              pending_naks = add t.pending_naks s;
              flush_armed = true;
            } in
            let q = schedule_nak_lem t1 s (inr (omega (arith, w.tracks.room))) in
            rw (fire, y, again, q)
              (record {
                armed = has-add (delete t.nak_timers s) s e ∙ ground arith;
                attempts =
                    ap (λ o. or_default o 0)
                      (MapLaws.get-set t.nak_attempts s (attempts_of t s + 1) e)
                    ∙ rw n (omega arith);
                rounds = refl;
              })
      ]

  batch-Waits :
      (batch : List ℕ)
      → has t.nak_timers e ≡ true
      → Waits t (flush_batch (record t { flush_armed = false; pending_naks = [] }) batch) e 0
  unfolding flush_batch
  batch-Waits [] a = record { armed = a; attempts = omega arith; rounds = refl }
  batch-Waits (s ∷ ss) a = record { armed = a; attempts = omega arith; rounds = refl }

  flush-Waits : has t.nak_timers e ≡ true → Waits t (flush_fires t) e 0
  unfolding flush_fires flush_naks
  flush-Waits a = batch-Waits _ a

  handle-Waits :
      (i : Input)
      → is_silent i ≡ true
      → has t.nak_timers e ≡ true
      → (handle t i).expected_seq ≡ some e
      → Waits t (handle t i) e (tick e i)
  unfolding handle
  handle-Waits (packet s) i a x = absurd (ground arith)
  handle-Waits restart i a x = absurd (ground arith)
  handle-Waits flush i a x = flush-Waits a
  handle-Waits (timer s) i a x = elim (Bool-cases (has t.nak_timers s)) [
    | inr idle ↦
        let n : (s == e) ≡ false = elim (Bool-cases (s == e)) [
          | inl p ↦ let q : s ≡ e = ground arith in absurd (ground (arith, rw q at idle))
          | inr p ↦ p
        ] in
        rw (idle, n) (record { armed = a; attempts = omega arith; rounds = refl })
    | inl m ↦ elim (Bool-cases (s == e)) [
      | inr n ↦ rw (m, n) (other-Waits s m a n)
      | inl p ↦
          let q : s ≡ e = ground arith in
          elim (Bool-cases (ltb t.max_nak_rounds (attempts_of t e + 1))) [
            | inl spent ↦ absurd (head-moves a spent (rw (q, a) at x))
            | inr again ↦ rw (q, a, ==-self e) (head-Waits a again)
          ]
    ]
  ]

  attempts-le : attempts_of t e ≤ t.max_nak_rounds
  attempts-le = elim (Option-cases (JsMap.get t.nak_attempts e)) [
    | inl p ↦ rw p (omega arith)
    | inr (n, p) ↦ rw p (w.tracks.rounds e n p)
  ]

silent-IsComparable : (t : SequenceTracker) (i : Input) → is_silent i ≡ true → IsComparable t i
silent-IsComparable t (packet s) h = absurd (ground arith)
silent-IsComparable t (timer s) h = tt
silent-IsComparable t flush h = tt
silent-IsComparable t restart h = tt

Stuck-firings :
    (t : SequenceTracker) (e : ℕ) (is_ : List Input)
    → IsValid t
    → has t.nak_timers e ≡ true
    → All (λ i. is_silent i ≡ true) is_
    → Stuck e t is_
    → attempts_of t e + firings e is_ ≤ t.max_nak_rounds
Stuck-firings t e [] v a s h =
    let (f, (k, w)) = window_of t e v h in omega (arith, attempts-le t e k f w)
Stuck-firings t e (i ∷ is_) v a s h =
    let (f, (k, w)) = window_of t e v h.0 in
    let u = handle-Waits t e k f w i s.0 a (Stuck-head e (handle t i) is_ h.1) in
    let rest =
      Stuck-firings (handle t i) e is_ (handle-IsValid t i (silent-IsComparable t i s.0) v) u.armed
        s.1 h.1 in
    omega (arith, u.attempts, u.rounds, rest)

-- No loss blocks the window for ever: if no packet comes and no reset, then in whatever order the timers
-- and flushes run, the window of a tracker that keeps its invariant stands at a missing sequence with an
-- armed timer while that timer runs at most `maxNakRounds` times; the next time, it moves on.
pub patience :
    (t : SequenceTracker) (e : ℕ) (is_ : List Input)
    → IsValid t
    → has t.nak_timers e ≡ true
    → All (λ i. is_silent i ≡ true) is_
    → Stuck e t is_
    → firings e is_ ≤ t.max_nak_rounds
patience t e is_ v a s h = omega (arith, Stuck-firings t e is_ v a s h)
