-- ===== src/DeltaBatcher/Sends.antt =====
-- Sends, retries and the timer keep the books (src/domain/delta-batcher.ts).
use signalk_edge_link.Prelude.{
  ℕ, zero, suc, ◌+◌, ◌≤◌, min, ◌≡◌, refl, Bool, true, false, not, ◌||◌, Option, none, some, List,
  [], ◌∷◌, ◌++◌, leb, ◌==◌, if◌then◌else◌, if_either, take_out, length, take, drop, arith,
}
use signalk_edge_link.Delta.{Delta}
use signalk_edge_link.DeltaBatcher.{
  Sending, sent, given_up, Batcher, is_some, is_held, delta_send_max_retries, flush_delta_batch,
  flush, schedule_batch_retry, handle_batch_send_failure, batch_sent, send_done,
  schedule_delta_timer, delta_timer_fires,
}
use signalk_edge_link.DeltaBatcher.Books.{
  InFlight, Books, Accounted, first-InFlight, leave, settled, given_up-count,
}

is_held-flag : (b : Batcher) → is_held b ≡ false → b.batch_send_in_flight ≡ false
unfolding is_held
is_held-flag b h = ground (arith, h)

pub flush-Accounted :
    (batch_size retry_count : ℕ) (b : Batcher) (ds : List Delta)
    → Accounted b ds
    → Accounted (flush_delta_batch batch_size retry_count b) ds
unfolding flush_delta_batch
flush-Accounted batch_size retry_count b ds a =
    let n = min batch_size (min (length b.deltas) b.max_deltas_per_batch) in
    let s : Sending = record { batch = take n b.deltas; size = n; retry_count = retry_count } in
    let sends : Batcher = record b {
      batch_send_in_flight = true;
      sending = b.sending ++ (s ∷ []);
    } in
    if_either (λ x. Accounted x ds) (is_held b) b
      (if (batch_size == 0) || (length b.deltas == 0) then record b { timer = false } else sends)
      (λ h. a)
      (λ h.
        if_either (λ x. Accounted x ds) ((batch_size == 0) || (length b.deltas == 0))
          (record b { timer = false }) sends (λ e. a)
          (λ e. record {
            ledger = a.ledger;
            counted = a.counted;
            capped = a.capped;
            in_flight =
                first-InFlight b.batch_send_in_flight b.sending b.deltas s a.in_flight
                  (is_held-flag b h) (omega arith) refl;
          }))

-- A batcher whose only awaited send has ended; `a` is of before.
failed-Accounted :
    (s : Sending) (b : Batcher) (ds : List Delta) (flag : Bool) (o : List Sending)
    → Books b.outcomes b.deltas b.dropped_delta_count flag o ds
    → s.size ≤ length b.deltas
    → Accounted (send_done (handle_batch_send_failure s (record b { sending = [] }))) ds
unfolding send_done handle_batch_send_failure schedule_batch_retry
failed-Accounted s b ds flag o a fits =
    let P : Batcher → Type 0 = λ x. Accounted (send_done x) ds in
    let c : Batcher = record b { sending = [] } in
    let again = record c { pending_retry = some (s.size, suc s.retry_count) } in
    let gone = record c {
      deltas = drop s.size b.deltas;
      timer = false;
      dropped_delta_batches = b.dropped_delta_batches + 1;
      dropped_delta_count = b.dropped_delta_count + s.size;
      outcomes = b.outcomes ++ (given_up (take s.size b.deltas) ∷ []);
    } in
    if_either P (leb (suc s.retry_count) delta_send_max_retries)
      (if is_some b.pending_retry || b.stopped then c else again) gone
      (λ h.
        if_either P (is_some b.pending_retry || b.stopped) c again (λ p. settled a)
          (λ p. settled a))
      (λ h.
        leave (given_up (take s.size b.deltas)) s.size (b.dropped_delta_count + s.size) b.outcomes
          b.deltas b.dropped_delta_count ds flag o a refl
          (given_up-count s.size b.deltas b.dropped_delta_count fits))

sent-Accounted :
    (s : Sending) (now : ℕ) (b : Batcher) (ds : List Delta) (flag : Bool) (o : List Sending)
    → Books b.outcomes b.deltas b.dropped_delta_count flag o ds
    → take s.size b.deltas ≡ s.batch
    → Accounted (send_done (batch_sent s now (record b { sending = [] }))) ds
unfolding send_done batch_sent
sent-Accounted s now b ds flag o a front =
    leave (sent s.batch) s.size b.dropped_delta_count b.outcomes b.deltas b.dropped_delta_count ds
      flag o a front refl

pub ends-Accounted :
    (i : ℕ) (ok : Bool) (now : ℕ) (b : Batcher) (ds : List Delta) (o : List Sending)
    → Accounted b ds
    → InFlight b.batch_send_in_flight o b.deltas
    → Accounted
        (elim (take_out i o) [
          | none ↦ b
          | some (s, others) ↦ send_done (
              if ok
              then batch_sent s now (record b { sending = others })
              else handle_batch_send_failure s (record b { sending = others }))
        ])
        ds
ends-Accounted i ok now b ds [] a f = a
ends-Accounted zero true now b ds (s ∷ []) a (set, fits, front) =
    sent-Accounted s now b ds b.batch_send_in_flight b.sending a front
ends-Accounted zero false now b ds (s ∷ []) a (set, fits, front) =
    failed-Accounted s b ds b.batch_send_in_flight b.sending a fits
ends-Accounted (suc i) ok now b ds (s ∷ []) a f = a
ends-Accounted i ok now b ds (s ∷ t ∷ ss) a f = absurd (ground arith)

pub retry-Accounted :
    (b : Batcher) (ds : List Delta) (o : Option (ℕ × ℕ))
    → Accounted b ds
    → Accounted
        (elim o [
          | none ↦ b
          | some (batch_size, retry_count) ↦
              flush_delta_batch batch_size retry_count (record b { pending_retry = none })
        ])
        ds
retry-Accounted b ds none a = a
retry-Accounted b ds (some (batch_size, retry_count)) a =
    flush-Accounted batch_size retry_count (record b { pending_retry = none }) ds a

pub timer-Accounted :
    (b : Batcher) (ds : List Delta) → Accounted b ds → Accounted (delta_timer_fires b) ds
unfolding delta_timer_fires schedule_delta_timer
timer-Accounted b ds a =
    let P : Batcher → Type 0 = λ x. Accounted x ds in
    let armed = record b { timer = true; delta_timer = false } in
    let again : Batcher → Batcher = λ x. record x { delta_timer = true } in
    let next = if length b.deltas == 0 then armed else flush armed in
    if_either P (not b.delta_timer) b
      (if b.stopped then record b { delta_timer = false } else again next) (λ h. a)
      (λ h.
        if_either P b.stopped (record b { delta_timer = false }) (again next) (λ s. a)
          (λ s.
            if_either P (length b.deltas == 0) armed (flush armed) (λ e. a)
              (λ e. flush-Accounted (length b.deltas) 0 armed ds a)))
