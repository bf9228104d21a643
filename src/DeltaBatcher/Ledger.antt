-- ===== src/DeltaBatcher/Ledger.antt =====
-- What becomes of the deltas that enter the buffer (src/domain/delta-batcher.ts,
-- src/app/connection/process-delta.ts).
use signalk_edge_link.Prelude.{
  ℕ, ◌+◌, ◌-◌, ◌≤◌, ◌<◌, ◌≡◌, refl, sym, ap, ◌∙◌, true, false, not, ◌&&◌, ◌||◌, none, some, List,
  [], ◌∷◌, ◌++◌, append_assoc, append-nil, leb, ◌==◌, if_either, Bool-cases, length, take, drop,
  length-append, length-drop, length-take, arith, inl, inr,
}
use signalk_edge_link.Delta.{Delta}
use signalk_edge_link.DeltaBatcher.{
  overflowed, cleared, stop, teardown_session, teardown_timers, start, starting, stopping, Batcher,
  create_initial_state, is_some, max_deltas_buffer_size, overflow_drop, flush, send_ends,
  retry_fires, drain_fires, schedule_delta_timer, enforce_buffer_cap, push_delta, maybe_flush,
  takes_deltas, process_delta, Event, delta, send_end, retry, drain, timer_start, timer_fire, host,
  step, run,
}
use signalk_edge_link.DeltaBatcher.Books.{
  all_contents, Books, Accounted, spares_send, spares_sends, arrival, arrivals, lost_from-snoc,
  all_contents-snoc, moved, idle-InFlight, push-InFlight,
}
use signalk_edge_link.DeltaBatcher.Sends.{
  flush-Accounted, ends-Accounted, retry-Accounted, timer-Accounted,
}

overflow-Accounted :
    (d : Delta) (b : Batcher) (ds : List Delta)
    → Accounted b ds
    → b.batch_send_in_flight ≡ false
    → max_deltas_buffer_size ≤ length b.deltas
    → Books
        (b.outcomes ++ (overflowed (take overflow_drop b.deltas) ∷ []))
        (drop overflow_drop b.deltas ++ (d ∷ []))
        (b.dropped_delta_count + overflow_drop)
        b.batch_send_in_flight
        b.sending
        (ds ++ (d ∷ []))
overflow-Accounted d b ds a idle full =
    let front = take overflow_drop b.deltas in
    let rest = drop overflow_drop b.deltas in
    record {
      ledger =
          sym (append_assoc (all_contents (b.outcomes ++ (overflowed front ∷ []))) rest (d ∷ []))
          ∙ ap (λ xs. xs ++ (d ∷ []))
              (moved b.outcomes (overflowed front) overflow_drop b.deltas refl ∙ a.ledger);
      counted =
          lost_from-snoc 0 b.outcomes (overflowed front)
          ∙ omega (arith, a.counted, length-take overflow_drop b.deltas);
      capped =
          omega (arith, length-append rest (d ∷ []), length-drop overflow_drop b.deltas, a.capped);
      in_flight =
          idle-InFlight b.batch_send_in_flight b.sending b.deltas (rest ++ (d ∷ [])) a.in_flight
            idle;
    }

push-Accounted :
    (d : Delta) (b : Batcher) (ds : List Delta)
    → Accounted b ds
    → length b.deltas < max_deltas_buffer_size
    → Accounted (push_delta d b) (ds ++ (d ∷ []))
push-Accounted d b ds a room = record {
  ledger =
      sym (append_assoc (all_contents b.outcomes) b.deltas (d ∷ []))
      ∙ ap (λ xs. xs ++ (d ∷ [])) a.ledger;
  counted = a.counted;
  capped = omega (arith, length-append b.deltas (d ∷ []));
  in_flight = push-InFlight b.batch_send_in_flight b.sending b.deltas (d ∷ []) a.in_flight;
}

enforced-Accounted :
    (d : Delta) (b : Batcher) (ds : List Delta)
    → Accounted b ds
    → (b.batch_send_in_flight && leb max_deltas_buffer_size (length b.deltas)) ≡ false
    → Accounted (push_delta d (enforce_buffer_cap b)) (ds ++ (d ∷ []))
unfolding enforce_buffer_cap
enforced-Accounted d b ds a spared =
    if_either (λ x. Accounted (push_delta d x) (ds ++ (d ∷ [])))
      (leb max_deltas_buffer_size (length b.deltas))
      (record b {
        deltas = drop overflow_drop b.deltas;
        dropped_delta_batches = b.dropped_delta_batches + 1;
        dropped_delta_count = b.dropped_delta_count + overflow_drop;
        outcomes = b.outcomes ++ (overflowed (take overflow_drop b.deltas) ∷ []);
      })
      b (λ full. overflow-Accounted d b ds a (ground arith) (ground arith))
      (λ room. push-Accounted d b ds a (ground arith))

maybe_flush-Accounted :
    (b : Batcher) (ds : List Delta) → Accounted b ds → Accounted (maybe_flush b) ds
unfolding maybe_flush
maybe_flush-Accounted b ds a =
    if_either (λ x. Accounted x ds)
      ((leb b.max_deltas_per_batch (length b.deltas) || b.timer) && not (is_some b.pending_retry))
      (flush b) b (λ h. flush-Accounted (length b.deltas) 0 b ds a) (λ h. a)

process-Accounted :
    (d : Delta) (b : Batcher) (ds : List Delta)
    → Accounted b ds
    → spares_send b (delta (some d)) ≡ true
    → Accounted (process_delta (some d) b) (ds ++ arrival b (delta (some d)))
unfolding process_delta
process-Accounted d b ds a spared = elim (Bool-cases (takes_deltas b)) [
  | inl p ↦
      rw (process_delta, p)
        (maybe_flush-Accounted (push_delta d (enforce_buffer_cap b)) (ds ++ (d ∷ []))
          (enforced-Accounted d b ds a (ground arith)))
  | inr p ↦ rw (process_delta, p, append-nil ds) a
]

drain-Accounted : (b : Batcher) (ds : List Delta) → Accounted b ds → Accounted (drain_fires b) ds
unfolding drain_fires
drain-Accounted b ds a =
    let next = record b { drains = b.drains - 1 } in
    if_either (λ x. Accounted x ds) (b.drains == 0) b (flush next) (λ h. a)
      (λ h. flush-Accounted (length b.deltas) 0 next ds a)

stop-Accounted :
    (b : Batcher) (ds : List Delta)
    → Accounted b ds
    → b.batch_send_in_flight ≡ false
    → Accounted (stop b) ds
unfolding stop teardown_session teardown_timers
stop-Accounted b ds a idle = record {
  ledger =
      append-nil (all_contents (b.outcomes ++ (cleared b.deltas ∷ [])))
      ∙ all_contents-snoc b.outcomes (cleared b.deltas)
      ∙ a.ledger;
  counted = lost_from-snoc 0 b.outcomes (cleared b.deltas);
  capped = omega arith;
  in_flight =
      rw idle at (idle-InFlight b.batch_send_in_flight b.sending b.deltas [] a.in_flight idle);
}

step-Accounted :
    (b : Batcher) (e : Event) (ds : List Delta)
    → Accounted b ds
    → spares_send b e ≡ true
    → Accounted (step b e) (ds ++ arrival b e)
unfolding step process_delta send_ends retry_fires schedule_delta_timer start
step-Accounted b (delta none) ds a h = rw (append-nil ds) a
step-Accounted b (delta (some d)) ds a h = process-Accounted d b ds a h
step-Accounted b (send_end i ok now) ds a h =
    rw (append-nil ds) (ends-Accounted i ok now b ds b.sending a a.in_flight)
step-Accounted b retry ds a h = rw (append-nil ds) (retry-Accounted b ds b.pending_retry a)
step-Accounted b drain ds a h = rw (append-nil ds) (drain-Accounted b ds a)
step-Accounted b timer_start ds a h = rw (append-nil ds) a
step-Accounted b timer_fire ds a h = rw (append-nil ds) (timer-Accounted b ds a)
step-Accounted b (starting valid) ds a h = rw (append-nil ds) a
step-Accounted b stopping ds a h = rw (append-nil ds) (stop-Accounted b ds a (ground arith))
step-Accounted b (host x) ds a h = rw (append-nil ds) a

run-Accounted :
    (b : Batcher) (es : List Event) (ds : List Delta)
    → Accounted b ds
    → spares_sends b es ≡ true
    → Accounted (run b es) (ds ++ arrivals b es)
unfolding run arrivals spares_sends
run-Accounted b [] ds a h = rw (append-nil ds) a
run-Accounted b (e ∷ es) ds a h =
    rw (sym (append_assoc ds (arrival b e) (arrivals (step b e) es))) (
      run-Accounted (step b e) es (ds ++ arrival b e) (step-Accounted b e ds a (ground arith))
        (ground arith))

-- Whatever deltas, ends of sends, retries, drains, timers, starts, stops and other changes of the
-- connection's state a new batcher sees, in any order in which during a send no delta meets a full buffer
-- and the connection is not stopped: each delta that entered the buffer was sent, given up, dropped as
-- overflow or cleared by a stop exactly once and in order, or is still in the buffer, of at most 1000; the
-- counter holds the number of the deltas that were given up or dropped since the last stop; and at most
-- one batch is being sent, which is the front of the buffer.
pub run-create-Accounted :
    (max_deltas_per_batch : ℕ) (es : List Event)
    → spares_sends (create_initial_state max_deltas_per_batch) es ≡ true
    → Accounted
        (run (create_initial_state max_deltas_per_batch) es)
        (arrivals (create_initial_state max_deltas_per_batch) es)
unfolding create_initial_state
run-create-Accounted max_deltas_per_batch es h =
    run-Accounted (create_initial_state max_deltas_per_batch) es []
      (record { ledger = refl; counted = refl; capped = omega arith; in_flight = refl }) h
