-- ===== src/DeltaBatcher/Tests.antt =====
-- A batch that fails twice, and a buffer that overflows during a send.
use signalk_edge_link.Prelude.{
  ℕ, ◌≡◌, refl, true, false, none, some, List, [], ◌∷◌, length, replicate,
}
use signalk_edge_link.Json.{null}
use signalk_edge_link.Delta.{Delta}
use signalk_edge_link.DeltaBatcher.{
  Batcher, sent, given_up, cleared, start, stop, teardown_session, teardown_timers, starting,
  stopping, create_initial_state, is_held, flush_delta_batch, schedule_batch_retry,
  handle_batch_send_failure, batch_sent, send_done, send_ends, retry_fires, drain_fires,
  schedule_delta_timer, delta_timer_fires, enforce_buffer_cap, maybe_flush, process_delta, Event,
  delta, send_end, retry, drain, timer_start, timer_fire, host, step, run,
}
use signalk_edge_link.DeltaBatcher.Books.{Accounted, spares_sends, arrivals}
use signalk_edge_link.DeltaBatcher.Ledger.{run-create-Accounted}

abbrev delta_of : ℕ → Delta
delta_of n = record { context = some (n ∷ []); updates = none; rest = null }

abbrev ready : Event
ready = host (record {
  ready_to_send = true;
  subscribing = false;
  socket_recovery_in_progress = false;
  max_deltas_per_batch = 2;
})

abbrev events : List Event
events =
    ready
    ∷ delta (some (delta_of 1))
    ∷ delta (some (delta_of 2))
    ∷ delta (some (delta_of 3))
    ∷ send_end 0 false 10
    ∷ retry
    ∷ send_end 0 false 20
    ∷ drain
    ∷ send_end 0 true 30
    ∷ timer_start
    ∷ delta (some (delta_of 4))
    ∷ timer_fire
    ∷ send_end 0 true 40
    ∷ delta (some (delta_of 5))
    ∷ stopping
    ∷ starting true
    ∷ []

run-events :
    (run (create_initial_state 4) events).outcomes
    ≡ given_up (delta_of 1 ∷ delta_of 2 ∷ [])
      ∷ sent (delta_of 3 ∷ [])
      ∷ sent (delta_of 4 ∷ [])
      ∷ cleared (delta_of 5 ∷ [])
      ∷ []
unfolding run step start stop teardown_session teardown_timers create_initial_state is_held
    flush_delta_batch schedule_batch_retry handle_batch_send_failure batch_sent send_done send_ends
    retry_fires drain_fires schedule_delta_timer delta_timer_fires enforce_buffer_cap maybe_flush
    process_delta
run-events = refl

events-spared : spares_sends (create_initial_state 4) events ≡ true
unfolding run step start stop teardown_session teardown_timers create_initial_state is_held
    flush_delta_batch schedule_batch_retry handle_batch_send_failure batch_sent send_done send_ends
    retry_fires drain_fires schedule_delta_timer delta_timer_fires enforce_buffer_cap maybe_flush
    process_delta spares_sends
events-spared = refl

run-create-Accounted_example :
    Accounted (run (create_initial_state 4) events) (arrivals (create_initial_state 4) events)
run-create-Accounted_example = run-create-Accounted 4 events events-spared

-- One delta is being sent, and 999 wait.
abbrev full : Batcher
full = record (create_initial_state 4) {
  ready_to_send = true;
  deltas = delta_of 0 ∷ replicate 999 (delta_of 1);
  batch_send_in_flight = true;
  sending = record { batch = delta_of 0 ∷ []; size = 1; retry_count = 0 } ∷ [];
}

-- The overflow drops 500 deltas, the one that is being sent among them; the end of the send drops one
-- more, which no counter holds.
abbrev overflowed_run : Batcher
overflowed_run = run full (delta (some (delta_of 2)) ∷ send_end 0 true 10 ∷ [])

overflow-full : (length overflowed_run.deltas ≡ 500) × (overflowed_run.dropped_delta_count ≡ 500)
unfolding run step start stop teardown_session teardown_timers create_initial_state is_held
    flush_delta_batch schedule_batch_retry handle_batch_send_failure batch_sent send_done send_ends
    enforce_buffer_cap maybe_flush process_delta
overflow-full = (refl, refl)
