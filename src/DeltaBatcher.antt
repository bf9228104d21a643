-- ===== src/DeltaBatcher.antt =====
-- src/domain/delta-batcher.ts, the buffer of src/app/connection/process-delta.ts, and what starting and
-- stopping in src/app/connection/lifecycle-ops.ts do to their state. The callbacks of timers and of the
-- awaited sends are functions of their own. `sending` holds the sends that are awaited; a stop forgets the
-- flag but not the send. Counters that only the statistics read are left out.
pub mod Books
mod Sends
pub mod Ledger
mod Tests
use signalk_edge_link.Prelude.{
  ℕ, suc, ◌+◌, ◌-◌, min, Bool, true, false, not, ◌&&◌, ◌||◌, Option, none, some, List, [], ◌∷◌,
  ◌++◌, leb, ◌==◌, if◌then◌else◌, length, take, drop, take_out,
}
use signalk_edge_link.Delta.{Delta}

-- A batch handed to the pipeline, with `actualBatchSize` and `retryCount`.
pub record Sending : Type 0 where
  pub batch : List Delta
  pub size : ℕ
  pub retry_count : ℕ

-- What left the buffer, oldest first.
pub data Outcome : Type 0 where
  sent : List Delta → Outcome
  given_up : List Delta → Outcome
  overflowed : List Delta → Outcome
  cleared : List Delta → Outcome

-- `pending_retry` holds the arguments of the timer's call; `drains` counts the flushes that
-- `setImmediate` still has to call. `outcomes` is no field of the code: a `sent` of it is a call of the
-- pipeline that succeeded.
pub record Batcher : Type 0 where
  pub deltas : List Delta
  pub timer : Bool
  pub delta_timer : Bool
  pub batch_send_in_flight : Bool
  pub sending : List Sending
  pub pending_retry : Option (ℕ × ℕ)
  pub drains : ℕ
  pub stopped : Bool
  pub ready_to_send : Bool
  pub subscribing : Bool
  pub socket_recovery_in_progress : Bool
  pub max_deltas_per_batch : ℕ
  pub last_packet_time : ℕ
  pub dropped_delta_batches : ℕ
  pub dropped_delta_count : ℕ
  pub outcomes : List Outcome

unfoldable pub create_initial_state : ℕ → Batcher
create_initial_state max_deltas_per_batch = record {
  deltas = [];
  timer = false;
  delta_timer = false;
  batch_send_in_flight = false;
  sending = [];
  pending_retry = none;
  drains = 0;
  stopped = false;
  ready_to_send = false;
  subscribing = false;
  socket_recovery_in_progress = false;
  max_deltas_per_batch = max_deltas_per_batch;
  last_packet_time = 0;
  dropped_delta_batches = 0;
  dropped_delta_count = 0;
  outcomes = [];
}

abbrev pub is_some {ℓ} : {A : Type ℓ} → Option A → Bool
is_some none = false
is_some (some a) = true

-- MAX_DELTAS_BUFFER_SIZE, the deltas dropped when it is reached, and DELTA_SEND_MAX_RETRIES.
abbrev pub max_deltas_buffer_size : ℕ
max_deltas_buffer_size = 1000

abbrev pub overflow_drop : ℕ
overflow_drop = 500

abbrev pub delta_send_max_retries : ℕ
delta_send_max_retries = 1

unfoldable pub is_held : Batcher → Bool
is_held b =
    b.batch_send_in_flight
    || is_some b.pending_retry
    || b.stopped
    || not b.ready_to_send
    || b.socket_recovery_in_progress

-- Up to the `await`.
unfoldable pub flush_delta_batch : ℕ → ℕ → Batcher → Batcher
flush_delta_batch batch_size retry_count b =
    if is_held b
    then b
    else if (batch_size == 0) || (length b.deltas == 0)
    then record b { timer = false }
    else let n = min batch_size (min (length b.deltas) b.max_deltas_per_batch) in
      record b {
        batch_send_in_flight = true;
        sending =
            b.sending
            ++ (record { batch = take n b.deltas; size = n; retry_count = retry_count } ∷ []);
      }

abbrev pub flush : Batcher → Batcher
flush b = flush_delta_batch (length b.deltas) 0 b

unfoldable pub schedule_batch_retry : ℕ → ℕ → Batcher → Batcher
schedule_batch_retry batch_size retry_count b =
    if is_some b.pending_retry || b.stopped
    then b
    else record b { pending_retry = some (batch_size, retry_count) }

unfoldable pub handle_batch_send_failure : Sending → Batcher → Batcher
handle_batch_send_failure s b =
    if leb (suc s.retry_count) delta_send_max_retries
    then schedule_batch_retry s.size (suc s.retry_count) b
    else record b {
      deltas = drop s.size b.deltas;
      timer = false;
      dropped_delta_batches = b.dropped_delta_batches + 1;
      dropped_delta_count = b.dropped_delta_count + s.size;
      outcomes = b.outcomes ++ (given_up (take s.size b.deltas) ∷ []);
    }

unfoldable pub batch_sent : Sending → ℕ → Batcher → Batcher
batch_sent s now b = record b {
  deltas = drop s.size b.deltas;
  timer = false;
  last_packet_time = now;
  outcomes = b.outcomes ++ (sent s.batch ∷ []);
}

-- The `finally`.
unfoldable pub send_done : Batcher → Batcher
send_done b = record b {
  batch_send_in_flight = false;
  drains =
      if not (length b.deltas == 0) && not (is_some b.pending_retry) && not b.stopped
      then b.drains + 1
      else b.drains;
}

-- An awaited send has succeeded, or failed.
unfoldable pub send_ends : ℕ → Bool → ℕ → Batcher → Batcher
send_ends i ok now b = elim (take_out i b.sending) [
  | none ↦ b
  | some (s, others) ↦ send_done (
      if ok
      then batch_sent s now (record b { sending = others })
      else handle_batch_send_failure s (record b { sending = others }))
]

unfoldable pub retry_fires : Batcher → Batcher
retry_fires b = elim b.pending_retry [
  | none ↦ b
  | some (batch_size, retry_count) ↦
      flush_delta_batch batch_size retry_count (record b { pending_retry = none })
]

unfoldable pub drain_fires : Batcher → Batcher
drain_fires b = if b.drains == 0 then b else flush (record b { drains = b.drains - 1 })

unfoldable pub schedule_delta_timer : Batcher → Batcher
schedule_delta_timer b = record b { delta_timer = true }

unfoldable pub delta_timer_fires : Batcher → Batcher
delta_timer_fires b =
    if not b.delta_timer
    then b
    else if b.stopped
    then record b { delta_timer = false }
    else let armed = record b { timer = true; delta_timer = false } in
      schedule_delta_timer (if length b.deltas == 0 then armed else flush armed)

unfoldable pub enforce_buffer_cap : Batcher → Batcher
enforce_buffer_cap b =
    if leb max_deltas_buffer_size (length b.deltas)
    then record b {
      deltas = drop overflow_drop b.deltas;
      dropped_delta_batches = b.dropped_delta_batches + 1;
      dropped_delta_count = b.dropped_delta_count + overflow_drop;
      outcomes = b.outcomes ++ (overflowed (take overflow_drop b.deltas) ∷ []);
    }
    else b

abbrev pub push_delta : Delta → Batcher → Batcher
push_delta d b = record b { deltas = b.deltas ++ (d ∷ []) }

unfoldable pub maybe_flush : Batcher → Batcher
maybe_flush b =
    if (leb b.max_deltas_per_batch (length b.deltas) || b.timer) && not (is_some b.pending_retry)
    then flush b
    else b

abbrev pub takes_deltas : Batcher → Bool
takes_deltas b = b.ready_to_send && not b.subscribing

-- The argument is what sanitising, stripping and the suppression of duplicates leave of the delta.
unfoldable pub process_delta : Option Delta → Batcher → Batcher
process_delta none b = b
process_delta (some d) b =
    if takes_deltas b then maybe_flush (push_delta d (enforce_buffer_cap b)) else b

-- `start`, whose checks of the settings may fail.
unfoldable pub start : Bool → Batcher → Batcher
start valid b = record b { stopped = not valid }

unfoldable pub teardown_session : Batcher → Batcher
teardown_session b = record b {
  deltas = [];
  timer = false;
  batch_send_in_flight = false;
  socket_recovery_in_progress = false;
  dropped_delta_batches = 0;
  dropped_delta_count = 0;
  last_packet_time = 0;
  outcomes = b.outcomes ++ (cleared b.deltas ∷ []);
}

unfoldable pub teardown_timers : Batcher → Batcher
teardown_timers b = record b { delta_timer = false; pending_retry = none }

-- A flush that `setImmediate` has to call stays.
unfoldable pub stop : Batcher → Batcher
stop b = teardown_timers (teardown_session (record b { stopped = true; ready_to_send = false }))

-- The other parts of the connection, which write these fields.
pub record Host : Type 0 where
  pub ready_to_send : Bool
  pub subscribing : Bool
  pub socket_recovery_in_progress : Bool
  pub max_deltas_per_batch : ℕ

abbrev pub set_host : Host → Batcher → Batcher
set_host h b = record b {
  ready_to_send = h.ready_to_send;
  subscribing = h.subscribing;
  socket_recovery_in_progress = h.socket_recovery_in_progress;
  max_deltas_per_batch = h.max_deltas_per_batch;
}

pub data Event : Type 0 where
  delta : Option Delta → Event
  send_end : ℕ → Bool → ℕ → Event
  retry : Event
  drain : Event
  timer_start : Event
  timer_fire : Event
  starting : Bool → Event
  stopping : Event
  host : Host → Event

unfoldable pub step : Batcher → Event → Batcher
step b (delta d) = process_delta d b
step b (send_end i ok now) = send_ends i ok now b
step b retry = retry_fires b
step b drain = drain_fires b
step b timer_start = schedule_delta_timer b
step b timer_fire = delta_timer_fires b
step b (starting valid) = start valid b
step b stopping = stop b
step b (host h) = set_host h b

unfoldable pub run : Batcher → List Event → Batcher
run b [] = b
run b (e ∷ es) = run (step b e) es
