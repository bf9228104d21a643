-- ===== src/Server/Run.antt =====
-- What happens at a server (src/transport/pipeline/reliable-server), in any order: the two parts of DATA
-- packets, HELLO packets, the timers of the trackers and of the ACKs, and the expiry of sessions.
use signalk_edge_link.Prelude.{ℕ, ◌+◌, Bool, Option, none, some, List, [], ◌∷◌, if◌then◌else◌}
use signalk_edge_link.JsSet.{has}
use signalk_edge_link.JsMap
use signalk_edge_link.SequenceTracker.{
  SequenceTracker, loss_detected, gap_abandoned, fire, flush_fires,
}
use signalk_edge_link.SequenceTracker as Tracker
use signalk_edge_link.Server.{Peer, Server, update_session}
use signalk_edge_link.Server.Sessions.{expire_idle_sessions}
use signalk_edge_link.Server.Acks.{send_nak, send_periodic_acks}
use signalk_edge_link.Server.Data.{data_arrives, data_opened}
use signalk_edge_link.Server.Hello.{handle_hello_packet}

-- `onLossDetected` and `onGapAbandoned`
unfoldable pub handle_event : Server → Peer → Tracker.Event → (List ℕ → Bool) → Server
handle_event s peer (loss_detected missing) sends = send_nak s peer missing sends
handle_event s peer (gap_abandoned sequence) sends = record s {
  metrics = record s.metrics { abandoned_sequences = s.metrics.abandoned_sequences + 1 };
}

unfoldable pub handle_events : Server → Peer → List Tracker.Event → (List ℕ → Bool) → Server
handle_events s peer [] sends = s
handle_events s peer (e ∷ es) sends = handle_events (handle_event s peer e sends) peer es sends

-- A callback of the tracker of a session, with what it calls back.
unfoldable pub run_tracker :
    Server → ℕ → (SequenceTracker → SequenceTracker) → (List ℕ → Bool) → Server
run_tracker s key callback sends = elim (JsMap.get s.client_sessions key) [
  | none ↦ s
  | some c ↦
      let t = callback (record c.sequence_tracker { events = [] }) in
      let s' =
        update_session s key (λ c. record c { sequence_tracker = record t { events = [] } }) in
      handle_events s' c.peer t.events sends
]

-- A timer that is not armed does not fire.
abbrev pub fire_armed : ℕ → SequenceTracker → SequenceTracker
fire_armed sequence t = if has t.nak_timers sequence then fire t sequence else t

abbrev pub flush_armed : SequenceTracker → SequenceTracker
flush_armed t = if t.flush_armed then flush_fires t else t

pub data Input : Type 0 where
  data_packet : Peer → ℕ → Input
  data_payload : Peer → ℕ → Bool → ℕ → Bool → Input
  hello_packet : Peer → ℕ → Option ℕ → ℕ → Input
  nak_timer : ℕ → ℕ → (List ℕ → Bool) → Input
  nak_flush : ℕ → (List ℕ → Bool) → Input
  ack_tick : ℕ → (ℕ → Bool) → Input
  idle_tick : ℕ → Input

unfoldable pub step : Server → Input → Server
step s (data_packet peer now) = (data_arrives s peer now).1
step s (data_payload peer sequence existing now sent) =
    data_opened s peer sequence existing now sent
step s (hello_packet peer size info now) = handle_hello_packet s peer size info now
step s (nak_timer key sequence sends) = run_tracker s key (fire_armed sequence) sends
step s (nak_flush key sends) = run_tracker s key flush_armed sends
step s (ack_tick now sends) = send_periodic_acks s now sends
step s (idle_tick now) = expire_idle_sessions s now

unfoldable pub run : Server → List Input → Server
run s [] = s
run s (i ∷ is_) = run (step s i) is_
