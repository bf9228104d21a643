-- ===== src/Server/Data.antt =====
-- DATA packets: `handleDataPacket` of src/transport/pipeline/reliable-server/data-handler.ts, in its
-- two parts before and after it waits for the decompression. The decoding of the payload and the
-- deltas' way to Signal K are one output.
use signalk_edge_link.Prelude.{
  ℕ, ◌+◌, Bool, true, false, not, ◌&&◌, ◌||◌, none, some, if◌then◌else◌,
}
use signalk_edge_link.Serial.{u32, is_ahead}
use signalk_edge_link.JsMap
use signalk_edge_link.SequenceTracker.{process_sequence}
use signalk_edge_link.RateLimit.{session_rate_limited, pre_auth_rate_limited}
use signalk_edge_link.ReplayGuard.{
  reject_replayed_data_packet, get_replay_guard, handshaked_peer_address,
}
use signalk_edge_link.Server.{
  Peer, peer_key, ClientSession, Server, status_request_sent, dispatched, output, update_session,
}
use signalk_edge_link.Server.Sessions.{rate_limited, get_or_create_session}
use signalk_edge_link.Server.Acks.{ack_duplicate, request_once}

-- `dataRateLimited`: whether the packet is dropped.
unfoldable pub data_rate_limited : Server → Peer → ℕ → Bool × Server
data_rate_limited s peer now = elim (JsMap.get s.client_sessions (peer_key peer)) [
  | some c ↦
      let (dropped, counter) = session_rate_limited c.rate_limit now in
      let s' = update_session s (peer_key peer) (λ c. record c { rate_limit = counter }) in
      (dropped, if dropped then rate_limited s' else s')
  | none ↦
      let (dropped, counters) = pre_auth_rate_limited s.pre_auth_by_ip peer.address now in
      let s' = record s { pre_auth_by_ip = counters } in
      (dropped, if dropped then rate_limited s' else s')
]

-- The part of `handleDataPacket` before the decryption: the answer is whether the packet goes on.
unfoldable pub data_arrives : Server → Peer → ℕ → Bool × Server
data_arrives s peer now = let (dropped, s') = data_rate_limited s peer now in (not dropped, s')

abbrev pub replayed : Server → Server
replayed s = record s {
  metrics = record s.metrics { replayed_packets = s.metrics.replayed_packets + 1 };
}

abbrev pub duplicated : Server → Server
duplicated s = record s {
  metrics = record s.metrics { duplicate_packets = s.metrics.duplicate_packets + 1 };
}

-- The guard of the peer before the window is asked.
unfoldable pub is_handshaked : Server → Peer → ℕ → Bool
is_handshaked s peer now = (get_replay_guard s.replay_guards (peer_key peer) now).0.handshaked

-- `handshakedPeerAddress` is asked, and refreshed, only for a peer that has not handshaked itself. A
-- packet that is refused for its address is not acknowledged; a replay is.
unfoldable pub reject_replayed : Server → Peer → ℕ → ℕ → Bool → Bool × Server
reject_replayed s peer sequence now sent =
    let own = is_handshaked s peer now in
    let (known, addresses) = handshaked_peer_address s.handshaked_addresses peer.address now in
    let (rejected, guards) =
      reject_replayed_data_packet s.replay_guards known (peer_key peer) sequence now in
    let s' = record s {
      replay_guards = guards;
      handshaked_addresses = if own then s.handshaked_addresses else addresses;
    } in
    if not rejected
    then (false, s')
    else if not own && known
    then (true, replayed s')
    else (true, ack_duplicate (replayed s') peer now sent)

-- `updateLossWindow`
unfoldable pub update_loss_window : ClientSession → ℕ → Bool → ClientSession
update_loss_window c data_seq resynced = elim c.loss_base_seq [
  | none ↦ record c {
    loss_base_seq = some data_seq;
    loss_highest_seq = some data_seq;
    loss_received_count = 1;
    last_loss_expected = 0;
    last_loss_received = 0;
  }
  | some base ↦
      if resynced
      then record c {
        loss_base_seq = some data_seq;
        loss_highest_seq = some data_seq;
        loss_received_count = 1;
        last_loss_expected = 0;
        last_loss_received = 0;
      }
      else record c {
        loss_received_count = c.loss_received_count + 1;
        loss_highest_seq =
            if is_ahead data_seq (elim c.loss_highest_seq [ none ↦ 0 | some h ↦ h ])
            then some data_seq
            else c.loss_highest_seq;
      }
]

-- The bookkeeping of an accepted packet at its session.
unfoldable pub accept_data : Server → Peer → ℕ → Bool → Server
accept_data s peer sequence resynced =
    let key = peer_key peer in
    let counted = record s {
      metrics = record s.metrics { data_packets_received = s.metrics.data_packets_received + 1 };
    } in
    let asked =
      request_once s.request_full_status_on_restart counted peer (λ c. c.status_requested)
        (λ c. record c { status_requested = true }) status_request_sent in
    update_session asked key
      (λ c. update_loss_window (record c { has_received_data = true }) (u32 sequence) resynced)

-- `processSequence` at the session's tracker, and `rejectAlreadySeenPacket`.
unfoldable pub track_session : Server → Peer → ℕ → ℕ → Bool → ClientSession → Bool × Server
track_session s peer sequence now sent c =
    let (result, tracker) = process_sequence c.sequence_tracker sequence in
    let s' = update_session s (peer_key peer) (λ c. record c { sequence_tracker = tracker }) in
    if result.duplicate || result.late_arrival
    then (false, ack_duplicate (duplicated s') peer now sent)
    else (true, accept_data s' peer sequence result.resynced)

-- `trackDataSequence`: whether the payload is processed.
unfoldable pub track_data_sequence : Server → Peer → ℕ → ℕ → Bool → Bool × Server
track_data_sequence s peer sequence now sent =
    let (rejected, s') = reject_replayed s peer sequence now sent in
    if rejected then (false, s') else elim (JsMap.get s'.client_sessions (peer_key peer)) [
      | none ↦ (false, s')
      | some c ↦ track_session s' peer sequence now sent c
    ]

-- The part of `handleDataPacket` after the decompression; `existing` is whether there was a session
-- before it.
unfoldable pub data_opened : Server → Peer → ℕ → Bool → ℕ → Bool → Server
data_opened s peer sequence existing now sent =
    let (found, s1) = get_or_create_session s peer now in
    let s2 =
      if existing
      then s1
      else update_session s1 (peer_key peer)
          (λ c. record c { rate_limit = record { count = 1; window_start = now } }) in
    let (fresh, s3) = track_data_sequence s2 peer sequence now sent in
    if not found then s1 else if fresh then output s3 (dispatched (peer_key peer) sequence) else s3
