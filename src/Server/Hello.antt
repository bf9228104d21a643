-- ===== src/Server/Hello.antt =====
-- HELLO packets: `handleHelloPacket` of src/transport/pipeline/reliable-server/receive.ts, whose tag the
-- parser has verified. The identity in it is left out.
use signalk_edge_link.Prelude.{ℕ, ◌+◌, true, not, Option, none, some, if◌then◌else◌, ltb}
use signalk_edge_link.SequenceTracker.{SequenceTracker}
use signalk_edge_link.SequenceTracker as Tracker
use signalk_edge_link.ReplayGuard.{apply_hello_epoch, mark_peer_handshaked, mark_handshaked_address}
use signalk_edge_link.Server.{
  Peer, peer_key, ClientSession, Server, meta_request_sent, status_request_sent, update_session,
}
use signalk_edge_link.Server.Sessions.{get_or_create_session}
use signalk_edge_link.Server.Acks.{request_once}

-- `HELLO_PAYLOAD_MAX_BYTES`
abbrev pub hello_payload_max_bytes : ℕ
hello_payload_max_bytes = 4096

-- A peer that restarted numbers its packets anew.
unfoldable pub restarted : ClientSession → ClientSession
restarted c = record c {
  sequence_tracker = Tracker.reset c.sequence_tracker;
  loss_base_seq = none;
  loss_highest_seq = none;
  loss_received_count = 0;
  last_loss_expected = 0;
  last_loss_received = 0;
  last_ack_seq = none;
}

-- `parseHelloInfo` of a payload that is a JSON object; an epoch that is missing, not a number or not
-- positive is 0.
unfoldable pub apply_hello : Server → Peer → ℕ → ℕ → Server
apply_hello s peer epoch now =
    let key = peer_key peer in
    let marked = mark_peer_handshaked s.replay_guards key now in
    let (advanced, guards) = apply_hello_epoch marked key epoch now in
    let s' = record s {
      replay_guards = guards;
      handshaked_addresses = mark_handshaked_address s.handshaked_addresses peer.address now;
    } in
    if advanced then update_session s' key restarted else s'

-- `primeSessionRequests`
unfoldable pub prime_session_requests : Server → Peer → Server
prime_session_requests s peer =
    let s' =
      request_once true s peer (λ c. c.meta_requested) (λ c. record c { meta_requested = true })
        meta_request_sent in
    request_once s.request_full_status_on_restart s' peer (λ c. c.status_requested)
      (λ c. record c { status_requested = true }) status_request_sent

abbrev malformed_hello : Server → Server
malformed_hello s = record s {
  metrics = record s.metrics { malformed_packets = s.metrics.malformed_packets + 1 };
}

-- `size` is the payload's length; `info` is `none` for a payload that is no JSON object, and else its
-- epoch.
unfoldable pub handle_hello_packet : Server → Peer → ℕ → Option ℕ → ℕ → Server
handle_hello_packet s peer size info now =
    let (found, s') = get_or_create_session s peer now in
    if not found
    then s'
    else if ltb hello_payload_max_bytes size
    then malformed_hello s'
    else prime_session_requests
        (elim info [ none ↦ s' | some epoch ↦ apply_hello s' peer epoch now ]) peer
