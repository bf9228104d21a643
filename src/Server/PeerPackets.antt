-- ===== src/Server/PeerPackets.antt =====
-- The handlers of packets of src/transport/pipeline/reliable-server, which change sessions in place.
use signalk_edge_link.Prelude.{
  ℕ, ◌+◌, Bool, true, not, ◌&&◌, ◌||◌, ◌≡◌, refl, ◌∙◌, Bool-cases, Option-cases, inl, inr,
  if◌then◌else◌,
}
use signalk_edge_link.Serial.{u32}
use signalk_edge_link.JsMap.{get}
use signalk_edge_link.SequenceTracker as Tracker
use signalk_edge_link.SequenceTracker.{
  SequenceTracker, process_sequence, loss_detected, gap_abandoned,
}
use signalk_edge_link.RateLimit.{session_rate_limited, pre_auth_rate_limited}
use signalk_edge_link.ReplayGuard.{
  reject_replayed_data_packet, Guards, Addresses, handshaked_peer_address, apply_hello_epoch,
  mark_peer_handshaked, mark_handshaked_address,
}
use signalk_edge_link.Server.{
  Peer, peer_key, ClientSession, Server, Output, output, update_session, epoch_for_peer,
  meta_request_sent, status_request_sent,
}
use signalk_edge_link.Server.Acks.{request_once}
use signalk_edge_link.Server.Data.{
  data_rate_limited, data_arrives, reject_replayed, accept_data, track_session, track_data_sequence,
  update_loss_window, is_handshaked, replayed, duplicated,
}
use signalk_edge_link.Server.Hello.{restarted, apply_hello, prime_session_requests}
use signalk_edge_link.Server.Peers.{SamePeers, update_session-SamePeers, ack_duplicate-SamePeers}

pub data_arrives-SamePeers :
    (s : Server) (peer : Peer) (now : ℕ) → SamePeers s (data_arrives s peer now).1
unfolding data_arrives data_rate_limited
data_arrives-SamePeers s peer now = elim (Option-cases (get s.client_sessions (peer_key peer))) [
  | inl p ↦ elim (Bool-cases (pre_auth_rate_limited s.pre_auth_by_ip peer.address now).0) [
    | inl q ↦ rw (data_rate_limited, p, q) refl
    | inr q ↦ rw (data_rate_limited, p, q) refl
  ]
  | inr (c, p) ↦
      let u =
        update_session-SamePeers s (peer_key peer)
          (λ d. record d { rate_limit = (session_rate_limited c.rate_limit now).1 }) (λ d. refl) in
      elim (Bool-cases (session_rate_limited c.rate_limit now).0) [
        | inl q ↦ rw (data_rate_limited, p, q) u
        | inr q ↦ rw (data_rate_limited, p, q) u
      ]
]

reject_replayed-SamePeers :
    (s : Server) (peer : Peer) (sequence now : ℕ) (sent : Bool)
    → SamePeers s (reject_replayed s peer sequence now sent).1
unfolding reject_replayed
reject_replayed-SamePeers s peer sequence now sent =
    let known : Bool × Addresses =
      handshaked_peer_address s.handshaked_addresses peer.address now in
    let own : Bool = is_handshaked s peer now in
    let answer : Bool × Guards =
      reject_replayed_data_packet s.replay_guards known.0 (peer_key peer) sequence now in
    let s' : Server = record s {
      replay_guards = answer.1;
      handshaked_addresses = if own then s.handshaked_addresses else known.1;
    } in
    elim (Bool-cases answer.0) [
      | inl p ↦ elim (Bool-cases (not own && known.0)) [
        | inl q ↦ rw (reject_replayed, p, q) refl
        | inr q ↦ rw (reject_replayed, p, q) (ack_duplicate-SamePeers (replayed s') peer now sent)
      ]
      | inr p ↦ rw (reject_replayed, p) refl
    ]

request_once-SamePeers :
    (enabled : Bool) (s : Server) (peer : Peer) (done : ClientSession → Bool)
    (mark : ClientSession → ClientSession) (sent : Peer → ℕ → Output)
    → ((c : ClientSession) → (mark c).peer ≡ c.peer)
    → SamePeers s (request_once enabled s peer done mark sent)
unfolding request_once
request_once-SamePeers enabled s peer done mark sent h =
    let key : ℕ = peer_key peer in
    elim (Option-cases (get s.client_sessions key)) [
      | inl p ↦ rw (request_once, p) refl
      | inr (c, p) ↦ elim (Bool-cases (enabled && not (done c))) [
        | inl q ↦
            rw (request_once, p, q)
              (update_session-SamePeers (output s (sent peer (epoch_for_peer s key))) key mark h)
        | inr q ↦ rw (request_once, p, q) refl
      ]
    ]

update_loss_window-peer :
    (c : ClientSession) (seq : ℕ) (resynced : Bool)
    → (update_loss_window c seq resynced).peer ≡ c.peer
unfolding update_loss_window
update_loss_window-peer c seq resynced = elim (Option-cases c.loss_base_seq) [
  | inl p ↦ rw (update_loss_window, p) refl
  | inr (b, p) ↦ elim (Bool-cases resynced) [
    | inl q ↦ rw (update_loss_window, p, q) refl
    | inr q ↦ rw (update_loss_window, p, q) refl
  ]
]

accept_data-SamePeers :
    (s : Server) (peer : Peer) (sequence : ℕ) (resynced : Bool)
    → SamePeers s (accept_data s peer sequence resynced)
unfolding accept_data
accept_data-SamePeers s peer sequence resynced =
    let counted : Server = record s {
      metrics = record s.metrics { data_packets_received = s.metrics.data_packets_received + 1 };
    } in
    let asked : Server =
      request_once s.request_full_status_on_restart counted peer (λ c. c.status_requested)
        (λ c. record c { status_requested = true }) status_request_sent in
    update_session-SamePeers asked (peer_key peer)
      (λ c. update_loss_window (record c { has_received_data = true }) (u32 sequence) resynced)
      (λ c. update_loss_window-peer (record c { has_received_data = true }) (u32 sequence) resynced)
    ∙ request_once-SamePeers s.request_full_status_on_restart counted peer (λ c. c.status_requested)
        (λ c. record c { status_requested = true }) status_request_sent (λ c. refl)

track_session-SamePeers :
    (s : Server) (peer : Peer) (sequence now : ℕ) (sent : Bool) (c : ClientSession)
    → SamePeers s (track_session s peer sequence now sent c).1
unfolding track_session
track_session-SamePeers s peer sequence now sent c =
    let answer : Tracker.ProcessSequenceResult × SequenceTracker =
      process_sequence c.sequence_tracker sequence in
    let f : ClientSession → ClientSession = λ c. record c { sequence_tracker = answer.1 } in
    let s' : Server = update_session s (peer_key peer) f in
    let u = update_session-SamePeers s (peer_key peer) f (λ c. refl) in
    elim (Bool-cases (answer.0.duplicate || answer.0.late_arrival)) [
      | inl p ↦ rw (track_session, p) (ack_duplicate-SamePeers (duplicated s') peer now sent ∙ u)
      | inr p ↦ rw (track_session, p) (accept_data-SamePeers s' peer sequence answer.0.resynced ∙ u)
    ]

pub track_data_sequence-SamePeers :
    (s : Server) (peer : Peer) (sequence now : ℕ) (sent : Bool)
    → SamePeers s (track_data_sequence s peer sequence now sent).1
unfolding track_data_sequence
track_data_sequence-SamePeers s peer sequence now sent =
    let answer : Bool × Server = reject_replayed s peer sequence now sent in
    let u = reject_replayed-SamePeers s peer sequence now sent in
    elim (Bool-cases answer.0) [
      | inl p ↦ rw (track_data_sequence, p) u
      | inr p ↦ elim (Option-cases (get answer.1.client_sessions (peer_key peer))) [
        | inl q ↦ rw (track_data_sequence, p, q) u
        | inr (c, q) ↦
            rw (track_data_sequence, p, q)
              (track_session-SamePeers answer.1 peer sequence now sent c ∙ u)
      ]
    ]

pub apply_hello-SamePeers :
    (s : Server) (peer : Peer) (epoch now : ℕ) → SamePeers s (apply_hello s peer epoch now)
unfolding apply_hello restarted
apply_hello-SamePeers s peer epoch now =
    let marked : Guards = mark_peer_handshaked s.replay_guards (peer_key peer) now in
    let answer : Bool × Guards = apply_hello_epoch marked (peer_key peer) epoch now in
    let s' : Server = record s {
      replay_guards = answer.1;
      handshaked_addresses = mark_handshaked_address s.handshaked_addresses peer.address now;
    } in
    elim (Bool-cases answer.0) [
      | inl p ↦
          rw (apply_hello, p) (update_session-SamePeers s' (peer_key peer) restarted (λ c. refl))
      | inr p ↦ rw (apply_hello, p) refl
    ]

pub prime_session_requests-SamePeers :
    (s : Server) (peer : Peer) → SamePeers s (prime_session_requests s peer)
unfolding prime_session_requests
prime_session_requests-SamePeers s peer =
    let s' : Server =
      request_once true s peer (λ c. c.meta_requested) (λ c. record c { meta_requested = true })
        meta_request_sent in
    request_once-SamePeers s.request_full_status_on_restart s' peer (λ c. c.status_requested)
      (λ c. record c { status_requested = true }) status_request_sent (λ c. refl)
    ∙ request_once-SamePeers true s peer (λ c. c.meta_requested)
        (λ c. record c { meta_requested = true }) meta_request_sent (λ c. refl)
