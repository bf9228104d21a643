-- ===== src/Server/Peers.antt =====
-- The ACKs and NAKs of src/transport/pipeline/reliable-server, which change sessions in place.
use signalk_edge_link.Prelude.{
  ℕ, ◌+◌, Bool, true, false, some, List, [], ◌∷◌, ◌≡◌, refl, sym, ap, ◌∙◌, arith, Bool-cases,
  Option-cases, inl, inr, ◌==◌,
}
use signalk_edge_link.Prelude.{length}
use signalk_edge_link.JsMap.{get, set}
use signalk_edge_link.SequenceTracker as Tracker
use signalk_edge_link.SequenceTracker.{
  SequenceTracker, process_sequence, loss_detected, gap_abandoned,
}
use signalk_edge_link.Server.{
  Peer, peer_key, ClientSession, Sessions, Server, output, update_session, epoch_for_peer, ack_sent,
  nak_sent,
}
use signalk_edge_link.Server.Acks.{
  send_ack, ack_duplicate, due_ack, send_acks, send_periodic_acks, send_chunks, send_nak,
  nak_chunks, ack_seq,
}
use signalk_edge_link.Server.Run.{handle_event, handle_events, run_tracker}

-- The peers of the sessions, by their keys.
abbrev pub peers_of : Sessions → List (ℕ × Peer)
peers_of [] = []
peers_of ((k, c) ∷ m) = (k, c.peer) ∷ peers_of m

-- Two states of a server with the same peers.
abbrev pub SamePeers : Server → Server → Type 0
SamePeers s s' = peers_of s'.client_sessions ≡ peers_of s.client_sessions

pub peers_of-set :
    (m : Sessions) (k : ℕ) (c v : ClientSession)
    → get m k ≡ some c
    → v.peer ≡ c.peer
    → peers_of (set m k v) ≡ peers_of m
unfolding get set
peers_of-set [] k c v g p = absurd (ground arith)
peers_of-set ((j, w) ∷ m) k c v g p = elim (Bool-cases (j == k)) [
  | inl e ↦
      let q : w ≡ c = ground arith in
      let r : v.peer ≡ w.peer = p ∙ ap (λ x. x.peer) (sym q) in
      rw e (ap (λ x. (j, x) ∷ peers_of m) r)
  | inr e ↦ rw e (ap (λ x. (j, w.peer) ∷ x) (peers_of-set m k c v (rw e at g) p))
]

-- A change in place that keeps the session's peer.
pub update_session-SamePeers :
    (s : Server) (key : ℕ) (f : ClientSession → ClientSession)
    → ((c : ClientSession) → (f c).peer ≡ c.peer)
    → SamePeers s (update_session s key f)
unfolding update_session
update_session-SamePeers s key f h = elim (Option-cases (get s.client_sessions key)) [
  | inl p ↦ rw (update_session, p) refl
  | inr (c, p) ↦ rw (update_session, p) (peers_of-set s.client_sessions key c (f c) p (h c))
]

send_ack-SamePeers :
    (s : Server) (peer : Peer) (seq now : ℕ) (sent : Bool)
    → SamePeers s (send_ack s peer seq now sent)
unfolding send_ack
send_ack-SamePeers s peer seq now true =
    update_session-SamePeers
      (record (output s (ack_sent peer (epoch_for_peer s (peer_key peer)) seq)) {
        metrics = record s.metrics { acks_sent = s.metrics.acks_sent + 1 };
      })
      (peer_key peer) (λ c. record c { last_ack_seq = some seq; last_ack_sent_at = now })
      (λ c. refl)
send_ack-SamePeers s peer seq now false = refl

pub ack_duplicate-SamePeers :
    (s : Server) (peer : Peer) (now : ℕ) (sent : Bool) → SamePeers s (ack_duplicate s peer now sent)
unfolding ack_duplicate
ack_duplicate-SamePeers s peer now sent =
    elim (Option-cases (get s.client_sessions (peer_key peer))) [
      | inl p ↦ rw (ack_duplicate, p) refl
      | inr (c, p) ↦ elim (Option-cases c.sequence_tracker.expected_seq) [
        | inl q ↦ rw (ack_duplicate, p, q) refl
        | inr (e, q) ↦ rw (ack_duplicate, p, q) (send_ack-SamePeers s peer (ack_seq e) now sent)
      ]
    ]

send_acks-SamePeers :
    (s : Server) (m : Sessions) (now : ℕ) (sends : ℕ → Bool) → SamePeers s (send_acks s m now sends)
unfolding send_acks
send_acks-SamePeers s [] now sends = refl
send_acks-SamePeers s ((key, c) ∷ m) now sends = elim (Option-cases (due_ack s c now)) [
  | inl p ↦ rw (send_acks, p) (send_acks-SamePeers s m now sends)
  | inr (seq, p) ↦
      rw (send_acks, p)
        (send_acks-SamePeers (send_ack s c.peer seq now (sends key)) m now sends
          ∙ send_ack-SamePeers s c.peer seq now (sends key))
]

pub send_periodic_acks-SamePeers :
    (s : Server) (now : ℕ) (sends : ℕ → Bool) → SamePeers s (send_periodic_acks s now sends)
unfolding send_periodic_acks
send_periodic_acks-SamePeers s now sends = send_acks-SamePeers s s.client_sessions now sends

send_chunks-SamePeers :
    (s : Server) (peer : Peer) (chunks : List (List ℕ)) (sends : List ℕ → Bool)
    → SamePeers s (send_chunks s peer chunks sends)
unfolding send_chunks
send_chunks-SamePeers s peer [] sends = refl
send_chunks-SamePeers s peer (chunk ∷ chunks) sends = elim (Bool-cases (sends chunk)) [
  | inl p ↦
      rw (send_chunks, p)
        (send_chunks-SamePeers
          (record (output s (nak_sent peer (epoch_for_peer s (peer_key peer)) chunk)) {
            metrics = record s.metrics { naks_sent = s.metrics.naks_sent + 1 };
          })
          peer chunks sends)
  | inr p ↦ rw (send_chunks, p) (send_chunks-SamePeers s peer chunks sends)
]

handle_event-SamePeers :
    (s : Server) (peer : Peer) (e : Tracker.Event) (sends : List ℕ → Bool)
    → SamePeers s (handle_event s peer e sends)
unfolding handle_event send_nak
handle_event-SamePeers s peer (loss_detected missing) sends =
    send_chunks-SamePeers s peer (nak_chunks (length missing) missing) sends
handle_event-SamePeers s peer (gap_abandoned sequence) sends = refl

handle_events-SamePeers :
    (s : Server) (peer : Peer) (es : List Tracker.Event) (sends : List ℕ → Bool)
    → SamePeers s (handle_events s peer es sends)
unfolding handle_events
handle_events-SamePeers s peer [] sends = refl
handle_events-SamePeers s peer (e ∷ es) sends =
    handle_events-SamePeers (handle_event s peer e sends) peer es sends
    ∙ handle_event-SamePeers s peer e sends

pub run_tracker-SamePeers :
    (s : Server) (key : ℕ) (callback : SequenceTracker → SequenceTracker) (sends : List ℕ → Bool)
    → SamePeers s (run_tracker s key callback sends)
unfolding run_tracker
run_tracker-SamePeers s key callback sends = elim (Option-cases (get s.client_sessions key)) [
  | inl p ↦ rw (run_tracker, p) refl
  | inr (c, p) ↦
      let t : SequenceTracker = callback (record c.sequence_tracker { events = [] }) in
      let f : ClientSession → ClientSession =
        λ c. record c { sequence_tracker = record t { events = [] } } in
      rw (run_tracker, p)
        (handle_events-SamePeers (update_session s key f) c.peer t.events sends
          ∙ update_session-SamePeers s key f (λ c. refl))
]
