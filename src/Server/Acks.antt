-- ===== src/Server/Acks.antt =====
-- ACK and NAK packets: `sendNAK` and `sendPeriodicACKs` of
-- src/transport/pipeline/reliable-server/sessions.ts and `ackDuplicate` of data-handler.ts beside it.
-- Whether the socket takes a packet is an argument.
use signalk_edge_link.Prelude.{
  ℕ, zero, suc, ◌+◌, Bool, false, not, ◌&&◌, Option, none, some, List, [], ◌∷◌, ltb, ◌==◌,
  if◌then◌else◌, length, take, drop,
}
use signalk_edge_link.Serial.{u32, sub32}
use signalk_edge_link.JsMap
use signalk_edge_link.Server.{
  Peer, peer_key, ClientSession, Sessions, Server, Output, ack_sent, nak_sent, output,
  update_session, epoch_for_peer, max_nak_sequences_per_packet,
}

-- `(currentExpected - 1) >>> 0`
abbrev pub ack_seq : ℕ → ℕ
ack_seq expected = sub32 (u32 expected) 1

abbrev remember_ack : ClientSession → ℕ → ℕ → ClientSession
remember_ack c seq now = record c { last_ack_seq = some seq; last_ack_sent_at = now }

-- A sent ACK is remembered at the session and counted.
unfoldable pub send_ack : Server → Peer → ℕ → ℕ → Bool → Server
send_ack s peer seq now sent =
    let key = peer_key peer in
    let logged = output s (ack_sent peer (epoch_for_peer s key) seq) in
    let counted = record logged {
      metrics = record logged.metrics { acks_sent = logged.metrics.acks_sent + 1 };
    } in
    if sent then update_session counted key (λ c. remember_ack c seq now) else s

-- `ackDuplicate`, where the session has an expected sequence.
unfoldable pub ack_duplicate : Server → Peer → ℕ → Bool → Server
ack_duplicate s peer now sent = elim (JsMap.get s.client_sessions (peer_key peer)) [
  | none ↦ s
  | some c ↦ elim c.sequence_tracker.expected_seq [
    | none ↦ s
    | some expected ↦ send_ack s peer (ack_seq expected) now sent
  ]
]

abbrev is_duplicate_ack : ClientSession → ℕ → Bool
is_duplicate_ack c seq = elim c.last_ack_seq [ none ↦ false | some last ↦ seq == last ]

-- The ACK that is due for a session, if any; a clock that went back is within the interval.
unfoldable pub due_ack : Server → ClientSession → ℕ → Option ℕ
due_ack s c now = elim c.sequence_tracker.expected_seq [
  | none ↦ none
  | some expected ↦
      if not c.has_received_data
      then none
      else if is_duplicate_ack c (ack_seq expected)
          && ltb now (c.last_ack_sent_at + s.ack_resend_interval)
      then none
      else some (ack_seq expected)
]

-- The loop of `sendPeriodicACKs`; an ACK changes no other session.
unfoldable pub send_acks : Server → Sessions → ℕ → (ℕ → Bool) → Server
send_acks s [] now sends = s
send_acks s ((key, c) ∷ m) now sends = elim (due_ack s c now) [
  | none ↦ send_acks s m now sends
  | some seq ↦ send_acks (send_ack s c.peer seq now (sends key)) m now sends
]

unfoldable pub send_periodic_acks : Server → ℕ → (ℕ → Bool) → Server
send_periodic_acks s now sends = send_acks s s.client_sessions now sends

-- The slices of `sendNAK`, on fuel: `length missing` is enough (`Chunks.nak_chunks_lem`).
unfoldable pub nak_chunks : ℕ → List ℕ → List (List ℕ)
nak_chunks zero missing = []
nak_chunks (suc n) [] = []
nak_chunks (suc n) (m ∷ ms) =
    take max_nak_sequences_per_packet (m ∷ ms)
    ∷ nak_chunks n (drop max_nak_sequences_per_packet (m ∷ ms))

-- A chunk that fails leaves the others to be sent.
unfoldable pub send_chunks : Server → Peer → List (List ℕ) → (List ℕ → Bool) → Server
send_chunks s peer [] sends = s
send_chunks s peer (chunk ∷ chunks) sends =
    let logged = output s (nak_sent peer (epoch_for_peer s (peer_key peer)) chunk) in
    let counted = record logged {
      metrics = record logged.metrics { naks_sent = logged.metrics.naks_sent + 1 };
    } in
    send_chunks (if sends chunk then counted else s) peer chunks sends

unfoldable pub send_nak : Server → Peer → List ℕ → (List ℕ → Bool) → Server
send_nak s peer missing sends = send_chunks s peer (nak_chunks (length missing) missing) sends

-- A request that a session makes once, marked before it is sent: `sendMetaRequest` and
-- `sendFullStatusRequest` with the tests of their callers.
unfoldable pub request_once :
    Bool
    → Server
    → Peer
    → (ClientSession → Bool)
    → (ClientSession → ClientSession)
    → (Peer → ℕ → Output)
    → Server
request_once enabled s peer done mark sent = elim (JsMap.get s.client_sessions (peer_key peer)) [
  | none ↦ s
  | some c ↦
      if enabled && not (done c)
      then update_session (output s (sent peer (epoch_for_peer s (peer_key peer)))) (peer_key peer)
          mark
      else s
]
