-- ===== src/Server/Sessions.antt =====
-- The session table: src/transport/pipeline/reliable-server/sessions.ts.
use signalk_edge_link.Prelude.{
  ℕ, ◌+◌, Bool, true, false, not, Option, none, some, [], ◌∷◌, ltb, leb, ◌==◌, if◌then◌else◌,
  length,
}
use signalk_edge_link.JsMap
use signalk_edge_link.SequenceTracker.{SequenceTracker, create}
use signalk_edge_link.Server.{
  Peer, peer_key, ClientSession, Sessions, Server, max_client_sessions, max_sessions_per_ip,
  session_idle_ttl,
}

-- The scan for the session whose last packet is the oldest, the first such.
unfoldable pub oldest_session : Option (ℕ × ℕ) → Sessions → Option (ℕ × ℕ)
oldest_session best [] = best
oldest_session none ((k, c) ∷ m) = oldest_session (some (k, c.last_packet_time)) m
oldest_session (some (key, at)) ((k, c) ∷ m) =
    oldest_session
      (if ltb c.last_packet_time at then some (k, c.last_packet_time) else some (key, at)) m

-- The tracker of an evicted session is reset, so that its timers are gone with it.
unfoldable pub evict_oldest_session_if_full : Sessions → Sessions
evict_oldest_session_if_full m =
    if ltb (length m) max_client_sessions
    then m
    else elim (oldest_session none m) [ none ↦ m | some (key, at) ↦ JsMap.delete m key ]

-- The count of the sessions of an address, from `count` on; the loop ends where it reaches the limit.
unfoldable pub ip_session_count : ℕ → ℕ → Sessions → ℕ
ip_session_count address count [] = count
ip_session_count address count ((k, c) ∷ m) =
    let rest = ip_session_count address (count + 1) m in
    let skipped = ip_session_count address count m in
    if not (c.peer.address == address)
    then skipped
    else if leb max_sessions_per_ip (count + 1)
    then count + 1
    else rest

unfoldable pub new_tracker : Server → SequenceTracker
new_tracker s = create (record {
  max_out_of_order = none;
  nak_timeout = some s.nak_timeout;
  max_gap_tracking = none;
  behind_resync_threshold = none;
  max_nak_rounds = some s.max_nak_rounds;
})

unfoldable pub new_session : Server → Peer → ℕ → ClientSession
new_session s peer now = record {
  peer = peer;
  sequence_tracker = new_tracker s;
  last_ack_seq = none;
  last_ack_sent_at = 0;
  has_received_data = false;
  last_packet_time = now;
  loss_base_seq = none;
  loss_highest_seq = none;
  loss_received_count = 0;
  last_loss_expected = 0;
  last_loss_received = 0;
  rate_limit = record { count = 0; window_start = now };
  meta_requested = false;
  status_requested = false;
}

abbrev pub rate_limited : Server → Server
rate_limited s = record s {
  metrics = record s.metrics { rate_limited_packets = s.metrics.rate_limited_packets + 1 };
}

-- `getOrCreateSession` after the eviction: whether there is a session, and the server with it.
unfoldable pub admit_session : Server → Peer → ℕ → Bool × Server
admit_session s peer now =
    if leb max_sessions_per_ip (ip_session_count peer.address 0 s.client_sessions)
    then (false, rate_limited s)
    else (
      true,
      record s {
        client_sessions = JsMap.set s.client_sessions (peer_key peer) (new_session s peer now);
      },
    )

unfoldable pub get_or_create_session : Server → Peer → ℕ → Bool × Server
get_or_create_session s peer now = elim (JsMap.get s.client_sessions (peer_key peer)) [
  | some c ↦ (
    true,
    record s {
      client_sessions =
          JsMap.set s.client_sessions (peer_key peer) (record c { last_packet_time = now });
    },
  )
  | none ↦
      admit_session (record s { client_sessions = evict_oldest_session_if_full s.client_sessions })
        peer now
]

-- `now - session.lastPacketTime > SESSION_IDLE_TTL_MS`
abbrev pub is_idle : ℕ → ℕ → ClientSession → Bool
is_idle now key c = ltb (c.last_packet_time + session_idle_ttl) now

unfoldable pub expire_idle_sessions : Server → ℕ → Server
expire_idle_sessions s now = record s {
  client_sessions =
      JsMap.delete_all s.client_sessions (JsMap.keys_where (is_idle now) s.client_sessions);
}
