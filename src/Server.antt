-- ===== src/Server.antt =====
-- The receiving side of the reliable pipeline, src/transport/pipeline/reliable-server: its state
-- (`ServerContext` and `ClientSession` of context.ts). The children hold its handlers. A text is a
-- number that stands for it; `now` is `Date.now()`; what is sent and dispatched is logged in `outputs`.
pub mod Sessions
pub mod Acks
pub mod Data
pub mod Hello
pub mod Run
pub mod Peers
mod PeerPackets
pub mod Table
pub mod Steps
pub mod Chunks
pub mod Gate
mod Tests
use signalk_edge_link.Prelude.{
  ℕ, ◌+◌, ◌*◌, Bool, true, false, Option, none, some, List, [], ◌∷◌, ◌++◌, length,
}
use signalk_edge_link.JsMap
use signalk_edge_link.SequenceTracker.{SequenceTracker}
use signalk_edge_link.RateLimit.{Counter, Counters}
use signalk_edge_link.ReplayGuard.{Guards}

-- `rinfo`
pub record Peer : Type 0 where
  pub address : ℕ
  pub port : ℕ

-- `${address}:${port}`; a port is below 2 ^ 16.
abbrev pub peer_key : Peer → ℕ
peer_key p = p.address * 65536 + p.port

-- The identity from the HELLO, the metadata windows and the dedup cache of a session are left out.
pub record ClientSession : Type 0 where
  pub peer : Peer
  pub sequence_tracker : SequenceTracker
  pub last_ack_seq : Option ℕ
  pub last_ack_sent_at : ℕ
  pub has_received_data : Bool
  pub last_packet_time : ℕ
  pub loss_base_seq : Option ℕ
  pub loss_highest_seq : Option ℕ
  pub loss_received_count : ℕ
  pub last_loss_expected : ℕ
  pub last_loss_received : ℕ
  pub rate_limit : Counter
  pub meta_requested : Bool
  pub status_requested : Bool

abbrev pub Sessions : Type 0
Sessions = List (ℕ × ClientSession)

-- Control packets with the epoch that they are bound to, and payloads handed on to Signal K.
pub data Output : Type 0 where
  ack_sent : Peer → ℕ → ℕ → Output
  nak_sent : Peer → ℕ → List ℕ → Output
  meta_request_sent : Peer → ℕ → Output
  status_request_sent : Peer → ℕ → Output
  dispatched : ℕ → ℕ → Output

pub record Metrics : Type 0 where
  pub rate_limited_packets : ℕ
  pub malformed_packets : ℕ
  pub replayed_packets : ℕ
  pub duplicate_packets : ℕ
  pub data_packets_received : ℕ
  pub acks_sent : ℕ
  pub naks_sent : ℕ
  pub abandoned_sequences : ℕ

pub record Server : Type 0 where
  pub client_sessions : Sessions
  pub pre_auth_by_ip : Counters
  pub replay_guards : Guards
  pub handshaked_addresses : List (ℕ × ℕ)
  pub nak_timeout : ℕ
  pub max_nak_rounds : ℕ
  pub ack_resend_interval : ℕ
  pub request_full_status_on_restart : Bool
  pub metrics : Metrics
  pub outputs : List Output

-- `MAX_CLIENT_SESSIONS`, `MAX_SESSIONS_PER_IP`, `SESSION_IDLE_TTL_MS`, `MAX_NAK_SEQUENCES_PER_PACKET`
abbrev pub max_client_sessions : ℕ
max_client_sessions = 100

abbrev pub max_sessions_per_ip : ℕ
max_sessions_per_ip = 5

abbrev pub session_idle_ttl : ℕ
session_idle_ttl = 300000

abbrev pub max_nak_sequences_per_packet : ℕ
max_nak_sequences_per_packet = 256

abbrev pub output : Server → Output → Server
output s o = record s { outputs = s.outputs ++ (o ∷ []) }

-- A session is changed in place, where it is in the table.
unfoldable pub update_session : Server → ℕ → (ClientSession → ClientSession) → Server
update_session s key f = elim (JsMap.get s.client_sessions key) [
  | none ↦ s
  | some c ↦ record s { client_sessions = JsMap.set s.client_sessions key (f c) }
]

-- The epoch that `bindBuilderEpochForPeer` puts into the packet builder.
unfoldable pub epoch_for_peer : Server → ℕ → ℕ
epoch_for_peer s key = elim (JsMap.get s.replay_guards key) [ none ↦ 0 | some g ↦ g.epoch ]
