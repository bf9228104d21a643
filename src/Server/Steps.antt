-- ===== src/Server/Steps.antt =====
-- The session table over any sequence of what happens at a server
-- (src/transport/pipeline/reliable-server).
use signalk_edge_link.Prelude.{
  ℕ, ◌≡◌, refl, ◌∙◌, Bool, true, false, Option, none, some, List, [], ◌∷◌, ltb, if◌then◌else◌,
  arith, Bool-cases, Option-cases, inl, inr,
}
use signalk_edge_link.JsSet.{has}
use signalk_edge_link.JsMap.{keys}
use signalk_edge_link.Server.{Peer, peer_key, Server, update_session}
use signalk_edge_link.Server.Sessions.{get_or_create_session}
use signalk_edge_link.Server.Acks.{send_periodic_acks}
use signalk_edge_link.Server.Data.{data_arrives, data_opened, track_data_sequence}
use signalk_edge_link.Server.Hello.{apply_hello, handle_hello_packet, hello_payload_max_bytes}
use signalk_edge_link.Server.Run.{
  Input, data_packet, data_payload, hello_packet, nak_timer, nak_flush, ack_tick, idle_tick, step,
  run, fire_armed, flush_armed, run_tracker,
}
use signalk_edge_link.Server.Peers.{
  peers_of, SamePeers, update_session-SamePeers, run_tracker-SamePeers,
  send_periodic_acks-SamePeers,
}
use signalk_edge_link.Server.PeerPackets.{
  data_arrives-SamePeers, track_data_sequence-SamePeers, apply_hello-SamePeers,
  prime_session_requests-SamePeers,
}
use signalk_edge_link.Server.Table.{Table, expire-Table, get_or_create-Table}

-- What changes no peer keeps the table.
keep-Table :
    (s s' : Server)
    → SamePeers s s'
    → Table (peers_of s.client_sessions)
    → Table (peers_of s'.client_sessions)
keep-Table s s' p t = rw p t

seeded : Server → Peer → Bool → ℕ → Server
seeded s peer existing now =
    if existing
    then s
    else update_session s (peer_key peer)
        (λ c. record c { rate_limit = record { count = 1; window_start = now } })

seeded-SamePeers :
    (s : Server) (peer : Peer) (existing : Bool) (now : ℕ)
    → SamePeers s (seeded s peer existing now)
unfolding seeded
seeded-SamePeers s peer true now = refl
seeded-SamePeers s peer false now =
    update_session-SamePeers s (peer_key peer)
      (λ c. record c { rate_limit = record { count = 1; window_start = now } }) (λ c. refl)

data_opened-SamePeers :
    (s : Server) (peer : Peer) (sequence : ℕ) (existing : Bool) (now : ℕ) (sent : Bool)
    → SamePeers (get_or_create_session s peer now).1 (data_opened s peer sequence existing now sent)
unfolding data_opened seeded
data_opened-SamePeers s peer sequence existing now sent =
    let s1 : Bool × Server = get_or_create_session s peer now in
    let s2 : Server = seeded s1.1 peer existing now in
    let answer : Bool × Server = track_data_sequence s2 peer sequence now sent in
    let u =
      track_data_sequence-SamePeers s2 peer sequence now sent
      ∙ seeded-SamePeers s1.1 peer existing now in
    elim (Bool-cases s1.0) [
      | inl p ↦ elim (Bool-cases answer.0) [
        | inl q ↦ rw (data_opened, p, q) u
        | inr q ↦ rw (data_opened, p, q) u
      ]
      | inr p ↦ rw (data_opened, p) refl
    ]

-- What a HELLO's information does, if it has any.
applied : Server → Peer → Option ℕ → ℕ → Server
applied s peer none now = s
applied s peer (some epoch) now = apply_hello s peer epoch now

applied-SamePeers :
    (s : Server) (peer : Peer) (info : Option ℕ) (now : ℕ) → SamePeers s (applied s peer info now)
unfolding applied
applied-SamePeers s peer none now = refl
applied-SamePeers s peer (some epoch) now = apply_hello-SamePeers s peer epoch now

hello-SamePeers :
    (s : Server) (peer : Peer) (size : ℕ) (info : Option ℕ) (now : ℕ)
    → SamePeers (get_or_create_session s peer now).1 (handle_hello_packet s peer size info now)
unfolding handle_hello_packet applied
hello-SamePeers s peer size info now =
    let s1 : Bool × Server = get_or_create_session s peer now in
    elim (Bool-cases s1.0) [
      | inl p ↦ elim (Bool-cases (ltb hello_payload_max_bytes size)) [
        | inl q ↦ rw (handle_hello_packet, p, q) refl
        | inr q ↦ elim (Option-cases info) [
          | inl r ↦ rw (handle_hello_packet, p, q, r) (prime_session_requests-SamePeers s1.1 peer)
          | inr (epoch, r) ↦
              rw (handle_hello_packet, p, q, r)
                (prime_session_requests-SamePeers (apply_hello s1.1 peer epoch now) peer
                  ∙ apply_hello-SamePeers s1.1 peer epoch now)
        ]
      ]
      | inr p ↦ rw (handle_hello_packet, p) refl
    ]

step-Table :
    (s : Server) (i : Input)
    → Table (peers_of s.client_sessions)
    → Table (peers_of (step s i).client_sessions)
unfolding step
step-Table s (data_packet peer now) t =
    keep-Table s (data_arrives s peer now).1 (data_arrives-SamePeers s peer now) t
step-Table s (data_payload peer sequence existing now sent) t =
    keep-Table (get_or_create_session s peer now).1 (data_opened s peer sequence existing now sent)
      (data_opened-SamePeers s peer sequence existing now sent) (get_or_create-Table s peer now t)
step-Table s (hello_packet peer size info now) t =
    keep-Table (get_or_create_session s peer now).1 (handle_hello_packet s peer size info now)
      (hello-SamePeers s peer size info now) (get_or_create-Table s peer now t)
step-Table s (nak_timer key sequence sends) t =
    keep-Table s (run_tracker s key (fire_armed sequence) sends)
      (run_tracker-SamePeers s key (fire_armed sequence) sends) t
step-Table s (nak_flush key sends) t =
    keep-Table s (run_tracker s key flush_armed sends)
      (run_tracker-SamePeers s key flush_armed sends) t
step-Table s (ack_tick now sends) t =
    keep-Table s (send_periodic_acks s now sends) (send_periodic_acks-SamePeers s now sends) t
step-Table s (idle_tick now) t = expire-Table s now t

run-steps :
    (s : Server) (is_ : List Input)
    → Table (peers_of s.client_sessions)
    → Table (peers_of (run s is_).client_sessions)
unfolding run
run-steps s [] t = t
run-steps s (i ∷ is_) t = run-steps (step s i) is_ (step-Table s i t)

-- Whatever packets, HELLOs and timers a server without sessions handles, in whatever order, it has one
-- session for a peer under its key, at most 100 sessions, and at most five for one address.
pub run-Table :
    (s : Server) (is_ : List Input)
    → s.client_sessions ≡ []
    → Table (peers_of (run s is_).client_sessions)
unfolding keys has
run-Table s is_ h =
    run-steps s is_
      (rw h (record { distinct = tt; size = omega arith; fair = λ a. omega arith; keyed = tt }))
