-- ===== src/Server/Tests.antt =====
-- A server that two clients talk to.
use signalk_edge_link.Prelude.{
  ℕ, ◌+◌, ◌*◌, ◌≡◌, refl, true, none, some, List, [], ◌∷◌, ◌++◌, All, map, leb,
}
use signalk_edge_link.JsSet.{has, add, delete, keep, delete_all}
use signalk_edge_link.JsMap
use signalk_edge_link.SequenceTracker as Tracker
use signalk_edge_link.SequenceTracker.{
  process_sequence, process_first, process_known, process_new, process_ahead, process_behind,
  cancel_nak, clean_if_large, gap_walk, schedule_nak, cleanup_old_sequences, cleanup_at, fire,
  flush_fires, flush_naks, flush_batch, advance, advance_past, reset, clear_nak_timers,
}
use signalk_edge_link.RateLimit.{session_rate_limited}
use signalk_edge_link.ReplayGuard.{
  get_replay_guard, new_guard, advance_epoch, apply_hello_epoch, mark_peer_handshaked, check_data,
  reject_replayed_data_packet, mark_handshaked_address, oldest_address, handshaked_peer_address,
}
use signalk_edge_link.ReplayWindow as Window
use signalk_edge_link.ReplayWindow.{accept, accept_above}
use signalk_edge_link.Server.{
  Peer, peer_key, Server, ack_sent, nak_sent, meta_request_sent, status_request_sent, dispatched,
  epoch_for_peer, update_session,
}
use signalk_edge_link.Server.Sessions.{
  get_or_create_session, evict_oldest_session_if_full, admit_session, ip_session_count, new_session,
  new_tracker, expire_idle_sessions,
}
use signalk_edge_link.Server.Acks.{
  send_ack, ack_duplicate, due_ack, send_acks, send_periodic_acks, nak_chunks, send_chunks,
  send_nak, request_once,
}
use signalk_edge_link.Server.Data.{
  data_rate_limited, data_arrives, reject_replayed, is_handshaked, update_loss_window, accept_data,
  track_session, track_data_sequence, data_opened,
}
use signalk_edge_link.Server.Hello.{
  apply_hello, restarted, prime_session_requests, handle_hello_packet,
}
use signalk_edge_link.Server.Run.{
  Input, data_packet, data_payload, hello_packet, nak_timer, nak_flush, ack_tick, step, run,
  run_tracker, handle_event, handle_events,
}
use signalk_edge_link.Server.Peers.{peers_of}
use signalk_edge_link.Server.Table.{Table, share, ip_session_count-share}
use signalk_edge_link.Server.Steps.{run-Table}
use signalk_edge_link.Server.Chunks.{concat, Fits, taken, send_nak_lem}
use signalk_edge_link.Server.Gate.{unmetered, Untouched, data_arrives-Untouched}

abbrev server : Server
server = record {
  client_sessions = [];
  pre_auth_by_ip = [];
  replay_guards = [];
  handshaked_addresses = [];
  nak_timeout = 100;
  max_nak_rounds = 5;
  ack_resend_interval = 1000;
  request_full_status_on_restart = true;
  metrics = record {
    rate_limited_packets = 0;
    malformed_packets = 0;
    replayed_packets = 0;
    duplicate_packets = 0;
    data_packets_received = 0;
    acks_sent = 0;
    naks_sent = 0;
    abandoned_sequences = 0;
  };
  outputs = [];
}

abbrev boat : Peer
boat = record { address = 9; port = 4446 }

abbrev key : ℕ
key = 9 * 65536 + 4446

-- A HELLO, three packets with a gap, the NAK for it, the missing packet twice, and an ACK.
abbrev inputs : List Input
inputs =
    hello_packet boat 100 (some 7) 10
    ∷ data_packet boat 20
    ∷ data_payload boat 5 true 21 true
    ∷ data_payload boat 7 true 22 true
    ∷ nak_timer key 6 (λ c. true)
    ∷ nak_flush key (λ c. true)
    ∷ data_payload boat 6 true 23 true
    ∷ data_payload boat 6 true 24 true
    ∷ ack_tick 3000 (λ k. true)
    ∷ []

outputs-run :
    (run server inputs).outputs
    ≡ meta_request_sent boat 7
      ∷ status_request_sent boat 7
      ∷ dispatched key 5
      ∷ dispatched key 7
      ∷ nak_sent boat 7 (6 ∷ [])
      ∷ dispatched key 6
      ∷ ack_sent boat 7 7
      ∷ ack_sent boat 7 7
      ∷ []
unfolding run step handle_hello_packet get_or_create_session evict_oldest_session_if_full
    admit_session ip_session_count new_session new_tracker apply_hello mark_peer_handshaked
    apply_hello_epoch get_replay_guard new_guard advance_epoch Window.create Window.reset
    mark_handshaked_address oldest_address restarted reset clear_nak_timers prime_session_requests
    request_once update_session epoch_for_peer data_arrives data_rate_limited session_rate_limited
    data_opened track_data_sequence reject_replayed is_handshaked handshaked_peer_address
    reject_replayed_data_packet check_data accept accept_above Window.prune_if_needed track_session
    process_sequence process_first process_known process_new process_ahead process_behind cancel_nak
    clean_if_large gap_walk schedule_nak cleanup_old_sequences cleanup_at advance advance_past
    accept_data update_loss_window run_tracker fire flush_fires flush_naks flush_batch handle_event
    handle_events send_nak nak_chunks send_chunks ack_duplicate send_ack send_periodic_acks
    send_acks due_ack JsMap.get JsMap.set JsMap.delete has add delete keep delete_all Tracker.create
outputs-run = refl

-- The session is gone after five minutes.
expire_idle_sessions-run :
    (expire_idle_sessions (handle_hello_packet server boat 100 none 10) 300011).client_sessions ≡ []
unfolding expire_idle_sessions handle_hello_packet get_or_create_session
    evict_oldest_session_if_full admit_session ip_session_count new_session prime_session_requests
    request_once update_session JsMap.get JsMap.set JsMap.delete JsMap.delete_all JsMap.keys_where
expire_idle_sessions-run = refl

run-Table_example : Table (peers_of (run server inputs).client_sessions)
run-Table_example = run-Table server inputs refl

send_nak_lem_example :
    (chunks : List (List ℕ)) × (concat chunks ≡ 0xffffffff ∷ 0 ∷ [])
    × All Fits chunks
    × ((send_nak server boat (0xffffffff ∷ 0 ∷ []) (λ c. true)).outputs
        ≡ []
          ++ map
              (λ c. nak_sent boat (epoch_for_peer server (peer_key boat)) c)
              (taken (λ c. true) chunks))
send_nak_lem_example = send_nak_lem server boat (0xffffffff ∷ 0 ∷ []) (λ c. true)

data_arrives-Untouched_example :
    (unmetered (data_arrives server boat 5).1.client_sessions ≡ [])
    × Untouched server (data_arrives server boat 5).1
data_arrives-Untouched_example = data_arrives-Untouched server boat 5

ip_session_count-share_example :
    leb 5 (ip_session_count 9 0 ((key, new_session server boat 5) ∷ []))
    ≡ leb 5 (0 + share 9 (peers_of ((key, new_session server boat 5) ∷ [])))
ip_session_count-share_example = ip_session_count-share 9 0 ((key, new_session server boat 5) ∷ [])
