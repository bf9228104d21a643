-- ===== src/Bonding/Tests.antt =====
-- Two links, of which the primary falls silent.
use signalk_edge_link.Prelude.{
  ℕ, ◌+◌, ◌≡◌, refl, true, false, List, [], ◌∷◌, ◌++◌, length, take, drop, replicate, ok, arith,
  length-take, length-append,
}
use signalk_edge_link.Bytes.{Bytes, read_u32_be}
use signalk_edge_link.Crypto.{NodeCrypto}
use signalk_edge_link.Crypto.Keys.{normalize_key-ascii}
use signalk_edge_link.JsMap
use signalk_edge_link.CircularBuffer as Buffer
use signalk_edge_link.Bonding.{
  primary_link, backup_link, standby_status, FailoverThresholds, create_link_state, initialize,
  expire_pending_heartbeats, received_of, compute_loss_ratio, maybe_mark_link_down,
  measure_link_health, update_rtt_ema, record_heartbeat_rtt, handle_heartbeat_response,
  should_failover, should_failback, failover, failback, force_failover, check_health, socket_error,
  recreate_link_socket, Input, health_tick, heartbeat, link_error, link_recreated, forced, step,
  run,
}
use signalk_edge_link.Bonding.Calm.{Steady, run-Steady}
use signalk_edge_link.Bonding.Probe.{
  is_hb_probe, build_heartbeat_probe, verify_hb_probe, classify_heartbeat_response, valid_heartbeat,
  classify-build_heartbeat_probe,
}

abbrev thresholds : FailoverThresholds
thresholds = record {
  rtt_threshold = record { num = 500; den = 1 };
  loss_threshold = record { num = 1; den = 10 };
  failback_delay = 30000;
  heartbeat_timeout = 5000;
}

-- The primary fails and comes back, and carries the traffic again once the delay is over.
abbrev answered : ℕ → ℕ → List Input
answered seq now =
    health_tick now
    ∷ heartbeat primary_link seq (now + 20)
    ∷ heartbeat backup_link seq (now + 30)
    ∷ []

abbrev inputs : List Input
inputs =
    answered 0 1000
    ++ (link_error primary_link
        ∷ health_tick 2000
        ∷ link_recreated primary_link true
        ∷ heartbeat primary_link 1 2500
        ∷ heartbeat backup_link 1 2500
        ∷ [])
    ++ answered 2 8000
    ++ answered 3 20000
    ++ answered 4 31999
    ++ answered 5 32001
    ++ answered 6 50000

switches-inputs :
    (run (initialize thresholds 100) inputs).switches
    ≡ (32001, primary_link) ∷ (2000, backup_link) ∷ []
unfolding run step initialize create_link_state check_health measure_link_health
    expire_pending_heartbeats received_of compute_loss_ratio maybe_mark_link_down update_rtt_ema
    record_heartbeat_rtt handle_heartbeat_response should_failover should_failback failover failback
    socket_error recreate_link_socket JsMap.get JsMap.set JsMap.delete Buffer.push Buffer.to_array
    Buffer.length_of
switches-inputs = refl

-- A socket of the active link that is recreated leaves it on standby.
abbrev recreated : List Input
recreated = link_error primary_link ∷ link_recreated primary_link true ∷ []

active-standby :
    ((run (initialize thresholds 100) recreated).primary.status ≡ standby_status)
    × ((run (initialize thresholds 100) recreated).active_link ≡ primary_link)
unfolding run step initialize create_link_state socket_error recreate_link_socket
active-standby = (refl, refl)

forced_twice :
    (run (initialize thresholds 100) (forced 200 ∷ forced 300 ∷ [])).switches
    ≡ (300, primary_link) ∷ (200, backup_link) ∷ []
unfolding run step initialize force_failover failover failback
forced_twice = refl

run-Steady_example : Steady (run (initialize thresholds 100) inputs)
run-Steady_example = run-Steady thresholds 100 inputs (ground arith)

abbrev padded : Bytes → Bytes
padded input = take 32 (input ++ replicate 32 0)

length-padded : (input : Bytes) → length (padded input) ≡ 32
length-padded input =
    omega (arith, length-take 32 (input ++ replicate 32 0), length-append input (replicate 32 0))

-- A stand-in for HMAC-SHA256 that pads or cuts what it is given.
abbrev toy : NodeCrypto
toy = record {
  hmac_sha256 = λ key input. padded (drop 7 input);
  pbkdf2_sha256 = λ passphrase. padded passphrase;
  length-hmac_sha256 = λ key input. length-padded (drop 7 input);
  length-pbkdf2_sha256 = λ passphrase. length-padded passphrase;
}

abbrev shared_key : Bytes
shared_key = replicate 32 0x61

classify-build_heartbeat_probe_example :
    (probe : Bytes) × (build_heartbeat_probe toy 258 shared_key false ≡ ok probe)
    × (is_hb_probe probe ≡ true)
    × (verify_hb_probe toy probe shared_key false ≡ true)
    × (classify_heartbeat_response toy probe shared_key false ≡ ok valid_heartbeat)
    × (read_u32_be probe 7 ≡ 258)
classify-build_heartbeat_probe_example =
    classify-build_heartbeat_probe toy 258 shared_key shared_key false (omega arith) refl
      (normalize_key-ascii toy shared_key refl)
