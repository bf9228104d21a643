-- ===== src/ReplayGuard/Tests.antt =====
-- A peer that handshaked, started again and is replayed.
use signalk_edge_link.Prelude.{◌≡◌, refl, true, false, some, List, [], ◌∷◌, arith}
use signalk_edge_link.JsSet.{Distinct, has, add}
use signalk_edge_link.ReplayWindow.{create, reset, replay_window_size}
use signalk_edge_link.ReplayGuard.{ReplayGuard, advance_epoch}
use signalk_edge_link.ReplayGuard.Epochs.{
  Arrival, data_number, hello_epoch, numbers, passed, passed-Distinct,
}
use signalk_edge_link.ReplayWindow.Safety.{Reach}
use signalk_edge_link.JsMap
use signalk_edge_link.ReplayGuard.{
  Guards, oldest_guard, evict_guard, get_replay_guard, apply_hello_epoch, mark_peer_handshaked,
  reject_replayed_data_packet, check_data,
}
use signalk_edge_link.ReplayWindow.{accept}

abbrev guard : ReplayGuard
guard = record {
  epoch = 1700000000000;
  window = record { highest = some 9; seen = 7 ∷ 9 ∷ []; size = 1024 };
  last_seen = 5;
  handshaked = true;
}

abbrev arrivals : List Arrival
arrivals =
    data_number 13
    ∷ hello_epoch 1700000000000
    ∷ data_number 12
    ∷ data_number 13
    ∷ hello_epoch 1700000000500
    ∷ data_number 12
    ∷ []

reset-guard : reset guard.window ≡ create replay_window_size
unfolding reset create
reset-guard = refl

reach : Reach 12 (numbers arrivals)
unfolding numbers
reach = ground arith

passed-Distinct_example :
    Distinct (passed true (advance_epoch guard 1700000000500).1 (data_number 12 ∷ arrivals))
passed-Distinct_example =
    passed-Distinct true guard 1700000000500 12 arrivals refl (omega arith) reset-guard
      (ground arith) reach

-- Numbers that go round the half-range order bring the window back to where it was: 0 passes twice.
passed-round :
    passed true
      (advance_epoch guard 1700000000500).1
      (data_number 0 ∷ data_number 0x7fffffff ∷ data_number 0xfffffffe ∷ data_number 0 ∷ [])
    ≡ 0 ∷ 0x7fffffff ∷ 0xfffffffe ∷ 0 ∷ []
unfolding passed advance_epoch check_data accept reset create has add
passed-round = refl

-- Two peers, the second of which was seen last.
abbrev guards : Guards
guards = (1, guard) ∷ (2, record guard { last_seen = 8; handshaked = false }) ∷ []

evict_guard-guards : JsMap.keys (evict_guard guards) ≡ 2 ∷ []
unfolding evict_guard oldest_guard JsMap.delete JsMap.keys
evict_guard-guards = refl

-- A replayed number, and a peer whose address handshaked from another port.
reject_replayed_data_packet-guards :
    ((reject_replayed_data_packet guards true 1 9 20).0 ≡ true)
    × ((reject_replayed_data_packet guards true 2 10 20).0 ≡ true)
    × ((reject_replayed_data_packet (mark_peer_handshaked guards 2 19) true 2 10 20).0 ≡ false)
unfolding reject_replayed_data_packet mark_peer_handshaked get_replay_guard check_data accept
    JsMap.get JsMap.set has
reject_replayed_data_packet-guards = (refl, refl, refl)

apply_hello_epoch-guards :
    ((apply_hello_epoch guards 1 1700000000000 20).0 ≡ false)
    × ((apply_hello_epoch guards 1 1700000000001 20).0 ≡ true)
    × ((apply_hello_epoch guards 1 0 20).0 ≡ false)
unfolding apply_hello_epoch advance_epoch get_replay_guard JsMap.get JsMap.set
apply_hello_epoch-guards = (refl, refl, refl)
