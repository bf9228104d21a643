-- ===== src/ReplayGuard.antt =====
-- The anti-replay guards of a server: `getReplayGuard`, `applyHelloEpoch` and `markPeerHandshaked` of
-- src/transport/pipeline/reliable-server/context.ts, and `rejectReplayedDataPacket` of data-handler.ts
-- beside it. A peer (`address:port`) is a number that stands for its text. Whether its address is known
-- to have handshaked is an argument, and the ACK that a rejected packet causes is left out.
pub mod Epochs
mod Tests
use signalk_edge_link.Prelude.{
  ℕ, ◌+◌, ◌*◌, Bool, true, false, not, ◌&&◌, ◌||◌, Option, none, some, List, [], ◌∷◌, ltb, leb,
  ◌==◌, if◌then◌else◌, length,
}
use signalk_edge_link.Serial.{u32}
use signalk_edge_link.JsMap
use signalk_edge_link.ReplayWindow.{ReplayWindow, create, reset, accept, replay_window_size}

pub record ReplayGuard : Type 0 where
  pub epoch : ℕ
  pub window : ReplayWindow
  pub last_seen : ℕ
  pub handshaked : Bool

abbrev pub Guards : Type 0
Guards = List (ℕ × ReplayGuard)

-- `MAX_REPLAY_GUARDS`
abbrev max_replay_guards : ℕ
max_replay_guards = 256

unfoldable pub new_guard : ℕ → ReplayGuard
new_guard now = record {
  epoch = 0;
  window = create replay_window_size;
  last_seen = now;
  handshaked = false;
}

-- The scan for the guard that was seen least recently, the first such.
unfoldable pub oldest_guard : Option (ℕ × ℕ) → Guards → Option ℕ
oldest_guard none [] = none
oldest_guard (some (key, at)) [] = some key
oldest_guard none ((k, g) ∷ m) = oldest_guard (some (k, g.last_seen)) m
oldest_guard (some (key, at)) ((k, g) ∷ m) =
    oldest_guard (if ltb g.last_seen at then some (k, g.last_seen) else some (key, at)) m

unfoldable pub evict_guard : Guards → Guards
evict_guard m = elim (oldest_guard none m) [ none ↦ m | some key ↦ JsMap.delete m key ]

-- The guard of a peer, which is made if there is none, and the guards with it.
unfoldable pub get_replay_guard : Guards → ℕ → ℕ → ReplayGuard × Guards
unfolding new_guard
get_replay_guard m peer now = elim (JsMap.get m peer) [
  | some g ↦ let g' : ReplayGuard = record g { last_seen = now } in (g', JsMap.set m peer g')
  | none ↦
      let m' = if leb max_replay_guards (length m) then evict_guard m else m in
      (new_guard now, JsMap.set m' peer (new_guard now))
]

-- A HELLO's epoch at a guard: a higher one starts a new window.
unfoldable pub advance_epoch : ReplayGuard → ℕ → Bool × ReplayGuard
advance_epoch g epoch =
    if ltb g.epoch epoch
    then (true, record g { window = reset g.window; epoch = epoch })
    else (false, g)

-- An epoch that is missing or not positive is 0.
unfoldable pub apply_hello_epoch : Guards → ℕ → ℕ → ℕ → Bool × Guards
apply_hello_epoch m peer epoch now =
    let (g, m') = get_replay_guard m peer now in
    let (advanced, g') = advance_epoch g epoch in
    if epoch == 0 then (false, m) else (advanced, JsMap.set m' peer g')

unfoldable pub mark_peer_handshaked : Guards → ℕ → ℕ → Guards
mark_peer_handshaked m peer now =
    let (g, m') = get_replay_guard m peer now in JsMap.set m' peer (record g { handshaked = true })

-- DATA at a guard: whether it is a replay, and the guard that it leaves.
unfoldable pub check_data : Bool → ReplayGuard → ℕ → Bool × ReplayGuard
check_data known_address g sequence =
    if not g.handshaked && known_address
    then (true, g)
    else (let (fresh, w) = accept g.window (u32 sequence) in
        (not (fresh || g.epoch == 0), record g { window = w }))

unfoldable pub reject_replayed_data_packet : Guards → Bool → ℕ → ℕ → ℕ → Bool × Guards
reject_replayed_data_packet m known_address peer sequence now =
    let (g, m') = get_replay_guard m peer now in
    let (rejected, g') = check_data known_address g sequence in (rejected, JsMap.set m' peer g')

-- The addresses that have handshaked, each with the time it was seen last.
abbrev pub Addresses : Type 0
Addresses = List (ℕ × ℕ)

unfoldable pub oldest_address : Option (ℕ × ℕ) → Addresses → Option (ℕ × ℕ)
oldest_address best [] = best
oldest_address none ((k, seen) ∷ m) = oldest_address (some (k, seen)) m
oldest_address (some (key, at)) ((k, seen) ∷ m) =
    oldest_address (if ltb seen at then some (k, seen) else some (key, at)) m

-- `markHandshakedAddress`, which evicts the oldest of as many addresses as there may be guards.
unfoldable pub mark_handshaked_address : Addresses → ℕ → ℕ → Addresses
mark_handshaked_address m address now =
    let m' : Addresses = elim (oldest_address none m) [
      | none ↦ m
      | some (key, at) ↦ JsMap.delete m key
    ] in
    let known : Bool = elim (JsMap.get m address) [ none ↦ false | some seen ↦ true ] in
    JsMap.set (if not known && leb max_replay_guards (length m) then m' else m) address now

-- `handshakedPeerAddress`, which refreshes a known address.
unfoldable pub handshaked_peer_address : Addresses → ℕ → ℕ → Bool × Addresses
handshaked_peer_address m address now = elim (JsMap.get m address) [
  | none ↦ (false, m)
  | some seen ↦ (true, JsMap.set m address now)
]
