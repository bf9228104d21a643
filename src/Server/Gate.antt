-- ===== src/Server/Gate.antt =====
-- What a DATA packet can do before and after its payload is known to be authentic
-- (src/transport/pipeline/reliable-server/data-handler.ts).
use signalk_edge_link.Prelude.{
  ℕ, ◌≡◌, refl, ap, some, [], ◌∷◌, arith, Bool-cases, Option-cases, inl, inr, ◌==◌,
}
use signalk_edge_link.JsMap.{get, set}
use signalk_edge_link.RateLimit.{Counter, session_rate_limited, pre_auth_rate_limited}
use signalk_edge_link.Server.{Peer, peer_key, ClientSession, Sessions, Server, update_session}
use signalk_edge_link.Server.Data.{data_rate_limited, data_arrives}

abbrev no_counter : Counter
no_counter = record { count = 0; window_start = 0 }

-- The sessions without their rate limits.
abbrev pub unmetered : Sessions → Sessions
unmetered [] = []
unmetered ((k, c) ∷ m) = (k, record c { rate_limit = no_counter }) ∷ unmetered m

unmetered-set :
    (m : Sessions) (k : ℕ) (c : ClientSession) (r : Counter)
    → get m k ≡ some c
    → unmetered (set m k (record c { rate_limit = r })) ≡ unmetered m
unfolding get set
unmetered-set [] k c r g = absurd (ground arith)
unmetered-set ((j, w) ∷ m) k c r g = elim (Bool-cases (j == k)) [
  | inl e ↦
      let q : c ≡ w = ground arith in
      rw e (ap (λ x. (j, record x { rate_limit = no_counter }) ∷ unmetered m) q)
  | inr e ↦
      rw e (
        ap (λ x. (j, record w { rate_limit = no_counter }) ∷ x) (unmetered-set m k c r (rw e at g)))
]

update-unmetered :
    (s : Server) (k : ℕ) (r : Counter)
    → unmetered (update_session s k (λ d. record d { rate_limit = r })).client_sessions
      ≡ unmetered s.client_sessions
unfolding update_session
update-unmetered s k r = elim (Option-cases (get s.client_sessions k)) [
  | inl p ↦ rw (update_session, p) refl
  | inr (c, p) ↦ rw (update_session, p) (unmetered-set s.client_sessions k c r p)
]

-- What the rest of a server is, apart from its sessions, limiters and metrics.
abbrev pub Untouched : Server → Server → Type 0
Untouched s s' =
    (s'.outputs ≡ s.outputs)
    × (s'.replay_guards ≡ s.replay_guards)
    × (s'.handshaked_addresses ≡ s.handshaked_addresses)

update-Untouched :
    (s : Server) (k : ℕ) (f : ClientSession → ClientSession) → Untouched s (update_session s k f)
unfolding update_session
update-Untouched s k f = elim (Option-cases (get s.client_sessions k)) [
  | inl p ↦ rw (update_session, p) (refl, refl, refl)
  | inr (c, p) ↦ rw (update_session, p) (refl, refl, refl)
]

-- A DATA packet that is not decrypted, or fails to be, creates no session and changes nothing in any
-- session but a rate limit; it sends and dispatches nothing, and leaves the replay guards and the known
-- addresses as they are.
pub data_arrives-Untouched :
    (s : Server) (peer : Peer) (now : ℕ)
    → (unmetered (data_arrives s peer now).1.client_sessions ≡ unmetered s.client_sessions)
      × Untouched s (data_arrives s peer now).1
unfolding data_arrives data_rate_limited
data_arrives-Untouched s peer now = elim (Option-cases (get s.client_sessions (peer_key peer))) [
  | inl p ↦ elim (Bool-cases (pre_auth_rate_limited s.pre_auth_by_ip peer.address now).0) [
    | inl q ↦ rw (data_rate_limited, p, q) (refl, (refl, refl, refl))
    | inr q ↦ rw (data_rate_limited, p, q) (refl, (refl, refl, refl))
  ]
  | inr (c, p) ↦
      let r : Counter = (session_rate_limited c.rate_limit now).1 in
      let u = update-unmetered s (peer_key peer) r in
      let v = update-Untouched s (peer_key peer) (λ d. record d { rate_limit = r }) in
      elim (Bool-cases (session_rate_limited c.rate_limit now).0) [
        | inl q ↦ rw (data_rate_limited, p, q) (u, v)
        | inr q ↦ rw (data_rate_limited, p, q) (u, v)
      ]
]
